-- ===== src/Server/Methods.antt =====
-- packages/core/src/ipc/core-server.ts: the methods of the protocol. `now` is what `Date.now()`
-- returns to the call.
use agent_town.Prelude.{
  ℕ, ◌+◌, String, Bool, true, false, not, Option, none, some, List, [], ◌∷◌, ◌==◌, string_eq,
  nat_eq, if◌then◌else◌, includes,
}
use agent_town.Prelude.Table.{Table, lookup, insert}
use agent_town.Contract.Value.{Value, bool, num, str, obj, arr, Fields, end, field, get_field}
use agent_town.Contract.Task.{state_eq}
use agent_town.Contract.Ipc.{IpcRequest, live_only_after_sequence}
use agent_town.Result.{Result, ok, err, ◌>>=◌, ◌>>◌, guard, request_error}
use agent_town.Orchestrator.Payload.{◌⧺◌}
use agent_town.Storage.Transaction.{Store, get_latest_event_sequence}
use agent_town.Storage.Tasks.{list_tasks}
use agent_town.Storage.Companies.{get_only_company_status}
use agent_town.Leases.{heartbeat as renew_lease}
use agent_town.Server.Encode.{array_of, task_value, status_value}
use agent_town.Server.Requests.{required_param, nonnegative_integer, invalid_params, is_mutating}
use agent_town.Server.State.{
  CoreServerOptions, CoreServer, Operation, start, pause_dispatching, stop_dispatching, pause,
  recover_latest, stop, dispatch_action, Work, answered, running as waits_for, connection_of,
  put_connection, store_of,
}
use agent_town.Server.Queries.{company_status, status_snapshot, events_list}

-- value === IPC_PROTOCOL_VERSION
abbrev pub is_version : Option Value → Bool
is_version (some (num n)) = n == 1
is_version _ = false

abbrev pub differs : Option String → String → Bool
differs none id = false
differs (some other) id = not (other == id)

-- #handshake(connection, params) up to its writes: the client id and the place in the journal.
unfoldable pub read_handshake : CoreServerOptions → Fields → Option String → Result (String × ℕ)
unfolding required_param nonnegative_integer guard
read_handshake o params current = do
  guard (is_version (get_field "protocolVersion" params)) (
      request_error "unsupported_protocol"
        ("unsupported protocol version: " ⧺ o.text_of (get_field "protocolVersion" params)))
  client_id ← required_param params "clientId"
  after ← nonnegative_integer (get_field "afterSequence" params) "afterSequence" none
  guard (not (differs current client_id))
      (request_error "already_handshaken" "connection is already assigned to a different client")
  ok (client_id, after)

abbrev pub count_of : String → CoreServer → ℕ
count_of id s = elim (lookup id s.client_connection_counts) [ none ↦ 0 | some n ↦ n ]

-- #handshake(connection, params), from the first write on.
unfoldable pub join_client : ℕ → ℕ → String → ℕ → CoreServer → CoreServer
join_client now k client_id after s =
    let c = connection_of k s in
    let counts : Table String ℕ = elim c.client_id [
      | none ↦ insert client_id (count_of client_id s + 1) s.client_connection_counts
      | some _ ↦ s.client_connection_counts
    ] in
    let place =
      if after == live_only_after_sequence then get_latest_event_sequence (store_of s) else after in
    put_connection k (record c { client_id = some client_id; after_sequence = place })
      (record s { client_connection_counts = counts; leases = renew_lease client_id now s.leases })

unfoldable pub handshake_value : ℕ → Value
handshake_value ttl_ms = obj (
    field "protocolVersion" (num 1) (
      field "coreVersion" (str "0.0.0") (
        field "leaseTtlMs" (num ttl_ms) (
          field "capabilities"
            (obj (field "eventReplay" (bool true) (field "clientLeases" (bool true) end))) end))))

-- #handshake(connection, params)
unfoldable pub handshake :
    CoreServerOptions → ℕ → ℕ → Fields → CoreServer → Result Value × CoreServer
handshake o now k params s = elim (read_handshake o params (connection_of k s).client_id) [
  | err e ↦ (err e, s)
  | ok (client_id, after) ↦
      (ok (handshake_value s.leases.ttl_ms), join_client now k client_id after s)
]

abbrev pub names_other : Option Value → String → Bool
names_other none id = false
names_other (some (str s)) id = not (s == id)
names_other (some _) id = true

-- #heartbeat(connection, params)
unfoldable pub heartbeat : ℕ → ℕ → Fields → CoreServer → Result Value × CoreServer
heartbeat now k params s = elim (connection_of k s).client_id [
  | none ↦ (err (request_error "handshake_required" "client is not handshaken"), s)
  | some id ↦
      if names_other (get_field "clientId" params) id
      then (invalid_params "heartbeat clientId does not match the connection", s)
      else (
        ok (obj (field "renewed" (bool true) end)),
        record s { leases = renew_lease id now s.leases },
      )
]

abbrev pub cannot_start : List String
cannot_start = "pausing" ∷ "stopping" ∷ "starting" ∷ "blocked" ∷ []

-- "company.start"
unfoldable pub company_start : Option String → Work
company_start none = waits_for start
company_start (some status) =
    if status == "paused"
    then answered
        (err (request_error "invalid_lifecycle_state" "company is paused; use company.resume"))
    else if status == "running"
    then answered (ok (status_value "running"))
    else if includes cannot_start status
    then answered
        (err (request_error "invalid_lifecycle_state" ("company cannot start while " ⧺ status)))
    else waits_for start

-- "action.dispatch"
unfoldable pub action_dispatch : CoreServerOptions → Fields → Work
action_dispatch o params = elim (o.parse_action_proposal (get_field "action" params)) [
  | ok action ↦ waits_for (dispatch_action action)
  | err e ↦ answered (err (request_error "invalid_action" (o.error_message e)))
]

-- What a method that reads answers; `none` is another method.
unfoldable pub read_method : CoreServerOptions → Store → IpcRequest → Option (Result Value)
read_method o s r =
    if r.method == "company.status"
    then some (company_status o s (get_field "companyId" r.params))
    else if r.method == "status.snapshot"
    then some (required_param r.params "companyId" >>= status_snapshot s)
    else if r.method == "tasks.list"
    then some (
        required_param r.params "companyId" >>= λ id.
        ok (arr (array_of task_value (list_tasks s id))))
    else if r.method == "events.list"
    then some (events_list s r.params)
    else none

-- The methods that change the company.
unfoldable pub company_method : CoreServerOptions → Store → IpcRequest → Work
company_method o s r =
    if r.method == "company.start"
    then company_start (get_only_company_status s)
    else if r.method == "company.pause"
    then waits_for (if o.has_lifecycle then pause else pause_dispatching)
    else if r.method == "company.resume"
    then waits_for (if o.has_lifecycle then recover_latest else start)
    else if r.method == "company.stop"
    then waits_for (if o.has_lifecycle then stop else stop_dispatching)
    else if r.method == "action.dispatch"
    then action_dispatch o r.params
    else answered (err (request_error "unknown_method" ("unknown IPC method: " ⧺ r.method)))

abbrev pub at_once : Result Value × CoreServer → Work × CoreServer
at_once (r, s) = (answered r, s)

-- History: a mutating request of a client that is dispatched.
unfoldable pub note_execution : ℕ → IpcRequest → CoreServer → CoreServer
note_execution k r s =
    if is_mutating r.method
    then elim (connection_of k s).client_id [
      | none ↦ s
      | some id ↦ record s { executed = (id, r.request_id) ∷ s.executed }
    ]
    else s

abbrev pub dispatch_method : CoreServerOptions → ℕ → ℕ → IpcRequest → CoreServer → Work × CoreServer
dispatch_method o now k r s =
    if r.method == "handshake"
    then at_once (handshake o now k r.params s)
    else if r.method == "client.heartbeat"
    then at_once (heartbeat now k r.params s)
    else elim (read_method o (store_of s) r) [
      | some answer ↦ (answered answer, s)
      | none ↦ (company_method o (store_of s) r, s)
    ]

-- #dispatch(connection, request) up to the call that it waits for. Each request that is dispatched,
-- by whatever way, is noted here.
unfoldable pub dispatch : CoreServerOptions → ℕ → ℕ → IpcRequest → CoreServer → Work × CoreServer
unfolding note_execution
dispatch o now k r s = dispatch_method o now k r (note_execution k r s)

-- What #dispatch answers when the call has returned.
unfoldable pub operation_value : Operation → Value → Value
operation_value start v = status_value "running"
operation_value pause_dispatching v = status_value "pausing"
operation_value stop_dispatching v = status_value "stopping"
operation_value pause v = status_value "paused"
operation_value recover_latest v = obj (field "status" (str "running") (field "decisions" v end))
operation_value stop v = status_value "stopped"
operation_value (dispatch_action _) v = obj (field "dispatched" (bool true) end)

-- The outcome of #dispatch, from the outcome of the call: of recoverLatest the decisions, of the
-- others nothing that is used.
unfoldable pub outcome : Work → Result Value → Result Value
outcome (answered r) _ = r
outcome (waits_for op) (ok v) = ok (operation_value op v)
outcome (waits_for op) (err e) = err e
