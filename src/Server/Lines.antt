-- ===== src/Server/Lines.antt =====
-- packages/core/src/ipc/core-server.ts: a line of a connection, from its text to its response.
-- `at` is what `new Date().toISOString()` returns to the claim of a mutation.
use agent_town.Prelude.{
  ℕ, String, Bool, true, false, not, ◌&&◌, Option, none, some, [], ◌∷◌, ◌++◌, ◌==◌, string_eq,
  nat_eq, if◌then◌else◌,
}
use agent_town.Prelude.Table.{lookup}
use agent_town.Contract.Value.{Value, str, obj, get_field}
use agent_town.Contract.Ipc.{IpcRequest}
use agent_town.Result.{Result, ok, err, external}
use agent_town.Orchestrator.Payload.{◌⧺◌}
use agent_town.Storage.Requests.{Claim, claimed, duplicate, conflict, claim_mutation_request}
use agent_town.Server.Cache.{CachedRequest}
use agent_town.Server.Outbound.{destroy}
use agent_town.Server.Requests.{correlation_id, request_fingerprint, request_key, is_mutating}
use agent_town.Server.State.{
  CoreServerOptions, CoreServer, IpcMessage, request, other, Waiter, connection_of, put_connection,
  on_connection, store_of, with_store,
}
use agent_town.Server.Methods.{is_version}
use agent_town.Server.Replies.{begin, reject_error, replay, send_error, reused}

-- After claimMutationRequest(clientId, requestId, fingerprint). An error is caught where the line
-- was read, and destroys the socket.
unfoldable pub after_claim :
    CoreServerOptions
    → ℕ
    → ℕ
    → IpcRequest
    → String
    → String
    → String
    → Result Claim
    → CoreServer
    → CoreServer
after_claim o now k r client_id key fingerprint (ok claimed) s = begin o now k r key fingerprint s
after_claim o now k r client_id key fingerprint (ok duplicate) s =
    send_error o k r.request_id "replay_unavailable"
      "mutation was already claimed and will not be reexecuted" s
after_claim o now k r client_id key fingerprint (ok conflict) s =
    send_error o k r.request_id "request_id_conflict"
      "request ID was already used for a different mutation" s
after_claim o now k r client_id key fingerprint (err e) s = on_connection k destroy s

-- A mutating request of a client.
unfoldable pub claim_and_begin :
    CoreServerOptions
    → ℕ
    → String
    → ℕ
    → IpcRequest
    → String
    → String
    → String
    → CoreServer
    → CoreServer
claim_and_begin o now at k r client_id key fingerprint s =
    let (claim, store) =
      claim_mutation_request client_id r.request_id fingerprint at (store_of s) in
    after_claim o now k r client_id key fingerprint claim (with_store store s)

-- A request that the server does not remember.
unfoldable pub process_new :
    CoreServerOptions → ℕ → String → ℕ → IpcRequest → String → String → CoreServer → CoreServer
process_new o now at k r key fingerprint s =
    if is_mutating r.method
    then elim (connection_of k s).client_id [
      | none ↦
          send_error o k r.request_id "handshake_required"
            "mutation requires an authenticated client identity" s
      | some client_id ↦ claim_and_begin o now at k r client_id key fingerprint s
    ]
    else begin o now k r key fingerprint s

-- A request that is in flight: it awaits the same response.
unfoldable pub process_pending :
    CoreServerOptions → ℕ → IpcRequest → String → String → String → CoreServer → CoreServer
process_pending o k r key fingerprint other_print s =
    let waiter : Waiter = record { key = key; connection = k; request = r } in
    if other_print == fingerprint
    then put_connection k (record (connection_of k s) { awaiting = true })
        (record s { waiters = s.waiters ++ waiter ∷ [] })
    else send_error o k r.request_id "request_id_conflict"
        "request ID is in flight with different method or params" s

-- A request whose response the cache has.
unfoldable pub process_cached :
    CoreServerOptions → ℕ → ℕ → IpcRequest → String → CachedRequest → CoreServer → CoreServer
process_cached o now k r fingerprint cached s =
    if cached.fingerprint == fingerprint
    then replay o now k r cached.response s
    else send_error o k r.request_id "request_id_conflict" reused s

-- A request that was completed, but whose response is gone.
unfoldable pub process_tombstone :
    CoreServerOptions → ℕ → IpcRequest → String → String → CoreServer → CoreServer
process_tombstone o k r fingerprint buried s =
    if buried == fingerprint
    then send_error o k r.request_id "replay_unavailable"
        "request completed but its response is no longer available" s
    else send_error o k r.request_id "request_id_conflict" reused s

abbrev pub own_client_id : IpcRequest → String
own_client_id r =
    if r.method == "handshake"
    then elim (get_field "clientId" r.params) [ some (str id) ↦ id | _ ↦ "pre-handshake" ]
    else "pre-handshake"

-- The client id that the key of a request is made from.
unfoldable pub request_client_id : IpcRequest → Option String → String
request_client_id r none = own_client_id r
request_client_id r (some id) = id

-- #processLine(connection, line), from the key of the request on.
unfoldable pub process_keyed :
    CoreServerOptions → ℕ → String → ℕ → IpcRequest → String → String → CoreServer → CoreServer
process_keyed o now at k r key fingerprint s = elim (lookup key s.memory.request_cache) [
  | some cached ↦ process_cached o now k r fingerprint cached s
  | none ↦ elim (lookup key s.memory.request_tombstones) [
    | some buried ↦ process_tombstone o k r fingerprint buried s
    | none ↦ elim (lookup key s.pending_requests) [
      | some other_print ↦ process_pending o k r key fingerprint other_print s
      | none ↦ process_new o now at k r key fingerprint s
    ]
  ]
]

abbrev pub is_stranger : Option String → Bool
is_stranger none = true
is_stranger (some _) = false

-- #processLine(connection, line), from a request on.
unfoldable pub process_request :
    CoreServerOptions → ℕ → String → ℕ → IpcRequest → CoreServer → CoreServer
process_request o now at k r s =
    let client_id = (connection_of k s).client_id in
    if is_stranger client_id && not (r.method == "handshake")
    then send_error o k r.request_id "handshake_required" "handshake must be the first request" s
    else process_keyed o now at k r
        (request_key o.encoding (request_client_id r client_id) r.request_id)
        (request_fingerprint o.encoding r) s

-- parseIpcMessage(value)
unfoldable pub parse_ipc_message : CoreServerOptions → Value → Result IpcMessage
parse_ipc_message o value = elim (o.parse_envelope value) [
  | err e ↦ err e
  | ok (version, message) ↦
      if version == 1 then ok message else err (external "unsupported protocol version")
]

-- isRecord(raw) && raw.protocolVersion !== IPC_PROTOCOL_VERSION
unfoldable pub is_foreign : Value → Bool
is_foreign (obj fs) = not (is_version (get_field "protocolVersion" fs))
is_foreign _ = false

abbrev pub version_of : Value → Option Value
version_of (obj fs) = get_field "protocolVersion" fs
version_of _ = none

-- #processLine(connection, line), from the parsed message on.
unfoldable pub process_message :
    CoreServerOptions → ℕ → String → ℕ → String → Result IpcMessage → CoreServer → CoreServer
process_message o now at k request_id (ok (request r)) s = process_request o now at k r s
process_message o now at k request_id (ok (other _)) s =
    send_error o k request_id "invalid_request" "expected an IPC request" s
process_message o now at k request_id (err e) s =
    send_error o k request_id "invalid_request" (o.error_message e) s

-- #processLine(connection, line), from the parsed JSON on.
unfoldable pub process_value : CoreServerOptions → ℕ → String → ℕ → Value → CoreServer → CoreServer
process_value o now at k raw s =
    let (request_id, oversized) = correlation_id raw in
    if oversized
    then if is_foreign raw
      then reject_error o k request_id "invalid_request_id" "requestId exceeds 128 bytes" s
      else send_error o k request_id "invalid_request_id" "requestId exceeds 128 bytes" s
    else if is_foreign raw
    then reject_error o k request_id "unsupported_protocol"
        ("unsupported protocol version: " ⧺ o.text_of (version_of raw)) s
    else process_message o now at k request_id (parse_ipc_message o raw) s

-- #processLine(connection, line)
unfoldable pub process_line : CoreServerOptions → ℕ → String → ℕ → String → CoreServer → CoreServer
process_line o now at k line s = elim (o.json_parse line) [
  | none ↦ send_error o k "invalid-json" "invalid_json" "IPC line is not valid JSON" s
  | some raw ↦ process_value o now at k raw s
]
