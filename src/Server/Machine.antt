-- ===== src/Server/Machine.antt =====
-- packages/core/src/ipc/core-server.ts: the server as a machine. A step is one event of a socket or
-- a timer, one turn of #consume, the end of a call that a request waits for, a write of another
-- part of the Core, or a restart of the Core. Byte positions of a text are those of its UTF-8.
pub mod Claims
pub mod Once
pub mod Landing
pub mod Steps
pub mod Accepts
use Prim.Native.String.{len, slice}
use text.Mathlib.Text.{find?}
use agent_town.Prelude.{
  ℕ, ◌+◌, ◌-◌, String, Bool, true, false, not, ◌&&◌, ◌||◌, Option, none, some, List, [], ◌∷◌, ◌++◌,
  filter, find, ltb, ◌==◌, string_eq, nat_eq, if◌then◌else◌,
}
use agent_town.Prelude.Table.{Table, lookup, insert, remove}
use agent_town.Contract.Value.{Value}
use agent_town.Contract.Ipc.{IpcRequest, IpcResponse, response}
use agent_town.Result.{Error, Result, ok, err}
use agent_town.Orchestrator.Payload.{◌⧺◌}
use agent_town.Storage.Schema.{EventRecord}
use agent_town.Storage.Transaction.{Store}
use agent_town.Storage.Requests.{complete_mutation_request}
use agent_town.Storage.Journal.{Write, write}
use agent_town.Leases.{LeaseRegistry, initialize, disconnect, sweep, settle}
use agent_town.Server.Cache.{CachedRequest, Memory, cache}
use agent_town.Server.Outbound.{ClientConnection, stop_reading, destroy, flush, bounded_response}
use agent_town.Server.Events.{publish}
use agent_town.Server.Events.Subscription.{rows_since}
use agent_town.Server.Requests.{is_mutating, respond}
use agent_town.Server.State.{
  CoreServerOptions, CoreServer, Flight, Waiter, new_connection, connection_of, put_connection,
  on_connection, store_of, with_store, record_background_error,
}
use agent_town.Server.Methods.{outcome, count_of}
use agent_town.Server.Lines.{process_line}
use agent_town.Server.Replies.{reject_error, deliver, replay}
use agent_town.Server.Consume.{after_line, receive, consume}

-- The line that awaited a response is processed.
abbrev pub resume : ℕ → CoreServer → CoreServer
resume k s = after_line k (on_connection k (λ c. record c { awaiting = false }) s)

abbrev pub note_failure : Result (Unit {0}) → CoreServer → CoreServer
note_failure (ok _) s = s
note_failure (err e) s = record_background_error e s

-- completeMutationRequest(clientId, requestId), with its error recorded
unfoldable pub complete : String → ℕ → IpcRequest → CoreServer → CoreServer
complete at k r s =
    if is_mutating r.method
    then elim (connection_of k s).client_id [
      | none ↦ s
      | some id ↦
          let (result, store) = complete_mutation_request id r.request_id none at (store_of s) in
          note_failure result (with_store store s)
    ]
    else s

-- this.#cache(cacheKey, { fingerprint, response }). The key and the fingerprint are hexadecimal, so
-- their length is their bytes.
unfoldable pub store_response : CoreServerOptions → Flight → IpcResponse → CoreServer → CoreServer
store_response o f answer s =
    let cached : CachedRequest = record {
      fingerprint = f.fingerprint;
      response = answer;
      bytes = len f.key + len f.fingerprint + o.wire.json_bytes (response answer);
    } in
    elim (cache o.cache_limits f.key cached s.memory) [
      | none ↦ s
      | some memory ↦ record s { memory = memory }
    ]

-- The repeated requests that await the response go on, in their order.
unfoldable pub resume_waiters :
    CoreServerOptions → ℕ → IpcResponse → List Waiter → CoreServer → CoreServer
resume_waiters o now answer [] s = s
resume_waiters o now answer (x ∷ xs) s =
    resume_waiters o now answer xs
      (resume x.connection (replay o now x.connection x.request answer s))

-- #processLine(connection, line), from the response on.
unfoldable pub land :
    CoreServerOptions → ℕ → String → Flight → IpcResponse → CoreServer → CoreServer
land o now at f answer s =
    let landed : CoreServer = record s {
      pending_requests = remove f.key s.pending_requests;
      flights = filter (λ g. not (g.key == f.key)) s.flights;
      waiters = filter (λ x. not (x.key == f.key)) s.waiters;
    } in
    let kept = store_response o f answer (complete at f.connection f.request landed) in
    let sent = resume f.connection (deliver o f.connection f.request answer kept) in
    resume_waiters o now answer (filter (λ x. x.key == f.key) s.waiters) sent

-- What a request in flight waits for has ended.
unfoldable pub settle_request :
    CoreServerOptions → ℕ → String → String → Result Value → CoreServer → CoreServer
settle_request o now at key result s = elim (find (λ f. f.key == key) s.flights) [
  | none ↦ s
  | some f ↦
      let answer =
        bounded_response o.wire
          (respond o.error_message f.request.request_id (outcome f.work result)) in
      land o now at f answer s
]

-- #accept(socket)
unfoldable pub accept : ℕ → CoreServer → CoreServer
accept k s = if s.draining then s else elim (lookup k s.sockets) [
  | some _ ↦ s
  | none ↦ put_connection k new_connection (record s { connections = s.connections ++ k ∷ [] })
]

-- The client's last connection is gone.
abbrev pub leave : String → CoreServer → CoreServer
leave id s = record s {
  client_connection_counts = remove id s.client_connection_counts;
  leases = disconnect id s.leases;
}

-- #detachConnection(connection), for a socket that is closed and so destroyed. `remaining > 0` says
-- that another connection of the client is open.
unfoldable pub detach_connection : ℕ → CoreServer → CoreServer
detach_connection k s =
    let c = connection_of k s in
    let s1 : CoreServer =
      put_connection k (record c { subscribed = false; destroyed = true })
        (record s { connections = filter (λ j. not (j == k)) s.connections }) in
    elim c.client_id [
      | none ↦ s1
      | some id ↦
          if ltb 1 (count_of id s)
          then record s1 {
            client_connection_counts = insert id (count_of id s - 1) s.client_connection_counts;
          }
          else leave id s1
    ]

abbrev pub on_each : (ClientConnection → ClientConnection) → List ℕ → CoreServer → CoreServer
on_each f [] s = s
on_each f (k ∷ ks) s = on_each f ks (on_connection k f s)

-- #ensureTransportClosing()
unfoldable pub ensure_transport_closing : CoreServer → CoreServer
ensure_transport_closing s = on_each stop_reading s.connections (record s { draining = true })

-- #forceTransportClose()
unfoldable pub force_transport_close : CoreServer → CoreServer
force_transport_close s = on_each (λ c. destroy (stop_reading c)) s.connections s

abbrev pub publish_all :
    CoreServerOptions → List EventRecord → Table ℕ ClientConnection → Table ℕ ClientConnection
publish_all o rows [] = []
publish_all o rows ((k, c) ∷ cs) = (k, publish o.wire rows c) ∷ publish_all o rows cs

-- A writing method of CoreStore, called by another part of the Core.
unfoldable pub write_store : CoreServerOptions → Write → CoreServer → CoreServer
write_store o x s =
    let store = (write x (store_of s)).1 in
    with_store store (record s {
      sockets = publish_all o (rows_since (store_of s).published store.published) s.sockets;
    })

abbrev pub empty_memory : Memory
empty_memory = record {
  request_cache = [];
  request_tombstones = [];
  completed_request_order = [];
  request_cache_bytes = 0;
}

-- A new CoreServer and a new LeaseRegistry over the same database, and listen().
unfoldable pub restart : CoreServer → CoreServer
restart s = record s {
  leases = initialize (record s.leases {
    had_lease = false;
    pause_triggered = false;
    trigger_in_flight = false;
    waiting = 0;
  });
  sockets = [];
  connections = [];
  client_connection_counts = [];
  memory = empty_memory;
  pending_requests = [];
  flights = [];
  waiters = [];
  background_errors = [];
  draining = false;
}

pub data Step : Type 0 where
  accepted closed flushed failed : ℕ → Step
  received : ℕ → String → Step
  consumed : (now : ℕ) (at : String) → ℕ → Step
  settled : (now : ℕ) (at key : String) → Result Value → Step
  swept : ℕ → Step
  lease_settled : Bool → Step
  closing forced restarted : Step
  wrote : Write → Step

unfoldable pub step : CoreServerOptions → Step → CoreServer → CoreServer
step o (accepted k) s = accept k s
step o (closed k) s = detach_connection k s
step o (flushed k) s = on_connection k flush s
step o (failed k) s = on_connection k destroy s
step o (received k chunk) s = receive o k chunk s
step o (consumed now at k) s = consume o now at k s
step o (settled now at key result) s = settle_request o now at key result s
step o (swept now) s = record s { leases = sweep now s.leases }
step o (lease_settled succeeded) s = record s { leases = settle succeeded s.leases }
step o closing s = ensure_transport_closing s
step o forced s = force_transport_close s
step o restarted s = restart s
step o (wrote x) s = write_store o x s

unfoldable pub steps : CoreServerOptions → List Step → CoreServer → CoreServer
steps o [] s = s
steps o (x ∷ xs) s = steps o xs (step o x s)
