-- ===== src/Server/State.antt =====
-- packages/core/src/ipc/core-server.ts: the fields of CoreServer, and the functions that it takes
-- from elsewhere. Sockets are numbered; a connection stays in the table after it is detached, since
-- a request in flight still holds it.
use agent_town.Prelude.{
  ℕ, String, Bool, true, false, Option, none, some, List, [], ◌∷◌, ◌++◌, nat_eq, ltb, length,
  if◌then◌else◌,
}
use agent_town.Prelude.Table.{Table, lookup, insert}
use agent_town.Contract.Value.{Value}
use agent_town.Contract.Task.{ActionProposal}
use agent_town.Contract.Company.{CompanyDefinition}
use agent_town.Contract.Ipc.{IpcRequest, Outbound}
use agent_town.Result.{Error, Result}
use agent_town.Storage.Transaction.{Store}
use agent_town.Leases.{LeaseRegistry}
use agent_town.Server.Cache.{Memory, CacheLimits}
use agent_town.Server.Outbound.{Wire, ClientConnection}
use agent_town.Server.Requests.{Encoding}

-- IpcMessage
pub data IpcMessage : Type 0 where
  request : IpcRequest → IpcMessage
  other : Outbound → IpcMessage

-- CoreServerOptions, and what the server calls outside the program: `parse_envelope` is
-- `envelopeSchema.parse`, with the protocol version that it read; `parse_action_proposal` is the
-- schema of an action; `text_of` is `String(value)`, where `none` is undefined; `error_message` is
-- what an error says; `definition_json` is JSON.stringify of a definition.
pub record CoreServerOptions : Type 0 where
  pub wire : Wire
  pub encoding : Encoding
  pub cache_limits : CacheLimits
  pub max_inbound_queued_bytes : ℕ
  pub max_request_line_bytes : ℕ
  pub has_lifecycle : Bool
  pub json_parse : String → Option Value
  pub parse_envelope : Value → Result (ℕ × IpcMessage)
  pub parse_action_proposal : Option Value → Result ActionProposal
  pub text_of : Option Value → String
  pub error_message : Error → String
  pub definition_json : CompanyDefinition → String

-- The calls of the orchestrator and the lifecycle that #dispatch waits for.
pub data Operation : Type 0 where
  start pause_dispatching stop_dispatching pause recover_latest stop : Operation
  dispatch_action : ActionProposal → Operation

-- What #respond waits for: nothing, or a call.
pub data Work : Type 0 where
  answered : Result Value → Work
  running : Operation → Work

-- A request between #pendingRequests.set and the end of its #processLine.
pub record Flight : Type 0 where
  pub key : String
  pub fingerprint : String
  pub connection : ℕ
  pub request : IpcRequest
  pub work : Work

-- A repeated request that awaits the response of the first.
pub record Waiter : Type 0 where
  pub key : String
  pub connection : ℕ
  pub request : IpcRequest

-- CoreServer. `pending_requests` holds the fingerprints; `executed` is history: the client and the
-- id of every mutating request that #dispatch was called with, also before a restart.
pub record CoreServer : Type 0 where
  pub leases : LeaseRegistry
  pub sockets : Table ℕ ClientConnection
  pub connections : List ℕ
  pub client_connection_counts : Table String ℕ
  pub memory : Memory
  pub pending_requests : Table String String
  pub flights : List Flight
  pub waiters : List Waiter
  pub background_errors : List Error
  pub draining : Bool
  pub executed : List (String × String)

-- The connection that #accept makes.
abbrev pub new_connection : ClientConnection
new_connection = record {
  accepting = true;
  inbound_queued_bytes = 0;
  outbound_queued_bytes = 0;
  event_stream_terminal = false;
  client_id = none;
  buffer = "";
  after_sequence = 0;
  subscribed = false;
  destroyed = false;
  ended = false;
  written = [];
  pending = [];
  chunks = [];
  consuming = none;
  awaiting = false;
}

unfoldable pub connection_of : ℕ → CoreServer → ClientConnection
connection_of k s = elim (lookup k s.sockets) [ none ↦ new_connection | some c ↦ c ]

abbrev pub put_connection : ℕ → ClientConnection → CoreServer → CoreServer
put_connection k c s = record s { sockets = insert k c s.sockets }

abbrev pub on_connection : ℕ → (ClientConnection → ClientConnection) → CoreServer → CoreServer
on_connection k f s = put_connection k (f (connection_of k s)) s

abbrev pub store_of : CoreServer → Store
store_of s = s.leases.store

abbrev pub with_store : Store → CoreServer → CoreServer
with_store store s = record s { leases = record s.leases { store = store } }

-- Array.prototype.shift
abbrev tail : List Error → List Error
tail [] = []
tail (e ∷ es) = es

-- #recordBackgroundError(error): the last 100 are kept.
unfoldable pub record_background_error : Error → CoreServer → CoreServer
record_background_error e s =
    let errors = s.background_errors ++ e ∷ [] in
    record s { background_errors = if ltb 100 (length errors) then tail errors else errors }
