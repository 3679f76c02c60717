-- ===== src/Tests/Server.antt =====
-- The pipe server at concrete inputs. Lines are one letter each: H is a handshake of the client
-- "me", P a request to pause.
use agent_town.Prelude.Weights.{IsUnique, weight}
use agent_town.Prelude.{
  ℕ, String, ◌≡◌, refl, true, false, some, List, [], ◌∷◌, ◌++◌, map, ◌==◌, string_eq, if◌then◌else◌,
  length, arith, ◌≤◌, includes, filter,
}
use agent_town.Contract.Value.{Value, null, num, str, obj, Fields, field, end}
use agent_town.Contract.Ipc.{IpcRequest}
use agent_town.Result.{Result, ok, err, external, guard}
use agent_town.Storage.Journal.{Write, event_inserted, write}
use agent_town.Storage.Journal.Order.{write_all}
use agent_town.Storage.Transaction.{events_after, insert_event, list_events}
use agent_town.Leases.{LeaseRegistry}
use agent_town.Server.Cache.{CachedRequest, CacheLimits, Memory, cache}
use agent_town.Server.Cache.Counted.{IsCounted}
use agent_town.Server.Cache.Bounds.{cache-IsBounded}
use agent_town.Server.Cache.Replay.{Answered, cache-replays}
use agent_town.Server.Outbound.{Wire, error_response, message_bytes, send, queue, write_socket}
use agent_town.Server.Outbound.Bounds.{IsWithinBudget, total}
use agent_town.Server.Traffic.{
  Traffic, answered, rejected, flushed, transmit_all, transmit_all-IsWithinBudget,
}
use agent_town.Server.Events.{start_event_subscription, publish, forward_events, forward_event}
use agent_town.Server.Events.Delivery.{is_streaming, message}
use agent_town.Server.Events.Subscription.{watch, subscription-delivers, rows_since}
use agent_town.Server.State.{CoreServerOptions, CoreServer, new_connection, IpcMessage, request}
use agent_town.Server.Machine.{
  empty_memory, Step, accepted, received, consumed, settled, restarted, steps,
}
use agent_town.Server.Machine.Claims.{IsOnce, IsDistinct}
use agent_town.Server.Machine.Steps.{steps-IsOnce}
use agent_town.Tests.Fixture.{blank, event}
use agent_town.Tests.Storage.{blank-IsJournal}
use agent_town.Prelude.Table.{lookup}
use agent_town.Server.Requests.{request_fingerprint}
use agent_town.Server.Fingerprint.{request_fingerprint-AlikeFields, swapped}
use agent_town.Server.Options.{
  IsUsable, LimitOptions, ServerLimits, check_limits, absent, at_least, check_limits-IsUsable,
  natural,
}

abbrev wire : Wire
wire = record { json_bytes = λ m. 10; max_outbound_queued_bytes = 512 }

abbrev limits : CacheLimits
limits = record { request_cache_size = 1; request_cache_byte_limit = 100 }

abbrev cached : CachedRequest
cached = record { fingerprint = "f"; response = error_response "r" "code" "text"; bytes = 12 }

empty-IsCounted : IsCounted empty_memory
unfolding IsUnique weight includes lookup
empty-IsCounted = record {
  unique = tt;
  counted = refl;
  in_order = λ k c e. ground (arith, e);
  buried_in_order = λ k f e. ground (arith, e);
}

cache-IsBounded_example :
    (n : Memory) × (cache limits "k" cached empty_memory ≡ some n)
    × IsCounted n
    × (n.request_cache_bytes ≤ 100)
    × (length n.completed_request_order ≤ 1)
cache-IsBounded_example = cache-IsBounded limits "k" cached empty_memory empty-IsCounted

cache-replays_example :
    (n : Memory) × (cache limits "k" cached empty_memory ≡ some n) × Answered 100 "k" cached n
cache-replays_example = cache-replays limits "k" cached empty_memory empty-IsCounted (omega arith)

abbrev traffic : List Traffic
traffic =
    answered (error_response "r" "code" "text")
    ∷ flushed
    ∷ rejected (error_response "r" "code" "text")
    ∷ []

new-IsWithinBudget : IsWithinBudget wire new_connection
unfolding total
new-IsWithinBudget = record { counted = refl; within = omega arith }

transmit_all-IsWithinBudget_example : IsWithinBudget wire (transmit_all wire traffic new_connection)
transmit_all-IsWithinBudget_example =
    transmit_all-IsWithinBudget wire traffic new_connection new-IsWithinBudget

abbrev news : List Write
news = event_inserted (event "e1") ∷ event_inserted (event "e2") ∷ []

goes_on :
    is_streaming (watch wire news blank (start_event_subscription wire blank new_connection)) ≡ true
unfolding is_streaming watch start_event_subscription publish rows_since write insert_event includes
    forward_events list_events filter forward_event message_bytes send queue write_socket
goes_on = refl

subscription-delivers_example :
    (watch wire news blank (start_event_subscription wire blank new_connection)).written
    ≡ map message (events_after 0 (write_all news blank).db.events)
subscription-delivers_example =
    subscription-delivers wire news blank new_connection blank-IsJournal goes_on

abbrev handshake_params : Fields
handshake_params =
    field "protocolVersion" (num 1)
      (field "clientId" (str "me") (field "afterSequence" (num 0) end))

abbrev message_of : String → Fields
message_of line = field "requestId" (str line) (field "protocolVersion" (num 1) end)

abbrev hello : IpcRequest
hello = record { request_id = "h"; method = "handshake"; params = handshake_params }

abbrev pause_request : IpcRequest
pause_request = record { request_id = "p"; method = "company.pause"; params = end }

abbrev envelope : Value → Result (ℕ × IpcMessage)
envelope (obj (field k (str s) fs)) = ok (1, request (if s == "H" then hello else pause_request))
envelope v = err (external "no object")

abbrev options : CoreServerOptions
options = record {
  wire = wire;
  encoding = record { scalar = λ v. ""; sha256 = λ s. s };
  cache_limits = limits;
  max_inbound_queued_bytes = 100;
  max_request_line_bytes = 100;
  has_lifecycle = true;
  json_parse = λ line. some (obj (message_of line));
  parse_envelope = envelope;
  parse_action_proposal = λ v. err (external "no action");
  text_of = λ v. "";
  error_message = λ e. "";
  definition_json = λ d. "";
}

abbrev registry : LeaseRegistry
registry = record {
  store = blank;
  ttl_ms = 100;
  had_lease = false;
  pause_triggered = false;
  trigger_in_flight = false;
  waiting = 0;
  calls = 0;
}

abbrev server : CoreServer
server = record {
  leases = registry;
  sockets = [];
  connections = [];
  client_connection_counts = [];
  memory = empty_memory;
  pending_requests = [];
  flights = [];
  waiters = [];
  background_errors = [];
  draining = false;
  executed = [];
}

-- The client says hello and asks for a pause.
abbrev asks : ℕ → List Step
asks k =
    accepted k
    ∷ received k "H\nP\n"
    ∷ consumed 0 "t" k
    ∷ consumed 0 "t" k
    ∷ settled 0 "t" "me\0h" (ok null)
    ∷ consumed 0 "t" k
    ∷ settled 0 "t" "me\0p" (ok null)
    ∷ []

-- It asks twice, with a restart between.
abbrev session : List Step
session = asks 1 ++ restarted ∷ asks 2

server-IsOnce : IsOnce server
unfolding includes IsDistinct
server-IsOnce = record { each_claimed = λ p e. ground (arith, e); distinct = tt }

steps-IsOnce_example : IsOnce (steps options session server)
steps-IsOnce_example = steps-IsOnce options session server server-IsOnce

abbrev asked : Fields → IpcRequest
asked params = record { request_id = "q"; method = "tasks.list"; params = params }

request_fingerprint-AlikeFields_example :
    request_fingerprint options.encoding (asked (field "a" (num 1) (field "b" (num 2) end)))
    ≡ request_fingerprint options.encoding (asked (field "b" (num 2) (field "a" (num 1) end)))
request_fingerprint-AlikeFields_example =
    request_fingerprint-AlikeFields options.encoding
      (asked (field "a" (num 1) (field "b" (num 2) end)))
      (asked (field "b" (num 2) (field "a" (num 1) end))) refl
      (swapped "a" "b" (num 1) (num 2) end refl)

abbrev defaults : LimitOptions
defaults = record {
  lease_sweep_interval_ms = absent;
  request_cache_size = natural 1;
  max_inbound_queued_bytes = absent;
  max_outbound_queued_bytes = natural 512;
  max_request_line_bytes = absent;
  request_cache_byte_limit = natural 100;
}

abbrev default_limits : ServerLimits
default_limits = record {
  lease_sweep_interval_ms = 1000;
  max_inbound_queued_bytes = 1048576;
  max_outbound_queued_bytes = 512;
  max_request_line_bytes = 1048576;
  cache_limits = limits;
}

accepts : check_limits defaults ≡ ok default_limits
unfolding check_limits at_least guard
accepts = refl

check_limits-IsUsable_example : IsUsable default_limits
check_limits-IsUsable_example = check_limits-IsUsable defaults default_limits accepts

-- The client has said hello on the first connection.
abbrev greeted : CoreServer
greeted = record server { sockets = (1, record new_connection { client_id = some "me" }) ∷ [] }
