-- ===== src/Checkpoint/Payload.antt =====
-- packages/core/src/lifecycle/checkpoint-service.ts: the payload of a checkpoint as JSON.
use agent_town.Prelude.{ℕ, String, Option, some, List, [], ◌∷◌, leb, ◌==◌, string_eq, if◌then◌else◌}
use agent_town.Contract.Value.{
  Value, num, str, obj, arr, Items, no_items, item, end, field, get_field, nullable,
}
use agent_town.Contract.Agent.{
  SessionHandle, SessionCheckpoint, CompanyCheckpoint, PauseReason, user_requested,
  last_client_exited, shutdown,
}
use agent_town.Result.{Result, ok, err, ◌>>=◌, ◌>>◌, guard, malformed}
use agent_town.Orchestrator.Payload.{◌⧺◌}
use agent_town.Checkpoint.Text.{read_string, read_nullable_string, read_handoff}

abbrev pub max_safe_integer : ℕ
max_safe_integer = 9007199254740991

unfoldable pub reason_text : PauseReason → String
reason_text user_requested = "user_requested"
reason_text last_client_exited = "last_client_exited"
reason_text shutdown = "shutdown"

unfoldable pub handle_value : SessionHandle → Value
handle_value h = obj (
    field "employeeId" (str h.employee_id) (
      field "adapter" (str h.adapter) (
        field "internalSessionId" (str h.internal_session_id)
          (field "nativeSessionId" (nullable h.native_session_id) end))))

unfoldable pub session_value : SessionCheckpoint → Value
session_value s = obj (
    field "employeeId" (str s.employee_id) (
      field "handle" (handle_value s.handle)
        (field "activeTaskId" (nullable s.active_task_id) (field "handoff" (str s.handoff) end))))

unfoldable pub session_items : List SessionCheckpoint → Items
session_items [] = no_items
session_items (s ∷ ss) = item (session_value s) (session_items ss)

-- The CompanyCheckpoint that #buildCheckpoint returns, as JSON.stringify and JSON.parse give it back.
unfoldable pub checkpoint_value : CompanyCheckpoint → Value
checkpoint_value c = obj (
    field "companyId" (str c.company_id) (
      field "reason" (str (reason_text c.reason)) (
        field "lastEventSequence" (num c.last_event_sequence)
          (field "sessions" (arr (session_items c.sessions)) end))))

-- parseHandle(value)
unfoldable pub parse_handle : Option Value → Result SessionHandle
parse_handle (some (obj fs)) = do
  employee_id ← read_string (get_field "employeeId" fs) "checkpoint handle employeeId"
  adapter ← read_string (get_field "adapter" fs) "checkpoint handle adapter"
  internal_id ← read_string (get_field "internalSessionId" fs) "checkpoint internalSessionId"
  native_id ← read_nullable_string (get_field "nativeSessionId" fs) "checkpoint nativeSessionId"
  ok (record {
    employee_id = employee_id;
    adapter = adapter;
    internal_session_id = internal_id;
    native_session_id = native_id;
  })
parse_handle _ = err (malformed "checkpoint handle must be an object")

-- The function that parseCompanyCheckpoint maps over the sessions.
unfoldable pub parse_session : Value → Result SessionCheckpoint
parse_session (obj fs) = do
  employee_id ← read_string (get_field "employeeId" fs) "checkpoint session employeeId"
  handle ← parse_handle (get_field "handle" fs)
  guard (handle.employee_id == employee_id)
      (malformed ("checkpoint handle employee mismatch: " ⧺ employee_id))
  active ← read_nullable_string (get_field "activeTaskId" fs) "checkpoint activeTaskId"
  text ← read_handoff (get_field "handoff" fs)
  ok (record {
    employee_id = employee_id;
    handle = handle;
    active_task_id = active;
    handoff = text;
  })
parse_session _ = err (malformed "checkpoint session must be an object")

unfoldable pub parse_sessions : Items → Result (List SessionCheckpoint)
parse_sessions no_items = ok []
parse_sessions (item v items) =
    let rest = parse_sessions items in parse_session v >>= λ s. rest >>= λ ss. ok (s ∷ ss)

unfoldable pub parse_reason : Option Value → Result PauseReason
parse_reason (some (str s)) =
    if s == "user_requested"
    then ok user_requested
    else if s == "last_client_exited"
    then ok last_client_exited
    else if s == "shutdown"
    then ok shutdown
    else err (malformed "checkpoint reason is invalid")
parse_reason _ = err (malformed "checkpoint reason is invalid")

unfoldable pub parse_sequence : Option Value → Result ℕ
parse_sequence (some (num n)) =
    if leb n max_safe_integer
    then ok n
    else err (malformed "checkpoint lastEventSequence must be a non-negative integer")
parse_sequence _ = err (malformed "checkpoint lastEventSequence must be a non-negative integer")

unfoldable pub parse_array : Option Value → Result Items
parse_array (some (arr items)) = ok items
parse_array _ = err (malformed "checkpoint sessions must be an array")

-- parseCompanyCheckpoint(value)
unfoldable pub parse_company_checkpoint : Value → Result CompanyCheckpoint
parse_company_checkpoint (obj fs) = do
  reason ← parse_reason (get_field "reason" fs)
  last ← parse_sequence (get_field "lastEventSequence" fs)
  items ← parse_array (get_field "sessions" fs)
  company_id ← read_string (get_field "companyId" fs) "checkpoint companyId"
  sessions ← parse_sessions items
  ok (record {
    company_id = company_id;
    reason = reason;
    last_event_sequence = last;
    sessions = sessions;
  })
parse_company_checkpoint _ = err (malformed "checkpoint payload must be an object")
