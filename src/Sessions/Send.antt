-- ===== src/Sessions/Send.antt =====
-- packages/core/src/agents/session-manager.ts: send, one turn of a conversation with an agent.
use agent_town.Prelude.{
  ℕ, String, true, false, not, Option, none, some, List, [], ◌∷◌, includes, ◌==◌, string_eq, nat_eq,
}
use agent_town.Contract.Value.{Value, null, num, str, obj, Fields, field, end, nullable}
use agent_town.Contract.Task.{ActionType, ActionProposal}
use agent_town.Contract.Company.{EmployeeDefinition}
use agent_town.Contract.Agent.{
  SessionHandle, UsageSnapshot, AgentMessage, AgentEvent, session_started, output_delta,
  output_completed, action_proposed, usage_updated, session_interrupted, session_exited,
  adapter_error,
}
use agent_town.Result.{ok, guard, session_unavailable, message_employee_mismatch}
use agent_town.Exec.{Exec, ◌>>=◌, ◌>>◌, pure, asks, modify, lift}
use agent_town.Storage.Schema.{NewEvent}
use agent_town.Storage.Transaction.{insert_event}
use agent_town.Storage.Sessions.{put_usage_snapshot}
use agent_town.Checkpoint.Payload.{handle_value}
use agent_town.Sessions.{SessionManager, Manager, on_store, is_aborted, random_uuid, new_event, put}
use agent_town.Sessions.Handles.{add_unavailable}
use agent_town.Sessions.Replace.{in_turn}
use agent_town.Sessions.Start.{get}

unfoldable pub count_value : Option ℕ → Value
count_value none = null
count_value (some n) = num n

unfoldable pub action_text : ActionType → String
action_text ActionType.propose = "task.propose"
action_text ActionType.assign = "task.assign"
action_text ActionType.start = "task.start"
action_text ActionType.submit = "task.submit"
action_text ActionType.request_review = "task.request_review"
action_text ActionType.approve = "task.approve"
action_text ActionType.reject = "task.reject"
action_text ActionType.block = "task.block"
action_text ActionType.employee_message = "employee.message"
action_text ActionType.user_approval_request = "user.approval.request"
action_text ActionType.company_complete_request = "company.complete.request"

-- An ActionProposal as JSON
unfoldable pub action_value : ActionProposal → Value
unfolding action_text
action_value a = obj (
    field "actionId" (str a.action_id) (
      field "type" (str (action_text a.type)) (
        field "actorEmployeeId" (str a.actor_employee_id) (
          field "taskId" (nullable a.task_id) (
            field "payload" (obj a.payload) (
              field "reason" (str a.reason)
                (field "causationEventId" (nullable a.causation_event_id) end)))))))

unfoldable pub usage_fields : Option ℕ → Option ℕ → Option ℕ → Fields
usage_fields input output context =
    field "inputTokens" (count_value input)
      (field "outputTokens" (count_value output) (field "contextTokens" (count_value context) end))

-- The type and the payload of the event that #persistAgentEvent and #agentEvent write.
unfoldable pub agent_event : AgentEvent → String × Fields
unfolding action_value usage_fields
agent_event (session_started handle) = ("session.started", field "handle" (handle_value handle) end)
agent_event (output_delta text) = ("output.delta", field "text" (str text) end)
agent_event (output_completed text) = ("output.completed", field "text" (str text) end)
agent_event (action_proposed action) = ("action.proposed", field "action" (action_value action) end)
agent_event (usage_updated input output context) =
    ("usage.updated", usage_fields input output context)
agent_event (session_interrupted reason) = ("session.interrupted", field "reason" (str reason) end)
agent_event (session_exited code) = ("session.exited", field "exitCode" (count_value code) end)
agent_event (adapter_error code message) =
    ("adapter.error", field "code" (str code) (field "message" (str message) end))

abbrev causation_of : AgentMessage → Option String
causation_of message = elim message.action_request [
  | none ↦ none
  | some action ↦ action.causation_event_id
]

abbrev pub usage_snapshot : String → Option ℕ → Option ℕ → Option ℕ → UsageSnapshot
usage_snapshot captured_at input output context = record {
  input_tokens = input;
  output_tokens = output;
  context_tokens = context;
  captured_at = captured_at;
}

abbrev pub usage_event : String → String → AgentMessage → Option ℕ → Option ℕ → Option ℕ → NewEvent
usage_event id employee_id message input output context = record {
  id = id;
  type = "usage.updated";
  actor_id = employee_id;
  task_id = message.task_id;
  causation_event_id = causation_of message;
  payload = usage_fields input output context;
}

module _ (k : SessionManager) where
  abbrev pub event_for : String → AgentMessage → AgentEvent → Exec Manager NewEvent
  event_for employee_id message event =
      let (type, payload) = agent_event event in
      new_event k type employee_id message.task_id payload

  -- this.#unavailableEmployees.add(…); this.store.putSession(…, status, …)
  unfoldable pub end_session :
      String → AgentMessage → SessionHandle → String → AgentEvent → Exec Manager (Unit {0})
  unfolding agent_event
  end_session employee_id message session status event =
      modify (add_unavailable employee_id)
      >> (event_for employee_id message event >>= put k employee_id session status)

  -- #persistAgentEvent
  unfoldable pub log_event : String → AgentMessage → AgentEvent → Exec Manager (Unit {0})
  unfolding agent_event
  log_event employee_id message event = do
    row ← event_for employee_id message event
    on_store (insert_event row)
    pure tt

  -- The branches of the loop of send
  unfoldable pub on_agent_event :
      String → AgentMessage → SessionHandle → AgentEvent → Exec Manager (Unit {0})
  unfolding end_session log_event agent_event
  on_agent_event employee_id message session (usage_updated input output context) = do
    id ← random_uuid k
    now ← asks (λ m. ok m.now)
    on_store (
        put_usage_snapshot k.company_id employee_id
          (usage_snapshot (k.iso now) input output context)
          (usage_event id employee_id message input output context))
  on_agent_event employee_id message session (session_exited code) =
      end_session employee_id message session "exited" (session_exited code)
  on_agent_event employee_id message session (adapter_error code text) =
      end_session employee_id message session "error" (adapter_error code text)
  on_agent_event employee_id message session event = log_event employee_id message event

  -- The loop of send. `consume` is what the caller does with an event that is yielded.
  unfoldable pub send_loop :
      EmployeeDefinition
      → AgentMessage
      → Option ℕ
      → SessionHandle
      → (AgentEvent → Exec Manager (Unit {0}))
      → List (Exec Manager AgentEvent)
      → Exec Manager (Unit {0})
  unfolding on_agent_event
  send_loop employee message signal session consume [] = pure tt
  send_loop employee message signal session consume (next ∷ stream) = do
    event ← next
    aborted ← asks (λ m. ok (is_aborted signal m))
    elim aborted [
      | true ↦ pure tt
      | false ↦ do
        on_agent_event employee.id message session event
        consume event
        send_loop employee message signal session consume stream
    ]

  -- send(employee, message, signal), and the caller that reads its stream to the end
  unfoldable pub send :
      EmployeeDefinition
      → AgentMessage
      → Option ℕ
      → (AgentEvent → Exec Manager (Unit {0}))
      → Exec Manager (Unit {0})
  unfolding send_loop get in_turn
  send employee message signal consume =
      lift
        (guard (message.employee_id == employee.id) (message_employee_mismatch message.employee_id))
      >> in_turn k employee.id (do
        session ← asks (get employee.id)
        unavailable ← asks (λ m. ok (includes m.unavailable employee.id))
        lift (guard (not unavailable) (session_unavailable employee.id))
        send_loop employee message signal session consume
            ((k.adapter_for employee.agent).send session message))
