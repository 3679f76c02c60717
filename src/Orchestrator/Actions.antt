-- ===== src/Orchestrator/Actions.antt =====
-- packages/core/src/company/orchestrator.ts: the handlers of the actions. `dispatch` is the method of
-- that name, which the loops over the agents' events call.
use agent_town.Prelude.{String, true, false, none, some, List, [], ◌∷◌, ◌==◌, string_eq}
use agent_town.Contract.Value.{num, str, arr, field, end, strings, get_field}
use agent_town.Contract.Task.{TaskRecord, ActionProposal, draft, blocked, state_eq}
use agent_town.Contract.Agent.{AgentMessage, AgentEvent, action_proposed}
use agent_town.Result.{ok, guard, no_owner, task_owner_mismatch, task_owner_required}
use agent_town.Exec.{Exec, ◌>>=◌, ◌>>◌, pure, asks, lift, raise}
use agent_town.Tasks.Decide.{is_owned_by}
use agent_town.Tasks.Service.{Method}
use agent_town.Orchestrator.{CompanyOrchestrator, Dispatcher, Sessions, random_uuid}
use agent_town.Orchestrator.Payload.{
  required_task_id, required_string, required_string_array, optional_string_array,
}
use agent_town.Orchestrator.Calls.{
  record_event, record_approval_request, task_call, task_get, employee, start_ready_task,
}
use agent_town.Orchestrator.Review.{request_review}

-- The loop of #routeEmployeeMessage
unfoldable pub message_loop :
    (ActionProposal → Exec Dispatcher (Unit {0}))
    → List (Exec Dispatcher AgentEvent)
    → Exec Dispatcher (Unit {0})
message_loop dispatch [] = pure tt
message_loop dispatch (next ∷ stream) = next >>= λ event. elim event [
  | action_proposed action ↦ dispatch action >> message_loop dispatch stream
  | _ ↦ message_loop dispatch stream
]

abbrev pub routed_message : String → String → String → ActionProposal → AgentMessage
routed_message id recipient_id text action = record {
  message_id = id;
  employee_id = recipient_id;
  task_id = action.task_id;
  text = text;
  action_request = some action;
}

module _ (o : CompanyOrchestrator) where
  -- #createProposedTask
  unfoldable pub create_proposed_task : ActionProposal → Exec Dispatcher TaskRecord
  create_proposed_task action = do
    task_id ← lift (required_task_id action)
    title ← lift (required_string (get_field "title" action.payload) "title")
    objective ← lift (required_string (get_field "objective" action.payload) "objective")
    dependencies ←
        lift (optional_string_array (get_field "dependencies" action.payload) "dependencies")
    criteria ← lift (required_string_array (get_field "acceptanceCriteria" action.payload))
    task_call o (λ id. Method.create id (record {
      id = task_id;
      title = title;
      objective = objective;
      owner_employee_id = none;
      dependencies = dependencies;
      acceptance_criteria = criteria;
      status = draft;
      retry_count = 0;
      review_loop_count = 0;
      artifacts = [];
      evidence = [];
    }))

  -- #assignAndSend
  unfoldable pub assign_and_send : ActionProposal → Exec Dispatcher (Unit {0})
  assign_and_send action = do
    task_id ← lift (required_task_id action)
    assignee ← lift (required_string (get_field "assignee" action.payload) "assignee")
    assigned ← task_call o (λ id. Method.assign id task_id assignee)
    lift (guard (is_owned_by assigned assignee) (task_owner_mismatch task_id))
    start_ready_task o task_id assignee
    pure tt

  -- #rejectAndMaybeRequeue
  unfoldable pub reject_and_maybe_requeue :
      String → String → List String → Exec Dispatcher (Unit {0})
  reject_and_maybe_requeue task_id reviewer_id findings = do
    rejected ← task_call o (λ id. Method.reject id task_id reviewer_id findings)
    elim (rejected.status == blocked) [
      | true ↦
          record_approval_request o (some task_id) o.tasks.leader_id
            "review_rejection_limit_reached"
            (field "findings" (arr (strings findings))
              (field "reviewLoopCount" (num rejected.review_loop_count) end))
      | false ↦ elim rejected.owner_employee_id [
        | none ↦ raise (no_owner task_id)
        | some owner_id ↦ start_ready_task o task_id owner_id >> pure tt
      ]
    ]

  -- The case "task.start" of #applySupportedControlAction
  unfoldable pub start_task : ActionProposal → Exec Dispatcher (Unit {0})
  start_task action = do
    task_id ← lift (required_task_id action)
    t ← task_get o task_id
    elim t.owner_employee_id [
      | none ↦ raise (no_owner t.id)
      | some owner_id ↦
          lift (guard (owner_id == action.actor_employee_id) task_owner_required)
          >> start_ready_task o t.id action.actor_employee_id
          >> pure tt
    ]

module _ (o : CompanyOrchestrator) (x : Sessions) where
  -- requestReview(taskId)
  abbrev pub request_review_now :
      (ActionProposal → Exec Dispatcher (Unit {0})) → String → Exec Dispatcher (Unit {0})
  request_review_now dispatch task_id d =
      request_review o x dispatch task_id d.dispatch_epoch d.dispatch_controller d

  -- #recordSubmissionAndRequestReview
  unfoldable pub record_submission :
      (ActionProposal → Exec Dispatcher (Unit {0})) → ActionProposal → Exec Dispatcher (Unit {0})
  record_submission dispatch action = do
    task_id ← lift (required_task_id action)
    artifacts ← lift (required_string_array (get_field "artifacts" action.payload))
    evidence ← lift (required_string_array (get_field "evidence" action.payload))
    id' ← random_uuid o
    task_call o (λ id. Method.submit id id' task_id action.actor_employee_id artifacts evidence)
    request_review_now dispatch task_id

  -- #routeEmployeeMessage
  unfoldable pub route_employee_message :
      (ActionProposal → Exec Dispatcher (Unit {0})) → ActionProposal → Exec Dispatcher (Unit {0})
  route_employee_message dispatch action = do
    recipient_id ← lift (required_string (get_field "recipient" action.payload) "recipient")
    recipient ← lift (employee o recipient_id)
    text ← lift (required_string (get_field "message" action.payload) "message")
    record_event o "employee.message_sent" action.actor_employee_id action.task_id
        (field "recipient" (str recipient_id) (field "message" (str text) end))
    id ← random_uuid o
    signal ← asks (λ d. ok d.dispatch_controller)
    message_loop dispatch (x.send recipient (routed_message id recipient.id text action) signal)
