-- ===== src/Orchestrator/Dispatch.antt =====
-- packages/core/src/company/orchestrator.ts: dispatch. The fuel bounds how deep an action leads to a
-- stream in which an agent proposes an action; a review adds one to the depth, and a message to an
-- employee as much as its agent answers with.
use agent_town.Prelude.{ℕ, zero, suc, string_eq}
use agent_town.Contract.Value.{str, get_field}
use agent_town.Contract.Task.{ActionType, ActionProposal, completed, blocked, state_eq}
use agent_town.Result.{ok, guard, not_dispatching, out_of_fuel}
use agent_town.Exec.{Exec, ◌>>=◌, ◌>>◌, pure, asks, lift, raise}
use agent_town.Policy.{validate}
use agent_town.Tasks.Service.{Method}
use agent_town.Orchestrator.{CompanyOrchestrator, Dispatcher, Sessions}
use agent_town.Orchestrator.Payload.{required_task_id, required_string_array, set_field}
use agent_town.Orchestrator.Calls.{record_event, record_approval_request, task_call}
use agent_town.Orchestrator.Actions.{
  request_review_now, create_proposed_task, assign_and_send, record_submission,
  reject_and_maybe_requeue, start_task, route_employee_message,
}

module _ (o : CompanyOrchestrator) (x : Sessions) where
  -- The `switch` of dispatch, with that of #applySupportedControlAction.
  unfoldable pub handle :
      (ActionProposal → Exec Dispatcher (Unit {0}))
      → ActionType
      → ActionProposal
      → Exec Dispatcher (Unit {0})
  handle dispatch ActionType.propose action = create_proposed_task o action >> pure tt
  handle dispatch ActionType.assign action = assign_and_send o action
  handle dispatch ActionType.submit action = record_submission o x dispatch action
  handle dispatch ActionType.approve action = do
    task_id ← lift (required_task_id action)
    task_call o (λ id. Method.transition id task_id completed action.actor_employee_id)
    pure tt
  handle dispatch ActionType.reject action = do
    task_id ← lift (required_task_id action)
    findings ← lift (required_string_array (get_field "findings" action.payload))
    reject_and_maybe_requeue o task_id action.actor_employee_id findings
  handle dispatch ActionType.start action = start_task o action
  handle dispatch ActionType.request_review action = do
    task_id ← lift (required_task_id action)
    request_review_now o x dispatch task_id
  handle dispatch ActionType.block action = do
    task_id ← lift (required_task_id action)
    task_call o (λ id. Method.transition id task_id blocked action.actor_employee_id)
    pure tt
  handle dispatch ActionType.employee_message action = route_employee_message o x dispatch action
  handle dispatch ActionType.user_approval_request action =
      record_approval_request o action.task_id action.actor_employee_id action.reason action.payload
  handle dispatch ActionType.company_complete_request action =
      record_event o "company.completion_requested" action.actor_employee_id action.task_id
        (set_field "reason" (str action.reason) action.payload)

  -- dispatch(action)
  unfoldable pub dispatch : ℕ → ActionProposal → Exec Dispatcher (Unit {0})
  dispatch zero action = raise out_of_fuel
  dispatch (suc fuel) action = do
    lift (validate o.policy action)
    accepting ← asks (λ d. ok d.accepting_actions)
    lift (guard accepting not_dispatching)
    handle (dispatch fuel) action.type action
