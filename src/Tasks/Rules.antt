-- ===== src/Tasks/Rules.antt =====
-- packages/core/src/tasks/task-service.ts: the transition table, the guards that refer to no
-- store, and the events.
use agent_town.Prelude.{
  String, Bool, Option, none, some, List, [], ◌∷◌, find, includes, ◌==◌, string_eq,
}
use agent_town.Contract.Value.{Fields}
use agent_town.Contract.Task.{
  TaskState, draft, ready, running, review, completed, blocked, failed, state_eq,
}
use agent_town.Contract.Company.{CompanyDefinition, EmployeeDefinition}
use agent_town.Result.{
  Result, ok, err, guard, illegal_transition, use_assign, use_submit, use_reject, use_retry,
  requires_user_intervention,
}
use agent_town.Storage.Schema.{NewEvent}

-- TaskService without its store, which is the state of the methods.
pub record TaskService : Type 0 where
  pub company_id : String
  pub company : CompanyDefinition
  pub leader_id : String

-- legalTransitions
unfoldable pub legal_transitions : TaskState → List TaskState
legal_transitions draft = ready ∷ []
legal_transitions ready = running ∷ []
legal_transitions running = review ∷ blocked ∷ failed ∷ []
legal_transitions review = completed ∷ ready ∷ blocked ∷ []
legal_transitions completed = []
legal_transitions blocked = ready ∷ []
legal_transitions failed = ready ∷ blocked ∷ []

unfoldable pub is_legal : TaskState → TaskState → Bool
unfolding legal_transitions includes
is_legal current next = includes (legal_transitions current) next

-- #assertTransition
unfoldable pub assert_transition : TaskState → TaskState → Result (Unit {0})
unfolding guard
assert_transition current next = guard (is_legal current next) (illegal_transition current next)

-- #assertGenericTransition
unfoldable pub assert_generic_transition : TaskState → TaskState → Result (Unit {0})
assert_generic_transition draft ready = err use_assign
assert_generic_transition running review = err use_submit
assert_generic_transition review ready = err (use_reject ready)
assert_generic_transition review blocked = err (use_reject blocked)
assert_generic_transition failed ready = err (use_retry ready)
assert_generic_transition failed blocked = err (use_retry blocked)
assert_generic_transition blocked ready = err requires_user_intervention
assert_generic_transition _ _ = ok tt

-- company.employees.find((item) => item.id === employeeId)
unfoldable pub find_employee : CompanyDefinition → String → Option EmployeeDefinition
find_employee company id = find (λ e. e.id == id) company.employees

-- event(type, actorId, taskId, payload), with the id that `randomUUID()` returned.
abbrev pub task_event : String → String → String → String → Fields → NewEvent
task_event uuid type actor_id task_id payload = record {
  id = uuid;
  type = type;
  actor_id = actor_id;
  task_id = some task_id;
  causation_event_id = none;
  payload = payload;
}

-- eventTypeForTransition
unfoldable pub event_type_for_transition : TaskState → String
event_type_for_transition draft = "task.created"
event_type_for_transition ready = "task.ready"
event_type_for_transition running = "task.started"
event_type_for_transition review = "task.review_requested"
event_type_for_transition completed = "task.completed"
event_type_for_transition blocked = "task.blocked"
event_type_for_transition failed = "task.failed"
