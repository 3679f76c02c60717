-- ===== src/Tests/Orchestrator.antt =====
-- A developer's task goes through the orchestrator, and the theorems about it.
use agent_town.Prelude.{
  ℕ, zero, suc, String, true, ◌≡◌, none, some, List, [], ◌∷◌, refl, arith, Option, filter, includes,
  find, any, is_empty,
}
use agent_town.Prelude.Table.{lookup, insert, remove}
use agent_town.Contract.Value.{str, arr, strings, end, field, get_field}
use agent_town.Contract.Task.{ActionType, ActionProposal, TaskState, ready, running, review}
use agent_town.Contract.Agent.{AgentEvent, output_delta, action_proposed}
use agent_town.Result.{err, external, guard, required}
use agent_town.Exec.{Exec, ◌>>◌, modify, pure, raise, lift, try_catch}
use agent_town.Policy.{validate, supported_actions, leader_only_actions}
use agent_town.Orchestrator.{CompanyOrchestrator, Dispatcher, Sessions, Opening}
use agent_town.Orchestrator.Payload.{
  ◌⧺◌, required_task_id, required_string_array, texts_of, item_texts,
}
use agent_town.Orchestrator.Calls.{
  has_running_capacity, start_ready_task, with_capacity, task_call, task_get, start_in_flight,
  open_round, open_task, assert_epoch, if_current, task_owner, assert_proposal_task,
  record_approval_request, record_event, employee,
}
use agent_town.Orchestrator.Review.{
  request_review, review_loop, on_review_event, decide_review, after_review,
}
use agent_town.Orchestrator.Dispatch.{dispatch, handle}
use agent_town.Orchestrator.Machine.{
  Step, proposed, stopped, flown, recovered, steps, run_flight, step, flight_work, settle_flight,
  stop_dispatching, recover_work, recover_running, recover_reviews, start_review,
}
use agent_town.Orchestrator.Kept.{WritesNoTask}
use agent_town.Orchestrator.Limits.{IsWithinLimit, steps-IsWithinLimit, steps-IsSoundStore}
use agent_town.Orchestrator.Waits.{interleaved}
use agent_town.Tasks.Invariant.{IsSoundStore}
use agent_town.Storage.Transaction.{
  Store, transact, in_transaction, insert_event_rows, insert_event_row, publish_events,
  insert_event,
}
use agent_town.Storage.Tasks.{
  get_task, list_tasks, company_tasks, put_task, write_task, upsert_task, insert_dependencies,
  insert_artifacts,
}
use agent_town.Tests.Fixture.{svc, company, opened, with_task, owned, developer}
use agent_town.Storage.Order.{sort_by, insert_by}
use agent_town.Orchestrator.Actions.{start_task, record_submission}
use agent_town.Tasks.Decide.{find_task, decide_transition, decide_submit, dependencies_complete}
use agent_town.Tasks.Service.{call, update, decide}
use agent_town.Tasks.Rules.{
  is_legal, assert_transition, legal_transitions, assert_generic_transition, find_employee,
  event_type_for_transition,
}
use agent_town.Orchestrator.Work.{
  send_task, work_rounds, work_round, work_loop, on_work_event, after_work,
}

abbrev numbered : ℕ → String
numbered zero = "u"
numbered (suc n) = "u" ⧺ numbered n

abbrev orchestrator : CompanyOrchestrator
orchestrator = record {
  tasks = svc;
  policy = record { company = company; leader_id = "leader"; reviewer_ids = "reviewer" ∷ [] };
  reviewer_id = "reviewer";
  uuid = numbered;
  error_message = λ e. "error";
}

abbrev submit_build : ActionProposal
submit_build = record {
  action_id = "a1";
  type = ActionType.submit;
  actor_employee_id = "developer";
  task_id = some "build";
  payload =
      field "artifacts" (arr (strings ("build.patch" ∷ [])))
        (field "evidence" (arr (strings ("tests pass" ∷ []))) end);
  reason = "done";
  causation_event_id = none;
}

abbrev start_build : ActionProposal
start_build = record submit_build { action_id = "a2"; type = ActionType.start; payload = end }

-- Every agent proposes the submission.
abbrev eager : Sessions
eager = record {
  start_all = λ c s. pure tt;
  stop_all = pure tt;
  send = λ e m s. pure (action_proposed submit_build) ∷ [];
  get = λ id d. err (external "no session");
  resume_one = λ e c s. raise (external "no session");
  rebuild_one = λ e h s. raise (external "no session");
}

eager-WritesNoTask : WritesNoTask eager
eager-WritesNoTask = record {
  start_all = λ c s d. refl;
  stop_all = λ d. refl;
  send = λ e m s. (λ d. refl, tt);
  resume_one = λ e c s d. refl;
  rebuild_one = λ e h s d. refl;
}

abbrev dispatcher : Store → Dispatcher
dispatcher s = record {
  store = s;
  accepting_actions = true;
  dispatch_epoch = 0;
  dispatch_controller = 0;
  controllers = 1;
  aborted = [];
  in_flight = [];
  pending = [];
  flights = 0;
  uuids = 0;
}

abbrev at_work : Dispatcher
at_work = dispatcher (with_task (owned ready))

abbrev plan : List Step
plan = proposed start_build ∷ flown 0 ∷ stopped ∷ recovered ∷ []

abbrev status_of : Dispatcher → Option TaskState
status_of d = elim (get_task d.store "c" "build") [ none ↦ none | some t ↦ some t.status ]

plan_submits : status_of (steps orchestrator eager 3 plan at_work) ≡ some review
unfolding steps step dispatch handle start_task start_ready_task with_capacity task_call task_get
    has_running_capacity start_in_flight open_round open_task lift guard required validate
    supported_actions leader_only_actions includes find any filter is_empty required_task_id
    find_task get_task list_tasks sort_by insert_by company_tasks lookup insert call update decide
    decide_transition decide_submit is_legal assert_transition legal_transitions
    assert_generic_transition find_employee dependencies_complete put_task transact in_transaction
    insert_event_rows insert_event_row publish_events write_task upsert_task insert_dependencies
    insert_artifacts run_flight flight_work try_catch send_task work_rounds work_round assert_epoch
    if_current task_owner employee work_loop on_work_event assert_proposal_task record_submission
    required_string_array texts_of item_texts get_field request_review review_loop on_review_event
    decide_review record_approval_request record_event insert_event after_review settle_flight
    remove after_work stop_dispatching recover_work recover_running recover_reviews start_review
    strings event_type_for_transition
plan_submits = refl

at_work-IsWithinLimit : IsWithinLimit orchestrator (with_task (owned ready))
unfolding list_tasks sort_by company_tasks insert_by filter
at_work-IsWithinLimit = omega arith

-- While a call or a promise waits, the promise that is pending runs, and the work is recovered.
abbrev meanwhile : ℕ → Dispatcher → List Step
meanwhile n d = flown 0 ∷ recovered ∷ []

steps-IsWithinLimit_example :
    IsWithinLimit orchestrator
      (steps orchestrator (interleaved orchestrator eager 3 meanwhile 2) 3 plan at_work).store
steps-IsWithinLimit_example =
    steps-IsWithinLimit orchestrator eager eager-WritesNoTask 3 meanwhile 2 plan at_work
      at_work-IsWithinLimit

empty-IsSoundStore : IsSoundStore svc opened
unfolding get_task lookup
empty-IsSoundStore = record { sound = λ id t h. cc; keyed = λ id t h. cc }

abbrev propose_build : ActionProposal
propose_build = record submit_build {
  action_id = "a3";
  type = ActionType.propose;
  actor_employee_id = "leader";
  payload = field "title" (str "Build") (
      field "objective" (str "Build it") (
        field "dependencies" (arr (strings []))
          (field "acceptanceCriteria" (arr (strings ("it runs" ∷ []))) end)));
}

abbrev assign_build : ActionProposal
assign_build = record propose_build {
  action_id = "a4";
  type = ActionType.assign;
  payload = field "assignee" (str "developer") end;
}

abbrev company_plan : List Step
company_plan = proposed propose_build ∷ proposed assign_build ∷ flown 0 ∷ []

steps-IsSoundStore_example :
    IsSoundStore svc
      (steps orchestrator
        (interleaved orchestrator eager 3 meanwhile 2)
        3
        company_plan
        (dispatcher opened)).store
steps-IsSoundStore_example =
    steps-IsSoundStore orchestrator eager eager-WritesNoTask 3 meanwhile 2 company_plan
      (dispatcher opened) empty-IsSoundStore

-- Dispatching is stopped during the second wait, and an action is proposed then.
abbrev halt : Exec Dispatcher AgentEvent
halt = modify stop_dispatching >> pure (action_proposed submit_build)

abbrev halting : Sessions
halting = record eager { send = λ e m s. pure (output_delta "so") ∷ halt ∷ [] }

abbrev opening : Opening
opening = record { task = owned running; employee = developer; message_id = "m" }
