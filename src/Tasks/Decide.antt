-- ===== src/Tasks/Decide.antt =====
-- packages/core/src/tasks/task-service.ts: each method of TaskService up to its `putTask`, as a
-- function that reads the store and gives the record and the events to write, or raises.
use agent_town.Prelude.{
  ℕ, ◌+◌, String, Bool, true, false, not, ◌||◌, Option, none, some, List, [], ◌∷◌, map, find, any,
  is_empty, ltb, ◌==◌, string_eq, if◌then◌else◌,
}
use agent_town.Contract.Value.{num, str, arr, end, field, strings}
use agent_town.Contract.Task.{
  TaskState, draft, ready, running, review, completed, blocked, state_eq, state_text, TaskRecord,
}
use agent_town.Contract.Company.{git_worktree, review_package, workspace_eq}
use agent_town.Result.{
  Result, ok, err, guard, required, ◌>>=◌, ◌>>◌, task_already_exists, must_be_draft,
  must_not_have_owner, task_not_found, unknown_employee, requires_git_worktree,
  dependency_not_found, task_owner_required, review_permission_required, leader_permission_required,
  submission_evidence_required, artifacts_required, evidence_required, findings_required,
  dependencies_incomplete,
}
use agent_town.Storage.Schema.{NewEvent}
use agent_town.Storage.Transaction.{Store}
use agent_town.Storage.Tasks.{get_task, list_tasks}
use agent_town.Tasks.Rules.{
  TaskService, assert_transition, assert_generic_transition, find_employee, task_event,
  event_type_for_transition,
}
use agent_town.Tasks.Cycle.{from_entries, search_graph, Graph}
use agent_town.Prelude.Table.{insert}

-- What a method hands to `putTask`.
pub record Decision : Type 0 where
  pub task : TaskRecord
  pub events : List NewEvent

-- Omit<TaskRecord, "createdEventId" | "updatedEventId">
pub record NewTask : Type 0 where
  pub id : String
  pub title : String
  pub objective : String
  pub owner_employee_id : Option String
  pub dependencies : List String
  pub acceptance_criteria : List String
  pub status : TaskState
  pub retry_count : ℕ
  pub review_loop_count : ℕ
  pub artifacts : List String
  pub evidence : List String

abbrev pub is_none {ℓ} : {A : Type ℓ} → Option A → Bool
is_none none = true
is_none (some _) = false

abbrev pub is_owned_by : TaskRecord → String → Bool
is_owned_by t id = elim t.owner_employee_id [ none ↦ false | some owner ↦ owner == id ]

-- get(taskId)
unfoldable pub find_task : TaskService → String → Store → Result TaskRecord
unfolding required
find_task svc id s = required (get_task s svc.company_id id) (task_not_found id)

-- The map that #assertNoDependencyCycle searches.
unfoldable pub proposed_graph : TaskService → NewTask → Store → Graph
proposed_graph svc input s =
    insert input.id input.dependencies
      (from_entries (map (λ t. (t.id, t.dependencies)) (list_tasks s svc.company_id)) [])

abbrev pub created_record : String → NewTask → TaskRecord
created_record uuid input = record {
  id = input.id;
  title = input.title;
  objective = input.objective;
  owner_employee_id = input.owner_employee_id;
  dependencies = input.dependencies;
  acceptance_criteria = input.acceptance_criteria;
  status = input.status;
  retry_count = input.retry_count;
  review_loop_count = input.review_loop_count;
  artifacts = input.artifacts;
  evidence = input.evidence;
  created_event_id = uuid;
  updated_event_id = uuid;
}

-- create(input)
unfoldable pub decide_create : TaskService → String → NewTask → Store → Result Decision
unfolding guard
decide_create svc uuid input s = do
  guard (is_none (get_task s svc.company_id input.id)) (task_already_exists input.id)
  guard (input.status == draft) must_be_draft
  guard (is_none input.owner_employee_id) must_not_have_owner
  search_graph (proposed_graph svc input s)
  ok (record {
    task = created_record uuid input;
    events = task_event uuid "task.created" "core" input.id end ∷ [];
  })

-- The first dependency that names no task.
abbrev pub missing_dependency : TaskService → Store → List String → Option String
missing_dependency svc s = find (λ d. is_none (get_task s svc.company_id d))

abbrev pub present_dependencies : Option String → Result (Unit {0})
present_dependencies none = ok tt
present_dependencies (some d) = err (dependency_not_found d)

-- assign(taskId, employeeId)
unfoldable pub decide_assign : TaskService → String → String → String → Store → Result Decision
unfolding guard required find_task assert_transition
decide_assign svc uuid task_id employee_id s = do
  t ← find_task svc task_id s
  assert_transition t.status ready
  employee ← required (find_employee svc.company employee_id) (unknown_employee employee_id)
  guard (employee.workspace == git_worktree) (requires_git_worktree employee_id)
  present_dependencies (missing_dependency svc s t.dependencies)
  ok (record {
    task = record t {
      owner_employee_id = some employee_id;
      status = ready;
      updated_event_id = uuid;
    };
    events =
        task_event uuid "task.assigned" "core" task_id (field "assignee" (str employee_id) end)
        ∷ [];
  })

abbrev pub is_complete : Option TaskRecord → Bool
is_complete none = false
is_complete (some t) = t.status == completed

-- #assertDependenciesComplete
unfoldable pub dependencies_complete : TaskService → Store → TaskRecord → Bool
dependencies_complete svc s t =
    not (any (λ d. not (is_complete (get_task s svc.company_id d))) t.dependencies)

-- The further guards of `running` and `completed`.
abbrev pub assert_start : TaskService → Store → TaskRecord → String → Result (Unit {0})
assert_start svc s t actor_id = do
  guard (dependencies_complete svc s t) (dependencies_incomplete t.id)
  guard (is_owned_by t actor_id) task_owner_required

abbrev pub assert_completion : TaskRecord → Bool → Result (Unit {0})
assert_completion t may_review = do
  guard may_review review_permission_required
  guard (not (is_empty t.artifacts || is_empty t.evidence)) submission_evidence_required

-- transition(taskId, next, actorId)
unfoldable pub decide_transition :
    TaskService → String → String → TaskState → String → Store → Result Decision
unfolding guard required find_task assert_transition assert_generic_transition
decide_transition svc uuid task_id next actor_id s = do
  t ← find_task svc task_id s
  assert_transition t.status next
  assert_generic_transition t.status next
  actor ← required (find_employee svc.company actor_id) (unknown_employee actor_id)
  if next == running then assert_start svc s t actor_id else ok tt
  if next == completed then assert_completion t (actor.workspace == review_package) else ok tt
  ok (record {
    task = record t { status = next; updated_event_id = uuid };
    events =
        task_event uuid (event_type_for_transition next) actor_id task_id (
          field "previousStatus" (str (state_text t.status))
            (field "status" (str (state_text next)) end))
        ∷ [];
  })

-- submit(taskId, actorId, artifacts, evidence)
unfoldable pub decide_submit :
    TaskService
    → String
    → String
    → String
    → String
    → List String
    → List String
    → Store
    → Result Decision
unfolding guard find_task assert_transition is_empty
decide_submit svc uuid uuid' task_id actor_id artifacts evidence s = do
  t ← find_task svc task_id s
  assert_transition t.status review
  guard (is_owned_by t actor_id) task_owner_required
  guard (not (is_empty artifacts)) artifacts_required
  guard (not (is_empty evidence)) evidence_required
  ok (record {
    task = record t {
      status = review;
      artifacts = artifacts;
      evidence = evidence;
      updated_event_id = uuid';
    };
    events =
        task_event uuid "task.submitted" actor_id task_id (
          field "artifacts" (arr (strings artifacts))
            (field "evidence" (arr (strings evidence)) end))
        ∷ task_event uuid' "task.review_requested" actor_id task_id
            (field "submittedEventId" (str uuid) end)
        ∷ [];
  })

-- retry(taskId, actorId)
unfoldable pub decide_retry : TaskService → String → String → String → Store → Result Decision
unfolding find_task assert_transition
decide_retry svc uuid task_id actor_id s = do
  t ← find_task svc task_id s
  let has_retry_remaining = ltb t.retry_count svc.company.limits.max_task_retry
  let next = if has_retry_remaining then ready else blocked
  let retry_count = if has_retry_remaining then t.retry_count + 1 else t.retry_count
  assert_transition t.status next
  ok (record {
    task = record t { status = next; retry_count = retry_count; updated_event_id = uuid };
    events =
        task_event uuid (if has_retry_remaining then "task.retry_scheduled" else "task.blocked")
          actor_id task_id (field "retryCount" (num retry_count) end)
        ∷ [];
  })

-- reject(taskId, reviewerId, findings)
unfoldable pub decide_reject :
    TaskService → String → String → String → List String → Store → Result Decision
unfolding guard find_task assert_transition is_empty
decide_reject svc uuid task_id reviewer_id findings s = do
  t ← find_task svc task_id s
  guard (not (is_empty findings)) findings_required
  let review_loop_count = t.review_loop_count + 1
  let next = if ltb review_loop_count svc.company.limits.max_review_loops then ready else blocked
  assert_transition t.status next
  ok (record {
    task = record t {
      status = next;
      review_loop_count = review_loop_count;
      updated_event_id = uuid;
    };
    events =
        task_event uuid (if next == ready then "task.rework_requested" else "task.blocked")
          reviewer_id task_id
          (field "findings" (arr (strings findings))
            (field "reviewLoopCount" (num review_loop_count) end))
        ∷ [];
  })

-- The guard of `unblock`: the owner of the company, or the leader, who must be an employee.
abbrev pub assert_unblocker : TaskService → String → Result (Unit {0})
assert_unblocker svc actor_id = do
  required (find_employee svc.company actor_id) (unknown_employee actor_id)
  guard (actor_id == svc.leader_id) leader_permission_required

-- unblock(taskId, actorId)
unfoldable pub decide_unblock : TaskService → String → String → String → Store → Result Decision
unfolding guard required find_task assert_transition
decide_unblock svc uuid task_id actor_id s = do
  t ← find_task svc task_id s
  assert_transition t.status ready
  if actor_id == "owner" then ok tt else assert_unblocker svc actor_id
  ok (record {
    task = record t { status = ready; updated_event_id = uuid };
    events =
        task_event uuid "task.unblocked" actor_id task_id (
          field "previousStatus" (str (state_text t.status)) (
            field "status" (str "ready") (
              field "retryCount" (num t.retry_count)
                (field "reviewLoopCount" (num t.review_loop_count) end))))
        ∷ [];
  })
