-- ===== src/Tests/Tasks.antt =====
-- TaskService at concrete inputs.
use agent_town.Prelude.{
  ==_iff, string_eq, ◌≡◌, ◌↔◌, refl, [], ◌∷◌, true, is_empty, find, includes, some, arith, filter,
  any,
}
use agent_town.Tests.Fixture.{svc, opened, with_task, build, owned, in_review, new_task}
use agent_town.Tasks.Lifecycle.{IsKeyed, IsDone, call-IsDone}
use agent_town.Tasks.Invariant.{IsSoundStore, call-IsSoundStore}
use agent_town.Tasks.Guards.{MayStart, MayComplete, start_iff, complete_iff}
use agent_town.Tasks.Service.{call, Method, create, assign, transition, decide}
use agent_town.Tasks.Cycle.Decides.{Verdict, search_graph-Verdict}
use agent_town.Tasks.Cycle.{Graph, search_graph, dependencies_of}
use agent_town.Contract.Task.{TaskRecord, running, completed, ready}
use agent_town.Prelude.Table.{lookup, insert}
use agent_town.Result.{is_ok, err, task_not_found, dependency_cycle, ok}
use agent_town.Storage.Tasks.{get_task, put_task, insert_dependencies, insert_artifacts}
use agent_town.Tasks.Decide.{decide_assign, decide_transition}
use agent_town.Tasks.Rules.{find_employee, is_legal}
use agent_town.Storage.Transaction.{transact}

abbrev ring : Graph
ring = ("a", "b" ∷ []) ∷ ("b", "a" ∷ []) ∷ []

ring_raises : search_graph ring ≡ err (dependency_cycle "a")
unfolding search_graph dependencies_of lookup includes
ring_raises = refl

search_graph-Verdict_example : Verdict ring (search_graph ring)
search_graph-Verdict_example = search_graph-Verdict ring

unknown_task :
    (call svc (transition "u" "build" running "developer") opened).0 ≡ err (task_not_found "build")
unfolding call decide decide_transition get_task lookup
unknown_task = refl

abbrev assigned : Method
assigned = assign "e2" "build" "developer"

assigned_returns : call svc assigned (with_task build) ≡ (
  ok (record build {
    owner_employee_id = some "developer";
    status = ready;
    updated_event_id = "e2";
  }),
  (call svc assigned (with_task build)).1,
)
unfolding call decide decide_assign get_task lookup put_task transact is_legal find_employee find
    insert includes filter any is_empty insert_dependencies insert_artifacts
assigned_returns = refl

abbrev assigned_build : TaskRecord
assigned_build = record build {
  owner_employee_id = some "developer";
  status = ready;
  updated_event_id = "e2";
}

with_build-IsKeyed : IsKeyed svc (with_task build)
unfolding get_task lookup
with_build-IsKeyed id t h = ground (arith, h, ==_iff "build" id)

call-IsDone_example :
    IsDone svc assigned (with_task build) assigned_build (call svc assigned (with_task build)).1
call-IsDone_example =
    call-IsDone svc assigned (with_task build) assigned_build
      (call svc assigned (with_task build)).1 with_build-IsKeyed assigned_returns

opened-IsSoundStore : IsSoundStore svc opened
unfolding get_task lookup
opened-IsSoundStore = record { sound = λ id t h. cc; keyed = λ id t h. cc }

call-IsSoundStore_example : IsSoundStore svc (call svc (create "e1" new_task) opened).1
call-IsSoundStore_example =
    call-IsSoundStore svc (create "e1" new_task) opened refl opened-IsSoundStore

ready_stored : get_task (with_task (owned ready)) "c" "build" ≡ some (owned ready)
unfolding get_task lookup
ready_stored = refl

start_iff_example :
    (is_ok (decide_transition svc "e2" "build" running "developer" (with_task (owned ready)))
      ≡ true)
    ↔ MayStart svc (with_task (owned ready)) (owned ready) "developer"
start_iff_example =
    start_iff svc (with_task (owned ready)) "build" (owned ready) ready_stored "e2" "developer"

review_stored : get_task (with_task in_review) "c" "build" ≡ some in_review
unfolding get_task lookup
review_stored = refl

complete_iff_example :
    (is_ok (decide_transition svc "e2" "build" completed "reviewer" (with_task in_review)) ≡ true)
    ↔ MayComplete svc in_review "reviewer"
complete_iff_example =
    complete_iff svc (with_task in_review) "build" in_review review_stored "e2" "reviewer"
