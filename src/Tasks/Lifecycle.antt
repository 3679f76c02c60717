-- ===== src/Tasks/Lifecycle.antt =====
-- The life of a task as a relation, and that the methods of TaskService follow it.
use agent_town.Prelude.{
  String, ◌≡◌, ◌≢◌, true, Option, none, some, arith, refl, ◌∙◌, ==_refl, ==_iff, string_eq,
}
use agent_town.Contract.Task.{
  TaskState, draft, ready, running, review, completed, blocked, failed, TaskRecord,
}
use agent_town.Result.{ok}
use agent_town.Storage.Transaction.{Store}
use agent_town.Storage.Tasks.{get_task}
use agent_town.Tasks.Rules.{TaskService, is_legal}
use agent_town.Tasks.Decide.{
  Decision, decide_create, decide_assign, decide_transition, decide_submit, decide_retry,
  decide_reject, decide_unblock,
}
use agent_town.Tasks.Service.{
  Method, create, assign, transition, submit, retry, reject, unblock, decide, call,
}
use agent_town.Tasks.Effects.{call-ok}
use agent_town.Storage.Tasks.Put.{get_task-put_outcome}

-- The diagram of task states.
infix 40 ◌⟶◌
pub data ◌⟶◌ : TaskState → TaskState → Type 0 where
  ready_for_work : draft ⟶ ready
  started : ready ⟶ running
  submitted : running ⟶ review
  stuck : running ⟶ blocked
  crashed : running ⟶ failed
  approved : review ⟶ completed
  rework : review ⟶ ready
  rejected : review ⟶ blocked
  released : blocked ⟶ ready
  retried : failed ⟶ ready
  given_up : failed ⟶ blocked

pub ruleset edges = (
  ready_for_work, started, submitted, stuck, crashed, approved, rework, rejected, released, retried,
  given_up,
)

-- The transition table has the edges of the diagram.
pub is_legal-⟶ : (a b : TaskState) → is_legal a b ≡ true → a ⟶ b
unfolding is_legal
is_legal-⟶ a b h = grind (arith, edges)

-- What no method changes of a task.
pub record SameTask (t t' : TaskRecord) : Type 0 where
  pub id : t'.id ≡ t.id
  pub title : t'.title ≡ t.title
  pub objective : t'.objective ≡ t.objective
  pub dependencies : t'.dependencies ≡ t.dependencies
  pub acceptance_criteria : t'.acceptance_criteria ≡ t.acceptance_criteria
  pub created_event_id : t'.created_event_id ≡ t.created_event_id

pub record Advances (t t' : TaskRecord) : Type 0 where
  pub edge : t.status ⟶ t'.status
  pub same : SameTask t t'

-- What became of the task that was, or was not, there before.
pub data Lifecycle (before : Option TaskRecord) (after : TaskRecord) : Type 0 where
  begins : before ≡ none → after.status ≡ draft → Lifecycle before after
  goes_on : (t : TaskRecord) → before ≡ some t → Advances t after → Lifecycle before after

abbrev pub target : Method → String
target (create _ input) = input.id
target (assign _ id _) = id
target (transition _ id _ _) = id
target (submit _ _ id _ _ _) = id
target (retry _ id _) = id
target (reject _ id _ _) = id
target (unblock _ id _) = id

abbrev Follows : String → Option TaskRecord → TaskRecord → Type 0
Follows id none t' = (t'.status ≡ draft) × (t'.id ≡ id)
Follows id (some t) t' = (is_legal t.status t'.status ≡ true) × SameTask t t'

Lifecycle-Follows :
    (id : String) (before : Option TaskRecord) (t' : TaskRecord)
    → Follows id before t'
    → Lifecycle before t'
Lifecycle-Follows id none t' h = begins refl h.0
Lifecycle-Follows id (some t) t' h =
    goes_on t refl (record { edge = is_legal-⟶ t.status t'.status h.0; same = h.1 })

module _ (svc : TaskService) (s : Store) (d : Decision) where
  decide-Follows :
      (m : Method)
      → decide svc m s ≡ ok d
      → Follows (target m) (get_task s svc.company_id (target m)) d.task
  unfolding decide decide_create decide_assign decide_transition decide_submit decide_retry
      decide_reject decide_unblock is_legal
  decide-Follows (create uuid input) h = ground arith
  decide-Follows (assign uuid id employee_id) h = ground arith
  decide-Follows (transition uuid id next actor_id) h = ground arith
  decide-Follows (submit uuid uuid' id actor_id artifacts evidence) h = ground arith
  decide-Follows (retry uuid id actor_id) h = ground arith
  decide-Follows (reject uuid id reviewer_id findings) h = ground arith
  decide-Follows (unblock uuid id actor_id) h = ground arith

-- The record that a call returns is the one that is stored under its id, the other tasks are what
-- they were, and the task has gone on from what was stored.
pub record IsDone (svc : TaskService) (m : Method) (s : Store) (t : TaskRecord) (s' : Store)
    : Type 0 where
  pub follows : Lifecycle (get_task s svc.company_id (target m)) t
  pub stored : get_task s' svc.company_id (target m) ≡ some t
  pub others :
      (id : String) → id ≢ target m → get_task s' svc.company_id id ≡ get_task s svc.company_id id

-- Every task stands under its own id.
abbrev pub IsKeyed : TaskService → Store → Type 0
IsKeyed svc s = (id : String) (t : TaskRecord) → get_task s svc.company_id id ≡ some t → t.id ≡ id

decide-target :
    (svc : TaskService) (s : Store) (d : Decision) (m : Method)
    → IsKeyed svc s
    → decide svc m s ≡ ok d
    → d.task.id ≡ target m
decide-target svc s d m keyed h =
    target_of (get_task s svc.company_id (target m)) refl (decide-Follows svc s d m h)
  where
    target_of :
        (before : Option TaskRecord)
        → get_task s svc.company_id (target m) ≡ before
        → Follows (target m) before d.task
        → d.task.id ≡ target m
    target_of none e f = f.1
    target_of (some t) e f = f.1.id ∙ keyed (target m) t e

module _ (svc : TaskService) (m : Method) (s : Store) where
  -- In a store whose tasks stand under their own ids, a method of TaskService that returns has stored
  -- the record that it returns under the id that it was given and no other task's. It has created a
  -- draft under an id that had no task, or has taken the task along an edge of the diagram and kept
  -- what identifies it.
  pub call-IsDone :
      (t : TaskRecord) (s' : Store)
      → IsKeyed svc s
      → call svc m s ≡ (ok t, s')
      → IsDone svc m s t s'
  call-IsDone t s' keyed h =
      let w = call-ok svc m s t s' h in
      let d = w.decision in
      let own = decide-target svc s d m keyed w.decided in
      let read = λ (id : String).
        get_task-put_outcome svc.company_id d.task d.events s s' svc.company_id id w.written in
      record {
        follows = rw w.returned (Lifecycle-Follows _ _ _ (decide-Follows svc s d m w.decided));
        stored =
            ground
              (arith, read (target m), w.returned, ==_refl svc.company_id, own, ==_refl (target m));
        others = λ id n. ground (arith, read id, own, ==_iff d.task.id id, n);
      }
