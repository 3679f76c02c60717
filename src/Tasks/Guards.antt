-- ===== src/Tasks/Guards.antt =====
-- The guards of TaskService.transition: who may start and complete a task, and when.
use agent_town.Prelude.{
  none, String, List, [], ◌∷◌, ◌≡◌, ◌↔◌, true, false, some, inl, inr, arith, is_empty, ==_iff,
  string_eq, Bool, Option, Option-cases, any, not, refl, ==_refl,
}
use agent_town.Contract.Task.{TaskRecord, running, completed, review, ready}
use agent_town.Contract.Company.{EmployeeDefinition, review_package}
use agent_town.Result.{is_ok}
use agent_town.Storage.Transaction.{Store}
use agent_town.Storage.Tasks.{get_task}
use agent_town.Tasks.Rules.{TaskService, find_employee, is_legal}
use agent_town.Tasks.Decide.{dependencies_complete, decide_transition, is_complete, is_owned_by}

abbrev IsCompleted : Option TaskRecord → Type 0
IsCompleted none = ⊥
IsCompleted (some t) = t.status ≡ completed

-- Every dependency names a stored task that is completed.
abbrev pub AllCompleted : TaskService → Store → List String → Type 0
AllCompleted svc s [] = Unit
AllCompleted svc s (d ∷ ds) = IsCompleted (get_task s svc.company_id d) × AllCompleted svc s ds

pub record MayStart (svc : TaskService) (s : Store) (t : TaskRecord) (actor_id : String)
    : Type 0 where
  pub employed : (e : EmployeeDefinition) × (find_employee svc.company actor_id ≡ some e)
  pub was_ready : t.status ≡ ready
  pub owner : t.owner_employee_id ≡ some actor_id
  pub unlocked : AllCompleted svc s t.dependencies

pub record MayComplete (svc : TaskService) (t : TaskRecord) (actor_id : String) : Type 0 where
  pub reviewer :
      (e : EmployeeDefinition) × (find_employee svc.company actor_id ≡ some e)
      × (e.workspace ≡ review_package)
  pub reviewed : t.status ≡ review
  pub artifacts : is_empty t.artifacts ≡ false
  pub evidence : is_empty t.evidence ≡ false

module _ (svc : TaskService) (s : Store) where
  any_incomplete : List String → Bool
  any_incomplete ds = any (λ d. not (is_complete (get_task s svc.company_id d))) ds

  AllCompleted-of : (ds : List String) → any_incomplete ds ≡ false → AllCompleted svc s ds
  unfolding any_incomplete any
  AllCompleted-of [] h = tt
  AllCompleted-of (d ∷ ds) h = (ground arith, AllCompleted-of ds (ground arith))

  of_AllCompleted : (ds : List String) → AllCompleted svc s ds → any_incomplete ds ≡ false
  unfolding any_incomplete any
  of_AllCompleted [] h = refl
  of_AllCompleted (d ∷ ds) h = ground (arith, of_AllCompleted ds h.1)

is_owned_by-eq :
    (t : TaskRecord) (a : String) → is_owned_by t a ≡ true → t.owner_employee_id ≡ some a
is_owned_by-eq t a h = elim (Option-cases t.owner_employee_id) [
  | inl n ↦ ground arith
  | inr (o, e) ↦ ground (arith, ==_iff o a)
]

module _ (svc : TaskService) (s : Store) (id : String) (t : TaskRecord)
    (found : get_task s svc.company_id id ≡ some t) (uuid actor_id : String) where
  start_needs :
      is_ok (decide_transition svc uuid id running actor_id s) ≡ true → MayStart svc s t actor_id
  unfolding decide_transition dependencies_complete any_incomplete is_legal
  start_needs h = record {
    employed = elim (Option-cases (find_employee svc.company actor_id)) [
      | inl n ↦ ground arith
      | inr p ↦ p
    ];
    was_ready = ground arith;
    owner = is_owned_by-eq t actor_id (ground arith);
    unlocked = AllCompleted-of svc s t.dependencies (ground arith);
  }

  start_suffices :
      MayStart svc s t actor_id → is_ok (decide_transition svc uuid id running actor_id s) ≡ true
  unfolding decide_transition dependencies_complete any_incomplete is_legal
  start_suffices m =
      let (e, he) = m.employed in
      ground (arith, of_AllCompleted svc s t.dependencies m.unlocked, ==_refl actor_id)

  -- A stored task can start exactly when it is ready, the actor is an employee and its owner, and
  -- every dependency is a completed task.
  pub start_iff :
      (is_ok (decide_transition svc uuid id running actor_id s) ≡ true) ↔ MayStart svc s t actor_id
  start_iff = (start_needs, start_suffices)

  complete_needs :
      is_ok (decide_transition svc uuid id completed actor_id s) ≡ true → MayComplete svc t actor_id
  unfolding decide_transition is_legal
  complete_needs h = record {
    reviewer = elim (Option-cases (find_employee svc.company actor_id)) [
      | inl n ↦ ground arith
      | inr (e, he) ↦ (e, he, ground arith)
    ];
    reviewed = ground arith;
    artifacts = ground arith;
    evidence = ground arith;
  }

  complete_suffices :
      MayComplete svc t actor_id → is_ok (decide_transition svc uuid id completed actor_id s) ≡ true
  unfolding decide_transition is_legal
  complete_suffices m = let (e, he, hw) = m.reviewer in ground arith

  -- A stored task can be completed exactly when it is in review, has artifacts and evidence, and
  -- the actor is an employee whose workspace is a review package.
  pub complete_iff :
      (is_ok (decide_transition svc uuid id completed actor_id s) ≡ true)
      ↔ MayComplete svc t actor_id
  complete_iff = (complete_needs, complete_suffices)
