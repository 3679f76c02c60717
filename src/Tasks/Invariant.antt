-- ===== src/Tasks/Invariant.antt =====
-- What holds of every stored task between two calls of TaskService.
use agent_town.Prelude.{
  String, ◌≡◌, ◌≢◌, ◌⊎◌, ◌≤◌, false, none, some, arith, refl, is_empty, Option, true, ==_refl,
  ==_iff, string_eq,
}
use agent_town.Contract.Task.{TaskRecord, draft, review, completed, ready}
use agent_town.Result.{ok}
use agent_town.Storage.Transaction.{Store}
use agent_town.Storage.Tasks.{get_task}
use agent_town.Tasks.Rules.{TaskService, is_legal}
use agent_town.Tasks.Decide.{
  Decision, is_none, decide_create, decide_assign, decide_transition, decide_submit, decide_retry,
  decide_reject, decide_unblock,
}
use agent_town.Tasks.Service.{
  Method, create, assign, transition, submit, retry, reject, unblock, decide, call,
}
use agent_town.Tasks.Lifecycle.{target}
use agent_town.Tasks.Effects.{Effect, nothing, one, call-Effect}
use agent_town.Storage.Tasks.Put.{put_outcome, get_task-put_outcome}

pub record IsSound (svc : TaskService) (t : TaskRecord) : Type 0 where
  pub owned : t.status ≢ draft → t.status ≢ ready → is_none t.owner_employee_id ≡ false
  pub unowned : t.status ≡ draft → is_none t.owner_employee_id ≡ true
  pub submitted :
      (t.status ≡ review) ⊎ (t.status ≡ completed)
      → (is_empty t.artifacts ≡ false) × (is_empty t.evidence ≡ false)
  pub retries : t.retry_count ≤ svc.company.limits.max_task_retry

-- The orchestrator proposes tasks with `retryCount: 0`.
abbrev pub StartsFresh : Method → Type 0
StartsFresh (create _ input) = input.retry_count ≡ 0
StartsFresh _ = Unit

abbrev WasSound : TaskService → Option TaskRecord → Type 0
WasSound svc none = Unit
WasSound svc (some t) = IsSound svc t

module _ (svc : TaskService) (s : Store) (d : Decision) where
  decide-IsSound :
      (m : Method)
      → StartsFresh m
      → WasSound svc (get_task s svc.company_id (target m))
      → decide svc m s ≡ ok d
      → IsSound svc d.task
  unfolding decide decide_create decide_assign decide_transition decide_submit decide_retry
      decide_reject decide_unblock is_legal
  decide-IsSound (create uuid input) f w h = ground arith
  decide-IsSound (assign uuid id employee_id) f w h = ground arith
  decide-IsSound (transition uuid id next actor_id) f w h = ground arith
  decide-IsSound (submit uuid uuid' id actor_id artifacts evidence) f w h = ground arith
  decide-IsSound (retry uuid id actor_id) f w h = ground arith
  decide-IsSound (reject uuid id reviewer_id findings) f w h = ground arith
  decide-IsSound (unblock uuid id actor_id) f w h = ground arith

-- Every stored task is sound, and stands under its own id.
pub record IsSoundStore (svc : TaskService) (s : Store) : Type 0 where
  pub sound : (id : String) (t : TaskRecord) → get_task s svc.company_id id ≡ some t → IsSound svc t
  pub keyed : (id : String) (t : TaskRecord) → get_task s svc.company_id id ≡ some t → t.id ≡ id

WasSound-get_task :
    (svc : TaskService) (s : Store) (id : String) (o : Option TaskRecord)
    → get_task s svc.company_id id ≡ o
    → IsSoundStore svc s
    → WasSound svc o
WasSound-get_task svc s id none e v = tt
WasSound-get_task svc s id (some t) e v = v.sound id t e

put-IsSoundStore :
    (svc : TaskService) (d : Decision) (s s' : Store)
    → put_outcome svc.company_id d.task d.events s ≡ ok s'
    → IsSound svc d.task
    → IsSoundStore svc s
    → IsSoundStore svc s'
put-IsSoundStore svc d s s' p h v =
    let read = λ (id : String).
      get_task-put_outcome svc.company_id d.task d.events s s' svc.company_id id p in
    record {
      sound = λ id t e. ground (arith, read id, v.sound id t, ==_refl svc.company_id);
      keyed = λ id t e.
          ground (arith, read id, v.keyed id t, ==_refl svc.company_id, ==_iff d.task.id id);
    }

Effect-IsSoundStore :
    {svc : TaskService} {m : Method} {s s' : Store}
    → StartsFresh m
    → IsSoundStore svc s
    → Effect svc m s s'
    → IsSoundStore svc s'
Effect-IsSoundStore f v (nothing e) = rw e v
Effect-IsSoundStore {svc} {m} {s} {s'} f v (one d decided written) =
    put-IsSoundStore svc d s s' written
      (decide-IsSound svc s d m f (WasSound-get_task svc s (target m) _ refl v) decided) v

-- Every call, also one that raises, keeps the store sound if it creates no task with retries: each
-- task stands under its own id, has an owner unless it is a draft or ready, and none as a draft; in
-- review or completed it has artifacts and evidence; its retries are within the limit.
pub call-IsSoundStore :
    (svc : TaskService) (m : Method) (s : Store)
    → StartsFresh m
    → IsSoundStore svc s
    → IsSoundStore svc (call svc m s).1
call-IsSoundStore svc m s f v = Effect-IsSoundStore f v (call-Effect svc m s)
