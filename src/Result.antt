-- ===== src/Result.antt =====
-- Exceptions as values.
use agent_town.Prelude.{
  String, Bool, true, false, ◌≡◌, refl, ◌⊎◌, inl, inr, Option, none, some, arith,
}
use agent_town.Contract.Task.{TaskState, ActionType}

-- One constructor for each message of a `throw`, and one for each constraint of the schema.
pub data Error : Type 0 where
  constraint : String → Error
  company_not_found : String → Error
  event_required : Error
  claim_disappeared : Error
  claim_not_found : String → String → Error
  task_already_exists : String → Error
  must_be_draft : Error
  must_not_have_owner : Error
  task_not_found : String → Error
  unknown_employee : String → Error
  requires_git_worktree : String → Error
  dependency_not_found : String → Error
  task_owner_required : Error
  review_permission_required : Error
  leader_permission_required : Error
  submission_evidence_required : Error
  artifacts_required : Error
  evidence_required : Error
  findings_required : Error
  illegal_transition : TaskState → TaskState → Error
  use_assign : Error
  use_submit : Error
  use_reject : TaskState → Error
  use_retry : TaskState → Error
  requires_user_intervention : Error
  dependencies_incomplete : String → Error
  dependency_cycle : String → Error
  out_of_fuel : Error
  unsupported_action : ActionType → Error
  unknown_assignee : Error
  unknown_recipient : Error
  duplicate_employee_id : String → Error
  unknown_reports_to : String → Error
  reporting_cycle : String → Error
  requires_task_id : ActionType → Error
  not_dispatching : Error
  non_empty_string : String → Error
  non_empty_string_array : Error
  string_array : String → Error
  task_owner_mismatch : String → Error
  no_owner : String → Error
  epoch_expired : Error
  proposal_task_mismatch : String → Option String → Error
  decision_required : Error
  replacement_cleanup_failed : Error
  malformed : String → Error
  session_fact_missing : String → Error
  checkpoint_employee_mismatch : String → Error
  replacement_aborted : String → Error
  abort_cleanup_failed : String → Error
  sessions_already_started : Error
  failed_to_start : String → Error
  start_result_mismatch : Error
  session_not_started : String → Error
  session_unavailable : String → Error
  message_employee_mismatch : String → Error
  failed_to_stop : String → Error
  still_pending : Error
  pause_failed : Error
  operation_in_progress : Error
  recovery_blocked : String → Error
  not_eligible : String → Error
  request_error : (code message : String) → Error
  external : String → Error

pub data Result {ℓ} (A : Type ℓ) : Type ℓ where
  ok : A → Result A
  err : Error → Result A

infixl 10 ◌>>=◌ ◌>>◌
abbrev pub ◌>>=◌ {ℓ κ} : {A : Type ℓ} {B : Type κ} → Result A → (A → Result B) → Result B
ok a >>= f = f a
err e >>= f = err e

abbrev pub ◌>>◌ {ℓ κ} : {A : Type ℓ} {B : Type κ} → Result A → Result B → Result B
m >> n = m >>= λ _. n

-- `if (!test) throw error`
unfoldable pub guard : Bool → Error → Result (Unit {0})
guard true e = ok tt
guard false e = err e

unfoldable pub required {ℓ} : {A : Type ℓ} → Option A → Error → Result A
required none e = err e
required (some a) e = ok a

pub guard-eq-ok : (b : Bool) (e : Error) (u : Unit {0}) → guard b e ≡ ok u → b ≡ true
unfolding guard
guard-eq-ok true e u h = refl
guard-eq-ok false e u h = cc

pub required-eq-ok {ℓ} :
    {A : Type ℓ} (o : Option A) (e : Error) (a : A) → required o e ≡ ok a → o ≡ some a
unfolding required
required-eq-ok none e a h = cc
required-eq-ok (some b) e a h = ground arith

pub Result-cases {ℓ} :
    {A : Type ℓ} (r : Result A) → ((a : A) × (r ≡ ok a)) ⊎ ((e : Error) × (r ≡ err e))
Result-cases (ok a) = inl (a, refl)
Result-cases (err e) = inr (e, refl)

abbrev pub is_ok {ℓ} : {A : Type ℓ} → Result A → Bool
is_ok (ok a) = true
is_ok (err e) = false

-- What a chain returns comes from what its first step returns.
pub bind_ok {ℓ κ} :
    {A : Type ℓ} {B : Type κ} (m : Result A) (f : A → Result B) (b : B)
    → (m >>= f) ≡ ok b
    → (a : A) × (m ≡ ok a) × (f a ≡ ok b)
bind_ok (ok a) f b h = (a, refl, h)
bind_ok (err e) f b h = cc
