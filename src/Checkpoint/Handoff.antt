-- ===== src/Checkpoint/Handoff.antt =====
-- packages/core/src/lifecycle/checkpoint-service.ts: a checkpoint that is built is not checked, and
-- a handoff may be longer than what the service reads back.
use Prim.Native.String.{[] as empty, ◌∷◌ as ◌▸◌, String}
use text.Mathlib.TextLemmas.{nil-append, cons-append}
use agent_town.Prelude.{
  ◌+◌, ◌<◌, ◌≡◌, false, some, inl, inr, List, [], ◌∷◌, ◌++◌, arith, Option-cases, ◌≤◌, find, ◌==◌,
  ap, string_eq, ◌∙◌,
}
use agent_town.Contract.Task.{TaskRecord}
use agent_town.Contract.Company.{CompanyDefinition, EmployeeDefinition}
use agent_town.Contract.Agent.{SessionCheckpoint, CompanyCheckpoint, PauseReason}
use agent_town.Result.{ok, is_ok, required, Result-cases}
use agent_town.Orchestrator.Payload.{◌⧺◌}
use agent_town.Checkpoint.Text.{text_units, is_handoff, is_text}
use agent_town.Checkpoint.Payload.{checkpoint_value, parse_company_checkpoint}
use agent_town.Checkpoint.Build.{
  CheckpointService, handoff_text, active_task, build_session, build_sessions, build_checkpoint,
}
use agent_town.Checkpoint.RoundTrip.{
  is_readable, is_readable_session, are_readable, parse-unreadable,
}
use agent_town.Server.Requests.{join}
use agent_town.Storage.Sessions.{list_sessions}

pub text_units-append : (s t : String) → text_units (s ⧺ t) ≡ text_units s + text_units t
unfolding text_units
text_units-append empty t = ap text_units (nil-append t) ∙ omega arith
text_units-append (c ▸ s) t =
    ap text_units (cons-append c s t) ∙ omega (arith, text_units-append s t)

handoff_text-long :
    (d : CompanyDefinition) (e : EmployeeDefinition) (t : TaskRecord)
    → text_units t.objective ≤ text_units (handoff_text d e (some t))
unfolding handoff_text
handoff_text-long d e t =
    let tail = "\nAcceptance criteria: " ⧺ join "; " t.acceptance_criteria in
    let a = text_units-append t.objective tail in
    let b = text_units-append ": " (t.objective ⧺ tail) in
    let c = text_units-append t.id (": " ⧺ (t.objective ⧺ tail)) in
    let f = text_units-append "Continue task " (t.id ⧺ (": " ⧺ (t.objective ⧺ tail))) in
    omega (arith, a, b, c, f)

is_handoff-long : (s : String) → 4096 < text_units s → is_handoff s ≡ false
unfolding is_handoff is_text
is_handoff-long s h = ground (arith, h)

module _ (k : CheckpointService) (e : EmployeeDefinition) (t : TaskRecord)
    (active : active_task k e ≡ some t) (long : 4096 < text_units t.objective) where
  build_session-unreadable :
      (x : SessionCheckpoint) → build_session k e ≡ ok x → is_readable_session x ≡ false
  unfolding build_session required is_readable_session
  build_session-unreadable x h =
      let big : is_handoff (handoff_text k.company e (some t)) ≡ false =
        is_handoff-long (handoff_text k.company e (some t))
          (omega (arith, long, handoff_text-long k.company e t)) in
      elim (Option-cases (find (λ l. l.employee_id == e.id) (list_sessions k.store k.company_id))) [
        | inl f ↦ ground (arith, h, f)
        | inr (l, f) ↦ ground (arith, h, f, big, active)
      ]

  build_sessions-unreadable :
      (before after : List EmployeeDefinition) (xs : List SessionCheckpoint)
      → build_sessions k (before ++ e ∷ after) ≡ ok xs
      → are_readable xs ≡ false
  unfolding build_sessions are_readable
  build_sessions-unreadable [] after xs h = elim (Result-cases (build_session k e)) [
    | inr (x, f) ↦ ground (arith, h, f)
    | inl (x, f) ↦ elim (Result-cases (build_sessions k after)) [
      | inr (y, g) ↦ ground (arith, h, f, g)
      | inl (ys, g) ↦ ground (arith, h, f, g, build_session-unreadable x f)
    ]
  ]
  build_sessions-unreadable (b ∷ before) after xs h = elim (Result-cases (build_session k b)) [
    | inr (x, f) ↦ ground (arith, h, f)
    | inl (x, f) ↦ elim (Result-cases (build_sessions k (before ++ e ∷ after))) [
      | inr (y, g) ↦ ground (arith, h, f, g)
      | inl (ys, g) ↦ ground (arith, h, f, g, build_sessions-unreadable before after ys g)
    ]
  ]

  -- If the objective of an employee's active task is longer than 4096 units, then the checkpoint that
  -- is built when the company pauses is refused when it is read to recover.
  pub build_checkpoint-unreadable :
      (before after : List EmployeeDefinition) (reason : PauseReason) (c : CompanyCheckpoint)
      → k.company.employees ≡ before ++ e ∷ after
      → build_checkpoint k reason ≡ ok c
      → is_ok (parse_company_checkpoint (checkpoint_value c)) ≡ false
  unfolding build_checkpoint is_readable
  build_checkpoint-unreadable before after reason c split h =
      elim (Result-cases (build_sessions k (before ++ e ∷ after))) [
        | inr (y, g) ↦ ground (arith, h, split, g)
        | inl (xs, g) ↦
            let bad : is_readable c ≡ false =
              ground (arith, h, split, g, build_sessions-unreadable before after xs g) in
            parse-unreadable c bad
      ]
