-- ===== src/Tasks/Effects.antt =====
-- What a call of a TaskService method does to the store: its decision is written whole, or nothing.
use agent_town.Prelude.{◌≡◌, inl, inr, arith}
use agent_town.Contract.Task.{TaskRecord}
use agent_town.Result.{ok, Result-cases}
use agent_town.Storage.Transaction.{Store}
use agent_town.Storage.Tasks.Put.{put_outcome, put_task-commit}
use agent_town.Tasks.Rules.{TaskService}
use agent_town.Tasks.Decide.{Decision}
use agent_town.Tasks.Service.{Method, decide, call}

-- A call that wrote its decision.
pub record Wrote (svc : TaskService) (m : Method) (s s' : Store) (t : TaskRecord) : Type 0 where
  pub decision : Decision
  pub decided : decide svc m s ≡ ok decision
  pub written : put_outcome svc.company_id decision.task decision.events s ≡ ok s'
  pub returned : t ≡ decision.task

module _ (svc : TaskService) (m : Method) (s : Store) where
  pub call-ok : (t : TaskRecord) (s' : Store) → call svc m s ≡ (ok t, s') → Wrote svc m s s' t
  unfolding call
  call-ok t s' h = elim (Result-cases (decide svc m s)) [
    | inr (e, hd) ↦ ground arith
    | inl (d, hd) ↦ elim (Result-cases (put_outcome svc.company_id d.task d.events s)) [
      | inr (e, hp) ↦ ground (arith, put_task-commit svc.company_id d.task d.events s)
      | inl (s'', hp) ↦
          let p = put_task-commit svc.company_id d.task d.events s in
          record {
            decision = d;
            decided = hd;
            written = ground (arith, p);
            returned = ground (arith, p);
          }
    ]
  ]

-- The store after a call: the same, or with one decision written.
pub data Effect (svc : TaskService) (m : Method) (s s' : Store) : Type 0 where
  nothing : s' ≡ s → Effect svc m s s'
  one :
      (d : Decision)
      → decide svc m s ≡ ok d
      → put_outcome svc.company_id d.task d.events s ≡ ok s'
      → Effect svc m s s'

pub call-Effect : (svc : TaskService) (m : Method) (s : Store) → Effect svc m s (call svc m s).1
unfolding call
call-Effect svc m s = elim (Result-cases (decide svc m s)) [
  | inr (e', hd) ↦ nothing (rw hd)
  | inl (d, hd) ↦
      let p = put_task-commit svc.company_id d.task d.events s in
      elim (Result-cases (put_outcome svc.company_id d.task d.events s)) [
        | inr (e', hp) ↦ nothing (ground (arith, p))
        | inl (s'', hp) ↦ one d hd (ground (arith, p))
      ]
]
