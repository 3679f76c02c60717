-- ===== src/Checkpoint/Roster.antt =====
-- packages/core/src/lifecycle/checkpoint-service.ts: what a validated checkpoint says of the
-- employees.
use agent_town.Prelude.{
  String, ◌≡◌, true, some, inl, inr, List, [], ◌∷◌, ◌++◌, find, ◌==◌, string_eq, nat_eq, arith,
  Option-cases, ==_iff,
}
use agent_town.Contract.Company.{EmployeeDefinition}
use agent_town.Contract.Agent.{SessionCheckpoint, CompanyCheckpoint}
use agent_town.Result.{ok, guard, required, Result-cases}
use agent_town.Checkpoint.Build.{
  CheckpointService, check_session, check_sessions, validate_checkpoint, add_native, owns_task,
}

-- The session of an employee in a checkpoint: its own, on the employee's adapter, and its active
-- task is owned by the employee.
pub record IsSessionOf (k : CheckpointService) (sessions : List SessionCheckpoint)
    (e : EmployeeDefinition) : Type 0 where
  pub session : SessionCheckpoint
  pub found : find (λ x. x.employee_id == e.id) sessions ≡ some session
  pub own : session.handle.employee_id ≡ e.id
  pub on_adapter : session.handle.adapter ≡ e.agent
  pub owns : owns_task k e.id session.active_task_id ≡ true

check_session-IsSessionOf :
    (k : CheckpointService) (sessions : List SessionCheckpoint) (e : EmployeeDefinition)
    (s : SessionCheckpoint) (is js : List String)
    → find (λ x. x.employee_id == e.id) sessions ≡ some s
    → check_session k e s is js ≡ ok tt
    → IsSessionOf k sessions e
unfolding check_session guard
check_session-IsSessionOf k sessions e s is js f h = record {
  session = s;
  found = f;
  own = ground (arith, h, ==_iff s.handle.employee_id e.id);
  on_adapter = ground (arith, h, ==_iff s.handle.adapter e.agent);
  owns = ground (arith, h);
}

check_sessions-IsSessionOf :
    (k : CheckpointService) (sessions : List SessionCheckpoint)
    (before after : List EmployeeDefinition) (e : EmployeeDefinition) (is js : List String)
    → check_sessions k sessions (before ++ e ∷ after) is js ≡ ok tt
    → IsSessionOf k sessions e
unfolding check_sessions required
check_sessions-IsSessionOf k sessions [] after e is js h =
    elim (Option-cases (find (λ x. x.employee_id == e.id) sessions)) [
      | inl f ↦ ground (arith, f, h)
      | inr (s, f) ↦ elim (Result-cases (check_session k e s is js)) [
        | inl (u, g) ↦ check_session-IsSessionOf k sessions e s is js f g
        | inr (x, g) ↦ ground (arith, h, f, g)
      ]
    ]
check_sessions-IsSessionOf k sessions (b ∷ before) after e is js h =
    elim (Option-cases (find (λ x. x.employee_id == b.id) sessions)) [
      | inl f ↦ ground (arith, f, h)
      | inr (s, f) ↦
          let is' = s.handle.internal_session_id ∷ is in
          let js' = add_native s.handle.native_session_id js in
          elim (Result-cases (check_session k b s is js)) [
            | inl (u, g) ↦
                check_sessions-IsSessionOf k sessions before after e is' js'
                  (ground (arith, h, f, g))
            | inr (x, g) ↦ ground (arith, h, f, g)
          ]
    ]

-- In a checkpoint that passes the validation every employee has its own session, on its adapter and
-- with an active task, if any, that it owns.
pub validate_checkpoint-IsSessionOf :
    (k : CheckpointService) (c : CompanyCheckpoint) (before after : List EmployeeDefinition)
    (e : EmployeeDefinition)
    → k.company.employees ≡ before ++ e ∷ after
    → validate_checkpoint k c ≡ ok tt
    → IsSessionOf k c.sessions e
unfolding validate_checkpoint guard
validate_checkpoint-IsSessionOf k c before after e split h =
    check_sessions-IsSessionOf k c.sessions before after e [] [] (ground (arith, h, split))
