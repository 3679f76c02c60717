-- ===== src/Checkpoint/Lifecycle/Recover.antt =====
-- packages/core/src/lifecycle/checkpoint-service.ts: #recover, with what it commits when it is blocked.
use agent_town.Prelude.{
  ℕ, ◌-◌, ◌/◌, String, Bool, true, false, ◌&&◌, Option, none, some, List, [], ◌∷◌, ◌++◌, find,
  is_empty, max, ◌==◌, string_eq,
}
use agent_town.Contract.Value.{
  Fields, Items, no_items, item, obj, str, num, arr, nullable, field, end,
}
use agent_town.Contract.Company.{CompanyDefinition, EmployeeDefinition}
use agent_town.Contract.Agent.{SessionHandle, SessionCheckpoint, CompanyCheckpoint}
use agent_town.Result.{
  Error, Result, ok, err, guard, required, malformed, recovery_blocked, not_eligible,
}
use agent_town.Exec.{Exec, ◌>>=◌, ◌>>◌, pure, asks, modify, raise, lift, try_catch}
use agent_town.Orchestrator.Payload.{◌⧺◌}
use agent_town.Storage.Schema.{NewEvent}
use agent_town.Storage.Companies.{get_company}
use agent_town.Sessions.{Manager, StopOutcome, new_event}
use agent_town.Sessions.Replace.{resume_one, rebuild_one}
use agent_town.Sessions.Start.{scenario_of}
use agent_town.Sessions.Stop.{stop_all_bounded}
use agent_town.Checkpoint.Lifecycle.{
  Lifecycle, abort, deadline, new_controller, company_id, core_event, commit_status,
}
use agent_town.Checkpoint.Lifecycle.Cleanup.{all_stopped, not_stopped, stop_until}
use agent_town.Checkpoint.Lifecycle.Approvals.{invalid_checkpoint_approval, recovery_approval}

pub data RecoveryMode : Type 0 where
  native rebuilt : RecoveryMode

-- RecoveryDecision
pub record RecoveryDecision : Type 0 where
  pub employee_id : String
  pub mode : RecoveryMode

abbrev pub mode_text : RecoveryMode → String
mode_text native = "native"
mode_text rebuilt = "rebuilt"

abbrev pub mode_of : Bool → RecoveryMode
mode_of true = native
mode_of false = rebuilt

abbrev recovered_type : RecoveryMode → String
recovered_type native = "session.recovered"
recovered_type rebuilt = "session.rebuilt"

unfoldable pub decision_items : List RecoveryDecision → Items
decision_items [] = no_items
decision_items (d ∷ ds) =
    item (obj (field "employeeId" (str d.employee_id) (field "mode" (str (mode_text d.mode)) end)))
      (decision_items ds)

abbrev recovered_fields : RecoveryMode → SessionCheckpoint → SessionHandle → Fields
recovered_fields mode session handle = field "mode" (str (mode_text mode)) (
    field "previousNativeSessionId" (nullable session.handle.native_session_id) (
      field "nativeSessionId" (nullable handle.native_session_id) (
        field "activeTaskId" (nullable session.active_task_id)
          (field "handoff" (str session.handoff) end))))

abbrev pub has_native : SessionCheckpoint → Bool
has_native session = elim session.handle.native_session_id [ none ↦ false | some _ ↦ true ]

-- `decisions` and `decisionEvents`
pub record Progress : Type 0 where
  pub decisions : List RecoveryDecision
  pub events : List NewEvent

abbrev status_text : Option String → String
status_text none = "missing"
status_text (some status) = status

abbrev pub status_of : String → Manager → Option String
status_of id m = elim (get_company m.store id) [ none ↦ none | some row ↦ some row.status ]

abbrev pub is_paused : Option String → Bool
is_paused none = false
is_paused (some status) = status == "paused"

-- if (status !== "paused") throw new Error(`company is not eligible for recovery: …`)
abbrev pub check_eligible : Option String → Result (Unit {0})
check_eligible status = guard (is_paused status) (not_eligible (status_text status))

abbrev is_given : Option String → Bool
is_given none = false
is_given (some _) = true

module _ (l : Lifecycle) where
  abbrev pub saved_session : CompanyCheckpoint → EmployeeDefinition → Result SessionCheckpoint
  saved_session checkpoint employee =
      required (find (λ s. s.employee_id == employee.id) checkpoint.sessions)
        (malformed ("checkpoint session missing: " ⧺ employee.id))

  -- The session of an employee, resumed if its adapter can and has its native id, else rebuilt
  unfoldable pub restore :
      EmployeeDefinition → SessionCheckpoint → RecoveryMode → ℕ → Exec Manager SessionHandle
  unfolding resume_one rebuild_one
  restore employee session native signal =
      resume_one l.sessions employee session (some signal) (scenario_of l.scenarios employee.id)
  restore employee session rebuilt signal =
      rebuild_one l.sessions employee session.handoff (some signal)
        (scenario_of l.scenarios employee.id)

  -- The body of the loop of #recover
  unfoldable pub recover_employee :
      CompanyCheckpoint → ℕ → EmployeeDefinition → Progress → Exec Manager Progress
  unfolding restore
  recover_employee checkpoint signal employee p = do
    session ← lift (saved_session checkpoint employee)
    supported ← (l.sessions.adapter_for employee.agent).native_resume
    let mode = mode_of (supported && has_native session)
    handle ← restore employee session mode signal
    event ←
        new_event l.sessions (recovered_type mode) employee.id session.active_task_id
          (recovered_fields mode session handle)
    pure (record {
      decisions = p.decisions ++ record { employee_id = employee.id; mode = mode } ∷ [];
      events = p.events ++ event ∷ [];
    })

  -- The loop. An error comes with the employee that was current.
  unfoldable pub recover_each :
      CompanyCheckpoint
      → ℕ
      → String
      → List EmployeeDefinition
      → Progress
      → Exec Manager (Result Progress × String)
  unfolding recover_employee
  recover_each checkpoint signal current [] p = pure (ok p, current)
  recover_each checkpoint signal current (employee ∷ rest) p =
      try_catch (recover_employee checkpoint signal employee p)
        (recover_each checkpoint signal employee.id rest) (λ error. pure (err error, employee.id))

  -- The end of the `try` of #recover
  unfoldable pub finish_recovery : ℕ → Progress → Exec Manager (List RecoveryDecision)
  unfolding decision_items commit_status abort
  finish_recovery signal p = do
    recovered ←
        core_event l "company.recovered" (field "decisions" (arr (decision_items p.decisions)) end)
    commit_status l "running" (p.events ++ recovered ∷ [])
    l.resume_dispatching
    l.recover_work
    modify (abort signal)
    pure p.decisions

  -- #commitRecoveryBlocked
  unfoldable pub commit_recovery_blocked :
      String → Error → Option String → Bool → Exec Manager (Unit {0})
  unfolding commit_status invalid_checkpoint_approval recovery_approval
  commit_recovery_blocked employee_id error cleanup_error invalid_checkpoint = do
    let text = l.sessions.error_message error
    let cleanup = is_given cleanup_error
    blocked ← core_event l "company.recovery_blocked" (
        field "employeeId" (str employee_id)
          (field "error" (str text) (field "cleanupError" (nullable cleanup_error) end)))
    request ← core_event l "user.approval.requested" (elim invalid_checkpoint [
      | true ↦ invalid_checkpoint_approval text
      | false ↦ recovery_approval cleanup employee_id text
    ])
    commit_status l "blocked" (blocked ∷ request ∷ [])

  -- #blockInvalidRecovery
  unfoldable pub block_invalid_recovery : String → Error → Exec Manager (List RecoveryDecision)
  unfolding commit_recovery_blocked
  block_invalid_recovery employee_id error =
      commit_recovery_blocked employee_id error none true >> raise (recovery_blocked employee_id)

  -- The two calls of stopAllBounded in the `catch` of #recover
  unfoldable pub clean_up_recovery : Exec Manager (List StopOutcome)
  unfolding stop_until deadline abort all_stopped
  clean_up_recovery = do
    d ← deadline l.pause_timeout_ms
    now ← asks (λ m. ok m.now)
    graceful ← stop_until l (max now (d.at - l.pause_timeout_ms / 2)) false d
    outcomes ← elim (all_stopped graceful) [
      | true ↦ pure graceful
      | false ↦ stop_all_bounded l.sessions d.controller true d.at
    ]
    modify (abort d.controller)
    pure outcomes

  -- `recovery cleanup incomplete: …`, if a session is not stopped; the outcomes are left out.
  abbrev cleanup_error : List StopOutcome → Option String
  cleanup_error outcomes = elim (is_empty (not_stopped outcomes)) [
    | true ↦ none
    | false ↦ some "recovery cleanup incomplete"
  ]

  -- The `catch` of #recover
  unfoldable pub fail_recovery : ℕ → String → Error → Exec Manager (List RecoveryDecision)
  unfolding clean_up_recovery commit_recovery_blocked
  fail_recovery signal current error = do
    modify (abort signal)
    outcomes ← clean_up_recovery
    commit_recovery_blocked current error (cleanup_error outcomes) false
    raise (recovery_blocked current)

  abbrev settle_recovery : ℕ → Result Progress × String → Exec Manager (List RecoveryDecision)
  settle_recovery signal (ok p, current) =
      try_catch (finish_recovery signal p) pure (fail_recovery signal current)
  settle_recovery signal (err error, current) = fail_recovery signal current error

  -- #recover(checkpoint, company)
  unfoldable pub recover :
      CompanyCheckpoint → CompanyDefinition → Exec Manager (List RecoveryDecision)
  unfolding commit_status new_controller recover_each finish_recovery fail_recovery
  recover checkpoint company = do
    asks (λ m. check_eligible (status_of (company_id l) m))
    l.stop_dispatching
    starting ←
        core_event l "company.starting"
          (field "checkpointSequence" (num checkpoint.last_event_sequence) end)
    commit_status l "starting" (starting ∷ [])
    signal ← new_controller
    result ←
        recover_each checkpoint signal "unknown" company.employees
          (record { decisions = []; events = [] })
    settle_recovery signal result
