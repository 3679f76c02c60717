-- ===== src/Orchestrator/Work.antt =====
-- packages/core/src/company/orchestrator.ts: sendTask. `dispatch` is the method of that name, which
-- the loop over the owner's events calls.
use agent_town.Prelude.{
  ℕ, zero, suc, String, Bool, true, false, Option, none, some, List, [], ◌∷◌, ◌==◌, string_eq,
  if◌then◌else◌,
}
use agent_town.Contract.Value.{str, field, end}
use agent_town.Contract.Task.{TaskRecord, running, failed, blocked, state_eq, ActionProposal}
use agent_town.Contract.Company.{EmployeeDefinition}
use agent_town.Contract.Agent.{
  AgentMessage, AgentEvent, action_proposed, session_exited, adapter_error, SessionCheckpoint,
}
use agent_town.Result.{Error, Result, ok, err, out_of_fuel, replacement_cleanup_failed}
use agent_town.Exec.{Exec, ◌>>=◌, ◌>>◌, pure, asks, lift, try_catch, raise}
use agent_town.Tasks.Service.{Method}
use agent_town.Orchestrator.{CompanyOrchestrator, Dispatcher, Sessions, Opening}
use agent_town.Orchestrator.Payload.{◌⧺◌}
use agent_town.Orchestrator.Calls.{
  record_event, record_approval_request, task_call, task_get, open_round, with_capacity,
  assert_epoch, if_current, assert_proposal_task,
}
use agent_town.Orchestrator.Review.{Loop}

-- acceptanceCriteria.join("; ")
unfoldable pub join_criteria : List String → String
join_criteria [] = ""
join_criteria (s ∷ []) = s
join_criteria (s ∷ ss) = s ⧺ "; " ⧺ join_criteria ss

-- #taskMessage
unfoldable pub task_message : String → TaskRecord → EmployeeDefinition → AgentMessage
task_message id t employee = record {
  message_id = id;
  employee_id = employee.id;
  task_id = some t.id;
  text = t.objective ⧺ "\nAcceptance criteria: " ⧺ join_criteria t.acceptance_criteria;
  action_request = none;
}

module _ (o : CompanyOrchestrator) where
  -- One event of the owner's stream; `rest` is the loop after it. `some failed` is its end.
  unfoldable pub on_work_event :
      (ActionProposal → Exec Dispatcher (Unit {0})) → String → ℕ → Loop → AgentEvent → Loop
  on_work_event dispatch task_id epoch rest (action_proposed action) =
      try_catch (lift (assert_proposal_task action task_id) >> dispatch action) (λ _. rest)
        (λ e. if_current epoch none (
          record_event o "action.rejected" "core" (some task_id)
            (field "actionId" (str action.action_id) (field "reason" (str (o.error_message e)) end))
          >> pure (some true)))
  on_work_event dispatch task_id epoch rest (adapter_error code message) = pure (some true)
  on_work_event dispatch task_id epoch rest (session_exited code) = pure (some true)
  on_work_event dispatch task_id epoch rest _ = rest

  unfoldable pub work_loop :
      (ActionProposal → Exec Dispatcher (Unit {0}))
      → String
      → ℕ
      → List (Exec Dispatcher AgentEvent)
      → Loop
  work_loop dispatch task_id epoch [] = pure (some false)
  work_loop dispatch task_id epoch (next ∷ stream) = do
    event ← next
    assert_epoch epoch
    on_work_event dispatch task_id epoch (work_loop dispatch task_id epoch stream) event

  -- The `catch` around the loop.
  unfoldable pub work_error : String → String → ℕ → Error → Loop
  work_error employee_id task_id epoch e = if_current epoch none (
      record_event o "task.execution_error" employee_id (some task_id)
        (field "reason" (str (o.error_message e)) end)
      >> pure (some true))

  unfoldable pub ask_for_recovery :
      String → EmployeeDefinition → ℕ → String → Error → Exec Dispatcher Bool
  ask_for_recovery task_id employee epoch reason e = if_current epoch false (
      record_approval_request o (some task_id) o.tasks.leader_id reason
        (field "employeeId" (str employee.id) (field "error" (str (o.error_message e)) end))
      >> pure false)

-- resumeError instanceof SessionReplacementCleanupError
abbrev pub is_cleanup_error : Error → Bool
is_cleanup_error replacement_cleanup_failed = true
is_cleanup_error _ = false

module _ (o : CompanyOrchestrator) (x : Sessions) where
  -- The inner `try`: a session that is built anew.
  unfoldable pub rebuild_session :
      EmployeeDefinition → String → String → ℕ → ℕ → Exec Dispatcher Bool
  rebuild_session employee handoff task_id epoch signal = if_current epoch false (
      try_catch (x.rebuild_one employee handoff signal >> assert_epoch epoch) (λ _. pure true)
        (ask_for_recovery o task_id employee epoch "session_recovery_failed"))

  unfoldable pub resume_error :
      EmployeeDefinition → String → String → ℕ → ℕ → Error → Exec Dispatcher Bool
  resume_error employee handoff task_id epoch signal e = elim (is_cleanup_error e) [
    | true ↦ ask_for_recovery o task_id employee epoch "session_replacement_cleanup_failed" e
    | false ↦ rebuild_session employee handoff task_id epoch signal
  ]

  -- A session for the next try: resumed, or else rebuilt. False where the method returns.
  unfoldable pub recover_session :
      EmployeeDefinition → SessionCheckpoint → String → ℕ → ℕ → Exec Dispatcher Bool
  recover_session employee checkpoint task_id epoch signal =
      try_catch (x.resume_one employee checkpoint signal >> assert_epoch epoch) (λ _. pure true)
        (resume_error employee checkpoint.handoff task_id epoch signal)

  unfoldable pub make_checkpoint :
      String → EmployeeDefinition → Dispatcher → Result SessionCheckpoint
  make_checkpoint task_id employee d = elim (x.get employee.id d) [
    | err e ↦ err e
    | ok handle ↦ ok (record {
      employee_id = employee.id;
      handle = handle;
      active_task_id = some task_id;
      handoff = "Retry " ⧺ task_id ⧺ " after Agent session failure";
    })
  ]

  -- The next try, after a retry was scheduled. False where the method returns.
  unfoldable pub try_again : EmployeeDefinition → String → ℕ → ℕ → Exec Dispatcher Bool
  try_again employee task_id epoch signal = do
    checkpoint ← asks (make_checkpoint task_id employee)
    recovered ← recover_session employee checkpoint task_id epoch signal
    elim recovered [
      | false ↦ pure false
      | true ↦
          with_capacity o task_id employee.id false
            (task_call o (λ id. Method.transition id task_id running employee.id) >> pure true)
    ]

  -- After a failed try: a retry, if one is left and there is a place. True where the loop goes on.
  unfoldable pub retry_task : EmployeeDefinition → String → ℕ → ℕ → Exec Dispatcher Bool
  retry_task employee task_id epoch signal = do
    task_call o (λ id. Method.transition id task_id failed employee.id)
    retried ← task_call o (λ id. Method.retry id task_id o.tasks.leader_id)
    elim (retried.status == blocked) [
      | true ↦
          record_approval_request o (some task_id) o.tasks.leader_id
            "task_execution_retry_exhausted" (field "employeeId" (str employee.id) end)
          >> pure false
      | false ↦ with_capacity o task_id employee.id false (try_again employee task_id epoch signal)
    ]

  -- After the stream: `some failed` is how it ended.
  unfoldable pub after_work :
      EmployeeDefinition → String → ℕ → ℕ → Option Bool → Exec Dispatcher Bool
  after_work employee task_id epoch signal none = pure false
  after_work employee task_id epoch signal (some has_failed) = if_current epoch false (do
    t ← task_get o task_id
    elim (t.status == running) [
      | false ↦ pure false
      | true ↦
          (if has_failed
            then pure tt
            else record_event o "task.execution_error" employee.id (some task_id)
                (field "reason" (str "session ended without a terminal action") end))
          >> retry_task employee task_id epoch signal
    ])

  -- The rest of a round of the loop of sendTask, from the call of sessions.send on. True where the
  -- loop goes on.
  unfoldable pub work_round :
      (ActionProposal → Exec Dispatcher (Unit {0}))
      → String
      → ℕ
      → ℕ
      → Opening
      → Exec Dispatcher Bool
  work_round dispatch task_id epoch signal opening = do
    has_failed ←
        try_catch
          (work_loop o dispatch task_id epoch (
            x.send opening.employee (task_message opening.message_id opening.task opening.employee)
              signal))
          pure (work_error o opening.employee.id task_id epoch)
    after_work opening.employee task_id epoch signal has_failed

  -- The loop of sendTask, of at most `fuel` rounds, from the first wait of a round on.
  unfoldable pub work_rounds :
      ℕ
      → (ActionProposal → Exec Dispatcher (Unit {0}))
      → String
      → ℕ
      → ℕ
      → Opening
      → Exec Dispatcher (Unit {0})
  work_rounds zero dispatch task_id epoch signal opening = raise out_of_fuel
  work_rounds (suc fuel) dispatch task_id epoch signal opening =
      work_round dispatch task_id epoch signal opening >>= λ goes_on. elim goes_on [
        | false ↦ pure tt
        | true ↦ open_round o task_id >>= work_rounds fuel dispatch task_id epoch signal
      ]

  -- sendTask(taskId, epoch, signal) from its first wait on, with the outcome of what ran before.
  unfoldable pub send_task :
      ℕ
      → (ActionProposal → Exec Dispatcher (Unit {0}))
      → String
      → ℕ
      → ℕ
      → Result Opening
      → Exec Dispatcher (Unit {0})
  send_task fuel dispatch task_id epoch signal opening =
      lift opening >>= work_rounds fuel dispatch task_id epoch signal
