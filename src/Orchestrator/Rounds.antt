-- ===== src/Orchestrator/Rounds.antt =====
-- sendTask keeps every predicate that the orchestrator's ways of writing keep.
use agent_town.Prelude.{
  ℕ, zero, suc, String, Bool, true, false, Option, none, some, List, [], ◌∷◌, ◌==◌, refl,
}
use agent_town.Contract.Task.{running, blocked, state_eq, ActionProposal}
use agent_town.Contract.Company.{EmployeeDefinition}
use agent_town.Contract.Agent.{
  AgentEvent, SessionCheckpoint, session_started, output_delta, output_completed, action_proposed,
  usage_updated, session_interrupted, session_exited, adapter_error,
}
use agent_town.Result.{Error, Result}
use agent_town.Exec.{Exec}
use agent_town.Storage.Transaction.{Store}
use agent_town.Orchestrator.{CompanyOrchestrator, Dispatcher, Sessions, Opening}
use agent_town.Orchestrator.Review.{Loop}
use agent_town.Orchestrator.Work.{
  on_work_event, work_loop, work_error, ask_for_recovery, rebuild_session, resume_error,
  is_cleanup_error, recover_session, make_checkpoint, try_again, retry_task, after_work, work_round,
  work_rounds, send_task,
}
use agent_town.Orchestrator.Kept.{
  IsKept, Respects, AllKeep, Keeps, Keeps-lift, Keeps-asks, Keeps-bind, Keeps-seq, Keeps-pure,
  Keeps-raise, Keeps-if, Keeps-test, Keeps-try,
}
use agent_town.Orchestrator.Shared.{
  record_event-Keeps, record_approval_request-Keeps, with_capacity-Keeps, Keeps-with_place,
  task_call-Keeps, start_call-Keeps, assert_epoch-Keeps, if_current-Keeps, task_get-Keeps,
  open_round-Keeps,
}

module _ (o : CompanyOrchestrator) {P : Store → Type 0} (k : IsKept o P) where
  module _ (dispatch : ActionProposal → Exec Dispatcher (Unit {0}))
      (keeps_dispatch : (a : ActionProposal) → Keeps P (dispatch a)) where
    on_work_event-Keeps :
        (task_id : String) (epoch : ℕ) (rest : Loop)
        → Keeps P rest
        → (event : AgentEvent) → Keeps P (on_work_event o dispatch task_id epoch rest event)
    unfolding on_work_event
    on_work_event-Keeps task_id epoch rest l (action_proposed action) =
        Keeps-try (Keeps-seq (Keeps-lift _) (keeps_dispatch action)) (λ _. l)
          (λ e.
            if_current-Keeps epoch none
              (Keeps-seq (record_event-Keeps o k _ _ _ _) (Keeps-pure (some true))))
    on_work_event-Keeps task_id epoch rest l (adapter_error code message) = Keeps-pure (some true)
    on_work_event-Keeps task_id epoch rest l (session_exited code) = Keeps-pure (some true)
    on_work_event-Keeps task_id epoch rest l (session_started h) = l
    on_work_event-Keeps task_id epoch rest l (output_delta t) = l
    on_work_event-Keeps task_id epoch rest l (output_completed t) = l
    on_work_event-Keeps task_id epoch rest l (usage_updated a b c) = l
    on_work_event-Keeps task_id epoch rest l (session_interrupted t) = l

    work_loop-Keeps :
        (task_id : String) (epoch : ℕ) (stream : List (Exec Dispatcher AgentEvent))
        → AllKeep P stream
        → Keeps P (work_loop o dispatch task_id epoch stream)
    unfolding work_loop
    work_loop-Keeps task_id epoch [] w = Keeps-pure (some false)
    work_loop-Keeps task_id epoch (next ∷ stream) w = Keeps-bind (w.0) (λ event.
        Keeps-seq (assert_epoch-Keeps epoch)
          (on_work_event-Keeps task_id epoch _ (work_loop-Keeps task_id epoch stream w.1) event))

  work_error-Keeps :
      (employee_id task_id : String) (epoch : ℕ) (e : Error)
      → Keeps P (work_error o employee_id task_id epoch e)
  unfolding work_error
  work_error-Keeps employee_id task_id epoch e =
      if_current-Keeps epoch none
        (Keeps-seq (record_event-Keeps o k _ _ _ _) (Keeps-pure (some true)))

  ask_for_recovery-Keeps :
      (task_id : String) (employee : EmployeeDefinition) (epoch : ℕ) (reason : String) (e : Error)
      → Keeps P (ask_for_recovery o task_id employee epoch reason e)
  unfolding ask_for_recovery
  ask_for_recovery-Keeps task_id employee epoch reason e =
      if_current-Keeps epoch false
        (Keeps-seq (record_approval_request-Keeps o k _ _ _ _) (Keeps-pure false))

  module _ (x : Sessions) (w : Respects P x) (employee : EmployeeDefinition) (task_id : String)
      (epoch signal : ℕ) where
    rebuild_session-Keeps :
        (handoff : String) → Keeps P (rebuild_session o x employee handoff task_id epoch signal)
    unfolding rebuild_session
    rebuild_session-Keeps handoff = if_current-Keeps epoch false (
        Keeps-try (Keeps-seq (w.rebuild_one employee handoff signal) (assert_epoch-Keeps epoch))
          (λ _. Keeps-pure true) (ask_for_recovery-Keeps task_id employee epoch _))

    resume_error-Keeps :
        (handoff : String) (e : Error)
        → Keeps P (resume_error o x employee handoff task_id epoch signal e)
    unfolding resume_error
    resume_error-Keeps handoff e =
        Keeps-if (is_cleanup_error e) (ask_for_recovery-Keeps task_id employee epoch _ e)
          (rebuild_session-Keeps handoff)

    recover_session-Keeps :
        (checkpoint : SessionCheckpoint)
        → Keeps P (recover_session o x employee checkpoint task_id epoch signal)
    unfolding recover_session
    recover_session-Keeps checkpoint =
        Keeps-try (Keeps-seq (w.resume_one employee checkpoint signal) (assert_epoch-Keeps epoch))
          (λ _. Keeps-pure true) (resume_error-Keeps checkpoint.handoff)

    try_again-Keeps : Keeps P (try_again o x employee task_id epoch signal)
    unfolding try_again
    try_again-Keeps = Keeps-bind (Keeps-asks (make_checkpoint o x task_id employee)) (λ checkpoint.
        Keeps-bind (recover_session-Keeps checkpoint) (λ recovered.
          Keeps-if recovered
            (with_capacity-Keeps o k task_id employee.id false
              (Keeps-seq (start_call-Keeps o k task_id employee.id) (Keeps-pure true)))
            (Keeps-pure false)))

    retry_task-Keeps : Keeps P (retry_task o x employee task_id epoch signal)
    unfolding retry_task
    retry_task-Keeps = Keeps-seq (task_call-Keeps o k _ (λ id. tt) (λ id. refl)) (
        Keeps-bind (task_call-Keeps o k _ (λ id. tt) (λ id. tt)) (λ retried.
          Keeps-if (retried.status == blocked)
            (Keeps-seq (record_approval_request-Keeps o k _ _ _ _) (Keeps-pure false))
            (with_capacity-Keeps o k task_id employee.id false
              (Keeps-with_place o k try_again-Keeps))))

    after_work-Keeps :
        (ended : Option Bool) → Keeps P (after_work o x employee task_id epoch signal ended)
    unfolding after_work
    after_work-Keeps none = Keeps-pure false
    after_work-Keeps (some has_failed) = if_current-Keeps epoch false (
        Keeps-bind (task_get-Keeps o task_id) (λ t.
          Keeps-if (t.status == running)
            (Keeps-seq (Keeps-test has_failed (Keeps-pure tt) (record_event-Keeps o k _ _ _ _))
              retry_task-Keeps)
            (Keeps-pure false)))

  module _ (dispatch : ActionProposal → Exec Dispatcher (Unit {0}))
      (keeps_dispatch : (a : ActionProposal) → Keeps P (dispatch a)) (x : Sessions)
      (w : Respects P x) (task_id : String) (epoch signal : ℕ) where
    work_round-Keeps :
        (opening : Opening) → Keeps P (work_round o x dispatch task_id epoch signal opening)
    unfolding work_round
    work_round-Keeps opening =
        Keeps-bind
          (Keeps-try
            (work_loop-Keeps dispatch keeps_dispatch task_id epoch _
              (w.send opening.employee _ signal))
            Keeps-pure (work_error-Keeps opening.employee.id task_id epoch))
          (after_work-Keeps x w opening.employee task_id epoch signal)

    work_rounds-Keeps :
        (fuel : ℕ) (opening : Opening)
        → Keeps P (work_rounds o x fuel dispatch task_id epoch signal opening)
    unfolding work_rounds
    work_rounds-Keeps zero opening = Keeps-raise _
    work_rounds-Keeps (suc fuel) opening = Keeps-bind (work_round-Keeps opening) (λ goes_on.
        Keeps-if goes_on (Keeps-bind (open_round-Keeps o task_id) (work_rounds-Keeps fuel))
          (Keeps-pure tt))

    pub send_task-Keeps :
        (fuel : ℕ) (opening : Result Opening)
        → Keeps P (send_task o x fuel dispatch task_id epoch signal opening)
    unfolding send_task
    send_task-Keeps fuel opening = Keeps-bind (Keeps-lift opening) (work_rounds-Keeps fuel)
