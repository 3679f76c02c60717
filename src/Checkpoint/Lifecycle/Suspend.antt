-- ===== src/Checkpoint/Lifecycle/Suspend.antt =====
-- packages/core/src/lifecycle/checkpoint-service.ts: #suspend, with what it commits when it fails.
use agent_town.Prelude.{
  ℕ, ◌*◌, ◌/◌, String, Bool, true, false, not, Option, none, some, List, [], ◌∷◌, ◌++◌, map, filter,
  is_empty, max, length,
}
use agent_town.Contract.Value.{Fields, obj, str, num, arr, strings, field, end}
use agent_town.Contract.Agent.{CompanyCheckpoint, PauseReason}
use agent_town.Result.{Error, ok, pause_failed}
use agent_town.Exec.{Exec, ◌>>=◌, ◌>>◌, pure, asks, modify, raise, try_catch, try_finally}
use agent_town.Storage.Schema.{NewEvent, StoredCheckpoint}
use agent_town.Storage.Companies.{
  TerminalStatus, paused, stopped, commit_pause_facts, commit_suspension_facts,
}
use agent_town.Checkpoint.Payload.{checkpoint_value, reason_text}
use agent_town.Checkpoint.Build.{build_checkpoint}
use agent_town.Sessions.{
  Manager, Owner, OwnerKind, StopOutcome, InterruptOutcome, InterruptStatus, on_store, random_uuid,
  new_event,
}
use agent_town.Sessions.Stop.{interrupt_all}
use agent_town.Checkpoint.Lifecycle.{
  Lifecycle, Deadline, abort, deadline, remaining, phase_signal, company_id, service, core_event,
  commit_status, log,
}
use agent_town.Checkpoint.Lifecycle.Cleanup.{owners, cleanup_within_deadline}
use agent_town.Checkpoint.Lifecycle.Approvals.{
  outcome_fields, stop_status_text, interrupt_status_text, pause_approval, stop_approval,
  failure_fields,
}

-- checkpoint as unknown as Record<string, unknown>
unfoldable pub checkpoint_fields : CompanyCheckpoint → Fields
unfolding checkpoint_value
checkpoint_fields c = elim (checkpoint_value c) [ obj fields ↦ fields | _ ↦ end ]

abbrev pub transitioning_status : TerminalStatus → String
transitioning_status paused = "pausing"
transitioning_status stopped = "stopping"

abbrev pub transition_type : TerminalStatus → String
transition_type paused = "company.pausing"
transition_type stopped = "company.stopping"

abbrev pub terminal_type : TerminalStatus → String
terminal_type paused = "company.paused"
terminal_type stopped = "company.stopped"

abbrev failure_types : TerminalStatus → String
failure_types paused = "company.pause_failed"
failure_types stopped = "company.stop_failed"

abbrev approval : TerminalStatus → Bool → List StopOutcome → Fields
approval paused = pause_approval
approval stopped = stop_approval

abbrev pub is_pending : Owner → Bool
is_pending o = elim o.kind [ OwnerKind.pending_replacement ↦ true | _ ↦ false ]

abbrev pub reason_fields : PauseReason → Fields
reason_fields reason = field "reason" (str (reason_text reason)) end

-- Math.max(1, Math.floor(this.#remaining(deadline) * 0.3))
abbrev pub phase_ms : Deadline → Manager → ℕ
phase_ms d m = max 1 (remaining d m * 3 / 10)

module _ (l : Lifecycle) where
  -- #recordInterruptOutcomes
  unfoldable pub record_interrupt_outcomes : List InterruptOutcome → Exec Manager (Unit {0})
  unfolding log interrupt_status_text
  record_interrupt_outcomes [] = pure tt
  record_interrupt_outcomes (o ∷ os) = elim o.status [
    | InterruptStatus.interrupted ↦ record_interrupt_outcomes os
    | status ↦
        (new_event l.sessions
            (elim status [
              | InterruptStatus.aborted ↦ "company.pause_timeout"
              | _ ↦ "session.interrupt_failed"
            ])
            o.employee_id none (outcome_fields o.employee_id (interrupt_status_text status) o.error)
          >>= log l)
        >> record_interrupt_outcomes os
  ]

  unfoldable pub stop_failure_events : List StopOutcome → Exec Manager (List NewEvent)
  unfolding stop_status_text
  stop_failure_events [] = pure []
  stop_failure_events (o ∷ os) = do
    event ←
        new_event l.sessions "session.stop_failed" o.employee_id none
          (outcome_fields o.employee_id (stop_status_text o.status) o.error)
    events ← stop_failure_events os
    pure (event ∷ events)

  -- #commitSuspensionFailure; `cleanup` is whether the reason is cleanup_failed
  unfoldable pub commit_suspension_failure :
      List StopOutcome → TerminalStatus → Bool → Option String → Exec Manager (Unit {0})
  unfolding stop_failure_events commit_status pause_approval stop_approval failure_fields
  commit_suspension_failure outcomes terminal_status cleanup cause = do
    failures ← stop_failure_events outcomes
    failure ← core_event l (failure_types terminal_status) (failure_fields outcomes cause)
    request ← core_event l "user.approval.requested" (approval terminal_status cleanup outcomes)
    commit_status l "blocked" (failures ++ failure ∷ request ∷ [])

  -- `await` of a call that is given a signal of one of the phases
  unfoldable pub in_phase : {A : Type 0} → Deadline → (ℕ → Exec Manager A) → Exec Manager A
  unfolding phase_signal abort
  in_phase d work = do
    max_ms ← asks (λ m. ok (phase_ms d m))
    signal ← phase_signal d max_ms
    result ← work signal
    modify (abort signal)
    pure result

  -- The event company.pause_timeout, if it did not come to rest
  unfoldable pub record_timeout : Bool → List Owner → Exec Manager (Unit {0})
  unfolding log
  record_timeout true [] = pure tt
  record_timeout quiesced pending =
      core_event l "company.pause_timeout" (
        field "phase"
          (str (elim (is_empty pending) [ true ↦ "quiesce" | false ↦ "pending_replacement" ]))
          (field "timeoutMs" (num l.pause_timeout_ms)
            (field "pendingEmployees" (arr (strings (map (λ o. o.employee_id) pending))) end)))
      >>= log l

  -- this.#store.commitPauseFacts(…) or commitSuspensionFacts(…)
  unfoldable pub commit_facts :
      TerminalStatus → StoredCheckpoint → NewEvent → NewEvent → Exec Manager (Unit {0})
  commit_facts paused stored checkpointed terminal m =
      on_store (commit_pause_facts stored checkpointed terminal (l.sessions.iso m.now)) m
  commit_facts stopped stored checkpointed terminal m =
      on_store (commit_suspension_facts stored checkpointed stopped terminal (l.sessions.iso m.now))
        m

  -- #buildCheckpoint and the commit of what it returns
  unfoldable pub commit_checkpoint : PauseReason → TerminalStatus → Exec Manager CompanyCheckpoint
  unfolding commit_facts checkpoint_fields
  commit_checkpoint reason terminal_status = do
    checkpoint ← asks (λ m. build_checkpoint (service l m) reason)
    id ← random_uuid l.sessions
    now ← asks (λ m. ok m.now)
    checkpointed ← core_event l "company.checkpointed" (
        field "reason" (str (reason_text reason)) (
          field "lastEventSequence" (num checkpoint.last_event_sequence)
            (field "sessionCount" (num (length checkpoint.sessions)) end)))
    terminal ← core_event l (terminal_type terminal_status) (reason_fields reason)
    commit_facts terminal_status
        (record {
          id = id;
          company_id = company_id l;
          created_at = l.sessions.iso now;
          payload = checkpoint_fields checkpoint;
        })
        checkpointed terminal
    pure checkpoint

  -- The `try` of #suspend up to the cleanup
  unfoldable pub save : PauseReason → TerminalStatus → Deadline → Exec Manager CompanyCheckpoint
  unfolding commit_status in_phase record_interrupt_outcomes record_timeout commit_checkpoint
  save reason terminal_status d = do
    l.stop_dispatching
    transition ← core_event l (transition_type terminal_status) (reason_fields reason)
    commit_status l (transitioning_status terminal_status) (transition ∷ [])
    outcomes ← in_phase d (λ signal. interrupt_all l.sessions (some signal))
    record_interrupt_outcomes outcomes
    quiesced ← in_phase d l.quiesce
    pending ← asks (λ m. ok (filter is_pending (owners m)))
    record_timeout quiesced pending
    commit_checkpoint reason terminal_status

  -- Its end, and what the `catch` does unless the error is a PauseFailedError
  unfoldable pub finish_suspension :
      ℕ → TerminalStatus → Deadline → CompanyCheckpoint → Exec Manager CompanyCheckpoint
  unfolding cleanup_within_deadline commit_suspension_failure
  finish_suspension fuel terminal_status d checkpoint = do
    failed ← cleanup_within_deadline l fuel d
    elim (is_empty failed) [
      | true ↦ pure checkpoint
      | false ↦ commit_suspension_failure failed terminal_status true none >> raise pause_failed
    ]

  unfoldable pub fail_suspension :
      ℕ → TerminalStatus → Deadline → Error → Exec Manager CompanyCheckpoint
  unfolding cleanup_within_deadline commit_suspension_failure
  fail_suspension fuel terminal_status d pause_failed = raise pause_failed
  fail_suspension fuel terminal_status d error = do
    cleanup ← cleanup_within_deadline l fuel d
    commit_suspension_failure cleanup terminal_status (not (is_empty cleanup))
        (some (l.sessions.error_message error))
    raise error

  -- #suspend(reason, terminalStatus)
  unfoldable pub suspend : ℕ → PauseReason → TerminalStatus → Exec Manager CompanyCheckpoint
  unfolding deadline abort save finish_suspension fail_suspension
  suspend fuel reason terminal_status = do
    d ← deadline l.pause_timeout_ms
    try_finally
        (try_catch (save reason terminal_status d >>= finish_suspension fuel terminal_status d) pure
          (fail_suspension fuel terminal_status d))
        (abort d.controller)

  -- What stop() runs
  unfoldable pub suspend_stopped : ℕ → Exec Manager (Unit {0})
  unfolding suspend
  suspend_stopped fuel = suspend fuel PauseReason.shutdown stopped >> pure tt
