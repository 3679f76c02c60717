-- ===== src/Sessions/Stop.antt =====
-- packages/core/src/agents/session-manager.ts: interruptAll, stopAll and stopAllBounded. The promises
-- of a Promise.all settle one after the other, in the order of the list.
use agent_town.Prelude.{
  ℕ, String, Bool, true, false, ◌||◌, Option, none, some, List, [], ◌∷◌, ◌++◌, map, is_empty,
  includes, leb, nat_eq,
}
use agent_town.Prelude.Table.{Table}
use agent_town.Contract.Value.{bool, str, field, end}
use agent_town.Contract.Agent.{SessionHandle}
use agent_town.Result.{Result, ok, err, failed_to_stop}
use agent_town.Exec.{Exec, ◌>>=◌, ◌>>◌, pure, asks, modify, raise, try_catch}
use agent_town.Orchestrator.Payload.{◌⧺◌}
use agent_town.Server.Requests.{join}
use agent_town.Sessions.{
  SessionManager, Manager, AgentAdapter, Key, PendingReplacement, is_aborted, new_event, put,
  InterruptOutcome, InterruptStatus, StopOutcome, StopStatus,
}
use agent_town.Sessions.Handles.{
  Candidate, delete_handle, delete_current, delete_unavailable, cancel_pending_replacements,
  collect_stop_candidates,
}

abbrev raced : {A : Type 0} → Bool → Result A → Result (Option A)
raced true r = ok none
raced false (ok a) = ok (some a)
raced false (err e) = err e

abbrev pub until_abort : SessionManager → ℕ → Exec Manager Bool
until_abort k signal m = let (is_first, m') = k.abort_first signal m in (ok is_first, m')

-- The operation settles; if the signal was aborted by then, the signal has won.
unfoldable pub settle_race : {A : Type 0} → Exec Manager A → ℕ → Exec Manager (Option A)
settle_race operation signal m =
    let (r, m') = operation m in (raced (is_aborted (some signal) m') r, m')

-- #raceAbort(operation, signal): it returns null at once when the signal is aborted, also if the
-- operation has not settled by then or never does.
unfoldable pub race_abort :
    {A : Type 0} → SessionManager → Exec Manager A → Option ℕ → Exec Manager (Option A)
unfolding settle_race
race_abort k operation none = operation >>= λ a. pure (some a)
race_abort k operation (some signal) = do
  aborted ← asks (λ m. ok (is_aborted (some signal) m))
  elim aborted [
    | true ↦ pure none
    | false ↦ until_abort k signal >>= λ is_first. elim is_first [
      | true ↦ pure none
      | false ↦ settle_race operation signal
    ]
  ]

abbrev pub interrupt_outcome : String → InterruptStatus → String → InterruptOutcome
interrupt_outcome employee_id status error = record {
  employee_id = employee_id;
  status = status;
  error = some error;
}

abbrev pub interrupt_aborted : String → InterruptOutcome
interrupt_aborted employee_id =
    interrupt_outcome employee_id InterruptStatus.aborted "interruption aborted"

abbrev pub stop_aborted : String → StopOutcome
stop_aborted employee_id = record {
  employee_id = employee_id;
  status = StopStatus.aborted;
  error = some "stop aborted";
}

abbrev pub stop_failed : String → String → StopOutcome
stop_failed employee_id error = record {
  employee_id = employee_id;
  status = StopStatus.failed;
  error = some error;
}

abbrev pub stop_done : String → StopOutcome
stop_done employee_id = record {
  employee_id = employee_id;
  status = StopStatus.stopped;
  error = none;
}

-- signal.aborted || Date.now() >= deadlineAt
abbrev pub is_late : ℕ → ℕ → Manager → Bool
is_late signal deadline_at m = includes m.aborted signal || leb deadline_at m.now

abbrev pub forced_stop :
    Option (SessionHandle → Exec Manager (Unit {0}))
    → (SessionHandle → Exec Manager (Unit {0}))
    → SessionHandle
    → Exec Manager (Unit {0})
forced_stop none stop = stop
forced_stop (some force_stop) stop = force_stop

-- force && adapter.forceStop !== undefined ? adapter.forceStop : adapter.stop
abbrev pub stopper : AgentAdapter → Bool → SessionHandle → Exec Manager (Unit {0})
stopper adapter false = adapter.stop
stopper adapter true = forced_stop adapter.force_stop adapter.stop

-- What is left to do once an adapter stopped the handle of a candidate.
unfoldable pub release_candidate : Key → String → Manager → Manager
release_candidate key employee_id m =
    delete_handle key (delete_unavailable employee_id (delete_current employee_id key m))

-- The same for a handle that is not active.
unfoldable pub release_inactive : Key → String → Manager → Manager
release_inactive key employee_id m = delete_handle key (delete_unavailable employee_id m)

abbrev pub stop_error : String × PendingReplacement → String
stop_error (id, pending) = pending.employee_id ⧺ ": replacement creation still pending"

abbrev pub cancel_all : Exec Manager (List StopOutcome)
cancel_all m = let (outcomes, m') = cancel_pending_replacements m in (ok outcomes, m')

abbrev pub collect : Exec Manager (List (Key × Candidate))
collect m = let (candidates, m') = collect_stop_candidates m in (ok candidates, m')

abbrev pub add_error : Option String → List String → List String
add_error none errors = errors
add_error (some error) errors = error ∷ errors

module _ (k : SessionManager) where
  -- The `try` of interruptAll, after the adapter's answer
  unfoldable pub interrupted_session :
      String → SessionHandle → Option Bool → Exec Manager InterruptOutcome
  interrupted_session employee_id session none = pure (interrupt_aborted employee_id)
  interrupted_session employee_id session (some false) =
      pure
        (interrupt_outcome employee_id InterruptStatus.not_interrupted "adapter declined interrupt")
  interrupted_session employee_id session (some true) = do
    event ←
        new_event k "session.interrupted" employee_id none (field "reason" (str "requested") end)
    put k employee_id session "interrupted" event
    pure (record { employee_id = employee_id; status = InterruptStatus.interrupted; error = none })

  -- The body of interruptAll for one session
  unfoldable pub interrupt_one : Option ℕ → String → SessionHandle → Exec Manager InterruptOutcome
  unfolding race_abort interrupted_session
  interrupt_one signal employee_id session = do
    aborted ← asks (λ m. ok (is_aborted signal m))
    elim aborted [
      | true ↦ pure (interrupt_aborted employee_id)
      | false ↦
          try_catch
            (do
              result ← race_abort k ((k.adapter_for session.adapter).interrupt session) signal
              interrupted_session employee_id session result)
            pure
            (λ error. do
              late ← asks (λ m. ok (is_aborted signal m))
              pure (
                  interrupt_outcome employee_id
                    (elim late [ true ↦ InterruptStatus.aborted | false ↦ InterruptStatus.failed ])
                    (k.error_message error)))
    ]

  unfoldable pub interrupt_each :
      Option ℕ → Table String SessionHandle → Exec Manager (List InterruptOutcome)
  unfolding interrupt_one
  interrupt_each signal [] = pure []
  interrupt_each signal ((employee_id, session) ∷ rest) = do
    outcome ← interrupt_one signal employee_id session
    outcomes ← interrupt_each signal rest
    pure (outcome ∷ outcomes)

  -- interruptAll(signal)
  unfoldable pub interrupt_all : Option ℕ → Exec Manager (List InterruptOutcome)
  unfolding interrupt_each
  interrupt_all signal = asks (λ m. ok m.sessions) >>= interrupt_each signal

  -- The `try` of stopAllBounded, after the adapter's answer
  unfoldable pub stopped_candidate : Bool → Key → Candidate → Exec Manager StopOutcome
  unfolding release_candidate release_inactive
  stopped_candidate force key c = elim c.active [
    | false ↦ modify (release_inactive key c.employee_id) >> pure (stop_done c.employee_id)
    | true ↦ do
      event ← new_event k "session.stopped" c.employee_id none (field "forced" (bool force) end)
      put k c.employee_id c.handle "stopped" event
      modify (release_candidate key c.employee_id)
      pure (stop_done c.employee_id)
  ]

  unfoldable pub try_stop : ℕ → Bool → Key → Candidate → Exec Manager StopOutcome
  unfolding race_abort stopped_candidate
  try_stop signal force key c = do
    result ← race_abort k (stopper (k.adapter_for c.handle.adapter) force c.handle) (some signal)
    elim result [
      | none ↦ pure (stop_aborted c.employee_id)
      | some _ ↦ stopped_candidate force key c
    ]

  -- The body of stopAllBounded for one candidate
  unfoldable pub stop_candidate : ℕ → Bool → ℕ → Key → Candidate → Exec Manager StopOutcome
  unfolding try_stop
  stop_candidate signal force deadline_at key c = do
    late ← asks (λ m. ok (is_late signal deadline_at m))
    elim late [
      | true ↦ pure (stop_aborted c.employee_id)
      | false ↦
          try_catch (try_stop signal force key c) pure
            (λ error. pure (stop_failed c.employee_id (k.error_message error)))
    ]

  unfoldable pub stop_each : ℕ → Bool → ℕ → List (Key × Candidate) → Exec Manager (List StopOutcome)
  unfolding stop_candidate
  stop_each signal force deadline_at [] = pure []
  stop_each signal force deadline_at ((key, c) ∷ rest) = do
    outcome ← stop_candidate signal force deadline_at key c
    outcomes ← stop_each signal force deadline_at rest
    pure (outcome ∷ outcomes)

  -- stopAllBounded(signal, force, deadlineAt)
  unfoldable pub stop_all_bounded : ℕ → Bool → ℕ → Exec Manager (List StopOutcome)
  unfolding stop_each
  stop_all_bounded signal force deadline_at = do
    pending ← cancel_all
    candidates ← collect
    handles ← stop_each signal force deadline_at candidates
    pure (pending ++ handles)

  -- The body of the loop of stopAll: the message of its error, if there is one
  unfoldable pub stop_one : Key → Candidate → Exec Manager (Option String)
  unfolding release_candidate
  stop_one key c =
      try_catch ((k.adapter_for c.handle.adapter).stop c.handle)
        (λ _. elim c.active [
          | false ↦ modify (delete_handle key) >> pure none
          | true ↦ do
            event ← new_event k "session.stopped" c.employee_id none end
            try_catch (put k c.employee_id c.handle "stopped" event)
                (λ _. modify (release_candidate key c.employee_id) >> pure none)
                (λ error. pure (some (c.employee_id ⧺ (" persistence: " ⧺ k.error_message error))))
        ])
        (λ error. pure (some (c.employee_id ⧺ (": " ⧺ k.error_message error))))

  unfoldable pub stop_in_turn : List (Key × Candidate) → Exec Manager (List String)
  unfolding stop_one
  stop_in_turn [] = pure []
  stop_in_turn ((key, c) ∷ rest) = do
    error ← stop_one key c
    errors ← stop_in_turn rest
    pure (add_error error errors)

  -- stopAll()
  unfoldable pub stop_all : Exec Manager (Unit {0})
  unfolding stop_in_turn join
  stop_all = do
    candidates ← collect
    pending ← asks (λ m. ok (map stop_error m.pending_replacements))
    modify (λ m. (cancel_pending_replacements m).1)
    errors ← stop_in_turn candidates
    elim (is_empty (pending ++ errors)) [
      | true ↦ pure tt
      | false ↦ raise (failed_to_stop (join "; " (pending ++ errors)))
    ]
