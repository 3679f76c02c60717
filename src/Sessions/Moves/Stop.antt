-- ===== src/Sessions/Moves/Stop.antt =====
-- interruptAll, stopAllBounded and stopAll of SessionManager keep every predicate that their writes
-- and their waits keep.
use agent_town.Prelude.{
  ℕ, String, Bool, true, false, Option, none, some, List, [], ◌∷◌, refl, map, ◌++◌, ◌==◌, is_empty,
  string_eq, pair_eq,
}
use agent_town.Prelude.Table.{Table, lookup}
use agent_town.Contract.Value.{field, end, bool, str}
use agent_town.Contract.Agent.{SessionHandle}
use agent_town.Result.{ok, failed_to_stop}
use agent_town.Exec.{Exec, modify}
use agent_town.Sessions.{SessionManager, Manager, Key, handle_key, is_aborted, InterruptStatus}
use agent_town.Sessions.Handles.{
  Candidate, active_candidates, collect_stop_candidates, delete_handle, delete_current,
  register_handle, delete_unavailable,
}
use agent_town.Sessions.Stop.{
  race_abort, settle_race, interrupt_one, interrupt_each, interrupt_all, release_candidate,
  release_inactive, stopped_candidate, stop_candidate, try_stop, stop_each, stop_all_bounded,
  stop_one, stop_in_turn, stop_all, collect, add_error, cancel_all, forced_stop,
  interrupted_session, is_late, stop_done, stopper, interrupt_aborted, stop_aborted, stop_error,
  stop_failed, interrupt_outcome,
}
use agent_town.Sessions.Steps.{
  IsStable, Keeps, Awaits, Keeps-pure, Keeps-raise, Keeps-asks, Keeps-bind, Keeps-seq, Keeps-try,
  Keeps-if, Keeps-option, Keeps-modify, pick-if, pick-option, registered, dropped, marked,
  forgotten, cancelled, AllStop,
}
use agent_town.Sessions.Moves.{new_event-Keeps, put-Keeps}
use agent_town.Server.Requests.{join}

module _ {P : Manager → Type 0} (st : IsStable P) (k : SessionManager) where
  settle_race-Keeps :
      {A : Type 0} (operation : Exec Manager A) (signal : ℕ)
      → Keeps P operation
      → Keeps P (settle_race operation signal)
  unfolding settle_race
  settle_race-Keeps operation signal o = record { run = λ m p. o.run m p }

  race_abort-Keeps :
      {A : Type 0} {operation : Exec Manager A} (aw : Awaits P k) (signal : Option ℕ)
      → Keeps P operation
      → Keeps P (race_abort k operation signal)
  unfolding race_abort
  race_abort-Keeps aw none o = Keeps-bind o (λ a. Keeps-pure (some a))
  race_abort-Keeps {operation} aw (some signal) o =
      Keeps-bind (Keeps-asks (λ m. ok (is_aborted (some signal) m))) (λ aborted.
        Keeps-if aborted (Keeps-pure none) (
          Keeps-bind (aw.aborts signal) (λ is_first.
            Keeps-if is_first (Keeps-pure none) (settle_race-Keeps operation signal o))))

  active_candidates-Keeps :
      (sessions : Table String SessionHandle) (candidates : Table Key Candidate) (m : Manager)
      → P m
      → P (active_candidates sessions candidates m).1
  unfolding active_candidates
  active_candidates-Keeps [] candidates m p = p
  active_candidates-Keeps ((e, h) ∷ rest) candidates m p =
      active_candidates-Keeps rest _ (register_handle h m).1 (st m _ (registered h refl) p)

  collect-Keeps : Keeps P collect
  unfolding collect_stop_candidates
  collect-Keeps = record { run = λ m p. active_candidates-Keeps m.sessions [] m p }

  delete_handle-Keeps : (key : Key) → Keeps P (modify (delete_handle key))
  delete_handle-Keeps key = Keeps-modify st _ (λ m. forgotten key refl)

  delete_current-Keeps : (e : String) (key : Key) → Keeps P (modify (delete_current e key))
  unfolding delete_current
  delete_current-Keeps e key = record {
    run = λ m p.
        pick-option P (lookup e m.sessions) p
          (λ current. pick-if P (handle_key current == key) (st m _ (dropped e refl) p) p);
  }

  release_candidate-Keeps : (key : Key) (e : String) → Keeps P (modify (release_candidate key e))
  unfolding release_candidate delete_unavailable
  release_candidate-Keeps key e = record {
    run = λ m p.
        st _ _ (forgotten key refl) (st _ _ (marked _ refl) ((delete_current-Keeps e key).run m p));
  }

  release_inactive-Keeps : (key : Key) (e : String) → Keeps P (modify (release_inactive key e))
  unfolding release_inactive delete_unavailable
  release_inactive-Keeps key e = record {
    run = λ m p. st _ _ (forgotten key refl) (st m _ (marked _ refl) p);
  }

  stopped_candidate-Keeps :
      (force : Bool) (key : Key) (c : Candidate) → Keeps P (stopped_candidate k force key c)
  unfolding stopped_candidate
  stopped_candidate-Keeps force key c =
      Keeps-if c.active
        (Keeps-bind
          (new_event-Keeps st k "session.stopped" c.employee_id none
            (field "forced" (bool force) end))
          (λ event. Keeps-seq (put-Keeps st k c.employee_id c.handle "stopped" event) (
            Keeps-seq (release_candidate-Keeps key c.employee_id)
              (Keeps-pure (stop_done c.employee_id)))))
        (Keeps-seq (release_inactive-Keeps key c.employee_id)
          (Keeps-pure (stop_done c.employee_id)))

  forced-Keeps :
      (force_stop : Option (SessionHandle → Exec Manager (Unit {0})))
      {stop : SessionHandle → Exec Manager (Unit {0})}
      → ((h : SessionHandle) → Keeps P (stop h))
      → AllStop P force_stop
      → (h : SessionHandle) → Keeps P (forced_stop force_stop stop h)
  forced-Keeps none s f h = s h
  forced-Keeps (some force_stop) s f h = f h

  cancel_all-Keeps : Keeps P cancel_all
  cancel_all-Keeps = record { run = λ m p. st m _ (cancelled refl) p }

  module _ (aw : Awaits P k) where
    interrupted-Keeps :
        (e : String) (h : SessionHandle) (r : Option Bool) → Keeps P (interrupted_session k e h r)
    unfolding interrupted_session
    interrupted-Keeps e h none = Keeps-pure (interrupt_aborted e)
    interrupted-Keeps e h (some false) = Keeps-pure _
    interrupted-Keeps e h (some true) =
        Keeps-bind
          (new_event-Keeps st k "session.interrupted" e none (field "reason" (str "requested") end))
          (λ event. Keeps-seq (put-Keeps st k e h "interrupted" event) (Keeps-pure _))

    interrupt_one-Keeps :
        (signal : Option ℕ) (e : String) (h : SessionHandle) → Keeps P (interrupt_one k signal e h)
    unfolding interrupt_one
    interrupt_one-Keeps signal e h =
        Keeps-bind (Keeps-asks (λ m. ok (is_aborted signal m))) (λ aborted.
          Keeps-if aborted (Keeps-pure (interrupt_aborted e)) (
            Keeps-try
              (Keeps-bind (race_abort-Keeps aw signal (aw.interrupt h.adapter h))
                (interrupted-Keeps e h))
              Keeps-pure
              (λ x. Keeps-bind (Keeps-asks (λ m. ok (is_aborted signal m))) (λ late. Keeps-pure (
                interrupt_outcome e
                  (elim late [ true ↦ InterruptStatus.aborted | false ↦ InterruptStatus.failed ])
                  (k.error_message x))))))

    interrupt_each-Keeps :
        (signal : Option ℕ) (sessions : Table String SessionHandle)
        → Keeps P (interrupt_each k signal sessions)
    unfolding interrupt_each
    interrupt_each-Keeps signal [] = Keeps-pure []
    interrupt_each-Keeps signal ((e, h) ∷ rest) =
        Keeps-bind (interrupt_one-Keeps signal e h)
          (λ o. Keeps-bind (interrupt_each-Keeps signal rest) (λ os. Keeps-pure (o ∷ os)))

    pub interrupt_all-Keeps : (signal : Option ℕ) → Keeps P (interrupt_all k signal)
    unfolding interrupt_all
    interrupt_all-Keeps signal =
        Keeps-bind (Keeps-asks (λ m. ok m.sessions)) (interrupt_each-Keeps signal)

    stopper-Keeps :
        (n : String) (force : Bool) (h : SessionHandle)
        → Keeps P (stopper (k.adapter_for n) force h)
    stopper-Keeps n false h = aw.stop n h
    stopper-Keeps n true h =
        forced-Keeps (k.adapter_for n).force_stop (aw.stop n) (aw.force_stop n) h

    stop_candidate-Keeps :
        (signal : ℕ) (force : Bool) (deadline_at : ℕ) (key : Key) (c : Candidate)
        → Keeps P (stop_candidate k signal force deadline_at key c)
    unfolding stop_candidate try_stop
    stop_candidate-Keeps signal force deadline_at key c =
        Keeps-bind (Keeps-asks (λ m. ok (is_late signal deadline_at m))) (λ late.
          Keeps-if late (Keeps-pure (stop_aborted c.employee_id)) (
            Keeps-try
              (Keeps-bind
                (race_abort-Keeps aw (some signal) (stopper-Keeps c.handle.adapter force c.handle))
                (λ r.
                  Keeps-option r (Keeps-pure (stop_aborted c.employee_id))
                    (λ _. stopped_candidate-Keeps force key c)))
              Keeps-pure (λ x. Keeps-pure (stop_failed c.employee_id (k.error_message x)))))

    stop_each-Keeps :
        (signal : ℕ) (force : Bool) (deadline_at : ℕ) (cs : List (Key × Candidate))
        → Keeps P (stop_each k signal force deadline_at cs)
    unfolding stop_each
    stop_each-Keeps signal force deadline_at [] = Keeps-pure []
    stop_each-Keeps signal force deadline_at ((key, c) ∷ rest) =
        Keeps-bind (stop_candidate-Keeps signal force deadline_at key c) (λ o.
          Keeps-bind (stop_each-Keeps signal force deadline_at rest) (λ os. Keeps-pure (o ∷ os)))

    pub stop_all_bounded-Keeps :
        (signal : ℕ) (force : Bool) (deadline_at : ℕ)
        → Keeps P (stop_all_bounded k signal force deadline_at)
    unfolding stop_all_bounded
    stop_all_bounded-Keeps signal force deadline_at = Keeps-bind cancel_all-Keeps (λ pending.
        Keeps-bind collect-Keeps (λ cs.
          Keeps-bind (stop_each-Keeps signal force deadline_at cs)
            (λ handles. Keeps-pure (pending ++ handles))))

    stop_one-Keeps : (key : Key) (c : Candidate) → Keeps P (stop_one k key c)
    unfolding stop_one
    stop_one-Keeps key c =
        Keeps-try (aw.stop c.handle.adapter c.handle)
          (λ _.
            Keeps-if c.active
              (Keeps-bind (new_event-Keeps st k "session.stopped" c.employee_id none end) (λ event.
                Keeps-try (put-Keeps st k c.employee_id c.handle "stopped" event)
                  (λ _. Keeps-seq (release_candidate-Keeps key c.employee_id) (Keeps-pure none))
                  (λ x. Keeps-pure _)))
              (Keeps-seq (delete_handle-Keeps key) (Keeps-pure none)))
          (λ x. Keeps-pure _)

    stop_in_turn-Keeps : (cs : List (Key × Candidate)) → Keeps P (stop_in_turn k cs)
    unfolding stop_in_turn
    stop_in_turn-Keeps [] = Keeps-pure []
    stop_in_turn-Keeps ((key, c) ∷ rest) =
        Keeps-bind (stop_one-Keeps key c)
          (λ x. Keeps-bind (stop_in_turn-Keeps rest) (λ xs. Keeps-pure (add_error x xs)))

    pub stop_all-Keeps : Keeps P (stop_all k)
    unfolding stop_all
    stop_all-Keeps = Keeps-bind collect-Keeps (λ cs.
        Keeps-bind (Keeps-asks (λ m. ok (map stop_error m.pending_replacements))) (λ pending.
          Keeps-seq (Keeps-modify st _ (λ m. cancelled refl)) (
            Keeps-bind (stop_in_turn-Keeps cs) (λ xs.
              Keeps-if (is_empty (pending ++ xs)) (Keeps-pure tt)
                (Keeps-raise (failed_to_stop (join "; " (pending ++ xs))))))))
