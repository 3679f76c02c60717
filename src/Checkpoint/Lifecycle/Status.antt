-- ===== src/Checkpoint/Lifecycle/Status.antt =====
-- The cleanup of CheckpointService leaves the status of the company as it is.
use agent_town.Sessions.Steps.{
  Keeps-modify, Keeps, Awaits, IsStable, Keeps-bind, Keeps-seq, Keeps-pure, Keeps-asks, Keeps-if,
  Keeps-raise, wrote, cancelled,
}
use agent_town.Checkpoint.Lifecycle.{
  new_controller, remaining, Lifecycle, Deadline, company_id, abort, signal_until, leb, max,
}
use agent_town.Prelude.{
  nat_eq, ℕ, zero, suc, String, Bool, true, false, ◌≡◌, refl, some, List, [], ◌∷◌, arith, is_empty,
  ◌&&◌, ◌==◌, string_eq, ◌-◌,
}
use agent_town.Result.{ok, out_of_fuel}
use agent_town.Exec.{Exec, ◌>>=◌, modify}
use agent_town.Storage.Companies.{get_company}
use agent_town.Sessions.{Manager, StopOutcome}
use agent_town.Checkpoint.Lifecycle.Cleanup.{
  owners, unless_over, give_up, ownership_is_stably_empty, unless_empty, last_look, unless_vacant,
  stop_until, settle, after_forced, after_graceful, cleanup_loop, cleanup_within_deadline,
  aborted_ownership_outcomes, late_cleanup_outcomes, all_stopped, graceful_stop, not_stopped,
  force_tail_ms, raced_outcomes,
}
use agent_town.Checkpoint.Lifecycle.Recover.{status_of}
use agent_town.Sessions.Handles.{
  register_handle, retain_for_cleanup, delete_cleanup, delete_handle, set_session, delete_session,
  begin_replacement, finish_replacement, cancel_pending_replacements, cleanup_ownership_snapshot,
}
use agent_town.Sessions.Moves.Stop.{stop_all_bounded-Keeps}

-- The company is stored with the status.
abbrev pub HasStatus : Lifecycle → String → Manager → Type 0
HasStatus l status m = status_of (company_id l) m ≡ some status

module _ (l : Lifecycle) (status : String) where
  HasStatus-stable : IsStable (HasStatus l status)
  unfolding register_handle retain_for_cleanup delete_cleanup delete_handle set_session
      delete_session begin_replacement finish_replacement cancel_pending_replacements get_company
  HasStatus-stable m m' (wrote s free e) h =
      let same : s.db.companies ≡ m.store.db.companies = free.companies in ground arith
  HasStatus-stable m m' step h = ground arith

  abort-Keeps : (signal : ℕ) → Keeps (HasStatus l status) (modify (abort signal))
  unfolding abort
  abort-Keeps signal = record { run = λ m h. h }

  new_controller-Keeps : Keeps (HasStatus l status) new_controller
  unfolding new_controller
  new_controller-Keeps = record { run = λ m h. h }

  signal_until-Keeps : (at : ℕ) → Keeps (HasStatus l status) (signal_until at)
  unfolding signal_until
  signal_until-Keeps at = Keeps-bind new_controller-Keeps (λ controller.
      Keeps-bind (Keeps-asks (λ m. ok (leb at m.now))) (λ over.
        Keeps-if over (Keeps-seq (abort-Keeps controller) (Keeps-pure controller))
          (Keeps-pure controller)))

  unless_over-Keeps :
      (d : Deadline) {over go_on : Exec Manager (List StopOutcome)}
      → Keeps (HasStatus l status) over
      → Keeps (HasStatus l status) go_on
      → Keeps (HasStatus l status) (unless_over d over go_on)
  unfolding unless_over
  unless_over-Keeps d k n =
      Keeps-bind (Keeps-asks (λ m. ok (remaining d m == 0))) (λ b. Keeps-if b k n)

  give_up-Keeps : Keeps (HasStatus l status) give_up
  unfolding give_up
  give_up-Keeps = Keeps-asks (λ m. ok (aborted_ownership_outcomes (owners m)))

  module _ (aw : Awaits (HasStatus l status) l.sessions)
      (turn : Keeps (HasStatus l status) l.turn) where
    unless_empty-Keeps :
        {n : Exec Manager (List StopOutcome)}
        → Keeps (HasStatus l status) n
        → Keeps (HasStatus l status) (unless_empty l n)
    unfolding unless_empty ownership_is_stably_empty
    unless_empty-Keeps k =
        Keeps-bind
          (Keeps-bind (Keeps-asks (λ m. ok (cleanup_ownership_snapshot m))) (λ first.
            Keeps-if (is_empty first.owners)
              (Keeps-seq turn (
                Keeps-asks
                  (λ m. ok (is_empty (owners m) && (m.ownership_version == first.version)))))
              (Keeps-pure false)))
          (λ quiet. Keeps-if quiet (Keeps-pure []) k)

    settle-Keeps :
        (d : Deadline) {n : Exec Manager (List StopOutcome)}
        → Keeps (HasStatus l status) n
        → Keeps (HasStatus l status) (settle l d n)
    unfolding settle
    settle-Keeps d k = unless_empty-Keeps (unless_over-Keeps d give_up-Keeps k)

    stop_until-Keeps :
        (at : ℕ) (force : Bool) (d : Deadline)
        → Keeps (HasStatus l status) (stop_until l at force d)
    unfolding stop_until
    stop_until-Keeps at force d = Keeps-bind (signal_until-Keeps at) (λ signal.
        Keeps-bind (stop_all_bounded-Keeps HasStatus-stable l.sessions aw signal force d.at)
          (λ os. Keeps-seq turn (Keeps-seq (abort-Keeps signal) (Keeps-pure os))))

    after_forced-Keeps :
        (d : Deadline) {next : Exec Manager (List StopOutcome)} (os : List StopOutcome)
        → Keeps (HasStatus l status) next
        → Keeps (HasStatus l status) (after_forced l d next os)
    unfolding after_forced
    after_forced-Keeps d [] k =
        unless_over-Keeps d (Keeps-pure (late_cleanup_outcomes [])) (settle-Keeps d k)
    after_forced-Keeps d (o ∷ os) k =
        unless_over-Keeps d (Keeps-pure (late_cleanup_outcomes (o ∷ os)))
          (Keeps-if (all_stopped (o ∷ os)) k (Keeps-pure (not_stopped (o ∷ os))))

    after_graceful-Keeps :
        (d : Deadline) {next : Exec Manager (List StopOutcome)} (os : List StopOutcome)
        → Keeps (HasStatus l status) next
        → Keeps (HasStatus l status) (after_graceful l d next os)
    unfolding after_graceful
    after_graceful-Keeps d [] k =
        unless_over-Keeps d (Keeps-pure (late_cleanup_outcomes [])) (settle-Keeps d k)
    after_graceful-Keeps d (o ∷ os) k =
        unless_over-Keeps d (Keeps-pure (late_cleanup_outcomes (o ∷ os))) (
          Keeps-if (all_stopped (o ∷ os)) (settle-Keeps d k) (
            unless_over-Keeps d (Keeps-pure (not_stopped (o ∷ os))) (
              Keeps-bind (stop_until-Keeps d.at true d) (λ forced. after_forced-Keeps d forced k))))

    round-Keeps :
        (d : Deadline) {next : Exec Manager (List StopOutcome)}
        → Keeps (HasStatus l status) next
        → Keeps
            (HasStatus l status)
            (unless_over d give_up (graceful_stop l d >>= after_graceful l d next))
    round-Keeps d k = unless_over-Keeps d give_up-Keeps (
        Keeps-bind
          (Keeps-bind (Keeps-asks (λ m. ok m.now))
            (λ now. stop_until-Keeps (max now (d.at - force_tail_ms l)) false d))
          (λ os. after_graceful-Keeps d os k))

    cleanup_loop-Keeps :
        (fuel : ℕ) (d : Deadline) → Keeps (HasStatus l status) (cleanup_loop l fuel d)
    unfolding cleanup_loop last_look unless_vacant
    cleanup_loop-Keeps zero d = Keeps-raise out_of_fuel
    cleanup_loop-Keeps (suc fuel) d =
        let round = round-Keeps d (cleanup_loop-Keeps fuel d) in
        unless_over-Keeps d
          (Keeps-bind (Keeps-asks (λ m. ok (owners m))) (λ initial.
            Keeps-if (is_empty initial)
              (unless_empty-Keeps (Keeps-asks (λ m. ok (raced_outcomes (owners m)))))
              give_up-Keeps))
          (Keeps-bind (Keeps-asks (λ m. ok (owners m)))
            (λ initial. Keeps-if (is_empty initial) (unless_empty-Keeps round) round))

    pub cleanup_within_deadline-Keeps :
        (fuel : ℕ) (d : Deadline) → Keeps (HasStatus l status) (cleanup_within_deadline l fuel d)
    unfolding cleanup_within_deadline
    cleanup_within_deadline-Keeps fuel d =
        Keeps-seq (Keeps-modify HasStatus-stable _ (λ m. cancelled refl))
          (cleanup_loop-Keeps fuel d)
