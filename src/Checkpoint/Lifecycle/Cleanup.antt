-- ===== src/Checkpoint/Lifecycle/Cleanup.antt =====
-- packages/core/src/lifecycle/checkpoint-service.ts: #cleanupWithinDeadline. The fuel bounds the rounds
-- of its loop.
use agent_town.Prelude.{
  ℕ, zero, suc, ◌*◌, ◌/◌, ◌-◌, String, Bool, true, false, not, ◌&&◌, none, some, List, [], ◌∷◌, map,
  filter, is_empty, max, min, ◌==◌, nat_eq,
}
use agent_town.Result.{ok, out_of_fuel}
use agent_town.Exec.{Exec, ◌>>=◌, ◌>>◌, pure, asks, modify, raise}
use agent_town.Sessions.{Manager, Owner, OwnerKind, StopOutcome, StopStatus}
use agent_town.Sessions.Handles.{cleanup_ownership_snapshot, cancel_pending_replacements}
use agent_town.Sessions.Stop.{stop_all_bounded}
use agent_town.Checkpoint.Lifecycle.{Lifecycle, Deadline, abort, remaining, signal_until}

abbrev pub owners : Manager → List Owner
owners m = (cleanup_ownership_snapshot m).owners

abbrev pub is_stopped : StopOutcome → Bool
is_stopped o = elim o.status [ StopStatus.stopped ↦ true | _ ↦ false ]

unfoldable pub all_stopped : List StopOutcome → Bool
all_stopped [] = true
all_stopped (o ∷ os) = is_stopped o && all_stopped os

abbrev pub not_stopped : List StopOutcome → List StopOutcome
not_stopped = filter (λ o. not (is_stopped o))

abbrev pub aborted_because : String → String → StopOutcome
aborted_because employee_id error = record {
  employee_id = employee_id;
  status = StopStatus.aborted;
  error = some error;
}

abbrev pub aborted_owner : Owner → StopOutcome
aborted_owner o = aborted_because o.employee_id (elim o.kind [
  | OwnerKind.pending_replacement ↦ "replacement creation still pending"
  | _ ↦ "stop aborted"
])

-- #abortedOwnershipOutcomes(owners)
unfoldable pub aborted_ownership_outcomes : List Owner → List StopOutcome
aborted_ownership_outcomes = map aborted_owner

abbrev late_error : StopOutcome → String
late_error o = elim o.status [
  | StopStatus.stopped ↦ "stop completed after the company pause deadline"
  | _ ↦ elim o.error [ none ↦ "stop exceeded the company pause deadline" | some error ↦ error ]
]

abbrev late_outcome : StopOutcome → StopOutcome
late_outcome o = aborted_because o.employee_id (late_error o)

-- #lateCleanupOutcomes(outcomes)
unfoldable pub late_cleanup_outcomes : List StopOutcome → List StopOutcome
late_cleanup_outcomes [] =
    aborted_because "unknown" "cleanup attempt crossed the company pause deadline" ∷ []
late_cleanup_outcomes (o ∷ os) = late_outcome o ∷ map late_outcome os

-- if (this.#remaining(deadline) === 0) return …; …
unfoldable pub unless_over :
    Deadline
    → Exec Manager (List StopOutcome)
    → Exec Manager (List StopOutcome)
    → Exec Manager (List StopOutcome)
unfolding remaining
unless_over d over go_on = do
  is_over ← asks (λ m. ok (remaining d m == 0))
  elim is_over [ true ↦ over | false ↦ go_on ]

-- return this.#abortedOwnershipOutcomes(this.#sessions.cleanupOwnershipSnapshot().owners)
unfoldable pub give_up : Exec Manager (List StopOutcome)
unfolding aborted_ownership_outcomes
give_up = asks (λ m. ok (aborted_ownership_outcomes (owners m)))

-- `racedOwnership` and what is returned of it
unfoldable pub raced_outcomes : List Owner → List StopOutcome
unfolding aborted_ownership_outcomes
raced_outcomes [] =
    aborted_because "unknown" "session ownership changed during cleanup enumeration" ∷ []
raced_outcomes (o ∷ os) = aborted_ownership_outcomes (o ∷ os)

module _ (l : Lifecycle) where
  -- #ownershipIsStablyEmpty
  unfoldable pub ownership_is_stably_empty : Exec Manager Bool
  ownership_is_stably_empty = do
    first ← asks (λ m. ok (cleanup_ownership_snapshot m))
    elim (is_empty first.owners) [
      | false ↦ pure false
      | true ↦
          l.turn >> asks (λ m. ok (is_empty (owners m) && (m.ownership_version == first.version)))
    ]

  -- if (await this.#ownershipIsStablyEmpty()) return []; …
  unfoldable pub unless_empty : Exec Manager (List StopOutcome) → Exec Manager (List StopOutcome)
  unfolding ownership_is_stably_empty
  unless_empty go_on = do
    quiet ← ownership_is_stably_empty
    elim quiet [ true ↦ pure [] | false ↦ go_on ]

  -- A round whose time is over when it begins
  unfoldable pub last_look : Exec Manager (List StopOutcome)
  unfolding unless_empty give_up raced_outcomes
  last_look = do
    initial ← asks (λ m. ok (owners m))
    elim (is_empty initial) [
      | false ↦ give_up
      | true ↦ unless_empty (asks (λ m. ok (raced_outcomes (owners m))))
    ]

  -- initialOwnership.owners.length === 0 && await this.#ownershipIsStablyEmpty()
  unfoldable pub unless_vacant : Exec Manager (List StopOutcome) → Exec Manager (List StopOutcome)
  unfolding unless_empty
  unless_vacant go_on = do
    initial ← asks (λ m. ok (owners m))
    elim (is_empty initial) [ false ↦ go_on | true ↦ unless_empty go_on ]

  -- A stopAllBounded whose signal is aborted at a time; its `await` is a turn of its own.
  unfoldable pub stop_until : ℕ → Bool → Deadline → Exec Manager (List StopOutcome)
  unfolding signal_until abort
  stop_until at force d = do
    signal ← signal_until at
    outcomes ← stop_all_bounded l.sessions signal force d.at
    l.turn
    modify (abort signal)
    pure outcomes

  -- if (await this.#ownershipIsStablyEmpty()) return []; if (… === 0) return …; continue;
  unfoldable pub settle :
      Deadline → Exec Manager (List StopOutcome) → Exec Manager (List StopOutcome)
  unfolding unless_empty unless_over give_up
  settle d next = unless_empty (unless_over d give_up next)

  -- What follows the forced stop; `next` is the next round.
  unfoldable pub after_forced :
      Deadline
      → Exec Manager (List StopOutcome)
      → List StopOutcome
      → Exec Manager (List StopOutcome)
  unfolding settle unless_over late_cleanup_outcomes all_stopped
  after_forced d next [] = unless_over d (pure (late_cleanup_outcomes [])) (settle d next)
  after_forced d next (o ∷ os) =
      unless_over d (pure (late_cleanup_outcomes (o ∷ os)))
        (elim (all_stopped (o ∷ os)) [ true ↦ next | false ↦ pure (not_stopped (o ∷ os)) ])

  -- What follows the graceful stop.
  unfoldable pub after_graceful :
      Deadline
      → Exec Manager (List StopOutcome)
      → List StopOutcome
      → Exec Manager (List StopOutcome)
  unfolding after_forced stop_until settle unless_over late_cleanup_outcomes all_stopped
  after_graceful d next [] = unless_over d (pure (late_cleanup_outcomes [])) (settle d next)
  after_graceful d next (o ∷ os) =
      unless_over d (pure (late_cleanup_outcomes (o ∷ os))) (elim (all_stopped (o ∷ os)) [
        | true ↦ settle d next
        | false ↦
            unless_over d (pure (not_stopped (o ∷ os)))
              (stop_until d.at true d >>= after_forced d next)
      ])

  abbrev pub force_tail_ms : ℕ
  force_tail_ms = max 1 (min 1000 (l.pause_timeout_ms * 15 / 100))

  abbrev pub graceful_stop : Deadline → Exec Manager (List StopOutcome)
  graceful_stop d = do
    now ← asks (λ m. ok m.now)
    stop_until (max now (d.at - force_tail_ms)) false d

  -- The loop of #cleanupWithinDeadline
  unfoldable pub cleanup_loop : ℕ → Deadline → Exec Manager (List StopOutcome)
  unfolding last_look unless_vacant after_graceful unless_over give_up
  cleanup_loop zero d = raise out_of_fuel
  cleanup_loop (suc fuel) d = unless_over d last_look (
      unless_vacant
        (unless_over d give_up (graceful_stop d >>= after_graceful d (cleanup_loop fuel d))))

  -- #cleanupWithinDeadline(deadline)
  unfoldable pub cleanup_within_deadline : ℕ → Deadline → Exec Manager (List StopOutcome)
  unfolding cleanup_loop
  cleanup_within_deadline fuel d =
      modify (λ m. (cancel_pending_replacements m).1) >> cleanup_loop fuel d
