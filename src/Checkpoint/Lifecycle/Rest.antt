-- ===== src/Checkpoint/Lifecycle/Rest.antt =====
-- The cleanup of CheckpointService returns no failure only when no session is owned any more.
use agent_town.Prelude.{
  ℕ, zero, suc, nat_eq, Bool, true, false, ◌≡◌, refl, List, [], ◌∷◌, arith, is_empty, filter, ◌==◌,
  string_eq, ◌&&◌,
}
use agent_town.Result.{Error, Result, ok, err, out_of_fuel}
use agent_town.Exec.{Exec, ◌>>=◌, pure, asks, raise, continue}
use agent_town.Sessions.{Manager, StopOutcome, Owner}
use agent_town.Checkpoint.Lifecycle.{Lifecycle, Deadline, remaining}
use agent_town.Checkpoint.Lifecycle.Cleanup.{
  owners, aborted_ownership_outcomes, late_cleanup_outcomes, raced_outcomes, unless_over, give_up,
  ownership_is_stably_empty, unless_empty, last_look, unless_vacant, settle, after_forced,
  after_graceful, cleanup_loop, cleanup_within_deadline, all_stopped, not_stopped, stop_until,
  graceful_stop,
}
use agent_town.Sessions.Handles.{cleanup_ownership_snapshot}

-- A method that returns the value only where nothing is owned.
record Leaves {B : Type 0} (b : B) (m : Exec Manager B) : Type 0 where
  pub run : (s : Manager) → (m s).0 ≡ ok b → owners (m s).1 ≡ []

abbrev Rests : Exec Manager (List StopOutcome) → Type 0
Rests m = Leaves [] m

module _ {A B : Type 0} {b : B} where
  Leaves-continue :
      (f : A → Exec Manager B) (r : Result A) → ((a : A) → Leaves b (f a)) → Leaves b (continue r f)
  Leaves-continue f (ok a) k = record { run = λ s h. (k a).run s h }
  Leaves-continue f (err e) k = record { run = λ s h. cc }

  Leaves-bind :
      (m : Exec Manager A) {f : A → Exec Manager B}
      → ((a : A) → Leaves b (f a))
      → Leaves b (m >>= f)
  Leaves-bind m {f} k = record { run = λ s h. (Leaves-continue f (m s).0 k).run (m s).1 h }

Leaves-if :
    {B : Type 0} {b : B} {m n : Exec Manager B} (test : Bool)
    → Leaves b m
    → Leaves b n
    → Leaves b (elim test [ true ↦ m | false ↦ n ])
Leaves-if true k l = k
Leaves-if false k l = l

after_look :
    {n : Exec Manager (List StopOutcome)} (r : Result Bool) (s : Manager)
    → (r ≡ ok true → owners s ≡ [])
    → Rests n
    → (continue r (λ quiet. elim quiet [ true ↦ pure [] | false ↦ n ]) s).0 ≡ ok []
    → owners (continue r (λ quiet. elim quiet [ true ↦ pure [] | false ↦ n ]) s).1 ≡ []
after_look (ok true) s quiet k h = quiet refl
after_look (ok false) s quiet k h = k.run s h
after_look (err e) s quiet k h = cc

-- Outcomes that are none only if there is no owner.
Rests-asks :
    (f : Manager → List StopOutcome)
    → ((m : Manager) → f m ≡ [] → owners m ≡ [])
    → Rests (asks (λ m. ok (f m)))
Rests-asks f k = record { run = λ s h. k s (ground arith) }

Rests-some : (o : StopOutcome) (os : List StopOutcome) → Rests (pure (o ∷ os))
Rests-some o os = record { run = λ s h. cc }

Rests-raise : (e : Error) → Rests (raise e)
Rests-raise e = record { run = λ s h. cc }

unless_over-Rests :
    (d : Deadline) {over go_on : Exec Manager (List StopOutcome)}
    → Rests over
    → Rests go_on
    → Rests (unless_over d over go_on)
unfolding unless_over
unless_over-Rests d k l = Leaves-bind (asks (λ m. ok (remaining d m == 0))) (λ b. Leaves-if b k l)

map-nil : (os : List Owner) → aborted_ownership_outcomes os ≡ [] → os ≡ []
unfolding aborted_ownership_outcomes
map-nil [] h = refl
map-nil (o ∷ os) h = cc

give_up-Rests : Rests give_up
unfolding give_up
give_up-Rests =
    Rests-asks (λ m. aborted_ownership_outcomes (owners m)) (λ m h. map-nil (owners m) h)

raced-nil : (os : List Owner) → raced_outcomes os ≡ [] → os ≡ []
unfolding raced_outcomes aborted_ownership_outcomes
raced-nil [] h = cc
raced-nil (o ∷ os) h = cc

late_cleanup_outcomes-Rests : (os : List StopOutcome) → Rests (pure (late_cleanup_outcomes os))
unfolding late_cleanup_outcomes
late_cleanup_outcomes-Rests [] = Rests-some _ _
late_cleanup_outcomes-Rests (o ∷ os) = Rests-some _ _

-- Whoever is not stopped is an outcome.
not_stopped-nil : (os : List StopOutcome) → not_stopped os ≡ [] → all_stopped os ≡ true
unfolding all_stopped filter
not_stopped-nil [] h = refl
not_stopped-nil (o ∷ os) h = ground (arith, not_stopped-nil os)

not_stopped-Rests : (os : List StopOutcome) → all_stopped os ≡ false → Rests (pure (not_stopped os))
not_stopped-Rests os h = record { run = λ s e. ground (arith, not_stopped-nil os) }

is_empty-nil : (os : List Owner) → is_empty os ≡ true → os ≡ []
unfolding is_empty
is_empty-nil [] h = refl
is_empty-nil (o ∷ os) h = cc

false-Leaves : Leaves true (pure false)
false-Leaves = record { run = λ s h. cc }

second_look-Leaves :
    (version : ℕ)
    → Leaves true (asks (λ m. ok (is_empty (owners m) && (m.ownership_version == version))))
second_look-Leaves version = record { run = λ s h. is_empty-nil (owners s) (ground arith) }

module _ (l : Lifecycle) where
  -- After a stable look nothing is owned.
  ownership_is_stably_empty-Leaves : Leaves true (ownership_is_stably_empty l)
  unfolding ownership_is_stably_empty
  ownership_is_stably_empty-Leaves =
      Leaves-bind (asks (λ m. ok (cleanup_ownership_snapshot m))) (λ first.
        Leaves-if (is_empty first.owners)
          (Leaves-bind l.turn (λ _. second_look-Leaves first.version)) false-Leaves)

  unless_empty-Rests : {n : Exec Manager (List StopOutcome)} → Rests n → Rests (unless_empty l n)
  unfolding unless_empty
  unless_empty-Rests k = record {
    run = λ s h.
        after_look (ownership_is_stably_empty l s).0 (ownership_is_stably_empty l s).1
          (ownership_is_stably_empty-Leaves.run s) k h;
  }

  last_look-Rests : Rests (last_look l)
  unfolding last_look
  last_look-Rests = Leaves-bind (asks (λ m. ok (owners m))) (λ initial.
      Leaves-if (is_empty initial)
        (unless_empty-Rests
          (Rests-asks (λ m. raced_outcomes (owners m)) (λ m h. raced-nil (owners m) h)))
        give_up-Rests)

  unless_vacant-Rests : {n : Exec Manager (List StopOutcome)} → Rests n → Rests (unless_vacant l n)
  unfolding unless_vacant
  unless_vacant-Rests k =
      Leaves-bind (asks (λ m. ok (owners m)))
        (λ initial. Leaves-if (is_empty initial) (unless_empty-Rests k) k)

  settle-Rests :
      (d : Deadline) {n : Exec Manager (List StopOutcome)} → Rests n → Rests (settle l d n)
  unfolding settle
  settle-Rests d k = unless_empty-Rests (unless_over-Rests d give_up-Rests k)

  go_on-Rests :
      {m n : Exec Manager (List StopOutcome)} (b : Bool)
      → Rests m
      → (b ≡ false → Rests n)
      → Rests (elim b [ true ↦ m | false ↦ n ])
  go_on-Rests true k f = k
  go_on-Rests false k f = f refl

  after_forced-Rests :
      (d : Deadline) {next : Exec Manager (List StopOutcome)} (os : List StopOutcome)
      → Rests next
      → Rests (after_forced l d next os)
  unfolding after_forced
  after_forced-Rests d [] k =
      unless_over-Rests d (late_cleanup_outcomes-Rests []) (settle-Rests d k)
  after_forced-Rests d (o ∷ os) k =
      unless_over-Rests d (late_cleanup_outcomes-Rests (o ∷ os))
        (go_on-Rests (all_stopped (o ∷ os)) k (not_stopped-Rests (o ∷ os)))

  after_graceful-Rests :
      (d : Deadline) {next : Exec Manager (List StopOutcome)} (os : List StopOutcome)
      → Rests next
      → Rests (after_graceful l d next os)
  unfolding after_graceful
  after_graceful-Rests d [] k =
      unless_over-Rests d (late_cleanup_outcomes-Rests []) (settle-Rests d k)
  after_graceful-Rests d (o ∷ os) k = unless_over-Rests d (late_cleanup_outcomes-Rests (o ∷ os)) (
      go_on-Rests (all_stopped (o ∷ os)) (settle-Rests d k) (λ some.
        unless_over-Rests d (not_stopped-Rests (o ∷ os) some)
          (Leaves-bind (stop_until l d.at true d) (λ forced. after_forced-Rests d forced k))))

  cleanup_loop-Rests : (fuel : ℕ) (d : Deadline) → Rests (cleanup_loop l fuel d)
  unfolding cleanup_loop
  cleanup_loop-Rests zero d = Rests-raise out_of_fuel
  cleanup_loop-Rests (suc fuel) d = unless_over-Rests d last_look-Rests (
      unless_vacant-Rests (
        unless_over-Rests d give_up-Rests (
          Leaves-bind (graceful_stop l d)
            (λ os. after_graceful-Rests d os (cleanup_loop-Rests fuel d)))))

  -- What the cleanup returns as `no failure` it returns where nothing is owned.
  pub cleanup_within_deadline-owners :
      (fuel : ℕ) (d : Deadline) (m : Manager)
      → (cleanup_within_deadline l fuel d m).0 ≡ ok []
      → owners (cleanup_within_deadline l fuel d m).1 ≡ []
  unfolding cleanup_within_deadline
  cleanup_within_deadline-owners fuel d m h = (cleanup_loop-Rests fuel d).run _ h
