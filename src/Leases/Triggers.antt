-- ===== src/Leases/Triggers.antt =====
-- When the registry pauses the company: once for each time that the last client goes.
use agent_town.Prelude.{
  ℕ, zero, suc, true, false, ◌≡◌, List, [], ◌∷◌, arith, refl, string_eq, ◌∙◌, nat_eq,
}
use agent_town.Storage.Leases.{delete_lease, delete_expired_leases}
use agent_town.Leases.{
  LeaseRegistry, trigger_if_empty, wake, Event, beat, gone, swept, settled, handle, run,
}

-- No client has come back, and no pause has failed.
abbrev pub IsQuiet : Event → Type 0
IsQuiet (beat client_id now) = ⊥
IsQuiet (settled false) = ⊥
IsQuiet _ = Unit

abbrev pub AllQuiet : List Event → Type 0
AllQuiet [] = Unit
AllQuiet (e ∷ es) = IsQuiet e × AllQuiet es

abbrev SameCalls : LeaseRegistry → LeaseRegistry → Type 0
SameCalls r r' = (r'.pause_triggered ≡ true) × (r'.calls ≡ r.calls)

trigger_if_empty-paused :
    (r : LeaseRegistry) → r.pause_triggered ≡ true → SameCalls r (trigger_if_empty r)
unfolding trigger_if_empty
trigger_if_empty-paused r h = ground arith

wake-paused : (n : ℕ) (r : LeaseRegistry) → r.pause_triggered ≡ true → SameCalls r (wake n r)
unfolding wake
wake-paused zero r h = (h, refl)
wake-paused (suc n) r h =
    let (p, e) = trigger_if_empty-paused r h in
    let (q, f) = wake-paused n (trigger_if_empty r) p in (q, f ∙ e)

handle-paused :
    (e : Event) (r : LeaseRegistry)
    → IsQuiet e
    → r.pause_triggered ≡ true
    → SameCalls r (handle e r)
unfolding handle
handle-paused (beat client_id now) r q h = absurd q
handle-paused (gone client_id) r q h =
    trigger_if_empty-paused (record r { store = (delete_lease client_id r.store).1 }) h
handle-paused (swept now) r q h =
    trigger_if_empty-paused (record r { store = (delete_expired_leases now r.store).1 }) h
handle-paused (settled false) r q h = absurd q
handle-paused (settled true) r q h =
    ground (arith, wake-paused r.waiting (record r { trigger_in_flight = false; waiting = 0 }) h)

-- Once a pause is triggered, no disconnect, sweep or successful end of a call triggers another,
-- until a client's heartbeat.
pub run-paused :
    (es : List Event) (r : LeaseRegistry)
    → AllQuiet es
    → r.pause_triggered ≡ true
    → (run es r).calls ≡ r.calls
unfolding run
run-paused [] r q h = refl
run-paused (e ∷ es) r q h =
    let (p, c) = handle-paused e r q.0 h in run-paused es (handle e r) q.1 p ∙ c
