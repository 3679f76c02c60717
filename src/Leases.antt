-- ===== src/Leases.antt =====
-- packages/core/src/ipc/lease-registry.ts: LeaseRegistry. The callback `onLastClientExpired` runs
-- outside: the model counts its calls, and its end is an event, `settle`. A promise that waits for
-- a call in flight is counted by `waiting`. `now` is what `options.now()` returns to the call.
pub mod Triggers
pub mod Live
pub mod Due
use agent_town.Prelude.{
  ℕ, zero, suc, ◌+◌, String, Bool, true, false, not, ◌||◌, List, [], ◌∷◌, nat_eq, ◌==◌,
  if◌then◌else◌,
}
use agent_town.Storage.Transaction.{Store}
use agent_town.Storage.Leases.{
  upsert_lease, delete_lease, delete_expired_leases, count_leases, clear_leases,
}

pub record LeaseRegistry : Type 0 where
  pub store : Store
  pub ttl_ms : ℕ
  pub had_lease : Bool
  pub pause_triggered : Bool
  pub trigger_in_flight : Bool
  pub waiting : ℕ
  pub calls : ℕ

-- #triggerIfEmpty()
unfoldable pub trigger_if_empty : LeaseRegistry → LeaseRegistry
trigger_if_empty r =
    if r.trigger_in_flight
    then record r { waiting = r.waiting + 1 }
    else if not r.had_lease || r.pause_triggered || not (count_leases r.store == 0)
    then r
    else record r { pause_triggered = true; trigger_in_flight = true; calls = r.calls + 1 }

-- initialize()
unfoldable pub initialize : LeaseRegistry → LeaseRegistry
initialize r = record r { store = (clear_leases r.store).1 }

-- heartbeat(clientId)
unfoldable pub heartbeat : String → ℕ → LeaseRegistry → LeaseRegistry
heartbeat client_id now r = record r {
  store = (upsert_lease client_id (now + r.ttl_ms) r.store).1;
  had_lease = true;
  pause_triggered = false;
}

-- disconnect(clientId)
unfoldable pub disconnect : String → LeaseRegistry → LeaseRegistry
unfolding trigger_if_empty
disconnect client_id r = trigger_if_empty (record r { store = (delete_lease client_id r.store).1 })

-- sweep()
unfoldable pub sweep : ℕ → LeaseRegistry → LeaseRegistry
unfolding trigger_if_empty
sweep now r = trigger_if_empty (record r { store = (delete_expired_leases now r.store).1 })

-- The waiting promises go on, one after the other.
unfoldable pub wake : ℕ → LeaseRegistry → LeaseRegistry
wake zero r = r
wake (suc n) r = wake n (trigger_if_empty r)

-- The end of a call. After a failure the pause may be triggered again, and what waited is
-- rejected; after a success what waited looks again.
unfoldable pub settle : Bool → LeaseRegistry → LeaseRegistry
unfolding wake trigger_if_empty
settle ok r =
    if not r.trigger_in_flight
    then r
    else if ok
    then wake r.waiting (record r { trigger_in_flight = false; waiting = 0 })
    else record r { trigger_in_flight = false; pause_triggered = false; waiting = 0 }

pub data Event : Type 0 where
  beat : String → ℕ → Event
  gone : String → Event
  swept : ℕ → Event
  settled : Bool → Event

unfoldable pub handle : Event → LeaseRegistry → LeaseRegistry
unfolding heartbeat disconnect sweep settle
handle (beat client_id now) = heartbeat client_id now
handle (gone client_id) = disconnect client_id
handle (swept now) = sweep now
handle (settled ok) = settle ok

unfoldable pub run : List Event → LeaseRegistry → LeaseRegistry
run [] r = r
run (e ∷ es) r = run es (handle e r)
