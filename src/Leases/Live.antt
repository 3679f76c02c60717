-- ===== src/Leases/Live.antt =====
-- A client's lease keeps the company running.
use agent_town.Prelude.{
  ℕ, zero, suc, ◌+◌, ◌≤◌, ◌<◌, String, false, ◌≡◌, some, List, [], ◌∷◌, arith, refl, length, filter,
  ==_refl, string_eq, ◌∙◌, ◌≢◌, ◌⊎◌, inl, inr, Bool, Bool-cases, ◌==◌, ==_of_ne, nat_eq, subst, sym,
}
use agent_town.Prelude.Table.{Table, lookup, lookup-insert, lookup-remove}
use agent_town.Storage.Leases.{
  upsert_lease, delete_lease, delete_expired_leases, count_leases, unexpired,
}
use agent_town.Leases.{
  LeaseRegistry, trigger_if_empty, heartbeat, sweep, wake, Event, beat, gone, swept, settled,
  handle, run, settle, disconnect,
}

-- A table with a lease is not empty.
lookup-occupied :
    (id : String) (t : ℕ) (rows : Table String ℕ) → lookup id rows ≡ some t → length rows ≢ 0
unfolding lookup
lookup-occupied id t [] h = cc
lookup-occupied id t (row ∷ rows) h = λ e. absurd (omega arith)

-- A lease that has not run out is found after the others were deleted.
lookup-unexpired_same :
    (now : ℕ) (id : String) (t : ℕ) (rows : Table String ℕ)
    → lookup id rows ≡ some t
    → now < t
    → lookup id (unexpired now rows) ≡ some t
unfolding lookup filter
lookup-unexpired_same now id t [] h lt = cc
lookup-unexpired_same now id t ((k, x) ∷ rows) h lt =
    ground (arith, lookup-unexpired_same now id t rows)

-- The client has a lease, of its last heartbeat or of one not before `now`.
record IsLive (client_id : String) (now ttl : ℕ) (r : LeaseRegistry) : Type 0 where
  ends : ℕ
  held : lookup client_id r.store.db.client_leases ≡ some ends
  later : now + ttl ≤ ends
  lasts : r.ttl_ms ≡ ttl

-- What may happen within `ttl` milliseconds from `now`, if the client does not disconnect. Other
-- clients come and go as they like.
abbrev pub IsWithin : String → ℕ → ℕ → Event → Type 0
IsWithin client_id now ttl (beat other at) = now ≤ at
IsWithin client_id now ttl (gone other) = other ≢ client_id
IsWithin client_id now ttl (swept at) = at < now + ttl
IsWithin client_id now ttl (settled ok) = Unit

abbrev pub AllWithin : String → ℕ → ℕ → List Event → Type 0
AllWithin client_id now ttl [] = Unit
AllWithin client_id now ttl (e ∷ es) = IsWithin client_id now ttl e × AllWithin client_id now ttl es

-- With a lease left in the table the pause is not called.
occupied-trigger :
    (r : LeaseRegistry)
    → count_leases r.store ≢ 0
    → (trigger_if_empty r ≡ r) ⊎ (trigger_if_empty r ≡ record r { waiting = r.waiting + 1 })
unfolding trigger_if_empty
occupied-trigger r h = ground arith

module _ (client_id : String) (now ttl : ℕ) where
  abbrev StaysLive : LeaseRegistry → LeaseRegistry → Type 0
  StaysLive r r' = IsLive client_id now ttl r' × (r'.calls ≡ r.calls)

  trigger_if_empty-StaysLive :
      (r : LeaseRegistry) → IsLive client_id now ttl r → StaysLive r (trigger_if_empty r)
  unfolding count_leases
  trigger_if_empty-StaysLive r h =
      let occupied = lookup-occupied client_id h.ends r.store.db.client_leases h.held in
      elim (occupied-trigger r occupied) [
        | inl e ↦ rw e (h, refl)
        | inr e ↦
            rw e (record { ends = h.ends; held = h.held; later = h.later; lasts = h.lasts }, refl)
      ]

  wake-StaysLive : (n : ℕ) (r : LeaseRegistry) → IsLive client_id now ttl r → StaysLive r (wake n r)
  unfolding wake
  wake-StaysLive zero r h = (h, refl)
  wake-StaysLive (suc n) r h =
      let (l, e) = trigger_if_empty-StaysLive r h in
      let (l', e') = wake-StaysLive n (trigger_if_empty r) l in (l', e' ∙ e)

  settle-StaysLive :
      (ok : Bool) (r : LeaseRegistry) → IsLive client_id now ttl r → StaysLive r (settle ok r)
  unfolding settle
  settle-StaysLive ok r h =
      let r' : LeaseRegistry = record r { trigger_in_flight = false; waiting = 0 } in
      let freed : IsLive client_id now ttl r' = record {
        ends = h.ends;
        held = h.held;
        later = h.later;
        lasts = h.lasts;
      } in
      let retried : IsLive client_id now ttl (record r' { pause_triggered = false }) = record {
        ends = h.ends;
        held = h.held;
        later = h.later;
        lasts = h.lasts;
      } in
      elim (Bool-cases r.trigger_in_flight) [
        | inr idle ↦ subst (StaysLive r) (sym (ground (arith, idle))) (h, refl)
        | inl busy ↦ elim (Bool-cases ok) [
          | inl done ↦
              subst (StaysLive r) (sym (ground (arith, busy, done)))
                (wake-StaysLive r.waiting r' freed)
          | inr failed ↦ subst (StaysLive r) (sym (ground (arith, busy, failed))) (retried, refl)
        ]
      ]

  handle-StaysLive :
      (e : Event) (r : LeaseRegistry)
      → IsWithin client_id now ttl e
      → IsLive client_id now ttl r
      → StaysLive r (handle e r)
  unfolding handle heartbeat upsert_lease delete_lease delete_expired_leases disconnect sweep
  handle-StaysLive (beat other at) r w h =
      let rows = r.store.db.client_leases in
      let found = lookup-insert other client_id (at + r.ttl_ms) rows in
      elim (Bool-cases (other == client_id)) [
        | inl same ↦ (
          record {
            ends = at + r.ttl_ms;
            held = ground (arith, found, same);
            later = omega (arith, h.lasts, w);
            lasts = h.lasts;
          },
          refl,
        )
        | inr differs ↦ (
          record {
            ends = h.ends;
            held = ground (arith, found, differs, h.held);
            later = h.later;
            lasts = h.lasts;
          },
          refl,
        )
      ]
  handle-StaysLive (gone other) r w h =
      let rows = r.store.db.client_leases in
      trigger_if_empty-StaysLive (record r { store = (delete_lease other r.store).1 })
        (record {
          ends = h.ends;
          held =
              ground
                (arith, lookup-remove other client_id rows, ==_of_ne other client_id w, h.held);
          later = h.later;
          lasts = h.lasts;
        })
  handle-StaysLive (swept at) r w h =
      let rows = r.store.db.client_leases in
      trigger_if_empty-StaysLive (record r { store = (delete_expired_leases at r.store).1 })
        (record {
          ends = h.ends;
          held = lookup-unexpired_same at client_id h.ends rows h.held (omega (arith, w, h.later));
          later = h.later;
          lasts = h.lasts;
        })
  handle-StaysLive (settled ok) r w h = settle-StaysLive ok r h

  run-StaysLive :
      (es : List Event) (r : LeaseRegistry)
      → AllWithin client_id now ttl es
      → IsLive client_id now ttl r
      → (run es r).calls ≡ r.calls
  unfolding run
  run-StaysLive [] r w h = refl
  run-StaysLive (e ∷ es) r w h =
      let (l, c) = handle-StaysLive e r w.0 h in run-StaysLive es (handle e r) w.1 l ∙ c

-- After a client's heartbeat the pause is not called as long as the client does not disconnect and
-- the sweeps come before its time to live is over, whatever the later heartbeats of all clients, the
-- disconnects of the others and the ends of earlier calls in between.
pub run-live :
    (client_id : String) (now : ℕ) (es : List Event) (r : LeaseRegistry)
    → AllWithin client_id now r.ttl_ms es
    → (run es (heartbeat client_id now r)).calls ≡ r.calls
unfolding heartbeat upsert_lease
run-live client_id now es r w =
    run-StaysLive client_id now r.ttl_ms es (heartbeat client_id now r) w (record {
      ends = now + r.ttl_ms;
      held = ground (
        arith,
        lookup-insert client_id client_id (now + r.ttl_ms) r.store.db.client_leases,
        ==_refl client_id,
      );
      later = omega arith;
      lasts = refl;
    })
