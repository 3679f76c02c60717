-- ===== src/Leases/Due.antt =====
-- When a sweep of the registry pauses the company.
use agent_town.Prelude.{
  ℕ, ◌+◌, ◌≤◌, String, true, false, ◌≡◌, [], ◌∷◌, length, string_eq, Bool, ◌==◌, ◌&&◌, not, nat_eq,
}
use agent_town.Prelude.Table.{Table}
use agent_town.Storage.Leases.{unexpired}
use agent_town.Leases.{LeaseRegistry}

-- Every lease of the table has run out.
abbrev pub AllExpired : ℕ → Table String ℕ → Type 0
AllExpired now [] = Unit
AllExpired now ((id, t) ∷ rows) = (t ≤ now) × AllExpired now rows

-- The pause is due: a client was there, no pause was triggered since, none is being made, and every
-- lease has run out.
pub record IsDue (now : ℕ) (r : LeaseRegistry) : Type 0 where
  pub had : r.had_lease ≡ true
  pub untriggered : r.pause_triggered ≡ false
  pub free : r.trigger_in_flight ≡ false
  pub expired : AllExpired now r.store.db.client_leases

-- What a sweep does of the pause.
pub data Sweeps (now : ℕ) (r r' : LeaseRegistry) : Type 0 where
  calls : IsDue now r → r'.calls ≡ r.calls + 1 → r'.pause_triggered ≡ true → Sweeps now r r'
  spares : ¬ IsDue now r → r'.calls ≡ r.calls → Sweeps now r r'

abbrev is_due : ℕ → LeaseRegistry → Bool
is_due now r =
    r.had_lease
    && not r.pause_triggered
    && not r.trigger_in_flight
    && (length (unexpired now r.store.db.client_leases) == 0)
