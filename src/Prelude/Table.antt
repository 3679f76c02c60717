-- ===== src/Prelude/Table.antt =====
-- A table with a primary key, as an association list: `lookup` is a SELECT by the key, `insert` an
-- upsert, `remove` a DELETE by the key.
use agent_town.Prelude.Equality.{Eq, ◌==◌, ==_iff}
use agent_town.Prelude.Tests.{if◌then◌else◌}
use mathlib.Core.Path.{◌≡◌, refl}
use mathlib.Core.Option.{Option, none, some}
use mathlib.Core.List.{List, [], ◌∷◌}
use native.Mathlib.Omega.{arith}

abbrev pub Table {ℓ κ} : Type ℓ → Type κ → Type (ℓ ⊔ κ)
Table K V = List (K × V)

module _ {ℓ κ} {K : Type ℓ} {V : Type κ} ⦃e : Eq K⦄ where
  unfoldable pub lookup : K → Table K V → Option V
  lookup key [] = none
  lookup key ((k, row) ∷ rows) = if k == key then some row else lookup key rows

  unfoldable pub insert : K → V → Table K V → Table K V
  insert key row [] = (key, row) ∷ []
  insert key row ((k, old) ∷ rows) =
      if k == key then (key, row) ∷ rows else (k, old) ∷ insert key row rows

  unfoldable pub remove : K → Table K V → Table K V
  remove k [] = []
  remove k ((j, v) ∷ m) = let rest = remove k m in if j == k then rest else (j, v) ∷ rest

  pub lookup-insert :
      (key other : K) (row : V) (rows : Table K V)
      → lookup other (insert key row rows) ≡ (if key == other then some row else lookup other rows)
  unfolding lookup insert
  lookup-insert key other row [] = refl
  lookup-insert key other row ((k, old) ∷ rows) =
      ground
        (arith, lookup-insert key other row rows, ==_iff key other, ==_iff k key, ==_iff k other)

  pub lookup-remove :
      (k j : K) (m : Table K V) → lookup j (remove k m) ≡ (if k == j then none else lookup j m)
  unfolding lookup remove
  lookup-remove k j [] = ground arith
  lookup-remove k j ((i, w) ∷ m) =
      ground (arith, ==_iff k j, ==_iff i k, ==_iff i j, lookup-remove k j m)
