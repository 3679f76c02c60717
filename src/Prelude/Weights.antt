-- ===== src/Prelude/Weights.antt =====
-- The rows of a table weighed: what a table with one row for each key weighs when a row goes or
-- comes.
use agent_town.Prelude.Lists.{length}
use Prim.Native.Nat.{ℕ, ◌+◌, ◌≤◌, ◌<◌}
use mathlib.Core.Path.{◌≡◌, refl}
use mathlib.Core.List.{[], ◌∷◌}
use mathlib.Core.Option.{none, some}
use native.Mathlib.Omega.{arith}
use agent_town.Prelude.Equality.{Eq, ==_iff, ==_refl}
use agent_town.Prelude.Table.{Table, lookup, insert, remove, lookup-insert, lookup-remove}

module _ {ℓ} {K V : Type ℓ} ⦃e : Eq K⦄ where
  unfoldable pub IsUnique : Table K V → Type ℓ
  IsUnique [] = Unit
  IsUnique ((k, v) ∷ m) = (lookup k m ≡ none) × IsUnique m

  module _ (f : V → ℕ) where
    unfoldable pub weight : Table K V → ℕ
    weight [] = 0
    weight ((k, v) ∷ m) = f v + weight m

    pub weight-remove-absent :
        (k : K) (m : Table K V) → lookup k m ≡ none → weight (remove k m) ≡ weight m
    unfolding weight lookup remove
    weight-remove-absent k [] h = omega arith
    weight-remove-absent k ((j, v) ∷ m) h = ground (arith, weight-remove-absent k m)

    pub weight-remove :
        (k : K) (v : V) (m : Table K V)
        → IsUnique m
        → lookup k m ≡ some v
        → weight (remove k m) + f v ≡ weight m
    unfolding weight lookup remove IsUnique
    weight-remove k v [] u h = ground arith
    weight-remove k v ((j, w) ∷ m) u h =
        ground (arith, ==_iff j k, weight-remove k v m, weight-remove-absent k m)

    pub weight-insert :
        (k : K) (v : V) (m : Table K V) → lookup k m ≡ none → weight (insert k v m) ≡ weight m + f v
    unfolding weight lookup insert
    weight-insert k v [] h = omega arith
    weight-insert k v ((j, w) ∷ m) h = ground (arith, weight-insert k v m)

  pub remove-IsUnique : (k : K) (m : Table K V) → IsUnique m → IsUnique (remove k m)
  unfolding IsUnique remove
  remove-IsUnique k [] u = u
  remove-IsUnique k ((j, v) ∷ m) u =
      ground (arith, lookup-remove k j m, ==_iff k j, remove-IsUnique k m)

  pub insert-IsUnique : (k : K) (v : V) (m : Table K V) → IsUnique m → IsUnique (insert k v m)
  unfolding IsUnique insert lookup
  insert-IsUnique k v [] u = ground arith
  insert-IsUnique k v ((j, w) ∷ m) u =
      ground (arith, lookup-insert k j v m, ==_iff k j, ==_iff j k, insert-IsUnique k v m)

  length-remove-le : (k : K) (m : Table K V) → length (remove k m) ≤ length m
  unfolding remove
  length-remove-le k [] = omega arith
  length-remove-le k ((j, w) ∷ m) = ground (arith, length-remove-le k m)

  pub length-remove :
      (k : K) (v : V) (m : Table K V) → lookup k m ≡ some v → length (remove k m) < length m
  unfolding remove lookup
  length-remove k v [] h = ground arith
  length-remove k v ((j, w) ∷ m) h = ground (arith, length-remove k v m, length-remove-le k m)

  pub weight-empty : (f : V → ℕ) (m : Table K V) → ((k : K) → lookup k m ≡ none) → weight f m ≡ 0
  unfolding weight lookup
  weight-empty f [] h = refl
  weight-empty f ((j, w) ∷ m) h = ground (arith, h j, ==_refl j)
