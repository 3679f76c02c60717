-- ===== src/Storage/Order.antt =====
-- The ORDER BY clauses of packages/core/src/storage/core-store.ts. Texts compare by their bytes.
pub mod Laws
use Prim.Native.String.{compare}
use text.Mathlib.Text.{is_le}
use agent_town.Prelude.{String, Bool, Option, none, some, List, [], ◌∷◌, if◌then◌else◌}

abbrev pub text_le : String → String → Bool
text_le a b = is_le (compare a b)

module _ {A : Type 0} (key : A → String) where
  unfoldable pub insert_by : A → List A → List A
  insert_by t [] = t ∷ []
  insert_by t (u ∷ us) =
      let rest = insert_by t us in if text_le (key t) (key u) then t ∷ u ∷ us else u ∷ rest

  -- ORDER BY key ASC
  unfoldable pub sort_by : List A → List A
  unfolding insert_by
  sort_by [] = []
  sort_by (t ∷ ts) = insert_by t (sort_by ts)

  unfoldable pub latest_from : A → List A → A
  latest_from best [] = best
  latest_from best (x ∷ xs) = latest_from (if text_le (key best) (key x) then x else best) xs

  -- ORDER BY key DESC, rowid DESC LIMIT 1, over rows in the order of their row ids
  unfoldable pub latest_by : List A → Option A
  unfolding latest_from
  latest_by [] = none
  latest_by (x ∷ xs) = some (latest_from x xs)
