-- ===== src/Storage/Order/Laws.antt =====
-- packages/core/src/storage/core-store.ts: the order of texts, and sorting by texts.
use Prim.Native.String.{[] as empty, ◌∷◌ as ◌▸◌}
use Prim.Native.String.compare
use text.Mathlib.TextEquality.{codes_equal}
use agent_town.Prelude.{
  String, true, false, ◌≡◌, refl, List, [], ◌∷◌, ◌==◌, string_eq, nat_eq, arith, ==_iff,
}
use agent_town.Storage.Order.{text_le, insert_by}

text_le_total : (s t : String) → text_le s t ≡ false → text_le t s ≡ true
text_le_total empty empty h = refl
text_le_total empty (d ▸ t) h = ground (arith, compare.nil-cons d t, h)
text_le_total (c ▸ s) empty h = ground (arith, compare.nil-cons c s)
text_le_total (c ▸ s) (d ▸ t) h =
    ground (arith, compare.cons-cons c d s t, compare.cons-cons d c t s, text_le_total s t, h)

text_le_trans : (s t u : String) → text_le s t ≡ true → text_le t u ≡ true → text_le s u ≡ true
text_le_trans empty t empty h k = refl
text_le_trans empty t (x ▸ u) h k = ground (arith, compare.nil-cons x u)
text_le_trans (c ▸ s) empty u h k = ground (arith, compare.cons-nil c s, h)
text_le_trans (c ▸ s) (d ▸ t) empty h k = ground (arith, compare.cons-nil d t, k)
text_le_trans (c ▸ s) (d ▸ t) (x ▸ u) h k = ground (
  arith,
  compare.cons-cons c d s t,
  compare.cons-cons d x t u,
  compare.cons-cons c x s u,
  text_le_trans s t u,
  h,
  k,
)

text_le_antisym : (s t : String) → text_le s t ≡ true → text_le t s ≡ true → s ≡ t
text_le_antisym empty empty h k = refl
text_le_antisym empty (d ▸ t) h k = ground (arith, compare.cons-nil d t, k)
text_le_antisym (c ▸ s) empty h k = ground (arith, compare.cons-nil c s, h)
text_le_antisym (c ▸ s) (d ▸ t) h k = ground (
  arith,
  compare.cons-cons c d s t,
  compare.cons-cons d c t s,
  text_le_antisym s t,
  codes_equal c d,
  h,
  k,
)

module _ {A : Type 0} (key : A → String) where
  -- Items of different keys may be inserted in either order.
  pub insert_by_comm :
      (a b : A) (xs : List A)
      → key a == key b ≡ false
      → insert_by key a (insert_by key b xs) ≡ insert_by key b (insert_by key a xs)
  unfolding insert_by
  insert_by_comm a b [] h = ground (
    arith,
    text_le_total (key a) (key b),
    text_le_antisym (key a) (key b),
    ==_iff (key a) (key b),
    h,
  )
  insert_by_comm a b (x ∷ xs) h = ground (
    arith,
    insert_by_comm a b xs h,
    h,
    ==_iff (key a) (key b),
    text_le_total (key a) (key b),
    text_le_antisym (key a) (key b),
    text_le_total (key a) (key x),
    text_le_total (key b) (key x),
    text_le_trans (key a) (key b) (key x),
    text_le_trans (key b) (key a) (key x),
  )
