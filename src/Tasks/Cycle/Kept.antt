-- ===== src/Tasks/Cycle/Kept.antt =====
-- A visit that ends leaves the set of tasks that are being visited as it found it.
use agent_town.Prelude.{
  ℕ, zero, suc, String, List, [], ◌∷◌, ◌≡◌, not, false, arith, includes, filter, ==_iff, string_eq,
  ◌==◌, inl, inr, if◌then◌else◌, ◌∙◌,
}
use agent_town.Result.{Result, ok, Result-cases}
use agent_town.Tasks.Cycle.{Graph, dependencies_of, Walk, enter, visit_each, visit}
use agent_town.Tasks.Cycle.View.{Ends, cycle, seen, raised, left, visit-Ends}

abbrev pub SameVisiting : Walk → Walk → Type 0
SameVisiting w w' = (m : String) → includes w'.visiting m ≡ includes w.visiting m

abbrev pub KeepsVisiting : (String → Walk → Result Walk) → Type 0
KeepsVisiting v = (n : String) (w w' : Walk) → v n w ≡ ok w' → SameVisiting w w'

includes-without :
    (n m : String) (l : List String)
    → includes (filter (λ x. not (x == n)) l) m ≡ (if n == m then false else includes l m)
unfolding includes filter
includes-without n m [] = ground arith
includes-without n m (x ∷ l) =
    ground (arith, includes-without n m l, ==_iff x n, ==_iff x m, ==_iff n m)

visit_each-kept :
    (v : String → Walk → Result Walk)
    → KeepsVisiting v
    → (ns : List String) (w w' : Walk) → visit_each v ns w ≡ ok w'
    → SameVisiting w w'
unfolding visit_each
visit_each-kept v kv [] w w' h m = ground arith
visit_each-kept v kv (n ∷ ns) w w' h m = elim (Result-cases (v n w)) [
  | inr (e, hv) ↦ ground arith
  | inl (w₁, hv) ↦ visit_each-kept v kv ns w₁ w' (ground arith) m ∙ kv n w w₁ hv m
]

Ends-kept :
    (f : ℕ) (g : Graph) (n : String) (w : Walk) (r : Result Walk)
    → KeepsVisiting (visit f g)
    → Ends f g n w r
    → (w' : Walk) → r ≡ ok w'
    → SameVisiting w w'
unfolding includes
Ends-kept f g n w _ kv (cycle p) w' h m = cc
Ends-kept f g n w _ kv (seen q) w' h m = ground arith
Ends-kept f g n w _ kv (raised p k) w' h m = cc
Ends-kept f g n w _ kv (left {w₁} p k) w' h m = ground (
  arith,
  visit_each-kept (visit f g) kv (dependencies_of g n) (enter n w) w₁ k m,
  includes-without n m w₁.visiting,
  ==_iff n m,
)

pub visit-kept : (f : ℕ) (g : Graph) → KeepsVisiting (visit f g)
visit-kept zero g n w w' h m = unfold visit in ground arith
visit-kept (suc f) g n w w' h m = Ends-kept f g n w _ (visit-kept f g) (visit-Ends f g n w) w' h m
