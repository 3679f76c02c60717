-- ===== src/Tasks/Cycle/Fuel.antt =====
-- The fuel of the search is enough: a call enters a task that is not being visited, and only a key
-- of the map has calls below it.
use agent_town.Prelude.{
  ℕ, zero, suc, ◌<◌, String, List, [], ◌∷◌, ◌≡◌, ◌≢◌, arith, length, string_eq, refl, inl, inr,
  Option-cases, ap,
}
use agent_town.Prelude.Remaining.{remaining, remaining-same, remaining-enter, remaining-le}
use agent_town.Prelude.Table.{lookup}
use agent_town.Result.{Result, err, Result-cases, out_of_fuel}
use agent_town.Tasks.Cycle.{
  Graph, dependencies_of, Walk, enter, visit_each, visit, search_graph, keys, enough_fuel,
}
use agent_town.Tasks.Cycle.View.{Ends, cycle, seen, raised, left, visit-Ends}
use agent_town.Tasks.Cycle.Sound.{keys-lookup}
use agent_town.Tasks.Cycle.Kept.{KeepsVisiting, visit-kept}

length-keys : (g : Graph) → length (keys g) ≡ length g
length-keys [] = refl
length-keys ((k, ds) ∷ g) = ap suc (length-keys g)

abbrev IsFuelled : Graph → ℕ → (String → Walk → Result Walk) → Type 0
IsFuelled g f v =
    (n : String) (w : Walk) → remaining (keys g) w.visiting < f → v n w ≢ err out_of_fuel

visit_each-fuelled :
    (g : Graph) (f : ℕ) (v : String → Walk → Result Walk)
    → KeepsVisiting v
    → IsFuelled g f v
    → (ns : List String) (w : Walk) → remaining (keys g) w.visiting < f
    → visit_each v ns w ≢ err out_of_fuel
unfolding visit_each
visit_each-fuelled g f v kv fv [] w m h = cc
visit_each-fuelled g f v kv fv (n ∷ ns) w m h = elim (Result-cases (v n w)) [
  | inr (e, hv) ↦ fv n w m (ground arith)
  | inl (w₁, hv) ↦
      let s = remaining-same (keys g) w.visiting w₁.visiting (kv n w w₁ hv) in
      visit_each-fuelled g f v kv fv ns w₁ (omega arith) (ground arith)
]

Ends-fuelled :
    (f : ℕ) (g : Graph) (n : String) (w : Walk) (r : Result Walk)
    → IsFuelled g f (visit f g)
    → Ends f g n w r
    → remaining (keys g) w.visiting < suc f
    → r ≢ err out_of_fuel
unfolding visit_each dependencies_of
Ends-fuelled f g n w _ fv (cycle p) m h = cc
Ends-fuelled f g n w _ fv (seen q) m h = cc
Ends-fuelled f g n w _ fv (raised {e} p k) m h = elim (Option-cases (lookup n g)) [
  | inl q ↦ ground arith
  | inr (ds, q) ↦
      let lt = remaining-enter (keys g) n w.visiting (keys-lookup g n ds q) p in
      visit_each-fuelled g f (visit f g) (visit-kept f g) fv (dependencies_of g n) (enter n w)
        (omega arith) (ground arith)
]
Ends-fuelled f g n w _ fv (left p k) m h = cc

visit-IsFuelled : (f : ℕ) (g : Graph) → IsFuelled g f (visit f g)
visit-IsFuelled zero g n w m h = absurd (omega arith)
visit-IsFuelled (suc f) g n w m h =
    Ends-fuelled f g n w _ (visit-IsFuelled f g) (visit-Ends f g n w) m h

pub search_graph-fuelled : (g : Graph) → search_graph g ≢ err out_of_fuel
unfolding search_graph
search_graph-fuelled g h =
    visit_each-fuelled g (enough_fuel g) (visit (enough_fuel g) g) (visit-kept (enough_fuel g) g)
      (visit-IsFuelled (enough_fuel g) g) (keys g) _
      (omega (arith, remaining-le (keys g) [], length-keys g)) h
