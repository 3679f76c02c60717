-- ===== src/Tasks/Cycle/Complete.antt =====
-- A search that raises a cycle names a task that depends on itself.
use agent_town.Prelude.{
  ℕ, zero, suc, String, List, [], ◌∷◌, ◌≡◌, ◌⊎◌, true, arith, includes, ==_iff, string_eq, ◌==◌,
  inl, inr, subst, Bool-cases, ==_refl, sym, ◌∙◌,
}
use agent_town.Result.{Error, Result, err, Result-cases, dependency_cycle, out_of_fuel}
use agent_town.Tasks.Cycle.{
  Graph, dependencies_of, Walk, enter, visit_each, visit, search_graph, keys, enough_fuel,
}
use agent_town.Tasks.Cycle.View.{Ends, cycle, seen, raised, left, visit-Ends}
use agent_town.Tasks.Cycle.Sound.{DependsOn, Reaches, edge, Reaches-snoc}
use agent_town.Tasks.Cycle.Kept.{KeepsVisiting, visit-kept}

-- The error of a search: a task on a cycle, unless the fuel ran out.
abbrev pub IsJustified : Graph → Error → Type 0
IsJustified g e = (e ≡ out_of_fuel) ⊎ ((n : String) × (e ≡ dependency_cycle n) × Reaches g n n)

-- Every task that is being visited depends on this one.
abbrev LeadsTo : Graph → Walk → String → Type 0
LeadsTo g w n = (m : String) → includes w.visiting m ≡ true → Reaches g m n

abbrev JustifiedVisit : Graph → (String → Walk → Result Walk) → Type 0
JustifiedVisit g v =
    (n : String) (w : Walk) (e : Error) → v n w ≡ err e → LeadsTo g w n → IsJustified g e

visit_each-IsJustified :
    (g : Graph) (v : String → Walk → Result Walk)
    → KeepsVisiting v
    → JustifiedVisit g v
    → (ns : List String) (w : Walk) (e : Error) → visit_each v ns w ≡ err e
    → ((d : String) → includes ns d ≡ true → LeadsTo g w d)
    → IsJustified g e
unfolding visit_each includes
visit_each-IsJustified g v kv jv [] w e h lead = cc
visit_each-IsJustified g v kv jv (n ∷ ns) w e h lead = elim (Result-cases (v n w)) [
  | inr (e', hv) ↦
      let s : e' ≡ e = ground arith in
      subst (λ x. IsJustified g x) s (jv n w e' hv (lead n (ground (arith, ==_refl n))))
  | inl (w₁, hv) ↦
      visit_each-IsJustified g v kv jv ns w₁ e (ground arith)
        (λ d hd m hm. lead d (ground arith) m (sym (kv n w w₁ hv m) ∙ hm))
]

-- Below a task, the tasks being visited and the task itself lead to its dependencies.
enter-LeadsTo :
    (g : Graph) (n : String) (w : Walk)
    → LeadsTo g w n
    → (d : String) → DependsOn g n d
    → LeadsTo g (enter n w) d
unfolding includes
enter-LeadsTo g n w lead d hd m hm = elim (Bool-cases (n == m)) [
  | inl p ↦ subst (λ x. Reaches g x d) ((==_iff n m).0 p) (edge hd)
  | inr p ↦ Reaches-snoc g (lead m (ground arith)) hd
]

Ends-IsJustified :
    (f : ℕ) (g : Graph) (n : String) (w : Walk) (r : Result Walk)
    → JustifiedVisit g (visit f g)
    → Ends f g n w r
    → (e : Error) → r ≡ err e
    → LeadsTo g w n
    → IsJustified g e
Ends-IsJustified f g n w _ jv (cycle p) e h lead = inr (n, ground arith, lead n p)
Ends-IsJustified f g n w _ jv (seen q) e h lead = cc
Ends-IsJustified f g n w _ jv (raised {e = e'} p k) e h lead =
    let s : e' ≡ e = ground arith in
    subst (λ x. IsJustified g x) s
      (visit_each-IsJustified g (visit f g) (visit-kept f g) jv (dependencies_of g n) (enter n w) e'
        k (enter-LeadsTo g n w lead))
Ends-IsJustified f g n w _ jv (left p k) e h lead = cc

visit-IsJustified : (f : ℕ) (g : Graph) → JustifiedVisit g (visit f g)
visit-IsJustified zero g n w e h lead = inl (unfold visit in ground arith)
visit-IsJustified (suc f) g n w e h lead =
    Ends-IsJustified f g n w _ (visit-IsJustified f g) (visit-Ends f g n w) e h lead

pub search_graph-IsJustified : (g : Graph) (e : Error) → search_graph g ≡ err e → IsJustified g e
unfolding search_graph includes
search_graph-IsJustified g e h =
    visit_each-IsJustified g (visit (enough_fuel g) g) (visit-kept (enough_fuel g) g)
      (visit-IsJustified (enough_fuel g) g) (keys g) _ e h (λ d hd m hm. cc)
