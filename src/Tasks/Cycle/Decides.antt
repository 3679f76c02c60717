-- ===== src/Tasks/Cycle/Decides.antt =====
-- The search decides whether a map of dependencies has a cycle.
use agent_town.Prelude.{String, inl, inr, ◌∙◌, ap}
use agent_town.Result.{Result, ok, err, dependency_cycle, Result-cases}
use agent_town.Tasks.Cycle.{Graph, Walk, search_graph}
use agent_town.Tasks.Cycle.Sound.{Reaches, search_graph-acyclic}
use agent_town.Tasks.Cycle.Complete.{search_graph-IsJustified}
use agent_town.Tasks.Cycle.Fuel.{search_graph-fuelled}

module _ (g : Graph) where
  pub data Verdict : Result Walk → Type 0 where
    acyclic : {w : Walk} → ((n : String) → ¬ Reaches g n n) → Verdict (ok w)
    cyclic : {n : String} → Reaches g n n → Verdict (err (dependency_cycle n))

  -- The search always ends with the right verdict: it returns only if no task depends on itself,
  -- and otherwise raises the cycle at a task that does.
  pub search_graph-Verdict : Verdict (search_graph g)
  search_graph-Verdict = elim (Result-cases (search_graph g)) [
    | inl (w, h) ↦ rw h (acyclic (search_graph-acyclic g w h))
    | inr (e, h) ↦ elim (search_graph-IsJustified g e h) [
      | inl p ↦ absurd (search_graph-fuelled g (h ∙ ap err p))
      | inr (n, p, r) ↦ rw (h, p) (cyclic r)
    ]
  ]
