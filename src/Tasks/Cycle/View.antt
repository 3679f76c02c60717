-- ===== src/Tasks/Cycle/View.antt =====
-- The four ways in which one call of `visit` ends.
use agent_town.Prelude.{ℕ, suc, String, ◌≡◌, true, false, includes, string_eq, Bool-cases, inl, inr}
use agent_town.Result.{Error, Result, ok, err, dependency_cycle, Result-cases}
use agent_town.Tasks.Cycle.{Graph, dependencies_of, Walk, enter, leave, visit_each, visit}

abbrev pub below : ℕ → Graph → String → Walk → Result Walk
below f g n w = visit_each (visit f g) (dependencies_of g n) (enter n w)

pub data Ends (f : ℕ) (g : Graph) (n : String) (w : Walk) : Result Walk → Type 0 where
  cycle : includes w.visiting n ≡ true → Ends f g n w (err (dependency_cycle n))
  seen : includes w.visited n ≡ true → Ends f g n w (ok w)
  raised :
      {e : Error} → includes w.visiting n ≡ false → below f g n w ≡ err e → Ends f g n w (err e)
  left :
      {w₁ : Walk}
      → includes w.visiting n ≡ false
      → below f g n w ≡ ok w₁
      → Ends f g n w (ok (leave n w₁))

pub visit-Ends : (f : ℕ) (g : Graph) (n : String) (w : Walk) → Ends f g n w (visit (suc f) g n w)
unfolding visit
visit-Ends f g n w = elim (Bool-cases (includes w.visiting n)) [
  | inl p ↦ rw p (cycle p)
  | inr p ↦ elim (Bool-cases (includes w.visited n)) [
    | inl q ↦ rw (p, q) (seen q)
    | inr q ↦ elim (Result-cases (below f g n w)) [
      | inr (e, h) ↦ rw (p, q, h) (raised p h)
      | inl (w₁, h) ↦ rw (p, q, h) (left p h)
    ]
  ]
]
