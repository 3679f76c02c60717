-- ===== src/Tasks/Cycle/Sound.antt =====
-- A search that ends without an error has seen a graph with no cycle.
use agent_town.Prelude.{
  ℕ, zero, suc, String, List, [], ◌∷◌, ◌≡◌, true, some, none, inl, inr, arith, includes, ==_iff,
  string_eq, ◌==◌, Bool-cases, Option-cases, subst,
}
use agent_town.Prelude.Table.{lookup}
use agent_town.Result.{Result, ok, Result-cases}
use agent_town.Tasks.Cycle.View.{Ends, cycle, seen, raised, left, visit-Ends}
use agent_town.Tasks.Cycle.{
  enough_fuel, Graph, dependencies_of, Walk, enter, leave, visit_each, visit, keys, search_graph,
}

abbrev pub DependsOn : Graph → String → String → Type 0
DependsOn g n d = includes (dependencies_of g n) d ≡ true

-- A chain of at least one dependency.
pub data Reaches (g : Graph) : String → String → Type 0 where
  edge : {a b : String} → DependsOn g a b → Reaches g a b
  then : {a b c : String} → DependsOn g a b → Reaches g b c → Reaches g a c

-- Every chain of dependencies from the task ends.
pub data Grounded (g : Graph) : String → Type 0 where
  grounded : {n : String} → ((d : String) → DependsOn g n d → Grounded g d) → Grounded g n

pub Reaches-snoc : (g : Graph) {a b c : String} → Reaches g a b → DependsOn g b c → Reaches g a c
Reaches-snoc g (edge e) d = then e (edge d)
Reaches-snoc g (then e r) d = then e (Reaches-snoc g r d)

-- A cycle through a task is a cycle through the dependency that it starts with.
Grounded-acyclic : (g : Graph) {n : String} → Grounded g n → ¬ Reaches g n n
Grounded-acyclic g (grounded {n} below) (edge e) = Grounded-acyclic g (below n e) (edge e)
Grounded-acyclic g (grounded {n} below) (then {b} e r) =
    Grounded-acyclic g (below b e) (Reaches-snoc g r e)

abbrev AllGrounded : Graph → List String → Type 0
AllGrounded g ns = (m : String) → includes ns m ≡ true → Grounded g m

Grounded-eq : (g : Graph) (a b : String) → (a == b) ≡ true → Grounded g a → Grounded g b
Grounded-eq g a b e h = subst (λ x. Grounded g x) ((==_iff a b).0 e) h

AllGrounded-cons :
    (g : Graph) (n : String) (ns : List String)
    → Grounded g n
    → AllGrounded g ns
    → AllGrounded g (n ∷ ns)
unfolding includes
AllGrounded-cons g n ns h hs m e = elim (Bool-cases (n == m)) [
  | inl p ↦ Grounded-eq g n m p h
  | inr p ↦ hs m (ground arith)
]

abbrev SoundVisit : Graph → (String → Walk → Result Walk) → Type 0
SoundVisit g v =
    (n : String) (w w' : Walk)
    → v n w ≡ ok w'
    → AllGrounded g w.visited
    → AllGrounded g w'.visited × Grounded g n

visit_each_sound :
    (g : Graph) (v : String → Walk → Result Walk)
    → SoundVisit g v
    → (ns : List String) (w w' : Walk) → visit_each v ns w ≡ ok w'
    → AllGrounded g w.visited
    → AllGrounded g w'.visited × AllGrounded g ns
unfolding visit_each includes
visit_each_sound g v sv [] w w' h inv = (ground arith, λ m e. cc)
visit_each_sound g v sv (n ∷ ns) w w' h inv = elim (Result-cases (v n w)) [
  | inr (e, hv) ↦ ground arith
  | inl (w₁, hv) ↦
      let (inv₁, hn) = sv n w w₁ hv inv in
      let (inv', hs) = visit_each_sound g v sv ns w₁ w' (ground arith) inv₁ in
      (inv', AllGrounded-cons g n ns hn hs)
]

Ends-sound :
    (f : ℕ) (g : Graph) (n : String) (w : Walk) (r : Result Walk)
    → SoundVisit g (visit f g)
    → Ends f g n w r
    → (w' : Walk) → r ≡ ok w'
    → AllGrounded g w.visited
    → AllGrounded g w'.visited × Grounded g n
Ends-sound f g n w _ sv (cycle p) w' h inv = cc
Ends-sound f g n w _ sv (seen q) w' h inv =
    let e : w ≡ w' = ground arith in (subst (λ x. AllGrounded g x.visited) e inv, inv n q)
Ends-sound f g n w _ sv (raised p k) w' h inv = cc
Ends-sound f g n w _ sv (left {w₁} p k) w' h inv =
    let (inv₁, hs) = visit_each_sound g (visit f g) sv (dependencies_of g n) (enter n w) w₁ k inv in
    let e : leave n w₁ ≡ w' = ground arith in
    let hn : Grounded g n = grounded hs in
    (subst (λ x. AllGrounded g x.visited) e (AllGrounded-cons g n w₁.visited hn inv₁), hn)

visit_sound : (f : ℕ) (g : Graph) → SoundVisit g (visit f g)
visit_sound zero g n w w' h inv = unfold visit in ground arith
visit_sound (suc f) g n w w' h inv =
    Ends-sound f g n w _ (visit_sound f g) (visit-Ends f g n w) w' h inv

pub keys-lookup :
    (g : Graph) (n : String) (ds : List String) → lookup n g ≡ some ds → includes (keys g) n ≡ true
unfolding lookup includes
keys-lookup [] n ds h = cc
keys-lookup ((k, v) ∷ g) n ds h = ground (arith, keys-lookup g n ds)

-- A name that is no key has no dependencies.
leaf-Grounded : (g : Graph) (n : String) → lookup n g ≡ none → Grounded g n
unfolding dependencies_of includes
leaf-Grounded g n h = grounded (λ d e. ground arith)

-- If the search ends without an error, no chain of dependencies leads from a task back to itself.
pub search_graph-acyclic :
    (g : Graph) (w : Walk) → search_graph g ≡ ok w → (n : String) → ¬ Reaches g n n
unfolding search_graph includes
search_graph-acyclic g w h n =
    let (_, hs) = visit_each_sound g _ (visit_sound (enough_fuel g) g) (keys g) _ w h (λ m e. cc) in
    Grounded-acyclic g (elim (Option-cases (lookup n g)) [
      | inl e ↦ leaf-Grounded g n e
      | inr (ds, e) ↦ hs n (keys-lookup g n ds e)
    ])
