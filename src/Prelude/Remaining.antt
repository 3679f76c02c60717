-- ===== src/Prelude/Remaining.antt =====
-- How many names of a list are not in a set yet: the measure of a search that enters each once.
use mathlib.Core.Path.{◌≡◌, refl}
use mathlib.Core.Bool.{true, false}
use mathlib.Core.List.{List, [], ◌∷◌}
use native.Mathlib.Omega.{arith}
use Prim.Native.Nat.{ℕ, suc, ◌≤◌, ◌<◌}
use agent_town.Prelude.Equality.{Eq, ==_iff, ==_refl}
use agent_town.Prelude.Tests.{if◌then◌else◌}
use agent_town.Prelude.Lists.{length, includes}

module _ {ℓ} {K : Type ℓ} ⦃e : Eq K⦄ where
  unfoldable pub remaining : List K → List K → ℕ
  remaining [] vs = 0
  remaining (k ∷ ks) vs = let rest = remaining ks vs in if includes vs k then rest else suc rest

  pub remaining-same :
      (ks vs us : List K)
      → ((m : K) → includes us m ≡ includes vs m)
      → remaining ks us ≡ remaining ks vs
  unfolding remaining
  remaining-same [] vs us h = refl
  remaining-same (k ∷ ks) vs us h = ground (arith, remaining-same ks vs us h, h k)

  remaining-cons : (ks : List K) (n : K) (vs : List K) → remaining ks (n ∷ vs) ≤ remaining ks vs
  unfolding remaining includes
  remaining-cons [] n vs = omega arith
  remaining-cons (k ∷ ks) n vs = ground (arith, remaining-cons ks n vs)

  pub remaining-enter :
      (ks : List K) (n : K) (vs : List K)
      → includes ks n ≡ true
      → includes vs n ≡ false
      → remaining ks (n ∷ vs) < remaining ks vs
  unfolding remaining includes
  remaining-enter [] n vs h p = cc
  remaining-enter (k ∷ ks) n vs h p =
      ground (arith, remaining-cons ks n vs, remaining-enter ks n vs, ==_iff k n, ==_refl n)

  pub remaining-le : (ks vs : List K) → remaining ks vs ≤ length ks
  unfolding remaining
  remaining-le [] vs = omega arith
  remaining-le (k ∷ ks) vs = ground (arith, remaining-le ks vs)
