-- ===== src/Sessions/Triple.antt =====
-- What holds of the state where a method returns, if something holds where it starts.
use agent_town.Prelude.{◌≡◌, refl}
use agent_town.Result.{Error, Result, ok, err}
use agent_town.Exec.{Exec, ◌>>=◌, pure, raise, continue, resolve, try_catch, try_finally}
use agent_town.Sessions.{Manager}

pub record Returns {A : Type 0} (P : Manager → Type 0) (m : Exec Manager A)
    (Q : A → Manager → Type 0) : Type 0 where
  pub run : (s : Manager) (a : A) → P s → (m s).0 ≡ ok a → Q a (m s).1

Returns-continue :
    {A B : Type 0} {R : B → Manager → Type 0} {Q : A → Manager → Type 0} (f : A → Exec Manager B)
    (r : Result A) (s : Manager) (b : B)
    → ((a : A) → r ≡ ok a → Q a s)
    → ((a : A) → Returns (Q a) (f a) R)
    → (continue r f s).0 ≡ ok b
    → R b (continue r f s).1
Returns-continue f (ok a) s b q k h = (k a).run s b (q a refl) h
Returns-continue f (err e) s b q k h = cc

pub Returns-bind :
    {A B : Type 0} {P : Manager → Type 0} {R : B → Manager → Type 0} {Q : A → Manager → Type 0}
    {m : Exec Manager A} {f : A → Exec Manager B}
    → Returns P m Q
    → ((a : A) → Returns (Q a) (f a) R)
    → Returns P (m >>= f) R
Returns-bind {R} {Q} {m} {f} q k = record {
  run = λ s b p h. Returns-continue {R = R} {Q = Q} f (m s).0 (m s).1 b (λ a e. q.run s a p e) k h;
}

pub Returns-raise :
    {B : Type 0} {P : Manager → Type 0} {R : B → Manager → Type 0} (e : Error)
    → Returns P (raise e) R
Returns-raise e = record { run = λ s b p h. cc }

-- What is asked of no state.
pub Returns-any :
    {A : Type 0} {P : Manager → Type 0} (m : Exec Manager A) → Returns P m (λ _ _. Unit)
Returns-any m = record { run = λ s a p h. tt }

pub Returns-pure : {A : Type 0} {P : Manager → Type 0} (a : A) → Returns P (pure a) (λ _. P)
Returns-pure a = record { run = λ s b p h. p }

-- What follows a step of which nothing is asked.
pub Returns-after :
    {A B : Type 0} {P : Manager → Type 0} {R : B → Manager → Type 0} (m : Exec Manager A)
    {f : A → Exec Manager B}
    → ((a : A) → Returns (λ _. Unit) (f a) R)
    → Returns P (m >>= f) R
Returns-after m k = Returns-bind {Q = λ _ _. Unit} (Returns-any m) k

Returns-resolve :
    {A B : Type 0} {R : B → Manager → Type 0} {Q : A → Manager → Type 0} (f : A → Exec Manager B)
    (g : Error → Exec Manager B) (r : Result A) (s : Manager) (b : B)
    → ((a : A) → r ≡ ok a → Q a s)
    → ((a : A) → Returns (Q a) (f a) R)
    → ((e : Error) → Returns (λ _. Unit) (g e) R)
    → (resolve r f g s).0 ≡ ok b
    → R b (resolve r f g s).1
Returns-resolve f g (ok a) s b q k l h = (k a).run s b (q a refl) h
Returns-resolve f g (err e) s b q k l h = (l e).run s b tt h

pub Returns-try :
    {A B : Type 0} {P : Manager → Type 0} {R : B → Manager → Type 0} {Q : A → Manager → Type 0}
    {m : Exec Manager A} {f : A → Exec Manager B} {g : Error → Exec Manager B}
    → Returns P m Q
    → ((a : A) → Returns (Q a) (f a) R)
    → ((e : Error) → Returns (λ _. Unit) (g e) R)
    → Returns P (try_catch m f g) R
unfolding try_catch
Returns-try {R} {Q} {m} {f} {g} q k l = record {
  run =
      λ s b p h. Returns-resolve {R = R} {Q = Q} f g (m s).0 (m s).1 b (λ a e. q.run s a p e) k l h;
}

pub Returns-finally :
    {A : Type 0} {P : Manager → Type 0} {Q : A → Manager → Type 0} {m : Exec Manager A}
    (f : Manager → Manager)
    → Returns P m Q
    → ((a : A) (s : Manager) → Q a s → Q a (f s))
    → Returns P (try_finally m f) Q
unfolding try_finally
Returns-finally {m} f q k = record { run = λ s a p h. k a (m s).1 (q.run s a p h) }
