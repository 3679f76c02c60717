-- ===== src/Exec.antt =====
-- Methods that change an object and may raise. What was written before a raise stays written, so
-- the state comes back beside the error too.
use agent_town.Result.{Error, Result, ok, err}

abbrev pub Exec : Type 0 → Type 0 → Type 0
Exec S A = S → Result A × S

abbrev pub continue : {S A B : Type 0} → Result A → (A → Exec S B) → Exec S B
continue (ok a) f s = f a s
continue (err e) f s = (err e, s)

infixl 10 ◌>>=◌ ◌>>◌
abbrev pub ◌>>=◌ : {S A B : Type 0} → Exec S A → (A → Exec S B) → Exec S B
◌>>=◌ m f s = let (r, s') = m s in continue r f s'

abbrev pub ◌>>◌ : {S A B : Type 0} → Exec S A → Exec S B → Exec S B
m >> n = m >>= λ _. n

abbrev pub pure : {S A : Type 0} → A → Exec S A
pure a s = (ok a, s)

abbrev pub raise : {S A : Type 0} → Error → Exec S A
raise e s = (err e, s)

-- A step that only reads.
abbrev pub asks : {S A : Type 0} → (S → Result A) → Exec S A
asks f s = (f s, s)

abbrev pub modify : {S : Type 0} → (S → S) → Exec S (Unit {0})
modify f s = (ok tt, f s)

unfoldable pub lift : {S A : Type 0} → Result A → Exec S A
lift r s = (r, s)

abbrev pub resolve : {S A B : Type 0} → Result A → (A → Exec S B) → (Error → Exec S B) → Exec S B
resolve (ok a) f g s = f a s
resolve (err e) f g s = g e s

-- `try { … } catch (error) { … }`, with what follows in either case.
unfoldable pub try_catch :
    {S A B : Type 0} → Exec S A → (A → Exec S B) → (Error → Exec S B) → Exec S B
try_catch m f g s = let (r, s') = m s in resolve r f g s'

-- `try { … } finally { … }`
unfoldable pub try_finally : {S A : Type 0} → Exec S A → (S → S) → Exec S A
try_finally m cleanup s = let (r, s') = m s in (r, cleanup s')
