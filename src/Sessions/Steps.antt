-- ===== src/Sessions/Steps.antt =====
-- The writes of SessionManager as a step relation, and the predicates that a method keeps because
-- each of its writes does.
use agent_town.Prelude.{
  ℕ, String, Bool, true, false, ◌≡◌, refl, Option, none, some, List, [], ◌∷◌, if◌then◌else◌,
}
use agent_town.Prelude.Table.{Table}
use agent_town.Contract.Agent.{SessionHandle, AgentEvent, AgentMessage}
use agent_town.Result.{Error, Result, ok, err}
use agent_town.Exec.{
  Exec, ◌>>=◌, ◌>>◌, pure, asks, lift, try_catch, try_finally, resolve, raise, modify, continue,
}
use agent_town.Storage.Transaction.{Store}
use agent_town.Sessions.{
  SessionManager, Manager, Key, on_store, StartSessionInput, ResumeSessionInput,
}
use agent_town.Sessions.Stop.{until_abort}
use agent_town.Sessions.Handles.{
  register_handle, retain_for_cleanup, delete_cleanup, delete_handle, set_session, delete_session,
  begin_replacement, finish_replacement, cancel_pending_replacements,
}

-- The two stores have the same tasks and the same companies.
pub record IsOther (s s' : Store) : Type 0 where
  pub tasks : s.db.tasks ≡ s'.db.tasks
  pub companies : s.db.companies ≡ s'.db.companies

-- One write. The first three change nothing that an owner depends on.
pub data Step (m m' : Manager) : Type 0 where
  wrote : (s : Store) → IsOther s m.store → m' ≡ record m { store = s } → Step m m'
  counted : (n : ℕ) → m' ≡ record m { uuids = n } → Step m m'
  queued :
      (n : ℕ) (tails : Table String ℕ) → m' ≡ record m { tails = n; send_tails = tails } → Step m m'
  marked : (ids : List String) → m' ≡ record m { unavailable = ids } → Step m m'
  registered : (h : SessionHandle) → m' ≡ (register_handle h m).1 → Step m m'
  retained : (h : SessionHandle) → m' ≡ retain_for_cleanup h m → Step m m'
  cleaned : (key : Key) → m' ≡ delete_cleanup key m → Step m m'
  forgotten : (key : Key) → m' ≡ delete_handle key m → Step m m'
  adopted : (e : String) (h : SessionHandle) → m' ≡ set_session e h m → Step m m'
  dropped : (e : String) → m' ≡ delete_session e m → Step m m'
  begun : (id e : String) → m' ≡ begin_replacement id e m → Step m m'
  finished : (id : String) → m' ≡ finish_replacement id m → Step m m'
  cancelled : m' ≡ (cancel_pending_replacements m).1 → Step m m'

abbrev pub IsStable : (Manager → Type 0) → Type 0
IsStable P = (m m' : Manager) → Step m m' → P m → P m'

-- A method that keeps P, whether it returns or raises.
pub record Keeps {A : Type 0} (P : Manager → Type 0) (m : Exec Manager A) : Type 0 where
  pub run : (s : Manager) → P s → P (m s).1

abbrev pub AllKeep : (Manager → Type 0) → List (Exec Manager AgentEvent) → Type 0
AllKeep P [] = Unit
AllKeep P (m ∷ ms) = Keeps P m × AllKeep P ms

abbrev pub AllStop : (Manager → Type 0) → Option (SessionHandle → Exec Manager (Unit {0})) → Type 0
AllStop P none = Unit
AllStop P (some stop) = (h : SessionHandle) → Keeps P (stop h)

-- What is awaited keeps P: the adapters' calls with all that runs before they settle, and the turns.
pub record Awaits (P : Manager → Type 0) (k : SessionManager) : Type 0 where
  pub start : (n : String) (i : StartSessionInput) → Keeps P ((k.adapter_for n).start i)
  pub resume : (n : String) (i : ResumeSessionInput) → Keeps P ((k.adapter_for n).resume i)
  pub send :
      (n : String) (h : SessionHandle) (message : AgentMessage)
      → AllKeep P ((k.adapter_for n).send h message)
  pub interrupt : (n : String) (h : SessionHandle) → Keeps P ((k.adapter_for n).interrupt h)
  pub stop : (n : String) (h : SessionHandle) → Keeps P ((k.adapter_for n).stop h)
  pub force_stop : (n : String) → AllStop P (k.adapter_for n).force_stop
  pub settled : (n : ℕ) → Keeps P (k.settled n)
  pub aborts : (signal : ℕ) → Keeps P (until_abort k signal)

module _ {P : Manager → Type 0} {A : Type 0} where
  pub Keeps-lift : (r : Result A) → Keeps P (lift r)
  unfolding lift
  Keeps-lift r = record { run = λ s p. p }

  pub Keeps-pure : (a : A) → Keeps P (pure a)
  Keeps-pure a = record { run = λ s p. p }

  pub Keeps-raise : (e : Error) → Keeps P (raise {A = A} e)
  Keeps-raise e = record { run = λ s p. p }

  pub Keeps-asks : (f : Manager → Result A) → Keeps P (asks f)
  Keeps-asks f = record { run = λ s p. p }

  pub Keeps-finally :
      {body : Exec Manager A} (f : Manager → Manager)
      → Keeps P body
      → Keeps P (modify f)
      → Keeps P (try_finally body f)
  unfolding try_finally
  Keeps-finally {body} f b c = record { run = λ s p. c.run (body s).1 (b.run s p) }

module _ {P : Manager → Type 0} {A B : Type 0} where
  Keeps-continue :
      {f : A → Exec Manager B} (r : Result A) → ((a : A) → Keeps P (f a)) → Keeps P (continue r f)
  Keeps-continue (ok a) k = record { run = λ s p. (k a).run s p }
  Keeps-continue (err e) k = record { run = λ s p. p }

  pub Keeps-bind :
      {m : Exec Manager A} {f : A → Exec Manager B}
      → Keeps P m
      → ((a : A) → Keeps P (f a))
      → Keeps P (m >>= f)
  Keeps-bind {m} k l = record { run = λ s p. (Keeps-continue (m s).0 l).run (m s).1 (k.run s p) }

  pub Keeps-seq :
      {m : Exec Manager A} {n : Exec Manager B} → Keeps P m → Keeps P n → Keeps P (m >> n)
  Keeps-seq k l = Keeps-bind k (λ _. l)

  Keeps-resolve :
      {f : A → Exec Manager B} {g : Error → Exec Manager B} (r : Result A)
      → ((a : A) → Keeps P (f a))
      → ((e : Error) → Keeps P (g e))
      → Keeps P (resolve r f g)
  Keeps-resolve (ok a) k l = record { run = λ s p. (k a).run s p }
  Keeps-resolve (err e) k l = record { run = λ s p. (l e).run s p }

  pub Keeps-try :
      {m : Exec Manager A} {f : A → Exec Manager B} {g : Error → Exec Manager B}
      → Keeps P m
      → ((a : A) → Keeps P (f a))
      → ((e : Error) → Keeps P (g e))
      → Keeps P (try_catch m f g)
  unfolding try_catch
  Keeps-try {m} h k l = record { run = λ s p. (Keeps-resolve (m s).0 k l).run (m s).1 (h.run s p) }

  pub Keeps-option :
      {n : Exec Manager B} {f : A → Exec Manager B} (r : Option A)
      → Keeps P n
      → ((a : A) → Keeps P (f a))
      → Keeps P (elim r [ none ↦ n | some a ↦ f a ])
  Keeps-option none k l = k
  Keeps-option (some a) k l = l a

pub Keeps-after :
    {P : Manager → Type 0} {f g : Manager → Manager}
    → Keeps P (modify f)
    → Keeps P (modify g)
    → Keeps P (modify (λ m. g (f m)))
Keeps-after {f} k l = record { run = λ m p. l.run (f m) (k.run m p) }

module _ (P : Manager → Type 0) {n : Manager} where
  pub pick-option :
      {A : Type 0} {f : A → Manager} (o : Option A)
      → P n
      → ((a : A) → P (f a))
      → P (elim o [ none ↦ n | some a ↦ f a ])
  pick-option none p q = p
  pick-option (some a) p q = q a

  pub pick-if : {m : Manager} (b : Bool) → P m → P n → P (if b then m else n)
  pick-if true p q = p
  pick-if false p q = q

module _ {P : Manager → Type 0} {B : Type 0} {m n : Exec Manager B} where
  pub Keeps-if : (b : Bool) → Keeps P m → Keeps P n → Keeps P (elim b [ true ↦ m | false ↦ n ])
  Keeps-if true k l = k
  Keeps-if false k l = l

module _ {P : Manager → Type 0} (st : IsStable P) where
  pub Keeps-modify : (f : Manager → Manager) → ((m : Manager) → Step m (f m)) → Keeps P (modify f)
  Keeps-modify f step = record { run = λ m p. st m (f m) (step m) p }

  -- A method of the store that leaves the tasks and the companies as they are.
  pub Keeps-store :
      {A : Type 0} (work : Exec Store A)
      → ((s : Store) → IsOther (work s).1 s)
      → Keeps P (on_store work)
  Keeps-store work free = record {
    run = λ m p.
        st m (record m { store = (work m.store).1 }) (wrote (work m.store).1 (free m.store) refl) p;
  }
