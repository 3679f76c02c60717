-- ===== src/Orchestrator/Kept.antt =====
-- A predicate on the store that the orchestrator keeps, from the few ways in which it writes.
use agent_town.Prelude.{
  ℕ, String, Bool, true, false, ◌≡◌, Option, none, some, List, [], ◌∷◌, ◌==◌, if◌then◌else◌,
}
use agent_town.Contract.Task.{running, state_eq, ActionProposal}
use agent_town.Prelude.Table.{Table}
use agent_town.Contract.Company.{CompanyDefinition, EmployeeDefinition}
use agent_town.Contract.Agent.{
  session_started, output_delta, output_completed, action_proposed, usage_updated,
  session_interrupted, session_exited, adapter_error, AgentEvent, AgentMessage, SessionCheckpoint,
}
use agent_town.Result.{Error, Result, ok, err}
use agent_town.Exec.{
  Exec, ◌>>=◌, ◌>>◌, pure, asks, lift, try_catch, resolve, raise, modify, continue,
}
use agent_town.Storage.Transaction.{Store}
use agent_town.Tasks.Service.{Method, call}
use agent_town.Tasks.Invariant.{StartsFresh}
use agent_town.Orchestrator.{CompanyOrchestrator, Dispatcher, Sessions}
use agent_town.Orchestrator.Calls.{has_running_capacity}

-- Method.transition to `running` needs a place; the other methods do not.
abbrev pub NeedsNoPlace : Method → Type 0
NeedsNoPlace (Method.transition _ _ next _) = (next == running) ≡ false
NeedsNoPlace _ = Unit

-- The predicate looks at the tasks only, and survives each method of TaskService.
pub record IsKept (o : CompanyOrchestrator) (P : Store → Type 0) : Type 0 where
  pub tables : (s s' : Store) → s'.db.tasks ≡ s.db.tasks → P s → P s'
  pub calls :
      (m : Method) (s : Store) → StartsFresh m → NeedsNoPlace m → P s → P (call o.tasks m s).1
  pub starts :
      (id task_id actor_id : String) (s : Store)
      → has_running_capacity o s ≡ true
      → P s
      → P (call o.tasks (Method.transition id task_id running actor_id) s).1

-- A method after which the tasks are what they were.
abbrev pub IsTaskFree : {A : Type 0} → Exec Dispatcher A → Type 0
IsTaskFree m = (d : Dispatcher) → (m d).1.store.db.tasks ≡ d.store.db.tasks

abbrev pub AllTaskFree : List (Exec Dispatcher AgentEvent) → Type 0
AllTaskFree [] = Unit
AllTaskFree (m ∷ ms) = IsTaskFree m × AllTaskFree ms

-- What SessionManager promises: its methods write sessions, usages and events, and no task.
pub record WritesNoTask (x : Sessions) : Type 0 where
  pub start_all :
      (company : CompanyDefinition) (scenarios : Table String String)
      → IsTaskFree (x.start_all company scenarios)
  pub stop_all : IsTaskFree x.stop_all
  pub send :
      (employee : EmployeeDefinition) (message : AgentMessage) (signal : ℕ)
      → AllTaskFree (x.send employee message signal)
  pub resume_one :
      (employee : EmployeeDefinition) (checkpoint : SessionCheckpoint) (signal : ℕ)
      → IsTaskFree (x.resume_one employee checkpoint signal)
  pub rebuild_one :
      (employee : EmployeeDefinition) (handoff : String) (signal : ℕ)
      → IsTaskFree (x.rebuild_one employee handoff signal)

-- A method that leads from Q to P, whether it returns or raises.
pub record Takes {A : Type 0} (Q P : Store → Type 0) (m : Exec Dispatcher A) : Type 0 where
  pub run : (d : Dispatcher) → Q d.store → P (m d).1.store

abbrev pub Keeps : {A : Type 0} → (Store → Type 0) → Exec Dispatcher A → Type 0
Keeps P m = Takes P P m

abbrev pub AllKeep : (Store → Type 0) → List (Exec Dispatcher AgentEvent) → Type 0
AllKeep P [] = Unit
AllKeep P (m ∷ ms) = Keeps P m × AllKeep P ms

-- What is awaited keeps P, with all that runs until it settles.
pub record Respects (P : Store → Type 0) (x : Sessions) : Type 0 where
  pub start_all :
      (company : CompanyDefinition) (scenarios : Table String String)
      → Keeps P (x.start_all company scenarios)
  pub stop_all : Keeps P x.stop_all
  pub send :
      (employee : EmployeeDefinition) (message : AgentMessage) (signal : ℕ)
      → AllKeep P (x.send employee message signal)
  pub resume_one :
      (employee : EmployeeDefinition) (checkpoint : SessionCheckpoint) (signal : ℕ)
      → Keeps P (x.resume_one employee checkpoint signal)
  pub rebuild_one :
      (employee : EmployeeDefinition) (handoff : String) (signal : ℕ)
      → Keeps P (x.rebuild_one employee handoff signal)

module _ {P : Store → Type 0} {A : Type 0} where
  pub Keeps-lift : (r : Result A) → Keeps P (lift r)
  unfolding lift
  Keeps-lift r = record { run = λ d h. h }

  pub Keeps-pure : (a : A) → Keeps P (pure a)
  Keeps-pure a = record { run = λ d h. h }

  pub Keeps-raise : (e : Error) → Keeps P (raise {A = A} e)
  Keeps-raise e = record { run = λ d h. h }

  pub Keeps-asks : (f : Dispatcher → Result A) → Keeps P (asks f)
  Keeps-asks f = record { run = λ d h. h }

  Keeps-continue :
      {B : Type 0} (f : A → Exec Dispatcher B)
      → ((a : A) → Keeps P (f a))
      → (r : Result A) → Keeps P (continue r f)
  Keeps-continue f k (ok a) = record { run = λ d h. (k a).run d h }
  Keeps-continue f k (err e) = record { run = λ d h. h }

  pub Keeps-bind :
      {Q : Store → Type 0} {B : Type 0} {m : Exec Dispatcher A} {f : A → Exec Dispatcher B}
      → Takes Q P m
      → ((a : A) → Keeps P (f a))
      → Takes Q P (m >>= f)
  Keeps-bind {m = m} {f = f} k l = record {
    run = λ d h. (Keeps-continue f l (m d).0).run (m d).1 (k.run d h);
  }

  pub Keeps-seq :
      {Q : Store → Type 0} {B : Type 0} {m : Exec Dispatcher A} {n : Exec Dispatcher B}
      → Takes Q P m
      → Keeps P n
      → Takes Q P (m >> n)
  Keeps-seq k l = Keeps-bind k (λ _. l)

pub Keeps-modify :
    {P : Store → Type 0} (f : Dispatcher → Dispatcher)
    → ((d : Dispatcher) → (f d).store ≡ d.store)
    → Keeps P (modify f)
Keeps-modify f e = record { run = λ d h. rw (e d) h }

module _ {P : Store → Type 0} {B : Type 0} where
  pub Keeps-if :
      {m n : Exec Dispatcher B} (b : Bool)
      → Keeps P m
      → Keeps P n
      → Keeps P (elim b [ true ↦ m | false ↦ n ])
  Keeps-if true k l = k
  Keeps-if false k l = l

  pub Keeps-test :
      {m n : Exec Dispatcher B} (b : Bool) → Keeps P m → Keeps P n → Keeps P (if b then m else n)
  Keeps-test true k l = k
  Keeps-test false k l = l

  Keeps-resolve :
      {A : Type 0} {f : A → Exec Dispatcher B} {g : Error → Exec Dispatcher B} (r : Result A)
      → ((a : A) → Keeps P (f a))
      → ((e : Error) → Keeps P (g e))
      → Keeps P (resolve r f g)
  Keeps-resolve (ok a) k l = record { run = λ d h. (k a).run d h }
  Keeps-resolve (err e) k l = record { run = λ d h. (l e).run d h }

  pub Keeps-try :
      {A : Type 0} {m : Exec Dispatcher A} {f : A → Exec Dispatcher B}
      {g : Error → Exec Dispatcher B}
      → Keeps P m
      → ((a : A) → Keeps P (f a))
      → ((e : Error) → Keeps P (g e))
      → Keeps P (try_catch m f g)
  unfolding try_catch
  Keeps-try {m = m} h k l = record {
    run = λ d p. (Keeps-resolve (m d).0 k l).run (m d).1 (h.run d p);
  }

  pub Keeps-option :
      {A : Type 0} {n : Exec Dispatcher B} {f : A → Exec Dispatcher B} (r : Option A)
      → Keeps P n
      → ((a : A) → Keeps P (f a))
      → Keeps P (elim r [ none ↦ n | some a ↦ f a ])
  Keeps-option none k l = k
  Keeps-option (some a) k l = l a

  pub Keeps-proposed :
      {n : Exec Dispatcher B} {f : ActionProposal → Exec Dispatcher B} (event : AgentEvent)
      → ((a : ActionProposal) → Keeps P (f a))
      → Keeps P n
      → Keeps P (elim event [ action_proposed a ↦ f a | _ ↦ n ])
  Keeps-proposed (action_proposed a) k l = k a
  Keeps-proposed (session_started h) k l = l
  Keeps-proposed (output_delta t) k l = l
  Keeps-proposed (output_completed t) k l = l
  Keeps-proposed (usage_updated a b c) k l = l
  Keeps-proposed (session_interrupted t) k l = l
  Keeps-proposed (session_exited c) k l = l
  Keeps-proposed (adapter_error c t) k l = l
