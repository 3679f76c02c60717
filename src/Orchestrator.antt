-- ===== src/Orchestrator.antt =====
-- packages/core/src/company/orchestrator.ts: CompanyOrchestrator, its state, and the sessions that it
-- talks to.
pub mod Payload
pub mod Calls
pub mod Review
pub mod Actions
pub mod Dispatch
pub mod Work
pub mod Machine
pub mod Kept
pub mod Shared
pub mod Handlers
pub mod Rounds
pub mod Steps
pub mod Waits
pub mod Stale
pub mod Limits
use agent_town.Prelude.{ℕ, ◌+◌, String, Bool, true, false, Option, none, some, List, [], ◌∷◌}
use agent_town.Prelude.Table.{Table}
use agent_town.Contract.Task.{TaskRecord}
use agent_town.Contract.Company.{CompanyDefinition, EmployeeDefinition}
use agent_town.Contract.Agent.{AgentEvent, AgentMessage, SessionCheckpoint, SessionHandle}
use agent_town.Result.{Error, Result, ok}
use agent_town.Exec.{Exec}
use agent_town.Policy.{ActionPolicy}
use agent_town.Storage.Transaction.{Store}
use agent_town.Tasks.Rules.{TaskService}

-- What the constructor is given. `tasks` was made with the same companyId, company and leaderId.
-- `uuid n` is what the call number n of `randomUUID()` returns, and `error_message` the text of a
-- thrown error.
pub record CompanyOrchestrator : Type 0 where
  pub tasks : TaskService
  pub policy : ActionPolicy
  pub reviewer_id : String
  pub uuid : ℕ → String
  pub error_message : Error → String

-- What sendTask has read and drawn when it calls sessions.send for the first time.
pub record Opening : Type 0 where
  pub task : TaskRecord
  pub employee : EmployeeDefinition
  pub message_id : String

-- A promise of `sendTask`, or of a review that is recovered, before it is settled. The call of
-- `sendTask` has run up to its first wait, with the outcome `opening`; a review, which waits for
-- those before it, has none.
pub record Flight : Type 0 where
  pub number : ℕ
  pub task_id : String
  pub epoch : ℕ
  pub signal : ℕ
  pub opening : Option (Result Opening)

abbrev pub is_review : Flight → Bool
is_review flight = elim flight.opening [ none ↦ true | some _ ↦ false ]

-- The private fields. An AbortController is a number, and `aborted` are those that were aborted;
-- #inFlight maps a task to the number of its promise, and `pending` are the promises not settled.
pub record Dispatcher : Type 0 where
  pub store : Store
  pub accepting_actions : Bool
  pub dispatch_epoch : ℕ
  pub dispatch_controller : ℕ
  pub controllers : ℕ
  pub aborted : List ℕ
  pub in_flight : Table String ℕ
  pub pending : List Flight
  pub flights : ℕ
  pub uuids : ℕ

-- The methods of SessionManager that the orchestrator calls. A stream is the list of the waits for
-- its events; a wait may raise, and other code may change the state before it ends.
pub record Sessions : Type 0 where
  pub start_all : CompanyDefinition → Table String String → Exec Dispatcher (Unit {0})
  pub stop_all : Exec Dispatcher (Unit {0})
  pub send : EmployeeDefinition → AgentMessage → ℕ → List (Exec Dispatcher AgentEvent)
  pub get : String → Dispatcher → Result SessionHandle
  pub resume_one : EmployeeDefinition → SessionCheckpoint → ℕ → Exec Dispatcher (Unit {0})
  pub rebuild_one : EmployeeDefinition → String → ℕ → Exec Dispatcher (Unit {0})

abbrev pub on_store : {A : Type 0} → Exec Store A → Exec Dispatcher A
on_store m d = let (r, s) = m d.store in (r, record d { store = s })

-- randomUUID()
abbrev pub random_uuid : CompanyOrchestrator → Exec Dispatcher String
random_uuid o d = (ok (o.uuid d.uuids), record d { uuids = d.uuids + 1 })
