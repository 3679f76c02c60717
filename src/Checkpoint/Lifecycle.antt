-- ===== src/Checkpoint/Lifecycle.antt =====
-- packages/core/src/lifecycle/checkpoint-service.ts: what CheckpointService is made of when it pauses,
-- stops and recovers a company, its deadlines and its events.
pub mod Cleanup
pub mod Approvals
pub mod Suspend
pub mod Recover
pub mod Request
pub mod Rest
pub mod Status
pub mod Paused
use agent_town.Prelude.{
  ℕ, ◌+◌, ◌-◌, ◌≤◌, String, Bool, true, false, Option, none, some, List, [], ◌∷◌, leb, max, map,
  min,
}
use agent_town.Prelude.Table.{Table}
use agent_town.Contract.Value.{Fields, str, field, end}
use agent_town.Contract.Company.{CompanyDefinition}
use agent_town.Result.{ok}
use agent_town.Exec.{Exec, ◌>>=◌, ◌>>◌, pure, asks, modify}
use agent_town.Storage.Schema.{NewEvent}
use agent_town.Storage.Companies.{commit_company_status_with_events}
use agent_town.Storage.Transaction.{insert_event}
use agent_town.Checkpoint.Build.{CheckpointService}
use agent_town.Sessions.{SessionManager, Manager, on_store, new_event}

-- What the constructor is given. `sessions` has the same companyId, `turn` is what runs
-- at an `await` before the code goes on, and the others are the methods of the orchestrator.
pub record Lifecycle : Type 0 where
  pub company : CompanyDefinition
  pub sessions : SessionManager
  pub scenarios : Table String String
  pub pause_timeout_ms : ℕ
  pub stop_dispatching : Exec Manager (Unit {0})
  pub resume_dispatching : Exec Manager (Unit {0})
  pub recover_work : Exec Manager (Unit {0})
  pub quiesce : ℕ → Exec Manager Bool
  pub turn : Exec Manager (Unit {0})

pub record Deadline : Type 0 where
  pub at : ℕ
  pub controller : ℕ

-- controller.abort()
unfoldable pub abort : ℕ → Manager → Manager
abort signal m = record m { aborted = signal ∷ m.aborted }

-- new AbortController(); its timer is a part of what runs while the code waits.
unfoldable pub new_controller : Exec Manager ℕ
new_controller m = (ok m.signals, record m { signals = m.signals + 1 })

-- #deadline(timeoutMs)
unfoldable pub deadline : ℕ → Exec Manager Deadline
unfolding new_controller
deadline timeout_ms = do
  controller ← new_controller
  now ← asks (λ m. ok m.now)
  pure (record { at = now + timeout_ms; controller = controller })

-- #remaining(deadline)
unfoldable pub remaining : Deadline → Manager → ℕ
remaining d m = d.at - m.now

-- #signalUntil(at): aborted at once when the time is over
unfoldable pub signal_until : ℕ → Exec Manager ℕ
unfolding new_controller abort
signal_until at = do
  controller ← new_controller
  over ← asks (λ m. ok (leb at m.now))
  elim over [ true ↦ modify (abort controller) >> pure controller | false ↦ pure controller ]

-- #phaseSignal(deadline, maxMs)
unfoldable pub phase_signal : Deadline → ℕ → Exec Manager ℕ
unfolding signal_until
phase_signal d max_ms = do now ← asks (λ m. ok m.now); signal_until (min d.at (now + max_ms))

module _ (l : Lifecycle) where
  abbrev pub company_id : String
  company_id = l.sessions.company_id

  abbrev pub service : Manager → CheckpointService
  service m = record { company_id = company_id; company = l.company; store = m.store }

  -- #event(type, "core", null, payload)
  abbrev pub core_event : String → Fields → Exec Manager NewEvent
  core_event type payload = new_event l.sessions type "core" none payload

  -- this.#store.commitCompanyStatusWithEvents(this.#companyId, status, events)
  unfoldable pub commit_status : String → List NewEvent → Exec Manager (Unit {0})
  commit_status status events m =
      on_store (commit_company_status_with_events company_id status events (l.sessions.iso m.now)) m

  -- this.#store.insertEvent(…)
  unfoldable pub log : NewEvent → Exec Manager (Unit {0})
  log event = on_store (insert_event event) >> pure tt
