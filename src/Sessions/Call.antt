-- ===== src/Sessions/Call.antt =====
-- packages/core/src/agents/session-manager.ts: the public methods of SessionManager as one type.
use agent_town.Prelude.{ℕ, String, Bool, Option}
use agent_town.Prelude.Table.{Table}
use agent_town.Contract.Company.{CompanyDefinition, EmployeeDefinition}
use agent_town.Contract.Agent.{SessionCheckpoint, AgentMessage, AgentEvent}
use agent_town.Exec.{Exec}
use agent_town.Sessions.{Manager}

-- A call of a public method; the reader of a stream is a part of the call.
pub data Call : Type 0 where
  start_all : CompanyDefinition → Table String String → Call
  send :
      EmployeeDefinition → AgentMessage → Option ℕ → (AgentEvent → Exec Manager (Unit {0})) → Call
  interrupt_all : Option ℕ → Call
  stop_all_bounded : ℕ → Bool → ℕ → Call
  stop_all : Call
  resume_one : EmployeeDefinition → SessionCheckpoint → Option ℕ → String → Call
  rebuild_one : EmployeeDefinition → String → Option ℕ → String → Call
