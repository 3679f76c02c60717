-- ===== src/Contract/Agent.antt =====
-- packages/runtime-contract/src/agent.ts: sessions, their usage, and what
-- passes between the Core and an agent.
use agent_town.Prelude.{ℕ, String, Option, List}
use agent_town.Contract.Task.{ActionProposal}

pub record SessionHandle : Type 0 where
  pub employee_id : String
  pub adapter : String
  pub internal_session_id : String
  pub native_session_id : Option String

pub record UsageSnapshot : Type 0 where
  pub input_tokens : Option ℕ
  pub output_tokens : Option ℕ
  pub context_tokens : Option ℕ
  pub captured_at : String

pub record AgentMessage : Type 0 where
  pub message_id : String
  pub employee_id : String
  pub task_id : Option String
  pub text : String
  pub action_request : Option ActionProposal

pub data AgentEvent : Type 0 where
  session_started : SessionHandle → AgentEvent
  output_delta : String → AgentEvent
  output_completed : String → AgentEvent
  action_proposed : ActionProposal → AgentEvent
  usage_updated : Option ℕ → Option ℕ → Option ℕ → AgentEvent
  session_interrupted : String → AgentEvent
  session_exited : Option ℕ → AgentEvent
  adapter_error : String → String → AgentEvent

pub record SessionCheckpoint : Type 0 where
  pub employee_id : String
  pub handle : SessionHandle
  pub active_task_id : Option String
  pub handoff : String

pub data PauseReason : Type 0 where
  user_requested last_client_exited shutdown : PauseReason

pub record CompanyCheckpoint : Type 0 where
  pub company_id : String
  pub reason : PauseReason
  pub last_event_sequence : ℕ
  pub sessions : List SessionCheckpoint
