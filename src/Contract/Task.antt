-- ===== src/Contract/Task.antt =====
-- packages/runtime-contract/src/task.ts
use agent_town.Prelude.{ℕ, String, Bool, true, false, ◌≡◌, ◌↔◌, Option, List, arith, Eq, nat_beq}
use agent_town.Contract.Value.{Fields}

pub data TaskState : Type 0 where
  draft ready running review completed blocked failed : TaskState

unfoldable pub state_text : TaskState → String
state_text draft = "draft"
state_text ready = "ready"
state_text running = "running"
state_text review = "review"
state_text completed = "completed"
state_text blocked = "blocked"
state_text failed = "failed"

abbrev pub state_beq : TaskState → TaskState → Bool
state_beq draft draft = true
state_beq ready ready = true
state_beq running running = true
state_beq review review = true
state_beq completed completed = true
state_beq blocked blocked = true
state_beq failed failed = true
state_beq _ _ = false

pub state_beq_iff : (s t : TaskState) → (state_beq s t ≡ true) ↔ (s ≡ t)
state_beq_iff s t = ground arith

instance abbrev pub state_eq : Eq TaskState
state_eq = record { is_same = state_beq; is_same_iff = state_beq_iff }

pub record TaskRecord : Type 0 where
  pub id : String
  pub title : String
  pub objective : String
  pub owner_employee_id : Option String
  pub dependencies : List String
  pub acceptance_criteria : List String
  pub status : TaskState
  pub retry_count : ℕ
  pub review_loop_count : ℕ
  pub artifacts : List String
  pub evidence : List String
  pub created_event_id : String
  pub updated_event_id : String

pub data ActionType : Type 0 where
  propose assign start submit request_review approve reject block : ActionType
  employee_message user_approval_request company_complete_request : ActionType

abbrev pub action_code : ActionType → ℕ
action_code propose = 0
action_code assign = 1
action_code start = 2
action_code submit = 3
action_code request_review = 4
action_code approve = 5
action_code reject = 6
action_code block = 7
action_code employee_message = 8
action_code user_approval_request = 9
action_code company_complete_request = 10

abbrev pub action_beq : ActionType → ActionType → Bool
action_beq a b = nat_beq (action_code a) (action_code b)

pub action_beq_iff : (a b : ActionType) → (action_beq a b ≡ true) ↔ (a ≡ b)
action_beq_iff a b = ground arith

instance abbrev pub action_eq : Eq ActionType
action_eq = record { is_same = action_beq; is_same_iff = action_beq_iff }

pub record ActionProposal : Type 0 where
  pub action_id : String
  pub type : ActionType
  pub actor_employee_id : String
  pub task_id : Option String
  pub payload : Fields
  pub reason : String
  pub causation_event_id : Option String
