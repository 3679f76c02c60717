-- ===== src/Policy.antt =====
-- packages/core/src/policy/action-policy.ts: ActionPolicy.validate.
pub mod Permission
use agent_town.Prelude.{
  String, Bool, true, false, not, ◌&&◌, ◌||◌, Option, none, some, List, [], ◌∷◌, any, find,
  includes, ◌==◌, string_eq, if◌then◌else◌,
}
use agent_town.Contract.Value.{Value, str, get_field}
use agent_town.Contract.Task.{
  ActionType, propose, assign, start, submit, request_review, approve, reject, block,
  employee_message, user_approval_request, company_complete_request, ActionProposal, action_eq,
}
use agent_town.Contract.Company.{CompanyDefinition, EmployeeDefinition}
use agent_town.Result.{
  Result, ok, err, ◌>>=◌, ◌>>◌, guard, required, unsupported_action, unknown_employee,
  leader_permission_required, unknown_assignee, review_permission_required, unknown_recipient,
}

-- supportedActions
unfoldable pub supported_actions : List ActionType
supported_actions =
    propose ∷ assign ∷ start ∷ submit ∷ request_review ∷ approve ∷ reject ∷ block ∷ employee_message
    ∷ user_approval_request ∷ company_complete_request ∷ []

-- leaderOnlyActions
unfoldable pub leader_only_actions : List ActionType
leader_only_actions = propose ∷ assign ∷ company_complete_request ∷ []

pub record ActionPolicy : Type 0 where
  pub company : CompanyDefinition
  pub leader_id : String
  pub reviewer_ids : List String

-- company.employees.some((employee) => employee.id === id)
unfoldable pub is_employee : CompanyDefinition → String → Bool
is_employee company id = any (λ e. e.id == id) company.employees

-- typeof value === "string", and an employee has that id
unfoldable pub names_employee : CompanyDefinition → Option Value → Bool
unfolding is_employee
names_employee company (some (str id)) = is_employee company id
names_employee company _ = false

abbrev pub is_decision : ActionType → Bool
is_decision type = type == approve || type == reject

-- validate(action)
unfoldable pub validate : ActionPolicy → ActionProposal → Result ActionProposal
unfolding guard required supported_actions leader_only_actions includes
validate p action = do
  guard (includes supported_actions action.type) (unsupported_action action.type)
  required (find (λ e. e.id == action.actor_employee_id) p.company.employees)
      (unknown_employee action.actor_employee_id)
  guard
      (not
        (includes leader_only_actions action.type && not (action.actor_employee_id == p.leader_id)))
      leader_permission_required
  guard
      (not (
        action.type == assign
        && not (names_employee p.company (get_field "assignee" action.payload))))
      unknown_assignee
  guard (not (is_decision action.type && not (includes p.reviewer_ids action.actor_employee_id)))
      review_permission_required
  guard
      (not (
        action.type == employee_message
        && not (names_employee p.company (get_field "recipient" action.payload))))
      unknown_recipient
  ok action
