-- ===== src/Policy/Permission.antt =====
-- Who may propose which action, as a relation, and that the policy decides it.
use agent_town.Prelude.{
  String, true, ◌≡◌, ◌↔◌, Option, none, some, find, includes, arith, inl, inr, string_eq,
  Option-cases, ==_iff, refl, ◌==◌,
}
use agent_town.Contract.Value.{Value, str, get_field}
use agent_town.Contract.Task.{
  ActionType, propose, assign, approve, reject, employee_message, company_complete_request,
  ActionProposal, action_eq,
}
use agent_town.Contract.Company.{EmployeeDefinition}
use agent_town.Result.{is_ok, ok}
use agent_town.Policy.{ActionPolicy, is_employee, names_employee, validate}

-- The permission that each type of action asks for.
abbrev pub Permitted : ActionPolicy → ActionProposal → ActionType → Type 0
Permitted p a propose = a.actor_employee_id ≡ p.leader_id
Permitted p a assign =
    (a.actor_employee_id ≡ p.leader_id)
    × ((id : String) × (get_field "assignee" a.payload ≡ some (str id))
        × (is_employee p.company id ≡ true))
Permitted p a company_complete_request = a.actor_employee_id ≡ p.leader_id
Permitted p a approve = includes p.reviewer_ids a.actor_employee_id ≡ true
Permitted p a reject = includes p.reviewer_ids a.actor_employee_id ≡ true
Permitted p a employee_message =
    (id : String) × (get_field "recipient" a.payload ≡ some (str id))
    × (is_employee p.company id ≡ true)
Permitted p a _ = Unit

pub record IsAllowed (p : ActionPolicy) (a : ActionProposal) : Type 0 where
  pub actor :
      (e : EmployeeDefinition) × (find (λ e. e.id == a.actor_employee_id) p.company.employees
        ≡ some e)
  pub permitted : Permitted p a a.type

named :
    (p : ActionPolicy) (o : Option Value)
    → names_employee p.company o ≡ true
    → (id : String) × (o ≡ some (str id)) × (is_employee p.company id ≡ true)
unfolding names_employee
named p (some (str id)) h = (id, refl, h)
named p none h = cc
named p (some _) h = cc

validate_needs :
    (p : ActionPolicy) (a : ActionProposal) (t : ActionType)
    → a.type ≡ t
    → is_ok (validate p a) ≡ true
    → Permitted p a t
unfolding validate
validate_needs p a propose e h = ground (arith, ==_iff a.actor_employee_id p.leader_id)
validate_needs p a assign e h = (
  ground (arith, ==_iff a.actor_employee_id p.leader_id),
  named p (get_field "assignee" a.payload) (ground arith),
)
validate_needs p a company_complete_request e h =
    ground (arith, ==_iff a.actor_employee_id p.leader_id)
validate_needs p a approve e h = ground arith
validate_needs p a reject e h = ground arith
validate_needs p a employee_message e h = named p (get_field "recipient" a.payload) (ground arith)
validate_needs p a _ e h = tt

validate_suffices :
    (p : ActionPolicy) (a : ActionProposal) (t : ActionType)
    → a.type ≡ t
    → (e : EmployeeDefinition)
    → find (λ e. e.id == a.actor_employee_id) p.company.employees ≡ some e
    → Permitted p a t
    → is_ok (validate p a) ≡ true
unfolding validate names_employee
validate_suffices p a propose e m hm h = ground (arith, ==_iff a.actor_employee_id p.leader_id)
validate_suffices p a assign e m hm (h, (id, hid, hemp)) =
    ground (arith, ==_iff a.actor_employee_id p.leader_id)
validate_suffices p a company_complete_request e m hm h =
    ground (arith, ==_iff a.actor_employee_id p.leader_id)
validate_suffices p a employee_message e m hm (id, hid, hemp) = ground arith
validate_suffices p a _ e m hm h = ground arith

module _ (p : ActionPolicy) (a : ActionProposal) where
  -- The policy accepts an action exactly when its actor is an employee and has the permission that
  -- its type asks for: the leader for proposals, assignments and completion requests, a reviewer
  -- for approvals and rejections, and a known employee as assignee or recipient.
  pub validate_iff : (is_ok (validate p a) ≡ true) ↔ IsAllowed p a
  validate_iff = (
    λ h. record {
      actor = elim (Option-cases (find (λ e. e.id == a.actor_employee_id) p.company.employees)) [
        | inl n ↦ unfold validate in ground arith
        | inr r ↦ r
      ];
      permitted = validate_needs p a a.type refl h;
    },
    λ h. validate_suffices p a a.type refl h.actor.0 h.actor.1 h.permitted,
  )

  -- An accepted action is handed on as it came.
  pub validate-eq : (b : ActionProposal) → validate p a ≡ ok b → b ≡ a
  unfolding validate
  validate-eq b h = ground arith
