-- ===== src/Orchestrator/Payload.antt =====
-- packages/core/src/company/orchestrator.ts: reading and completing the payload of an action.
use agent_town.Prelude.{
  ℕ, suc, zero, String, Option, none, some, List, [], ◌∷◌, ◌==◌, string_eq, if◌then◌else◌,
}
use agent_town.Contract.Value.{
  Value, str, arr, Items, no_items, item, Fields, end, field, get_field, strings,
}
use agent_town.Contract.Task.{ActionProposal}
use agent_town.Result.{
  Result, required, requires_task_id, non_empty_string, non_empty_string_array, string_array,
}
use Prim.Native.String.{◌++◌ as append, slice, len}
use text.Mathlib.Text.{find?}

unfoldable pub required_task_id : ActionProposal → Result String
unfolding required
required_task_id action = required action.task_id (requires_task_id action.type)

-- #nonEmptyString
unfoldable pub text_of : Option Value → Option String
text_of (some (str s)) = if s == "" then none else some s
text_of _ = none

unfoldable pub required_string : Option Value → String → Result String
unfolding required text_of
required_string value label = required (text_of value) (non_empty_string label)

-- The items of an array of non-empty strings.
unfoldable pub item_texts : Items → Option (List String)
item_texts no_items = some []
item_texts (item (str s) items) =
    let rest = item_texts items in
    if s == "" then none else elim rest [ none ↦ none | some ss ↦ some (s ∷ ss) ]
item_texts (item _ items) = none

abbrev array_texts : Option Value → Option (List String)
array_texts (some (arr items)) = item_texts items
array_texts _ = none

unfoldable pub optional_string_array : Option Value → String → Result (List String)
unfolding item_texts required
optional_string_array value label = required (array_texts value) (string_array label)

abbrev non_empty : Option (List String) → Option (List String)
non_empty (some (s ∷ ss)) = some (s ∷ ss)
non_empty _ = none

-- #nonEmptyStrings
unfoldable pub texts_of : Option Value → Option (List String)
unfolding item_texts
texts_of value = non_empty (array_texts value)

unfoldable pub required_string_array : Option Value → Result (List String)
unfolding texts_of required
required_string_array value = required (texts_of value) non_empty_string_array

-- { ...fields, k: v }
unfoldable pub set_field : String → Value → Fields → Fields
set_field k v end = field k v end
set_field k v (field j w fs) =
    let rest = set_field k v fs in if j == k then field k v fs else field j w rest

infixr 60 ◌⧺◌
abbrev pub ◌⧺◌ : String → String → String
s ⧺ t = append s t

-- reason.replaceAll("_", " "), a place for each character at most
unfoldable pub replace_all : ℕ → String → String
replace_all zero s = s
replace_all (suc n) s = elim (find? s "_") [
  | none ↦ s
  | some i ↦ slice s 0 i ⧺ " " ⧺ replace_all n (slice s (suc i) (len s))
]

abbrev or_else : {A : Type 0} → Option A → A → A
or_else none a = a
or_else (some b) a = b

abbrev for_task : Option String → String
for_task none = ""
for_task (some id) = " for " ⧺ id

abbrev default_options : List String
default_options = "approve_operation" ∷ "choose_alternative" ∷ []

-- The payload that #recordApprovalRequest writes.
unfoldable pub approval_payload : Option String → String → Fields → Fields
unfolding set_field text_of texts_of replace_all strings
approval_payload task_id reason payload =
    let options = or_else (texts_of (get_field "options" payload)) default_options in
    let alternatives = or_else (texts_of (get_field "alternatives" payload)) options in
    let text : String → String → Value =
      λ key default. str (or_else (text_of (get_field key payload)) default) in
    set_field "options" (arr (strings options)) (
      set_field "question"
        (text "question" ("How should AgentTown resolve " ⧺ replace_all (len reason) reason ⧺ "?"))
        (set_field "consequenceOfNonApproval"
          (text "consequenceOfNonApproval" "Work remains paused or blocked at this decision point.")
          (set_field "alternatives" (arr (strings alternatives)) (
            set_field "impact"
              (text "impact"
                "AgentTown cannot safely continue this operation without a user decision.")
              (set_field "operation" (text "operation" ("resolve " ⧺ reason ⧺ for_task task_id))
                (set_field "reason" (str reason) payload))))))
