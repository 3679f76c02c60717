-- ===== src/Server/Queries.antt =====
-- packages/core/src/ipc/core-server.ts: the methods of the protocol that only read.
use agent_town.Prelude.{
  ℕ, String, Bool, false, ◌&&◌, ◌||◌, Option, none, some, find, filter, length, leb, ltb, ◌==◌,
  string_eq, nat_eq, if◌then◌else◌,
}
use agent_town.Contract.Value.{Value, null, num, str, obj, arr, Fields, end, field, get_field}
use agent_town.Contract.Task.{TaskRecord, running, review, state_eq}
use agent_town.Result.{Result, ok, err, ◌>>=◌, request_error}
use agent_town.Orchestrator.Payload.{◌⧺◌}
use agent_town.Storage.Transaction.{Store, list_events}
use agent_town.Storage.Tasks.{list_tasks}
use agent_town.Storage.Companies.{get_company, list_employees}
use agent_town.Storage.Sessions.{ListedSession, list_sessions, latest_usage}
use agent_town.Server.Encode.{array_of, event_value, usage_value}
use agent_town.Server.Requests.{nonnegative_integer, invalid_params}
use agent_town.Server.State.{CoreServerOptions}

abbrev pub is_current : String → TaskRecord → Bool
is_current id t = elim t.owner_employee_id [
  | none ↦ false
  | some owner ↦ owner == id && (t.status == running || t.status == review)
]

abbrev pub session_status : Option ListedSession → String
session_status none = "not_started"
session_status (some e) = e.status

abbrev pub task_id_of : Option TaskRecord → Value
task_id_of none = null
task_id_of (some t) = str t.id

-- One employee of the snapshot.
unfoldable pub employee_value : Store → String → String × String → Value
employee_value s company_id (id, role) = obj (
    field "id" (str id) (
      field "role" (str role) (
        field "status"
          (str (session_status (find (λ e. e.employee_id == id) (list_sessions s company_id))))
          (field "currentTaskId" (task_id_of (find (is_current id) (list_tasks s company_id)))
            (field "usage" (usage_value (latest_usage s company_id id)) end)))))

-- #statusSnapshot(companyId)
unfoldable pub status_snapshot : Store → String → Result Value
status_snapshot s company_id = elim (get_company s company_id) [
  | none ↦ err (request_error "not_found" ("company not found: " ⧺ company_id))
  | some row ↦ ok (
      obj (
        field "companyId" (str company_id) (
          field "status" (str row.status) (
            field "activeTaskCount"
              (num (
                length (
                  filter (λ t. t.status == running || t.status == review)
                    (list_tasks s company_id))))
              (field "pendingApprovalCount"
                (num (
                  length
                    (filter (λ e. e.type == "user.approval.requested") (list_events s 0 none))))
                (field "employees"
                  (arr (array_of (employee_value s company_id) (list_employees s company_id)))
                  end))))))
]

-- "company.status"
unfoldable pub company_status : CoreServerOptions → Store → Option Value → Result Value
company_status o s none = ok null
company_status o s (some (str id)) =
    if id == ""
    then invalid_params "companyId must be a non-empty string"
    else elim (get_company s id) [
      | none ↦ ok null
      | some row ↦ ok (
          obj (
            field "id" (str id) (
              field "definitionJson" (str (o.definition_json row.definition))
                (field "status" (str row.status) end))))
    ]
company_status o s (some _) = invalid_params "companyId must be a non-empty string"

-- The limit of "events.list": an integer from 1 to 256.
unfoldable pub events_limit : Option Value → Result (Option ℕ)
events_limit none = ok none
events_limit (some (num n)) =
    if ltb 0 n && leb n 256
    then ok (some n)
    else invalid_params "limit must be an integer from 1 to 256"
events_limit (some _) = invalid_params "limit must be an integer from 1 to 256"

-- "events.list"
unfoldable pub events_list : Store → Fields → Result Value
events_list s params = do
  after ← nonnegative_integer (get_field "afterSequence" params) "afterSequence" (some 0)
  limit ← events_limit (get_field "limit" params)
  ok (arr (array_of event_value (list_events s after limit)))
