-- ===== src/Checkpoint/Build.antt =====
-- packages/core/src/lifecycle/checkpoint-service.ts: building and validating a checkpoint.
use agent_town.Prelude.{
  String, Bool, true, false, not, ◌&&◌, ◌||◌, Option, none, some, List, [], ◌∷◌, map, find, any,
  includes, length, ◌==◌, string_eq, nat_eq,
}
use agent_town.Contract.Task.{TaskRecord, running, review, state_eq}
use agent_town.Contract.Company.{CompanyDefinition, EmployeeDefinition}
use agent_town.Contract.Agent.{SessionCheckpoint, CompanyCheckpoint, PauseReason}
use agent_town.Result.{Result, ok, ◌>>=◌, ◌>>◌, guard, required, malformed, session_fact_missing}
use agent_town.Orchestrator.Payload.{◌⧺◌}
use agent_town.Storage.Schema.{StoredCheckpoint}
use agent_town.Contract.Value.{obj}
use agent_town.Storage.Transaction.{Store, get_latest_event_sequence}
use agent_town.Storage.Tasks.{list_tasks}
use agent_town.Storage.Sessions.{list_sessions}
use agent_town.Server.Requests.{join}
use agent_town.Checkpoint.Payload.{parse_company_checkpoint}

-- CheckpointService, as far as it builds and reads checkpoints
pub record CheckpointService : Type 0 where
  pub company_id : String
  pub company : CompanyDefinition
  pub store : Store

-- #handoff(employee, task)
unfoldable pub handoff_text : CompanyDefinition → EmployeeDefinition → Option TaskRecord → String
handoff_text company e none =
    "Resume " ⧺ (e.role ⧺ (" duties for " ⧺ (company.name ⧺ "; no active task.")))
handoff_text company e (some t) =
    "Continue task "
    ⧺ (t.id
        ⧺ (": " ⧺ (t.objective ⧺ ("\nAcceptance criteria: " ⧺ join "; " t.acceptance_criteria))))

abbrev pub is_active : String → TaskRecord → Bool
is_active employee_id t = elim t.owner_employee_id [
  | none ↦ false
  | some owner ↦ owner == employee_id && (t.status == running || t.status == review)
]

-- The task that an employee runs or has in review.
unfoldable pub active_task : CheckpointService → EmployeeDefinition → Option TaskRecord
active_task k e = find (is_active e.id) (list_tasks k.store k.company_id)

abbrev pub id_of : Option TaskRecord → Option String
id_of none = none
id_of (some t) = some t.id

-- One session of #buildCheckpoint.
unfoldable pub build_session : CheckpointService → EmployeeDefinition → Result SessionCheckpoint
build_session k e = do
  session ←
      required (find (λ x. x.employee_id == e.id) (list_sessions k.store k.company_id))
        (session_fact_missing e.id)
  ok (record {
    employee_id = e.id;
    handle = session.handle;
    active_task_id = id_of (active_task k e);
    handoff = handoff_text k.company e (active_task k e);
  })

unfoldable pub build_sessions :
    CheckpointService → List EmployeeDefinition → Result (List SessionCheckpoint)
build_sessions k [] = ok []
build_sessions k (e ∷ es) =
    let rest = build_sessions k es in build_session k e >>= λ x. rest >>= λ xs. ok (x ∷ xs)

-- #buildCheckpoint(reason)
unfoldable pub build_checkpoint : CheckpointService → PauseReason → Result CompanyCheckpoint
build_checkpoint k reason = do
  sessions ← build_sessions k k.company.employees
  ok (record {
    company_id = k.company_id;
    reason = reason;
    last_event_sequence = get_latest_event_sequence k.store;
    sessions = sessions;
  })

-- new Set(ids).size === ids.length
unfoldable pub are_distinct : List String → Bool
are_distinct [] = true
are_distinct (id ∷ ids) = not (includes ids id) && are_distinct ids

unfoldable pub all_included : List String → List String → Bool
all_included [] actual = true
all_included (id ∷ ids) actual = includes actual id && all_included ids actual

abbrev pub is_new_native : Option String → List String → Bool
is_new_native none ids = true
is_new_native (some id) ids = not (includes ids id)

abbrev pub add_native : Option String → List String → List String
add_native none ids = ids
add_native (some id) ids = id ∷ ids

abbrev pub owns_task : CheckpointService → String → Option String → Bool
owns_task k employee_id none = true
owns_task k employee_id (some task_id) =
    any
      (λ t.
        t.id == task_id
        && (elim t.owner_employee_id [ none ↦ false | some owner ↦ owner == employee_id ]))
      (list_tasks k.store k.company_id)

-- The body of the loop of #validateCheckpoint, for the session of an employee.
unfoldable pub check_session :
    CheckpointService
    → EmployeeDefinition
    → SessionCheckpoint
    → List String
    → List String
    → Result (Unit {0})
check_session k e s internal_ids native_ids = do
  guard (s.handle.employee_id == e.id) (malformed ("checkpoint handle employee mismatch: " ⧺ e.id))
  guard (s.handle.adapter == e.agent) (malformed ("checkpoint adapter mismatch: " ⧺ e.id))
  guard (not (includes internal_ids s.handle.internal_session_id))
      (malformed "checkpoint internal session IDs must be unique")
  guard (is_new_native s.handle.native_session_id native_ids)
      (malformed "checkpoint native session IDs must be unique")
  guard (owns_task k e.id s.active_task_id)
      (malformed ("checkpoint active task is not owned by employee: " ⧺ e.id))

-- The loop of #validateCheckpoint, with the two sets of ids.
unfoldable pub check_sessions :
    CheckpointService
    → List SessionCheckpoint
    → List EmployeeDefinition
    → List String
    → List String
    → Result (Unit {0})
check_sessions k sessions [] internal_ids native_ids = ok tt
check_sessions k sessions (e ∷ es) internal_ids native_ids = do
  s ←
      required (find (λ x. x.employee_id == e.id) sessions)
        (malformed ("checkpoint session missing: " ⧺ e.id))
  check_session k e s internal_ids native_ids
  check_sessions k sessions es (s.handle.internal_session_id ∷ internal_ids)
      (add_native s.handle.native_session_id native_ids)

-- #validateCheckpoint(checkpoint, company)
unfoldable pub validate_checkpoint : CheckpointService → CompanyCheckpoint → Result (Unit {0})
validate_checkpoint k c = do
  guard (c.company_id == k.company_id) (malformed ("checkpoint company mismatch: " ⧺ c.company_id))
  let actual = map (λ s. s.employee_id) c.sessions
  let expected = map (λ e. e.id) k.company.employees
  guard (length actual == length expected && are_distinct actual && all_included expected actual)
      (malformed "checkpoint employee roster mismatch")
  check_sessions k c.sessions k.company.employees [] []

-- #checkpointFromStored(stored)
unfoldable pub checkpoint_from_stored :
    CheckpointService → StoredCheckpoint → Result CompanyCheckpoint
checkpoint_from_stored k stored = do
  guard (stored.company_id == k.company_id)
      (malformed ("checkpoint company mismatch: " ⧺ stored.company_id))
  parse_company_checkpoint (obj stored.payload)
