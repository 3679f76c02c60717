-- ===== src/Storage/Schema.antt =====
-- packages/core/src/storage/schema.ts: the tables, with the columns as fields. A table with a
-- primary key that rows are read by is a `Table`; one whose key only forbids duplicates is a list.
-- JSON columns hold the value that was serialised, since `JSON.parse` undoes `JSON.stringify` on
-- records of texts, numbers and lists.
use agent_town.Prelude.{ℕ, String, Option, List, []}
use agent_town.Prelude.Table.{Table}
use agent_town.Contract.Value.{Fields}
use agent_town.Contract.Task.{TaskRecord, TaskState}
use agent_town.Contract.Company.{CompanyDefinition, WorkspaceMode}
use agent_town.Contract.Agent.{SessionHandle, UsageSnapshot}

pub record NewEvent : Type 0 where
  pub id : String
  pub type : String
  pub actor_id : String
  pub task_id : Option String
  pub causation_event_id : Option String
  pub payload : Fields

pub record EventRecord : Type 0 where
  pub event : NewEvent
  pub open event use *
  pub sequence : ℕ
  pub occurred_at : String

pub record StoredCheckpoint : Type 0 where
  pub id : String
  pub company_id : String
  pub created_at : String
  pub payload : Fields

pub record CompanyRow : Type 0 where
  pub definition : CompanyDefinition
  pub status : String
  pub created_at : String
  pub updated_at : String

pub record EmployeeRow : Type 0 where
  pub role : String
  pub agent : String
  pub reports_to : String
  pub workspace : WorkspaceMode

pub record RevisionRow : Type 0 where
  pub company_id : String
  pub revision : ℕ
  pub definition : CompanyDefinition
  pub created_at : String

pub record TaskRow : Type 0 where
  pub task : TaskRecord
  pub status : TaskState
  pub owner_employee_id : Option String
  pub retry_count : ℕ
  pub review_loop_count : ℕ

pub record DependencyRow : Type 0 where
  pub company_id : String
  pub task_id : String
  pub depends_on_task_id : String

pub record ArtifactRow : Type 0 where
  pub company_id : String
  pub task_id : String
  pub kind : String
  pub value : String

pub record SessionRow : Type 0 where
  pub handle : SessionHandle
  pub status : String
  pub updated_at : String

pub record UsageRow : Type 0 where
  pub company_id : String
  pub employee_id : String
  pub usage : UsageSnapshot

pub record MutationRequestRow : Type 0 where
  pub fingerprint : String
  pub state : String
  pub response : Option Fields
  pub claimed_at : String
  pub completed_at : Option String

-- `sequence` is the last value that AUTOINCREMENT gave to a row of `events`.
pub record Db : Type 0 where
  pub companies : Table String CompanyRow
  pub employees : Table (String × String) EmployeeRow
  pub company_revisions : List RevisionRow
  pub tasks : Table (String × String) TaskRow
  pub task_dependencies : List DependencyRow
  pub task_artifacts : List ArtifactRow
  pub agent_sessions : Table (String × String) SessionRow
  pub usage_snapshots : List UsageRow
  pub client_leases : Table String ℕ
  pub ipc_mutation_requests : Table (String × String) MutationRequestRow
  pub checkpoints : List StoredCheckpoint
  pub events : List EventRecord
  pub sequence : ℕ

-- The tables as CREATE TABLE leaves them.
abbrev pub empty_db : Db
empty_db = record {
  companies = [];
  employees = [];
  company_revisions = [];
  tasks = [];
  task_dependencies = [];
  task_artifacts = [];
  agent_sessions = [];
  usage_snapshots = [];
  client_leases = [];
  ipc_mutation_requests = [];
  checkpoints = [];
  events = [];
  sequence = 0;
}
