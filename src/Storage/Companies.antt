-- ===== src/Storage/Companies.antt =====
-- packages/core/src/storage/core-store.ts: companies, checkpoints and the facts of a suspension.
-- `at` is what `new Date().toISOString()` returns to the call.
use agent_town.Prelude.{
  String, Bool, ◌&&◌, Option, none, some, List, [], ◌∷◌, ◌++◌, any, filter, is_empty, ◌==◌,
  string_eq, nat_eq, pair_eq, if◌then◌else◌, string_eq, string_eq, string_eq, string_eq, string_eq,
  string_eq, string_eq, string_eq, string_eq, string_eq, string_eq, string_eq,
}
use agent_town.Prelude.Table.{Table, lookup, insert}
use agent_town.Contract.Company.{CompanyDefinition, EmployeeDefinition}
use agent_town.Result.{Result, ok, err, ◌>>=◌, constraint, company_not_found, event_required}
use agent_town.Exec.{Exec, raise}
use agent_town.Storage.Schema.{Db, CompanyRow, EmployeeRow, RevisionRow, StoredCheckpoint, NewEvent}
use agent_town.Storage.Transaction.{Store, transact}
use agent_town.Storage.Order.{sort_by, latest_by, text_le}

-- INSERT INTO companies
unfoldable pub insert_company : String → CompanyRow → Db → Result Db
insert_company id row db = elim (lookup id db.companies) [
  | some _ ↦ err (constraint "companies.id")
  | none ↦ ok (record db { companies = insert id row db.companies })
]

-- INSERT INTO company_revisions; the company and the revision are the key.
unfoldable pub insert_revision : RevisionRow → Db → Result Db
insert_revision row db =
    if any (λ r. r.company_id == row.company_id && r.revision == row.revision) db.company_revisions
    then err (constraint "company_revisions")
    else ok (record db { company_revisions = db.company_revisions ++ row ∷ [] })

abbrev pub employee_row : EmployeeDefinition → EmployeeRow
employee_row e = record {
  role = e.role;
  agent = e.agent;
  reports_to = e.reports_to;
  workspace = e.workspace;
}

-- INSERT INTO employees, one by one; the company and the id are the key.
unfoldable pub insert_employees :
    String
    → List EmployeeDefinition
    → Table (String × String) EmployeeRow
    → Result (Table (String × String) EmployeeRow)
insert_employees c [] rows = ok rows
insert_employees c (e ∷ es) rows =
    let rest = insert_employees c es (insert (c, e.id) (employee_row e) rows) in
    elim (lookup (c, e.id) rows) [ some _ ↦ err (constraint "employees") | none ↦ rest ]

unfoldable pub write_company : String → CompanyDefinition → String → Db → Result Db
unfolding insert_company insert_revision insert_employees
write_company id definition at db = do
  db₁ ←
      insert_company id
        (record { definition = definition; status = "active"; created_at = at; updated_at = at }) db
  db₂ ←
      insert_revision
        (record { company_id = id; revision = 1; definition = definition; created_at = at }) db₁
  rows ← insert_employees id definition.employees db₂.employees
  ok (record db₂ { employees = rows })

-- createCompany({ id, definition, event })
unfoldable pub create_company :
    String → CompanyDefinition → NewEvent → String → Exec Store (Unit {0})
unfolding write_company
create_company id definition event at = transact (write_company id definition at) (event ∷ [])

-- getCompany(id)
unfoldable pub get_company : Store → String → Option CompanyRow
get_company s id = lookup id s.db.companies

abbrev is_earlier : String × CompanyRow → String × CompanyRow → Bool
is_earlier a b =
    if a.1.created_at == b.1.created_at
    then text_le a.0 b.0
    else text_le a.1.created_at b.1.created_at

unfoldable pub earliest : String × CompanyRow → Table String CompanyRow → CompanyRow
earliest best [] = best.1
earliest best (row ∷ rows) = earliest (if is_earlier best row then best else row) rows

-- getOnlyCompanyStatus(): ORDER BY created_at ASC, id ASC LIMIT 1
unfoldable pub get_only_company_status : Store → Option String
unfolding earliest
get_only_company_status s = elim s.db.companies [
  | [] ↦ none
  | row ∷ rows ↦ some (earliest row rows).status
]

unfoldable pub employees_of : String → Table (String × String) EmployeeRow → List (String × String)
employees_of c [] = []
employees_of c ((key, row) ∷ rows) =
    let rest = employees_of c rows in if key.0 == c then (key.1, row.role) ∷ rest else rest

-- listEmployees(companyId): the ids and the roles, ORDER BY id ASC
unfoldable pub list_employees : Store → String → List (String × String)
unfolding employees_of sort_by
list_employees s c = sort_by (λ e. e.0) (employees_of c s.db.employees)

-- UPDATE companies SET status; a company that is not there is an error.
unfoldable pub update_status : String → String → String → Db → Result Db
update_status id status at db = elim (lookup id db.companies) [
  | none ↦ err (company_not_found id)
  | some row ↦ ok (record db {
    companies = insert id (record row { status = status; updated_at = at }) db.companies;
  })
]

-- setCompanyStatus(companyId, status, event)
unfoldable pub set_company_status : String → String → NewEvent → String → Exec Store (Unit {0})
unfolding update_status
set_company_status id status event at = transact (update_status id status at) (event ∷ [])

-- commitCompanyStatusWithEvents(companyId, status, events)
unfoldable pub commit_company_status_with_events :
    String → String → List NewEvent → String → Exec Store (Unit {0})
unfolding update_status
commit_company_status_with_events id status events at =
    if is_empty events then raise event_required else transact (update_status id status at) events

-- INSERT INTO checkpoints
unfoldable pub insert_checkpoint : StoredCheckpoint → Db → Result Db
insert_checkpoint c db =
    if any (λ d. d.id == c.id) db.checkpoints
    then err (constraint "checkpoints.id")
    else ok (record db { checkpoints = db.checkpoints ++ c ∷ [] })

-- putCheckpoint(checkpoint, event)
unfoldable pub put_checkpoint : StoredCheckpoint → NewEvent → Exec Store (Unit {0})
unfolding insert_checkpoint
put_checkpoint c event = transact (insert_checkpoint c) (event ∷ [])

pub data TerminalStatus : Type 0 where
  paused stopped : TerminalStatus

unfoldable pub terminal_text : TerminalStatus → String
terminal_text paused = "paused"
terminal_text stopped = "stopped"

unfoldable pub write_suspension : StoredCheckpoint → TerminalStatus → String → Db → Result Db
unfolding insert_checkpoint update_status terminal_text
write_suspension c status at db = do
  db' ← insert_checkpoint c db
  update_status c.company_id (terminal_text status) at db'

-- commitSuspensionFacts(checkpoint, checkpointEvent, terminalStatus, terminalEvent)
unfoldable pub commit_suspension_facts :
    StoredCheckpoint → NewEvent → TerminalStatus → NewEvent → String → Exec Store (Unit {0})
unfolding write_suspension
commit_suspension_facts c checkpoint_event status terminal_event at =
    transact (write_suspension c status at) (checkpoint_event ∷ terminal_event ∷ [])

-- commitPauseFacts(checkpoint, checkpointEvent, pausedEvent)
unfoldable pub commit_pause_facts :
    StoredCheckpoint → NewEvent → NewEvent → String → Exec Store (Unit {0})
unfolding commit_suspension_facts
commit_pause_facts c checkpoint_event paused_event at =
    commit_suspension_facts c checkpoint_event paused paused_event at

-- latestCheckpoint(companyId): ORDER BY created_at DESC, rowid DESC LIMIT 1
unfoldable pub latest_checkpoint : Store → String → Option StoredCheckpoint
unfolding latest_by
latest_checkpoint s c =
    latest_by (λ k. k.created_at) (filter (λ k. k.company_id == c) s.db.checkpoints)
