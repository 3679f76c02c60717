-- ===== src/Storage/Tasks.antt =====
-- packages/core/src/storage/core-store.ts: putTask, getTask, listTasks.
pub mod Put
use agent_town.Storage.Order.{sort_by}
use agent_town.Prelude.{
  ℕ, String, Bool, not, ◌&&◌, Option, none, some, List, [], ◌∷◌, ◌++◌, map, any, filter, is_empty,
  ◌==◌, string_eq, pair_eq, if◌then◌else◌,
}
use agent_town.Prelude.Table.{Table, lookup, insert}
use agent_town.Contract.Task.{TaskRecord}
use agent_town.Result.{Error, ◌>>=◌, ◌>>◌, Result, ok, err, constraint, event_required}
use agent_town.Exec.{Exec, raise}
use agent_town.Storage.Schema.{NewEvent, EventRecord, Db, TaskRow, DependencyRow, ArtifactRow}
use agent_town.Storage.Transaction.{Store, transact}

abbrev pub task_row : TaskRecord → TaskRow
task_row t = record {
  task = t;
  status = t.status;
  owner_employee_id = t.owner_employee_id;
  retry_count = t.retry_count;
  review_loop_count = t.review_loop_count;
}

-- INSERT INTO tasks … ON CONFLICT DO UPDATE; `company_id` is a foreign key.
unfoldable pub upsert_task : String → TaskRecord → Db → Result Db
upsert_task company_id t db = elim (lookup company_id db.companies) [
  | none ↦ err (constraint "tasks.company_id")
  | some _ ↦ ok (record db { tasks = insert (company_id, t.id) (task_row t) db.tasks })
]

abbrev pub is_dependency_of : String → String → DependencyRow → Bool
is_dependency_of company_id task_id r = r.company_id == company_id && r.task_id == task_id

-- DELETE FROM task_dependencies WHERE company_id = ? AND task_id = ?
abbrev pub delete_dependencies : String → String → List DependencyRow → List DependencyRow
delete_dependencies company_id task_id = filter (λ r. not (is_dependency_of company_id task_id r))

-- INSERT INTO task_dependencies, a row at a time; all three columns are the primary key.
unfoldable pub insert_dependencies :
    String → String → List String → List DependencyRow → Result (List DependencyRow)
insert_dependencies c t [] rows = ok rows
insert_dependencies c t (d ∷ ds) rows =
    let row : DependencyRow = record { company_id = c; task_id = t; depends_on_task_id = d } in
    let rest = insert_dependencies c t ds (rows ++ row ∷ []) in
    if any (λ r. is_dependency_of c t r && r.depends_on_task_id == d) rows
    then err (constraint "task_dependencies")
    else rest

abbrev pub is_artifact_of : String → String → ArtifactRow → Bool
is_artifact_of company_id task_id r = r.company_id == company_id && r.task_id == task_id

-- DELETE FROM task_artifacts WHERE company_id = ? AND task_id = ?
abbrev pub delete_artifacts : String → String → List ArtifactRow → List ArtifactRow
delete_artifacts company_id task_id = filter (λ r. not (is_artifact_of company_id task_id r))

-- INSERT INTO task_artifacts, a row at a time; all four columns are the primary key.
unfoldable pub insert_artifacts :
    String → String → String → List String → List ArtifactRow → Result (List ArtifactRow)
insert_artifacts c t kind [] rows = ok rows
insert_artifacts c t kind (v ∷ vs) rows =
    let row : ArtifactRow = record { company_id = c; task_id = t; kind = kind; value = v } in
    let rest = insert_artifacts c t kind vs (rows ++ row ∷ []) in
    if any (λ r. is_artifact_of c t r && r.kind == kind && r.value == v) rows
    then err (constraint "task_artifacts")
    else rest

abbrev pub artifact_rows : String → TaskRecord → List ArtifactRow → Result (List ArtifactRow)
artifact_rows c t rows = do
  artifacts ← insert_artifacts c t.id "artifact" t.artifacts (delete_artifacts c t.id rows)
  insert_artifacts c t.id "evidence" t.evidence artifacts

abbrev pub dependency_rows : String → TaskRecord → List DependencyRow → Result (List DependencyRow)
dependency_rows c t rows =
    insert_dependencies c t.id t.dependencies (delete_dependencies c t.id rows)

-- What putTask does to the tables before the event rows.
unfoldable pub write_task : String → TaskRecord → Db → Result Db
unfolding upsert_task
write_task c t db = do
  db' ← upsert_task c t db
  deps ← dependency_rows c t db'.task_dependencies
  artifacts ← artifact_rows c t db'.task_artifacts
  ok (record db' { task_dependencies = deps; task_artifacts = artifacts })

unfoldable pub put_task : String → TaskRecord → List NewEvent → Exec Store (Unit {0})
unfolding write_task
put_task c t events =
    if is_empty events then raise event_required else transact (write_task c t) events

-- SELECT record_json FROM tasks WHERE company_id = ? AND id = ?
unfoldable pub get_task : Store → String → String → Option TaskRecord
get_task s c id = elim (lookup (c, id) s.db.tasks) [ none ↦ none | some row ↦ some row.task ]

unfoldable pub company_tasks : String → Table (String × String) TaskRow → List TaskRecord
company_tasks c [] = []
company_tasks c ((key, row) ∷ rows) =
    let rest = company_tasks c rows in if key.0 == c then row.task ∷ rest else rest

-- SELECT record_json FROM tasks WHERE company_id = ? ORDER BY id ASC
unfoldable pub list_tasks : Store → String → List TaskRecord
unfolding sort_by company_tasks
list_tasks s c = sort_by (λ t. t.id) (company_tasks c s.db.tasks)
