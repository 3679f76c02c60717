-- ===== src/Storage/Sessions.antt =====
-- packages/core/src/storage/core-store.ts: agent sessions and their usage.
-- `at` is what `new Date().toISOString()` returns to the call.
use agent_town.Prelude.{
  String, ◌&&◌, Option, none, some, List, [], ◌∷◌, ◌++◌, filter, ◌==◌, string_eq, pair_eq,
  if◌then◌else◌,
}
use agent_town.Prelude.Table.{Table, insert, remove}
use agent_town.Contract.Agent.{SessionHandle, UsageSnapshot}
use agent_town.Result.{Result, ok}
use agent_town.Exec.{Exec}
use agent_town.Storage.Schema.{Db, SessionRow, UsageRow, NewEvent}
use agent_town.Storage.Transaction.{Store, transact}
use agent_town.Storage.Order.{sort_by, latest_by}

unfoldable pub write_session : String → String → SessionRow → Db → Result Db
write_session c employee_id row db =
    ok (record db { agent_sessions = insert (c, employee_id) row db.agent_sessions })

-- putSession(companyId, employeeId, handle, status, event)
unfoldable pub put_session :
    String → String → SessionHandle → String → NewEvent → String → Exec Store (Unit {0})
unfolding write_session
put_session c employee_id handle status event at =
    transact
      (write_session c employee_id (record { handle = handle; status = status; updated_at = at }))
      (event ∷ [])

unfoldable pub erase_session : String → String → Db → Result Db
erase_session c employee_id db =
    ok (record db { agent_sessions = remove (c, employee_id) db.agent_sessions })

-- deleteSession(companyId, employeeId, event)
unfoldable pub delete_session : String → String → NewEvent → Exec Store (Unit {0})
unfolding erase_session
delete_session c employee_id event = transact (erase_session c employee_id) (event ∷ [])

pub record ListedSession : Type 0 where
  pub employee_id : String
  pub handle : SessionHandle
  pub status : String

unfoldable pub sessions_of : String → Table (String × String) SessionRow → List ListedSession
sessions_of c [] = []
sessions_of c ((key, row) ∷ rows) =
    let rest = sessions_of c rows in
    let listed : ListedSession = record {
      employee_id = key.1;
      handle = row.handle;
      status = row.status;
    } in
    if key.0 == c then listed ∷ rest else rest

-- listSessions(companyId): ORDER BY employee_id ASC
unfoldable pub list_sessions : Store → String → List ListedSession
unfolding sessions_of sort_by
list_sessions s c = sort_by (λ e. e.employee_id) (sessions_of c s.db.agent_sessions)

unfoldable pub write_usage : String → String → UsageSnapshot → Db → Result Db
write_usage c employee_id usage db =
    let row : UsageRow = record { company_id = c; employee_id = employee_id; usage = usage } in
    ok (record db { usage_snapshots = db.usage_snapshots ++ row ∷ [] })

-- putUsageSnapshot(companyId, employeeId, usage, event)
unfoldable pub put_usage_snapshot :
    String → String → UsageSnapshot → NewEvent → Exec Store (Unit {0})
unfolding write_usage
put_usage_snapshot c employee_id usage event =
    transact (write_usage c employee_id usage) (event ∷ [])

-- latestUsage(companyId, employeeId): ORDER BY captured_at DESC, id DESC LIMIT 1
unfoldable pub latest_usage : Store → String → String → Option UsageSnapshot
unfolding latest_by
latest_usage s c employee_id =
    elim (latest_by (λ r. r.usage.captured_at)
      (filter (λ r. r.company_id == c && r.employee_id == employee_id) s.db.usage_snapshots)) [
        | none ↦ none
        | some row ↦ some row.usage
      ]
