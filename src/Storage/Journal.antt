-- ===== src/Storage/Journal.antt =====
-- The event journal over all the writing methods of CoreStore: what a method that raises leaves
-- behind, and what holds of the rows of `events` and of the events that the listeners were given.
pub mod Effects
pub mod Order
use agent_town.Prelude.{
  ℕ, zero, suc, ◌+◌, String, ◌≡◌, List, [], ◌∷◌, ◌++◌, arith, length, is_empty, refl, inl, inr,
  if◌then◌else◌,
}
use agent_town.Contract.Task.{TaskRecord}
use agent_town.Contract.Company.{CompanyDefinition}
use agent_town.Contract.Agent.{SessionHandle, UsageSnapshot}
use agent_town.Result.{Error, Result, ok, err, Result-cases}
use agent_town.Exec.{Exec, ◌>>=◌, ◌>>◌, pure}
use agent_town.Storage.Schema.{NewEvent, EventRecord, Db, StoredCheckpoint}
use agent_town.Storage.Transaction.{insert_event, Store, transact, event_row}
use agent_town.Storage.Transaction.Rows.{stamp}
use agent_town.Storage.Transaction.Commit.{outcome, commit, committed, transact-commit}
use agent_town.Storage.Tasks.{put_task, write_task}
use agent_town.Storage.Companies.{
  create_company, write_company, set_company_status, update_status,
  commit_company_status_with_events, put_checkpoint, insert_checkpoint, TerminalStatus,
  commit_suspension_facts, write_suspension,
}
use agent_town.Storage.Sessions.{
  put_session, write_session, delete_session, erase_session, put_usage_snapshot, write_usage,
}
use mathlib.Core.List.{append_assoc}

-- The methods that write tables and events, as calls with their arguments.
pub data Write : Type 0 where
  event_inserted : NewEvent → Write
  company_created : String → CompanyDefinition → NewEvent → String → Write
  status_set : String → String → NewEvent → String → Write
  status_committed : String → String → List NewEvent → String → Write
  task_put : String → TaskRecord → List NewEvent → Write
  session_put : String → String → SessionHandle → String → NewEvent → String → Write
  session_deleted : String → String → NewEvent → Write
  usage_put : String → String → UsageSnapshot → NewEvent → Write
  checkpoint_put : StoredCheckpoint → NewEvent → Write
  suspended : StoredCheckpoint → NewEvent → TerminalStatus → NewEvent → String → Write

unfoldable pub write : Write → Exec Store (Unit {0})
write (event_inserted e) = insert_event e >> pure tt
write (company_created id definition event at) = create_company id definition event at
write (status_set id status event at) = set_company_status id status event at
write (status_committed id status events at) = commit_company_status_with_events id status events at
write (task_put c t events) = put_task c t events
write (session_put c id handle status event at) = put_session c id handle status event at
write (session_deleted c id event) = delete_session c id event
write (usage_put c id usage event) = put_usage_snapshot c id usage event
write (checkpoint_put c event) = put_checkpoint c event
write (suspended c e status e' at) = commit_suspension_facts c e status e' at
