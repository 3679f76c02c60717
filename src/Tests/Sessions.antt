-- ===== src/Tests/Sessions.antt =====
-- Sessions that start, are replaced and stop at concrete inputs, and the theorems there.
use agent_town.Orchestrator.Payload.{◌⧺◌}
use agent_town.Exec.{try_finally, try_catch, Exec, pure, modify}
use agent_town.Prelude.{
  ℕ, zero, suc, ◌+◌, String, true, false, ◌≡◌, none, some, [], ◌∷◌, refl, is_empty, includes,
  filter, find, any,
}
use agent_town.Contract.Value.{Fields, end}
use agent_town.Contract.Agent.{SessionHandle, PauseReason, CompanyCheckpoint}
use agent_town.Result.{ok, required}
use agent_town.Storage.Companies.{
  commit_pause_facts, commit_suspension_facts, paused, terminal_text,
  commit_company_status_with_events,
}
use agent_town.Sessions.{put, SessionManager, Manager, AgentAdapter, new_event}
use agent_town.Storage.Sessions.{put_session, list_sessions}
use agent_town.Sessions.Handles.{
  collect_stop_candidates, register_handle, cancel_pending_replacements, delete_handle,
  delete_cleanup, delete_unavailable, delete_current, cleanup_ownership_snapshot,
}
use agent_town.Prelude.Table.{remove, lookup, insert}
use agent_town.Sessions.Stop.{interrupt_all, stop_all_bounded}
use agent_town.Storage.Schema.{empty_db}
use agent_town.Storage.Transaction.{Store, transact, get_latest_event_sequence}
use agent_town.Sessions.Call.{Call}
use agent_town.Sessions.Calls.{run}
use agent_town.Sessions.Newer.{IsNewer, run-IsNewer}
use agent_town.Sessions.Landed.{Landed, Asked, land-Landed}
use agent_town.Sessions.Replace.{land}
use agent_town.Sessions.Steps.{Keeps, Awaits, Keeps-pure}
use agent_town.Checkpoint.Lifecycle.{Lifecycle}
use agent_town.Checkpoint.Lifecycle.Cleanup.{cleanup_within_deadline, owners}
use agent_town.Checkpoint.Lifecycle.Suspend.{suspend}
use agent_town.Checkpoint.Lifecycle.Status.{HasStatus}
use agent_town.Checkpoint.Lifecycle.Paused.{suspend-IsAtRest}
use agent_town.Tests.Fixture.{company, leader, blank, company_row}
use agent_town.Contract.Company.{CompanyDefinition}
use agent_town.Checkpoint.Build.{
  handoff_text, build_checkpoint, build_sessions, build_session, active_task,
}
use agent_town.Storage.Tasks.{list_tasks}
use agent_town.Server.Requests.{join}

abbrev made : String → SessionHandle
made employee_id = record {
  employee_id = employee_id;
  adapter = "fake";
  internal_session_id = "i";
  native_session_id = none;
}

-- An adapter that answers at once.
abbrev prompt : AgentAdapter
prompt = record {
  start = λ i. pure (made i.employee_id);
  send = λ h m. [];
  interrupt = λ h. pure true;
  resume = λ i. pure (made i.input.employee_id);
  stop = λ h. pure tt;
  force_stop = none;
  native_resume = pure false;
}

abbrev numbered : ℕ → String
numbered zero = "u"
numbered (suc n) = "u" ⧺ numbered n

abbrev manager : SessionManager
manager = record {
  adapter_for = λ n. prompt;
  company_id = "c";
  project_root = "/project";
  uuid = numbered;
  iso = λ n. "now";
  error_message = λ e. "error";
  settled = λ n. pure tt;
  abort_first = λ signal m. (false, m);
}

abbrev small : CompanyDefinition
small = record company { employees = leader ∷ [] }

-- The leader has a session.
abbrev staffed : Store
staffed = record blank {
  db = record empty_db {
    companies = ("c", company_row) ∷ [];
    agent_sessions =
        (("c", "leader"), record { handle = made "leader"; status = "running"; updated_at = "now" })
        ∷ [];
  };
}

abbrev fresh : Manager
fresh = record {
  store = staffed;
  sessions = [];
  unavailable = [];
  send_tails = [];
  cleanup_handles = [];
  handle_orders = [];
  pending_replacements = [];
  next_handle_order = 0;
  ownership_version = 0;
  now = 5;
  aborted = [];
  uuids = 0;
  tails = 0;
  signals = 0;
  live = [];
}

abbrev working : Manager
working = record fresh { sessions = ("leader", made "leader") ∷ [] }

prompt-Awaits : (P : Manager → Type 0) → Awaits P manager
prompt-Awaits P = record {
  start = λ n i. Keeps-pure (made i.employee_id);
  resume = λ n i. Keeps-pure (made i.input.employee_id);
  send = λ n h message. tt;
  interrupt = λ n h. Keeps-pure true;
  stop = λ n h. Keeps-pure tt;
  force_stop = λ n. tt;
  settled = λ n. Keeps-pure tt;
  aborts = λ signal. record { run = λ m p. p };
}

run-IsNewer_example : IsNewer fresh (run manager (Call.start_all small []) fresh).1
run-IsNewer_example =
    run-IsNewer manager fresh (Call.start_all small []) (prompt-Awaits (IsNewer fresh)) tt

no_fields : SessionHandle → Fields
no_fields h = end

-- The replacement of the leader's session, whose signal is aborted before the adapter answers
land-Landed_example :
    let signalled : Manager = record fresh { aborted = 3 ∷ [] } in
    let outcome = land manager leader none no_fields (some 3) "p" (made "leader") signalled in
    Landed manager leader
      (made "leader")
      (Asked manager leader (made "leader") none (no_fields (made "leader")) (some 3) "p" signalled)
      outcome.0
      outcome.1
land-Landed_example =
    land-Landed manager leader (made "leader") none no_fields (some 3) "p"
      (record fresh { aborted = 3 ∷ [] })

abbrev pass : Exec Manager (Unit {0})
pass = modify (λ m. record m { now = m.now + 1 })

abbrev lifecycle : Lifecycle
lifecycle = record {
  company = small;
  sessions = manager;
  scenarios = [];
  pause_timeout_ms = 1000;
  stop_dispatching = pure tt;
  resume_dispatching = pure tt;
  recover_work = pure tt;
  quiesce = λ signal. pure true;
  turn = pass;
}

pass-Keeps : (status : String) → Keeps (HasStatus lifecycle status) pass
pass-Keeps status = record { run = λ m h. h }

abbrev saved : CompanyCheckpoint
saved = record {
  company_id = "c";
  reason = PauseReason.user_requested;
  last_event_sequence = 2;
  sessions =
      record {
        employee_id = "leader";
        handle = made "leader";
        active_task_id = none;
        handoff = handoff_text small leader none;
      }
      ∷ [];
}

pauses : (suspend lifecycle 9 PauseReason.user_requested paused working).0 ≡ ok saved
unfolding suspend try_finally try_catch new_event commit_company_status_with_events is_empty
    transact lookup includes interrupt_all put put_session filter cleanup_ownership_snapshot insert
    build_checkpoint build_sessions build_session required find list_sessions
    get_latest_event_sequence active_task list_tasks handoff_text join commit_pause_facts
    commit_suspension_facts cleanup_within_deadline stop_all_bounded collect_stop_candidates remove
    register_handle any cancel_pending_replacements delete_handle delete_cleanup delete_unavailable
    delete_current
pauses = refl

suspend-IsAtRest_example :
    HasStatus lifecycle "paused" (suspend lifecycle 9 PauseReason.user_requested paused working).1
    × (owners (suspend lifecycle 9 PauseReason.user_requested paused working).1 ≡ [])
unfolding terminal_text
suspend-IsAtRest_example =
    suspend-IsAtRest lifecycle paused (prompt-Awaits (HasStatus lifecycle "paused"))
      (pass-Keeps "paused") 9 PauseReason.user_requested working saved pauses
