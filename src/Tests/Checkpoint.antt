-- ===== src/Tests/Checkpoint.antt =====
-- Checkpoints at concrete inputs.
use agent_town.Orchestrator.Payload.{◌⧺◌}
use agent_town.Prelude.{
  zero, suc, String, ◌≡◌, refl, true, false, none, some, [], ◌∷◌, ℕ, arith, includes, ◌∙◌, find,
}
use agent_town.Contract.Task.{TaskRecord, running}
use agent_town.Contract.Agent.{SessionHandle, CompanyCheckpoint, user_requested}
use agent_town.Result.{ok, is_ok, guard, required}
use agent_town.Storage.Schema.{SessionRow, empty_db}
use agent_town.Storage.Transaction.{get_latest_event_sequence}
use agent_town.Storage.Tasks.{task_row, list_tasks}
use agent_town.Checkpoint.Payload.{checkpoint_value, parse_company_checkpoint}
use agent_town.Checkpoint.Build.{
  CheckpointService, build_checkpoint, validate_checkpoint, active_task, handoff_text, are_distinct,
  all_included, check_sessions, check_session, build_sessions, build_session,
}
use agent_town.Checkpoint.RoundTrip.{
  is_readable, parse-checkpoint_value, parse-unreadable, are_readable, is_readable_session,
  is_readable_handle,
}
use agent_town.Checkpoint.Roster.{IsSessionOf, validate_checkpoint-IsSessionOf}
use agent_town.Tests.Fixture.{blank, company, leader, build}
use agent_town.Checkpoint.Handoff.{build_checkpoint-unreadable, text_units-append}
use agent_town.Checkpoint.Text.{
  is_name, text_units, char_units, is_text, has_char, is_control, is_nullable_name, is_handoff,
  is_strange,
}
use agent_town.Storage.Sessions.{list_sessions}
use agent_town.Server.Requests.{join}

abbrev handle : SessionHandle
handle = record {
  employee_id = "leader";
  adapter = "fake";
  internal_session_id = "i1";
  native_session_id = none;
}

abbrev saved : CompanyCheckpoint
saved = record {
  company_id = "c";
  reason = user_requested;
  last_event_sequence = 7;
  sessions =
      record { employee_id = "leader"; handle = handle; active_task_id = none; handoff = "Resume" }
      ∷ [];
}

abbrev nameless : CompanyCheckpoint
nameless = record saved { company_id = "" }

saved_readable : is_readable saved ≡ true
unfolding is_readable is_name is_text text_units char_units has_char is_control are_readable
    is_readable_session is_readable_handle is_nullable_name is_handoff is_strange
saved_readable = refl

nameless_unreadable : is_readable nameless ≡ false
unfolding is_readable is_name is_text
nameless_unreadable = refl

parse-checkpoint_value_example : parse_company_checkpoint (checkpoint_value saved) ≡ ok saved
parse-checkpoint_value_example = parse-checkpoint_value saved saved_readable

parse-unreadable_example : is_ok (parse_company_checkpoint (checkpoint_value nameless)) ≡ false
parse-unreadable_example = parse-unreadable nameless nameless_unreadable

-- A company of the leader alone.
abbrev service : CheckpointService
service = record {
  company_id = "c";
  company = record company { employees = leader ∷ [] };
  store = blank;
}

valid : validate_checkpoint service saved ≡ ok tt
unfolding validate_checkpoint guard are_distinct includes all_included check_sessions required find
    check_session
valid = refl

validate_checkpoint-IsSessionOf_example : IsSessionOf service saved.sessions leader
validate_checkpoint-IsSessionOf_example =
    validate_checkpoint-IsSessionOf service saved [] [] leader refl valid

-- The leader runs a task with some objective.
abbrev busy_task : String → TaskRecord
busy_task objective = record build {
  id = "t";
  objective = objective;
  owner_employee_id = some "leader";
  status = running;
}

abbrev session_row : SessionRow
session_row = record { handle = handle; status = "idle"; updated_at = "now" }

abbrev busy : String → CheckpointService
busy objective = record service {
  store = record blank {
    db = record empty_db {
      tasks = (("c", "t"), task_row (busy_task objective)) ∷ [];
      agent_sessions = (("c", "leader"), session_row) ∷ [];
    };
  };
}

abbrev built : String → CompanyCheckpoint
built objective = record {
  company_id = "c";
  reason = user_requested;
  last_event_sequence = 0;
  sessions =
      record {
        employee_id = "leader";
        handle = handle;
        active_task_id = some "t";
        handoff = handoff_text company leader (some (busy_task objective));
      }
      ∷ [];
}

runs_it : (objective : String) → active_task (busy objective) leader ≡ some (busy_task objective)
unfolding active_task find list_tasks
runs_it objective = refl

pauses_so :
    (objective : String) → build_checkpoint (busy objective) user_requested ≡ ok (built objective)
unfolding build_checkpoint build_sessions build_session required find list_sessions
    get_latest_event_sequence active_task list_tasks handoff_text join
pauses_so objective = refl

unfoldable repeated : ℕ → String
repeated zero = ""
repeated (suc n) = "x" ⧺ repeated n

repeated_lem : (n : ℕ) → text_units (repeated n) ≡ n
unfolding repeated text_units char_units
repeated_lem zero = refl
repeated_lem (suc n) = text_units-append "x" (repeated n) ∙ omega (arith, repeated_lem n)

build_checkpoint-unreadable_example :
    is_ok (parse_company_checkpoint (checkpoint_value (built (repeated 4097)))) ≡ false
build_checkpoint-unreadable_example =
    build_checkpoint-unreadable (busy (repeated 4097)) leader (busy_task (repeated 4097))
      (runs_it (repeated 4097)) (omega (arith, repeated_lem 4097)) [] [] user_requested
      (built (repeated 4097)) refl (pauses_so (repeated 4097))
