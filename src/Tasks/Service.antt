-- ===== src/Tasks/Service.antt =====
-- packages/core/src/tasks/task-service.ts: TaskService. Each method decides and then writes once.
-- `uuid` is what `randomUUID()` returns to the call.
use agent_town.Prelude.{String, List}
use agent_town.Contract.Task.{TaskRecord, TaskState}
use agent_town.Result.{Result}
use agent_town.Exec.{Exec, ◌>>=◌, ◌>>◌, pure, asks}
use agent_town.Storage.Transaction.{Store}
use agent_town.Storage.Tasks.{put_task}
use agent_town.Tasks.Rules.{TaskService}
use agent_town.Tasks.Decide.{
  NewTask, Decision, decide_create, decide_assign, decide_transition, decide_submit, decide_retry,
  decide_reject, decide_unblock,
}

-- this.store.putTask(this.companyId, updated, events); return updated;
unfoldable pub update : TaskService → (Store → Result Decision) → Exec Store TaskRecord
update svc decide = do
  decision ← asks decide
  put_task svc.company_id decision.task decision.events
  pure decision.task

pub data Method : Type 0 where
  create : String → NewTask → Method
  assign : String → String → String → Method
  transition : String → String → TaskState → String → Method
  submit : String → String → String → String → List String → List String → Method
  retry : String → String → String → Method
  reject : String → String → String → List String → Method
  unblock : String → String → String → Method

-- The methods, as calls with their arguments.
unfoldable pub decide : TaskService → Method → Store → Result Decision
decide svc (create uuid input) = decide_create svc uuid input
decide svc (assign uuid id employee_id) = decide_assign svc uuid id employee_id
decide svc (transition uuid id next actor_id) = decide_transition svc uuid id next actor_id
decide svc (submit uuid uuid' id actor_id artifacts evidence) =
    decide_submit svc uuid uuid' id actor_id artifacts evidence
decide svc (retry uuid id actor_id) = decide_retry svc uuid id actor_id
decide svc (reject uuid id reviewer_id findings) = decide_reject svc uuid id reviewer_id findings
decide svc (unblock uuid id actor_id) = decide_unblock svc uuid id actor_id

unfoldable pub call : TaskService → Method → Exec Store TaskRecord
unfolding update
call svc m = update svc (decide svc m)
