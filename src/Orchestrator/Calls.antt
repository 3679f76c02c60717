-- ===== src/Orchestrator/Calls.antt =====
-- packages/core/src/company/orchestrator.ts: the private methods that the handlers share: events,
-- approval requests, calls of TaskService, the capacity and the flights.
use agent_town.Prelude.{
  ℕ, ◌+◌, String, Bool, Option, none, some, List, [], ◌∷◌, ◌++◌, true, false, filter, length, ltb,
  ◌==◌, string_eq, nat_eq,
}
use agent_town.Prelude.Table.{insert}
use agent_town.Contract.Value.{num, str, arr, Fields, field, end, strings}
use agent_town.Contract.Task.{TaskRecord, running, state_eq, ActionProposal}
use agent_town.Contract.Company.{EmployeeDefinition}
use agent_town.Result.{
  Result, ok, err, guard, required, unknown_employee, no_owner, epoch_expired,
  proposal_task_mismatch,
}
use agent_town.Exec.{Exec, ◌>>=◌, ◌>>◌, pure, asks, modify, lift}
use agent_town.Storage.Schema.{NewEvent}
use agent_town.Storage.Transaction.{Store, insert_event}
use agent_town.Storage.Tasks.{list_tasks}
use agent_town.Tasks.Rules.{find_employee}
use agent_town.Tasks.Decide.{find_task}
use agent_town.Tasks.Service.{Method, call}
use agent_town.Orchestrator.{
  CompanyOrchestrator, Dispatcher, Flight, Opening, on_store, random_uuid,
}
use agent_town.Orchestrator.Payload.{approval_payload, ◌⧺◌}

abbrev pub core_event : String → String → String → Option String → Fields → NewEvent
core_event id type actor_id task_id payload = record {
  id = id;
  type = type;
  actor_id = actor_id;
  task_id = task_id;
  causation_event_id = none;
  payload = payload;
}

-- #assertEpoch
unfoldable pub assert_epoch : ℕ → Exec Dispatcher (Unit {0})
assert_epoch epoch = asks (λ d. guard (epoch == d.dispatch_epoch) epoch_expired)

module _ (o : CompanyOrchestrator) where
  -- #recordEvent
  unfoldable pub record_event :
      String → String → Option String → Fields → Exec Dispatcher (Unit {0})
  record_event type actor_id task_id payload = do
    id ← random_uuid o
    on_store (insert_event (core_event id type actor_id task_id payload))
    pure tt

  -- #recordApprovalRequest
  unfoldable pub record_approval_request :
      Option String → String → String → Fields → Exec Dispatcher (Unit {0})
  record_approval_request task_id actor_id reason payload =
      record_event "user.approval.requested" actor_id task_id
        (approval_payload task_id reason payload)

  abbrev capacity_options : List String
  capacity_options = "wait_for_capacity" ∷ "raise_parallel_limit" ∷ []

  abbrev capacity_payload : String → String → Fields
  capacity_payload task_id actor_id = field "assignee" (str actor_id) (
      field "maxParallelTasks" (num o.tasks.company.limits.max_parallel_tasks) (
        field "operation" (str ("start task " ⧺ task_id)) (
          field "impact" (str "Starting this task would exceed the configured parallel task limit.")
            (field "alternatives" (arr (strings capacity_options)) (
              field "consequenceOfNonApproval"
                (str "The task remains ready until capacity becomes available.")
                (field "question"
                  (str (
                    "How should AgentTown handle " ⧺ task_id
                    ⧺ " while all task slots are occupied?"))
                  (field "options" (arr (strings capacity_options)) end)))))))

  -- #recordCapacityApproval
  unfoldable pub record_capacity_approval : String → String → Exec Dispatcher (Unit {0})
  record_capacity_approval task_id actor_id =
      record_approval_request (some task_id) o.tasks.leader_id "max_parallel_tasks"
        (capacity_payload task_id actor_id)

  -- A method of TaskService; an event id is drawn for it.
  unfoldable pub task_call : (String → Method) → Exec Dispatcher TaskRecord
  task_call method = do id ← random_uuid o; on_store (call o.tasks (method id))

  -- this.tasks.get(taskId)
  unfoldable pub task_get : String → Exec Dispatcher TaskRecord
  task_get id = asks (λ d. find_task o.tasks id d.store)

  abbrev pub running_tasks : Store → List TaskRecord
  running_tasks s = filter (λ t. t.status == running) (list_tasks s o.tasks.company_id)

  -- #hasRunningCapacity
  unfoldable pub has_running_capacity : Store → Bool
  has_running_capacity s = ltb (length (running_tasks s)) o.tasks.company.limits.max_parallel_tasks

  -- #employee
  unfoldable pub employee : String → Result EmployeeDefinition
  employee id = required (find_employee o.tasks.company id) (unknown_employee id)

  -- #taskOwner
  unfoldable pub task_owner : TaskRecord → Result EmployeeDefinition
  task_owner t = elim t.owner_employee_id [ none ↦ err (no_owner t.id) | some id ↦ employee id ]

  -- The beginning of a round of the loop of sendTask, up to the call of sessions.send: the task, its
  -- owner, and the id of the message.
  unfoldable pub open_round : String → Exec Dispatcher Opening
  unfolding task_get
  open_round task_id = do
    task ← task_get task_id
    employee ← lift (task_owner task)
    message_id ← random_uuid o
    pure (record { task = task; employee = employee; message_id = message_id })

  -- sendTask(taskId, epoch, signal) up to its first wait.
  unfoldable pub open_task : String → ℕ → Exec Dispatcher Opening
  unfolding open_round assert_epoch
  open_task task_id epoch = assert_epoch epoch >> open_round task_id

  -- #startInFlight. The call of `sendTask` runs up to its first wait; the rest of its promise stands
  -- in `pending` until it is run.
  unfoldable pub start_in_flight : String → Dispatcher → Dispatcher
  unfolding open_task
  start_in_flight task_id d =
      let (opening, d') = open_task task_id d.dispatch_epoch d in
      let flight : Flight = record {
        number = d'.flights;
        task_id = task_id;
        epoch = d.dispatch_epoch;
        signal = d.dispatch_controller;
        opening = some opening;
      } in
      record d' {
        in_flight = insert task_id d'.flights d'.in_flight;
        pending = d'.pending ++ flight ∷ [];
        flights = d'.flights + 1;
      }

  -- if (!this.#hasRunningCapacity()) { this.#recordCapacityApproval(taskId, actorId); return …; } …
  unfoldable pub with_capacity :
      {A : Type 0} → String → String → A → Exec Dispatcher A → Exec Dispatcher A
  with_capacity task_id actor_id default go_on = do
    has_capacity ← asks (λ d. ok (has_running_capacity d.store))
    elim has_capacity [
      | true ↦ go_on
      | false ↦ record_capacity_approval task_id actor_id >> pure default
    ]

  -- #startReadyTask
  unfoldable pub start_ready_task : String → String → Exec Dispatcher Bool
  start_ready_task task_id actor_id = with_capacity task_id actor_id false (
      task_call (λ id. Method.transition id task_id running actor_id)
      >> modify (start_in_flight task_id)
      >> pure true)

-- if (epoch !== this.#dispatchEpoch) return; …
unfoldable pub if_current : {A : Type 0} → ℕ → A → Exec Dispatcher A → Exec Dispatcher A
if_current epoch default m = do
  current ← asks (λ d. ok (epoch == d.dispatch_epoch))
  elim current [ true ↦ m | false ↦ pure default ]

-- #assertProposalTask
unfoldable pub assert_proposal_task : ActionProposal → String → Result (Unit {0})
assert_proposal_task action expected = elim action.task_id [
  | none ↦ err (proposal_task_mismatch expected none)
  | some id ↦ guard (id == expected) (proposal_task_mismatch expected (some id))
]
