-- ===== src/Orchestrator/Machine.antt =====
-- packages/core/src/company/orchestrator.ts: the public methods as steps, with the promises that they
-- leave behind as further steps. A step runs to its end before the next one; what happens during
-- its waits is part of the streams and of the other operations of `Sessions` (see Waits).
use agent_town.Prelude.{
  ℕ, ◌+◌, String, Bool, true, false, not, ◌&&◌, ◌||◌, Option, none, some, List, [], ◌∷◌, ◌++◌,
  filter, find, take, is_empty, includes, ◌==◌, string_eq, nat_eq, if◌then◌else◌,
}
use agent_town.Prelude.Table.{Table, lookup, insert, remove}
use agent_town.Contract.Value.{str, field, end}
use agent_town.Contract.Task.{TaskRecord, running, review, state_eq, ActionProposal}
use agent_town.Result.{Error, ok}
use agent_town.Exec.{Exec, ◌>>=◌, ◌>>◌, pure, asks, try_catch, raise, modify}
use agent_town.Storage.Companies.{set_company_status}
use agent_town.Storage.Tasks.{list_tasks}
use agent_town.Storage.Schema.{NewEvent}
use agent_town.Orchestrator.{
  CompanyOrchestrator, Dispatcher, Sessions, Flight, is_review, random_uuid, on_store,
}
use agent_town.Orchestrator.Calls.{record_event, start_in_flight, assert_epoch, if_current}
use agent_town.Orchestrator.Review.{request_review}
use agent_town.Orchestrator.Dispatch.{dispatch}
use agent_town.Orchestrator.Work.{send_task}

-- this.#dispatchController = new AbortController()
abbrev pub new_controller : Dispatcher → Dispatcher
new_controller d = record d { dispatch_controller = d.controllers; controllers = d.controllers + 1 }

-- stopDispatching()
unfoldable pub stop_dispatching : Dispatcher → Dispatcher
stop_dispatching d = record d {
  accepting_actions = false;
  dispatch_epoch = d.dispatch_epoch + 1;
  aborted = d.dispatch_controller ∷ d.aborted;
}

-- resumeDispatching()
unfoldable pub resume_dispatching : Dispatcher → Dispatcher
resume_dispatching d = record (new_controller d) { accepting_actions = true }

-- #inFlight.set(task.id, tracked), with the review that `tracked` waits to make
unfoldable pub start_review : String → Dispatcher → Dispatcher
start_review task_id d =
    let flight : Flight = record {
      number = d.flights;
      task_id = task_id;
      epoch = d.dispatch_epoch;
      signal = d.dispatch_controller;
      opening = none;
    } in
    record d {
      in_flight = insert task_id d.flights d.in_flight;
      pending = d.pending ++ flight ∷ [];
      flights = d.flights + 1;
    }

abbrev pub is_in_flight : String → Dispatcher → Bool
is_in_flight task_id d = elim (lookup task_id d.in_flight) [ none ↦ false | some _ ↦ true ]

-- The second loop of recoverWork.
unfoldable pub recover_reviews : List TaskRecord → Dispatcher → Dispatcher
recover_reviews [] d = d
recover_reviews (t ∷ ts) d =
    recover_reviews ts (if is_in_flight t.id d then d else start_review t.id d)

-- The promise is settled: #inFlight forgets the task if this is still its promise.
unfoldable pub settle_flight : Flight → Dispatcher → Dispatcher
settle_flight flight d = elim (lookup flight.task_id d.in_flight) [
  | none ↦ d
  | some number ↦
      if number == flight.number
      then record d { in_flight = remove flight.task_id d.in_flight }
      else d
]

-- quiesce(signal): `settles_first` says which promise wins the race.
unfoldable pub quiesce : Bool → Bool → Dispatcher → Bool
quiesce is_aborted settles_first d = is_empty d.in_flight || not is_aborted && settles_first

module _ (o : CompanyOrchestrator) where
  -- The first loop of recoverWork.
  unfoldable pub recover_running : List TaskRecord → Dispatcher → Dispatcher
  unfolding start_in_flight
  recover_running [] d = d
  recover_running (t ∷ ts) d =
      recover_running ts (if is_in_flight t.id d then d else start_in_flight o t.id d)

  -- recoverWork()
  unfoldable pub recover_work : Dispatcher → Dispatcher
  recover_work d =
      let tasks = list_tasks d.store o.tasks.company_id in
      let first =
        take o.tasks.company.limits.max_parallel_tasks (filter (λ t. t.status == running) tasks) in
      recover_reviews (filter (λ t. t.status == review) tasks) (recover_running first d)

  -- The `catch` of a promise that is in flight.
  unfoldable pub flight_error : Flight → Error → Exec Dispatcher (Unit {0})
  flight_error flight e = if_current flight.epoch tt (
      record_event o "task.execution_error" "core" (some flight.task_id)
        (field "message" (str (o.error_message e)) end))

module _ (o : CompanyOrchestrator) (x : Sessions) (fuel : ℕ) where
  unfoldable pub flight_work : Flight → Exec Dispatcher (Unit {0})
  flight_work flight = elim flight.opening [
    | none ↦
        assert_epoch flight.epoch
        >> request_review o x (dispatch o x fuel) flight.task_id flight.epoch flight.signal
    | some opening ↦
        send_task o x fuel (dispatch o x fuel) flight.task_id flight.epoch flight.signal opening
  ]

  -- A promise runs, is caught, and is settled.
  unfoldable pub run_flight : Flight → Exec Dispatcher (Unit {0})
  run_flight flight =
      try_catch (flight_work flight) pure (flight_error o flight) >> modify (settle_flight flight)

abbrev pub start_event : String → NewEvent
start_event id = record {
  id = id;
  type = "company.started";
  actor_id = "owner";
  task_id = none;
  causation_event_id = none;
  payload = end;
}

-- What start does once the sessions run and the status is written.
abbrev pub begin_dispatching : Dispatcher → Dispatcher
begin_dispatching d =
    let is_aborted = includes d.aborted d.dispatch_controller in
    record (if is_aborted then new_controller d else d) { accepting_actions = true }

module _ (o : CompanyOrchestrator) (x : Sessions) where
  -- start(scenarios), with the time of the call
  unfoldable pub start : Table String String → String → Exec Dispatcher (Unit {0})
  start scenarios at = do
    id ← random_uuid o
    try_catch
        (x.start_all o.tasks.company scenarios
          >> on_store (set_company_status o.tasks.company_id "running" (start_event id) at)
          >> modify begin_dispatching)
        pure (λ e. try_catch x.stop_all pure (λ _. pure tt) >> raise e)

-- What may happen next: a public method is called, or the pending promise with a number runs.
pub data Step : Type 0 where
  started : Table String String → String → Step
  proposed : ActionProposal → Step
  stopped resumed recovered : Step
  flown : ℕ → Step

-- A review that is recovered waits for those before it.
abbrev pub may_fly : List Flight → Flight → Bool
may_fly pending flight =
    not (is_review flight)
    || elim (find (is_review) pending) [ none ↦ true | some f ↦ f.number == flight.number ]

abbrev pub next_flight : ℕ → List Flight → Option Flight
next_flight n pending = find (λ f. f.number == n && may_fly pending f) pending

abbrev pub take_flight : ℕ → Dispatcher → Dispatcher
take_flight n d = record d { pending = filter (λ f. not (f.number == n)) d.pending }

module _ (o : CompanyOrchestrator) (x : Sessions) (fuel : ℕ) where
  unfoldable pub step : Step → Exec Dispatcher (Unit {0})
  step (started scenarios at) = start o x scenarios at
  step (proposed action) = dispatch o x fuel action
  step stopped = modify stop_dispatching
  step resumed = modify resume_dispatching
  step recovered = modify (recover_work o)
  step (flown n) = asks (λ d. ok (next_flight n d.pending)) >>= λ found. elim found [
    | none ↦ pure tt
    | some flight ↦ modify (take_flight n) >> run_flight o x fuel flight
  ]

  -- The state after a sequence of steps; an error goes to the caller of its step.
  unfoldable pub steps : List Step → Dispatcher → Dispatcher
  steps [] d = d
  steps (e ∷ es) d = steps es (step e d).1
