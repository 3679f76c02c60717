-- ===== src/Orchestrator/Steps.antt =====
-- Every step of the orchestrator keeps a predicate that its ways of writing keep.
use agent_town.Prelude.{
  ℕ, String, Bool, true, false, ◌≡◌, List, [], ◌∷◌, arith, refl, if◌then◌else◌, includes, nat_eq,
  inl, inr, ◌∙◌,
}
use agent_town.Prelude.Table.{Table}
use agent_town.Contract.Task.{TaskRecord}
use agent_town.Result.{ok, Error, Result-cases}
use agent_town.Storage.Schema.{NewEvent}
use agent_town.Storage.Transaction.{Store}
use agent_town.Storage.Transaction.Commit.{transact-commit, outcome}
use agent_town.Storage.Companies.{set_company_status, update_status}
use agent_town.Orchestrator.{CompanyOrchestrator, Dispatcher, Sessions, Flight, on_store}
use agent_town.Orchestrator.Calls.{start_in_flight}
use agent_town.Orchestrator.Machine.{
  stop_dispatching, resume_dispatching, start_review, recover_running, recover_reviews,
  recover_work, settle_flight, flight_error, flight_work, run_flight, start, Step, started,
  proposed, stopped, resumed, recovered, flown, next_flight, take_flight, step, steps, is_in_flight,
  begin_dispatching, start_event, new_controller,
}
use agent_town.Orchestrator.Kept.{
  IsKept, Respects, Keeps, Keeps-asks, Keeps-bind, Keeps-seq, Keeps-pure, Keeps-raise, Keeps-try,
  Keeps-modify, Keeps-option,
}
use agent_town.Orchestrator.Shared.{
  Keeps-free, start_in_flight-store, random_uuid-Keeps, record_event-Keeps, assert_epoch-Keeps,
  if_current-Keeps,
}
use agent_town.Orchestrator.Handlers.{request_review-Keeps, dispatch-Keeps}
use agent_town.Orchestrator.Dispatch.{dispatch}
use agent_town.Orchestrator.Rounds.{send_task-Keeps}

settle_flight-store : (f : Flight) (d : Dispatcher) → (settle_flight f d).store ≡ d.store
unfolding settle_flight
settle_flight-store f d = ground arith

if-store :
    (b : Bool) (d d' : Dispatcher) → d'.store ≡ d.store → (if b then d else d').store ≡ d.store
if-store true d d' h = refl
if-store false d d' h = h

recover_running-store :
    (o : CompanyOrchestrator) (ts : List TaskRecord) (d : Dispatcher)
    → (recover_running o ts d).store ≡ d.store
unfolding recover_running
recover_running-store o [] d = refl
recover_running-store o (t ∷ ts) d =
    recover_running-store o ts _
    ∙ if-store (is_in_flight t.id d) d (start_in_flight o t.id d) (start_in_flight-store o t.id d)

recover_reviews-store :
    (ts : List TaskRecord) (d : Dispatcher) → (recover_reviews ts d).store ≡ d.store
unfolding recover_reviews start_review
recover_reviews-store [] d = refl
recover_reviews-store (t ∷ ts) d =
    recover_reviews-store ts _ ∙ if-store (is_in_flight t.id d) d (start_review t.id d) refl

recover_work-store : (o : CompanyOrchestrator) (d : Dispatcher) → (recover_work o d).store ≡ d.store
unfolding recover_work
recover_work-store o d = recover_reviews-store _ _ ∙ recover_running-store o _ d

set_company_status-tasks :
    (id status : String) (e : NewEvent) (at : String) (s : Store)
    → (set_company_status id status e at s).1.db.tasks ≡ s.db.tasks
unfolding set_company_status update_status outcome
set_company_status-tasks id status e at s =
    let p = transact-commit (update_status id status at) (e ∷ []) s in
    elim (Result-cases (outcome (update_status id status at) (e ∷ []) s)) [
      | inl (s', h) ↦ ground (arith, p)
      | inr (e', h) ↦ ground (arith, p)
    ]

module _ (o : CompanyOrchestrator) {P : Store → Type 0} (k : IsKept o P) (x : Sessions)
    (w : Respects P x) (fuel : ℕ) where
  flight_work-Keeps : (f : Flight) → Keeps P (flight_work o x fuel f)
  unfolding flight_work
  flight_work-Keeps f =
      Keeps-option f.opening
        (Keeps-seq (assert_epoch-Keeps f.epoch) (
          request_review-Keeps o k (dispatch o x fuel) (dispatch-Keeps o k x w fuel) x w f.task_id
            f.epoch f.signal))
        (send_task-Keeps o k (dispatch o x fuel) (dispatch-Keeps o k x w fuel) x w f.task_id f.epoch
          f.signal fuel)

  flight_error-Keeps : (f : Flight) (e : Error) → Keeps P (flight_error o f e)
  unfolding flight_error
  flight_error-Keeps f e = if_current-Keeps f.epoch tt (record_event-Keeps o k _ _ _ _)

  run_flight-Keeps : (f : Flight) → Keeps P (run_flight o x fuel f)
  unfolding run_flight
  run_flight-Keeps f =
      Keeps-seq (Keeps-try (flight_work-Keeps f) Keeps-pure (flight_error-Keeps f))
        (Keeps-modify (settle_flight f) (settle_flight-store f))

  start_all-Keeps :
      (scenarios : Table String String) → Keeps P (x.start_all o.tasks.company scenarios)
  start_all-Keeps scenarios = w.start_all o.tasks.company scenarios

  set_company_status-Keeps :
      (id status : String) (e : NewEvent) (at : String)
      → Keeps P (on_store (set_company_status id status e at))
  set_company_status-Keeps id status e at =
      Keeps-free o k (λ d. set_company_status-tasks id status e at d.store)

  stop_all-Keeps : Keeps P x.stop_all
  stop_all-Keeps = w.stop_all

  start-Keeps : (scenarios : Table String String) (at : String) → Keeps P (start o x scenarios at)
  unfolding start
  start-Keeps scenarios at = Keeps-bind (random_uuid-Keeps o k) (λ id.
      Keeps-try
        (Keeps-seq
          (Keeps-seq (start_all-Keeps scenarios)
            (set_company_status-Keeps o.tasks.company_id "running" (start_event id) at))
          (Keeps-modify begin_dispatching
            (λ d. if-store (includes d.aborted d.dispatch_controller) (new_controller d) d refl)))
        Keeps-pure
        (λ e. Keeps-seq (Keeps-try stop_all-Keeps Keeps-pure (λ _. Keeps-pure tt)) (Keeps-raise e)))

  pub step-Keeps : (e : Step) → Keeps P (step o x fuel e)
  unfolding step
  step-Keeps (started scenarios at) = start-Keeps scenarios at
  step-Keeps (proposed action) = dispatch-Keeps o k x w fuel action
  step-Keeps stopped = Keeps-modify stop_dispatching (λ d. unfold stop_dispatching in refl)
  step-Keeps resumed = Keeps-modify resume_dispatching (λ d. unfold resume_dispatching in refl)
  step-Keeps recovered = Keeps-modify (recover_work o) (recover_work-store o)
  step-Keeps (flown n) = Keeps-bind (Keeps-asks (λ d. ok (next_flight n d.pending))) (λ found.
      Keeps-option found (Keeps-pure tt)
        (λ f. Keeps-seq (Keeps-modify (take_flight n) (λ d. refl)) (run_flight-Keeps f)))

  pub steps_keep : (es : List Step) (d : Dispatcher) → P d.store → P (steps o x fuel es d).store
  unfolding steps
  steps_keep [] d h = h
  steps_keep (e ∷ es) d h = steps_keep es (step o x fuel e d).1 ((step-Keeps e).run d h)
