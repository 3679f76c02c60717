-- ===== src/Orchestrator/Handlers.antt =====
-- The handlers of dispatch keep every predicate that the orchestrator's ways of writing keep.
use agent_town.Prelude.{
  ℕ, zero, suc, String, Bool, true, false, Option, none, some, List, [], ◌∷◌, refl, ◌==◌, string_eq,
}
use agent_town.Contract.Task.{review, blocked, state_eq, ActionProposal, ActionType}
use agent_town.Contract.Agent.{
  AgentEvent, action_proposed, session_exited, adapter_error, session_started, output_delta,
  output_completed, usage_updated, session_interrupted,
}
use agent_town.Result.{ok}
use agent_town.Exec.{Exec}
use agent_town.Storage.Transaction.{Store}
use agent_town.Tasks.Service.{Method}
use agent_town.Orchestrator.{CompanyOrchestrator, Dispatcher, Sessions}
use agent_town.Orchestrator.Review.{
  review_message, Loop, decide_review, on_review_event, review_loop, after_review, request_review,
}
use agent_town.Orchestrator.Actions.{
  request_review_now, create_proposed_task, assign_and_send, reject_and_maybe_requeue, start_task,
  message_loop, record_submission, route_employee_message, routed_message,
}
use agent_town.Orchestrator.Dispatch.{handle, dispatch as dispatch_on}
use agent_town.Orchestrator.Kept.{
  IsKept, Respects, AllKeep, Keeps, Keeps-lift, Keeps-pure, Keeps-raise, Keeps-proposed, Keeps-asks,
  Keeps-try, Keeps-bind, Keeps-seq, Keeps-if, Keeps-test, Keeps-option,
}
use agent_town.Orchestrator.Shared.{
  random_uuid-Keeps, record_event-Keeps, record_approval_request-Keeps, task_call-Keeps,
  start_ready_task-Keeps, assert_epoch-Keeps, if_current-Keeps, task_get-Keeps,
}

abbrev Dispatch : Type 0
Dispatch = ActionProposal → Exec Dispatcher (Unit {0})

module _ (o : CompanyOrchestrator) {P : Store → Type 0} (k : IsKept o P) where
  module _ (dispatch : Dispatch)
      (keeps_dispatch : (a : ActionProposal) → Keeps P (dispatch a)) where
    decide_review-Keeps :
        (task_id : String) (action : ActionProposal)
        → Keeps P (decide_review dispatch task_id action)
    unfolding decide_review
    decide_review-Keeps task_id action =
        Keeps-seq (Keeps-lift _) (Keeps-seq (Keeps-lift _) (keeps_dispatch action))

    on_review_event-Keeps :
        (reviewer_id task_id : String) (epoch : ℕ) (rest : Bool → Loop)
        → ((b : Bool) → Keeps P (rest b))
        → (decided : Bool) (event : AgentEvent)
        → Keeps P (on_review_event o dispatch reviewer_id task_id epoch rest decided event)
    unfolding on_review_event
    on_review_event-Keeps reviewer_id task_id epoch rest l decided (action_proposed action) =
        Keeps-try (decide_review-Keeps task_id action) (λ _. l true)
          (λ e.
            if_current-Keeps epoch none
              (Keeps-seq (record_approval_request-Keeps o k _ _ _ _) (Keeps-pure none)))
    on_review_event-Keeps reviewer_id task_id epoch rest l decided (adapter_error code message) =
        Keeps-seq (record_approval_request-Keeps o k _ _ _ _) (Keeps-pure none)
    on_review_event-Keeps reviewer_id task_id epoch rest l decided (session_exited code) =
        Keeps-seq (record_approval_request-Keeps o k _ _ _ _) (Keeps-pure none)
    on_review_event-Keeps reviewer_id task_id epoch rest l decided (session_started h) = l decided
    on_review_event-Keeps reviewer_id task_id epoch rest l decided (output_delta t) = l decided
    on_review_event-Keeps reviewer_id task_id epoch rest l decided (output_completed t) = l decided
    on_review_event-Keeps reviewer_id task_id epoch rest l decided (usage_updated a b c) = l decided
    on_review_event-Keeps reviewer_id task_id epoch rest l decided (session_interrupted t) =
        l decided

    review_loop-Keeps :
        (reviewer_id task_id : String) (epoch : ℕ) (stream : List (Exec Dispatcher AgentEvent))
        → AllKeep P stream
        → (decided : Bool)
        → Keeps P (review_loop o dispatch reviewer_id task_id epoch stream decided)
    unfolding review_loop
    review_loop-Keeps reviewer_id task_id epoch [] w decided = Keeps-pure (some decided)
    review_loop-Keeps reviewer_id task_id epoch (next ∷ stream) w decided =
        Keeps-bind (w.0) (λ event. Keeps-seq (assert_epoch-Keeps epoch) (
          on_review_event-Keeps reviewer_id task_id epoch _
            (review_loop-Keeps reviewer_id task_id epoch stream w.1) decided event))

    after_review-Keeps :
        (reviewer_id task_id : String) (epoch : ℕ) (decided : Option Bool)
        → Keeps P (after_review o reviewer_id task_id epoch decided)
    unfolding after_review
    after_review-Keeps reviewer_id task_id epoch none = Keeps-pure tt
    after_review-Keeps reviewer_id task_id epoch (some true) = Keeps-pure tt
    after_review-Keeps reviewer_id task_id epoch (some false) = if_current-Keeps epoch tt (
        Keeps-bind (task_get-Keeps o task_id) (λ t.
          Keeps-test (t.status == review) (record_approval_request-Keeps o k _ _ _ _)
            (Keeps-pure tt)))

    message_loop-Keeps :
        (stream : List (Exec Dispatcher AgentEvent))
        → AllKeep P stream
        → Keeps P (message_loop dispatch stream)
    unfolding message_loop
    message_loop-Keeps [] w = Keeps-pure tt
    message_loop-Keeps (next ∷ stream) w = Keeps-bind (w.0) (λ event.
        Keeps-proposed event
          (λ action. Keeps-seq (keeps_dispatch action) (message_loop-Keeps stream w.1))
          (message_loop-Keeps stream w.1))

  module _ (dispatch : Dispatch) (keeps_dispatch : (a : ActionProposal) → Keeps P (dispatch a))
      (x : Sessions) (w : Respects P x) where
    pub request_review-Keeps :
        (task_id : String) (epoch signal : ℕ)
        → Keeps P (request_review o x dispatch task_id epoch signal)
    unfolding request_review
    request_review-Keeps task_id epoch signal = Keeps-seq (assert_epoch-Keeps epoch) (
        Keeps-bind (Keeps-lift _) (λ reviewer. Keeps-bind (random_uuid-Keeps o k) (λ id.
          Keeps-bind
            (review_loop-Keeps dispatch keeps_dispatch reviewer.id task_id epoch _
              (w.send reviewer (review_message id reviewer.id task_id) signal) false)
            (λ decided.
              after_review-Keeps dispatch keeps_dispatch reviewer.id task_id epoch decided))))

    request_review_now-Keeps :
        (task_id : String) → Keeps P (request_review_now o x dispatch task_id)
    request_review_now-Keeps task_id = record {
      run = λ d h. (request_review-Keeps task_id d.dispatch_epoch d.dispatch_controller).run d h;
    }

    record_submission-Keeps :
        (action : ActionProposal) → Keeps P (record_submission o x dispatch action)
    unfolding record_submission
    record_submission-Keeps action = Keeps-bind (Keeps-lift _) (λ task_id.
        Keeps-bind (Keeps-lift _) (λ artifacts. Keeps-bind (Keeps-lift _) (λ evidence.
          Keeps-bind (random_uuid-Keeps o k) (λ id'.
            Keeps-seq
              (task_call-Keeps o k
                (λ id. Method.submit id id' task_id action.actor_employee_id artifacts evidence)
                (λ id. tt) (λ id. tt))
              (request_review_now-Keeps task_id)))))

    route_employee_message-Keeps :
        (action : ActionProposal) → Keeps P (route_employee_message o x dispatch action)
    unfolding route_employee_message
    route_employee_message-Keeps action = Keeps-bind (Keeps-lift _) (λ recipient_id.
        Keeps-bind (Keeps-lift _) (λ recipient. Keeps-bind (Keeps-lift _) (λ text.
          Keeps-seq (record_event-Keeps o k _ _ _ _) (
            Keeps-bind (random_uuid-Keeps o k) (λ id.
              Keeps-bind (Keeps-asks (λ d. ok d.dispatch_controller)) (λ signal.
                message_loop-Keeps dispatch keeps_dispatch _
                  (w.send recipient (routed_message id recipient.id text action) signal)))))))

  create_proposed_task-Keeps : (action : ActionProposal) → Keeps P (create_proposed_task o action)
  unfolding create_proposed_task
  create_proposed_task-Keeps action = Keeps-bind (Keeps-lift _) (λ task_id.
      Keeps-bind (Keeps-lift _) (λ title. Keeps-bind (Keeps-lift _) (λ objective.
        Keeps-bind (Keeps-lift _) (λ dependencies.
          Keeps-bind (Keeps-lift _) (λ criteria. task_call-Keeps o k _ (λ id. refl) (λ id. tt))))))

  assign_and_send-Keeps : (action : ActionProposal) → Keeps P (assign_and_send o action)
  unfolding assign_and_send
  assign_and_send-Keeps action = Keeps-bind (Keeps-lift _) (λ task_id.
      Keeps-bind (Keeps-lift _) (λ assignee.
        Keeps-bind (task_call-Keeps o k _ (λ id. tt) (λ id. tt)) (λ assigned.
          Keeps-seq (Keeps-lift _)
            (Keeps-seq (start_ready_task-Keeps o k task_id assignee) (Keeps-pure tt)))))

  reject_and_maybe_requeue-Keeps :
      (task_id reviewer_id : String) (findings : List String)
      → Keeps P (reject_and_maybe_requeue o task_id reviewer_id findings)
  unfolding reject_and_maybe_requeue
  reject_and_maybe_requeue-Keeps task_id reviewer_id findings =
      Keeps-bind (task_call-Keeps o k _ (λ id. tt) (λ id. tt)) (λ rejected.
        Keeps-if (rejected.status == blocked) (record_approval_request-Keeps o k _ _ _ _) (
          Keeps-option rejected.owner_employee_id (Keeps-raise _)
            (λ owner_id. Keeps-seq (start_ready_task-Keeps o k task_id owner_id) (Keeps-pure tt))))

  start_task-Keeps : (action : ActionProposal) → Keeps P (start_task o action)
  unfolding start_task
  start_task-Keeps action = Keeps-bind (Keeps-lift _) (λ task_id.
      Keeps-bind (task_get-Keeps o task_id) (λ t.
        Keeps-option t.owner_employee_id (Keeps-raise _) (λ owner_id.
          Keeps-seq
            (Keeps-seq (Keeps-lift _) (start_ready_task-Keeps o k t.id action.actor_employee_id))
            (Keeps-pure tt))))

  module _ (x : Sessions) (w : Respects P x) where
    handle-Keeps :
        (dispatch : Dispatch)
        → ((a : ActionProposal) → Keeps P (dispatch a))
        → (type : ActionType) (action : ActionProposal) → Keeps P (handle o x dispatch type action)
    unfolding handle
    handle-Keeps f l ActionType.propose action =
        Keeps-seq (create_proposed_task-Keeps action) (Keeps-pure tt)
    handle-Keeps f l ActionType.assign action = assign_and_send-Keeps action
    handle-Keeps f l ActionType.submit action = record_submission-Keeps f l x w action
    handle-Keeps f l ActionType.approve action =
        Keeps-bind (Keeps-lift _)
          (λ task_id. Keeps-seq (task_call-Keeps o k _ (λ id. tt) (λ id. refl)) (Keeps-pure tt))
    handle-Keeps f l ActionType.reject action = Keeps-bind (Keeps-lift _) (λ task_id.
        Keeps-bind (Keeps-lift _)
          (λ findings. reject_and_maybe_requeue-Keeps task_id action.actor_employee_id findings))
    handle-Keeps f l ActionType.start action = start_task-Keeps action
    handle-Keeps f l ActionType.request_review action =
        Keeps-bind (Keeps-lift _) (request_review_now-Keeps f l x w)
    handle-Keeps f l ActionType.block action =
        Keeps-bind (Keeps-lift _)
          (λ task_id. Keeps-seq (task_call-Keeps o k _ (λ id. tt) (λ id. refl)) (Keeps-pure tt))
    handle-Keeps f l ActionType.employee_message action =
        route_employee_message-Keeps f l x w action
    handle-Keeps f l ActionType.user_approval_request action =
        record_approval_request-Keeps o k _ _ _ _
    handle-Keeps f l ActionType.company_complete_request action = record_event-Keeps o k _ _ _ _

    pub dispatch-Keeps :
        (fuel : ℕ) (action : ActionProposal) → Keeps P (dispatch_on o x fuel action)
    unfolding dispatch_on
    dispatch-Keeps zero action = Keeps-raise _
    dispatch-Keeps (suc fuel) action = Keeps-seq (Keeps-lift _) (
        Keeps-bind (Keeps-asks (λ d. ok d.accepting_actions)) (λ accepting.
          Keeps-seq (Keeps-lift _)
            (handle-Keeps (dispatch_on o x fuel) (dispatch-Keeps fuel) action.type action)))
