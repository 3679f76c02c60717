-- ===== src/Orchestrator/Review.antt =====
-- packages/core/src/company/orchestrator.ts: requestReview. `dispatch` is the method of that
-- name, which the loop over the reviewer's events calls.
use agent_town.Prelude.{
  ℕ, String, Bool, true, false, Option, none, some, List, [], ◌∷◌, ◌==◌, string_eq, if◌then◌else◌,
}
use agent_town.Contract.Value.{str, field, end}
use agent_town.Contract.Task.{ActionProposal, review, state_eq}
use agent_town.Contract.Agent.{
  AgentMessage, AgentEvent, action_proposed, session_exited, adapter_error,
}
use agent_town.Result.{guard, decision_required}
use agent_town.Exec.{Exec, ◌>>=◌, ◌>>◌, pure, lift, try_catch}
use agent_town.Policy.{is_decision}
use agent_town.Orchestrator.{CompanyOrchestrator, Dispatcher, Sessions, random_uuid}
use agent_town.Orchestrator.Payload.{◌⧺◌}
use agent_town.Orchestrator.Calls.{
  record_approval_request, task_get, employee, assert_epoch, if_current, assert_proposal_task,
}

-- The rest of a loop over a stream: `none` when the method has returned from inside of it.
abbrev pub Loop : Type 0
Loop = Exec Dispatcher (Option Bool)

abbrev pub review_message : String → String → String → AgentMessage
review_message id reviewer_id task_id = record {
  message_id = id;
  employee_id = reviewer_id;
  task_id = some task_id;
  text = "Review task " ⧺ task_id ⧺ " and propose approval or rejection.";
  action_request = none;
}

-- The body of the `try` of requestReview.
unfoldable pub decide_review :
    (ActionProposal → Exec Dispatcher (Unit {0}))
    → String
    → ActionProposal
    → Exec Dispatcher (Unit {0})
decide_review dispatch task_id action = do
  lift (guard (is_decision action.type) decision_required)
  lift (assert_proposal_task action task_id)
  dispatch action

module _ (o : CompanyOrchestrator) where
  -- One event of the reviewer's stream; `rest` is the loop after it.
  unfoldable pub on_review_event :
      (ActionProposal → Exec Dispatcher (Unit {0}))
      → String
      → String
      → ℕ
      → (Bool → Loop)
      → Bool
      → AgentEvent
      → Loop
  on_review_event dispatch reviewer_id task_id epoch rest decided (action_proposed action) =
      try_catch (decide_review dispatch task_id action) (λ _. rest true)
        (λ e. if_current epoch none (
          record_approval_request o (some task_id) o.tasks.leader_id "reviewer_invalid_decision" (
            field "reviewerId" (str reviewer_id) (
              field "decisionActionId" (str action.action_id)
                (field "error" (str (o.error_message e)) end)))
          >> pure none))
  on_review_event dispatch reviewer_id task_id epoch rest decided (adapter_error code message) =
      record_approval_request o (some task_id) o.tasks.leader_id "reviewer_session_failed"
        (field "reviewerId" (str reviewer_id) end)
      >> pure none
  on_review_event dispatch reviewer_id task_id epoch rest decided (session_exited code) =
      record_approval_request o (some task_id) o.tasks.leader_id "reviewer_session_failed"
        (field "reviewerId" (str reviewer_id) end)
      >> pure none
  on_review_event dispatch reviewer_id task_id epoch rest decided _ = rest decided

  unfoldable pub review_loop :
      (ActionProposal → Exec Dispatcher (Unit {0}))
      → String
      → String
      → ℕ
      → List (Exec Dispatcher AgentEvent)
      → Bool
      → Loop
  review_loop dispatch reviewer_id task_id epoch [] decided = pure (some decided)
  review_loop dispatch reviewer_id task_id epoch (next ∷ stream) decided = do
    event ← next
    assert_epoch epoch
    on_review_event dispatch reviewer_id task_id epoch
        (review_loop dispatch reviewer_id task_id epoch stream) decided event

  -- What requestReview does after the stream has ended.
  unfoldable pub after_review : String → String → ℕ → Option Bool → Exec Dispatcher (Unit {0})
  after_review reviewer_id task_id epoch (some false) = if_current epoch tt (do
    t ← task_get o task_id
    if t.status == review
        then record_approval_request o (some task_id) o.tasks.leader_id
            "reviewer_returned_no_decision" (field "reviewerId" (str reviewer_id) end)
        else pure tt)
  after_review reviewer_id task_id epoch _ = pure tt

  -- requestReview(taskId, epoch, signal)
  unfoldable pub request_review :
      Sessions
      → (ActionProposal → Exec Dispatcher (Unit {0}))
      → String
      → ℕ
      → ℕ
      → Exec Dispatcher (Unit {0})
  request_review x dispatch task_id epoch signal = do
    assert_epoch epoch
    reviewer ← lift (employee o o.reviewer_id)
    id ← random_uuid o
    decided ←
        review_loop dispatch reviewer.id task_id epoch
          (x.send reviewer (review_message id reviewer.id task_id) signal) false
    after_review reviewer.id task_id epoch decided
