-- ===== src/Checkpoint/Lifecycle/Approvals.antt =====
-- packages/core/src/lifecycle/checkpoint-service.ts: the payloads of the events of a failure, with the
-- questions to the user.
use agent_town.Prelude.{String, Bool, Option, List, [], ◌∷◌, map, if◌then◌else◌}
use agent_town.Contract.Value.{str, arr, Fields, field, end, strings, nullable}
use agent_town.Sessions.{StopOutcome, StopStatus, InterruptStatus}

unfoldable pub stop_status_text : StopStatus → String
stop_status_text StopStatus.stopped = "stopped"
stop_status_text StopStatus.failed = "failed"
stop_status_text StopStatus.aborted = "aborted"

unfoldable pub interrupt_status_text : InterruptStatus → String
interrupt_status_text InterruptStatus.interrupted = "interrupted"
interrupt_status_text InterruptStatus.not_interrupted = "not_interrupted"
interrupt_status_text InterruptStatus.failed = "failed"
interrupt_status_text InterruptStatus.aborted = "aborted"

-- { employeeId, status, error }
abbrev pub outcome_fields : String → String → Option String → Fields
outcome_fields employee_id status error =
    field "employeeId" (str employee_id)
      (field "status" (str status) (field "error" (nullable error) end))

-- The fields that the approval events share
abbrev pub question_fields : String → String → List String → String → String → Fields
question_fields operation impact options consequence question = field "operation" (str operation) (
    field "impact" (str impact) (
      field "alternatives" (arr (strings options)) (
        field "consequenceOfNonApproval" (str consequence)
          (field "question" (str question) (field "options" (arr (strings options)) end)))))

abbrev employee_texts : List StopOutcome → List String
employee_texts = map (λ o. o.employee_id)

abbrev remains_blocked : String
remains_blocked = "The company remains blocked."

abbrev cleanup_options : List String
cleanup_options = "retry_cleanup" ∷ "inspect_processes" ∷ "keep_blocked" ∷ []

-- #pauseApprovalEvent, for pause_failed and for cleanup_failed
unfoldable pub pause_approval : Bool → List StopOutcome → Fields
pause_approval cleanup outcomes = field "employees" (arr (strings (employee_texts outcomes))) (
    field "reason" (str (if cleanup then "cleanup_failed" else "pause_failed")) (
      question_fields (if cleanup then "clean up sessions" else "complete company pause")
        (if cleanup
          then "AgentTown cannot prove all processes stopped."
          else "AgentTown could not complete the pause safely.")
        cleanup_options remains_blocked
        "How should AgentTown resolve the lifecycle cleanup failure?"))

-- #stopApprovalEvent, for stop_failed and for stop_cleanup_failed
unfoldable pub stop_approval : Bool → List StopOutcome → Fields
stop_approval cleanup outcomes = field "employees" (arr (strings (employee_texts outcomes))) (
    field "reason" (str (if cleanup then "stop_cleanup_failed" else "stop_failed")) (
      question_fields "complete company stop"
        (if cleanup
          then "AgentTown cannot prove all processes stopped after the stop request."
          else "AgentTown could not complete the stop safely.")
        ("retry_stop" ∷ "inspect_processes" ∷ "keep_blocked" ∷ []) remains_blocked
        "How should AgentTown resolve the company stop failure?"))

-- #invalidCheckpointApproval
unfoldable pub invalid_checkpoint_approval : String → Fields
invalid_checkpoint_approval error = field "reason" (str "invalid_checkpoint") (
    field "error" (str error) (
      question_fields "select a valid recovery checkpoint"
        "Recovery did not start any Agent process."
        ("repair_checkpoint" ∷ "select_checkpoint" ∷ "keep_blocked" ∷ [])
        "The company remains blocked without starting processes."
        "Should AgentTown repair this checkpoint or use another checkpoint?"))

-- #recoveryApproval, for recovery_failed and for cleanup_failed
unfoldable pub recovery_approval : Bool → String → String → Fields
recovery_approval cleanup employee_id error =
    field "reason" (str (if cleanup then "cleanup_failed" else "recovery_failed")) (
      field "employeeId" (str employee_id) (
        field "error" (str error) (
          question_fields
            (if cleanup then "clean up recovery processes" else "retry company recovery")
            (if cleanup
              then "AgentTown cannot prove all recovery processes stopped."
              else "Recovery stopped before all employees were restored.")
            (if cleanup
              then cleanup_options
              else "retry_recovery" ∷ "inspect_agent_config" ∷ "keep_blocked" ∷ [])
            remains_blocked
            (if cleanup
              then "How should AgentTown clean up the recovery processes?"
              else "Should AgentTown retry recovery or inspect Agent configuration?"))))

-- The payload of company.pause_failed and of company.stop_failed
unfoldable pub failure_fields : List StopOutcome → Option String → Fields
failure_fields outcomes cause =
    field "employees" (arr (strings (employee_texts outcomes))) (field "error" (nullable cause) end)
