-- ===== src/Server/Encode.antt =====
-- packages/core/src/ipc/core-server.ts, packages/core/src/storage/core-store.ts: the rows of the
-- store as the results of requests, with the properties in the order of the object literals.
use agent_town.Prelude.{ℕ, String, Option, none, some, List, [], ◌∷◌}
use agent_town.Contract.Value.{
  Value, null, num, str, obj, arr, Items, no_items, item, end, field, nullable, strings,
}
use agent_town.Contract.Task.{TaskRecord, state_text}
use agent_town.Contract.Agent.{UsageSnapshot}
use agent_town.Storage.Schema.{EventRecord}

module _ {A : Type 0} (f : A → Value) where
  unfoldable pub array_of : List A → Items
  array_of [] = no_items
  array_of (x ∷ xs) = item (f x) (array_of xs)

abbrev pub nullable_num : Option ℕ → Value
nullable_num none = null
nullable_num (some n) = num n

-- TaskRecord
unfoldable pub task_value : TaskRecord → Value
task_value t = obj (
    field "id" (str t.id) (
      field "title" (str t.title) (
        field "objective" (str t.objective) (
          field "ownerEmployeeId" (nullable t.owner_employee_id) (
            field "dependencies" (arr (strings t.dependencies)) (
              field "acceptanceCriteria" (arr (strings t.acceptance_criteria)) (
                field "status" (str (state_text t.status)) (
                  field "retryCount" (num t.retry_count) (
                    field "reviewLoopCount" (num t.review_loop_count) (
                      field "artifacts" (arr (strings t.artifacts)) (
                        field "evidence" (arr (strings t.evidence)) (
                          field "createdEventId" (str t.created_event_id)
                            (field "updatedEventId" (str t.updated_event_id) end)))))))))))))

-- EventRecord
unfoldable pub event_value : EventRecord → Value
event_value e = obj (
    field "sequence" (num e.sequence) (
      field "id" (str e.event.id) (
        field "occurredAt" (str e.occurred_at) (
          field "type" (str e.type) (
            field "actorId" (str e.actor_id) (
              field "taskId" (nullable e.task_id) (
                field "causationEventId" (nullable e.causation_event_id)
                  (field "payload" (obj e.event.payload) end))))))))

-- latestUsage, or the usage that is shown when there is none
unfoldable pub usage_value : Option UsageSnapshot → Value
usage_value none = obj (
    field "inputTokens" null (
      field "outputTokens" null
        (field "contextTokens" null (field "capturedAt" (str "1970-01-01T00:00:00.000Z") end))))
usage_value (some u) = obj (
    field "inputTokens" (nullable_num u.input_tokens) (
      field "outputTokens" (nullable_num u.output_tokens) (
        field "contextTokens" (nullable_num u.context_tokens)
          (field "capturedAt" (str u.captured_at) end))))

-- { status: … }
abbrev pub status_value : String → Value
status_value status = obj (field "status" (str status) end)
