-- ===== src/Sessions.antt =====
-- packages/core/src/agents/session-manager.ts: SessionManager, the handles that it owns, and the
-- adapters that it talks to.
pub mod Handles
pub mod Replace
pub mod Start
pub mod Stop
pub mod Send
pub mod Steps
pub mod Moves
pub mod Call
pub mod Calls
pub mod Newer
pub mod Triple
pub mod Landed
use agent_town.Prelude.{ℕ, ◌+◌, String, Bool, Option, none, some, List, false, includes, nat_eq}
use agent_town.Prelude.Table.{Table}
use agent_town.Contract.Value.{Fields}
use agent_town.Contract.Agent.{SessionHandle, AgentEvent, AgentMessage}
use agent_town.Result.{Error, ok}
use agent_town.Exec.{Exec, ◌>>=◌, pure}
use agent_town.Storage.Sessions.{put_session}
use agent_town.Storage.Schema.{NewEvent}
use agent_town.Storage.Transaction.{Store}

pub data InterruptStatus : Type 0 where
  interrupted not_interrupted failed aborted : InterruptStatus

pub record InterruptOutcome : Type 0 where
  pub employee_id : String
  pub status : InterruptStatus
  pub error : Option String

pub data StopStatus : Type 0 where
  stopped failed aborted : StopStatus

pub record StopOutcome : Type 0 where
  pub employee_id : String
  pub status : StopStatus
  pub error : Option String

pub data OwnerKind : Type 0 where
  active cleanup pending_replacement : OwnerKind

pub record Owner : Type 0 where
  pub employee_id : String
  pub kind : OwnerKind

-- SessionOwnershipSnapshot
pub record OwnershipSnapshot : Type 0 where
  pub version : ℕ
  pub owners : List Owner

-- #handleKey: the three texts in place of their JSON, which is one text for each three.
abbrev pub Key : Type 0
Key = (String × String) × String

abbrev pub handle_key : SessionHandle → Key
handle_key h = ((h.adapter, h.employee_id), h.internal_session_id)

pub record CleanupHandle : Type 0 where
  pub handle : SessionHandle
  pub order : ℕ

pub record PendingReplacement : Type 0 where
  pub employee_id : String
  pub cancelled : Bool

-- The private fields, and what the methods read beside them: the store, the clock, the numbers of
-- the abort signals that were aborted, and how many UUIDs, tails and signals were made. `live` are
-- the sessions whose process runs; only the adapters change it.
pub record Manager : Type 0 where
  pub store : Store
  pub sessions : Table String SessionHandle
  pub unavailable : List String
  pub send_tails : Table String ℕ
  pub cleanup_handles : Table Key CleanupHandle
  pub handle_orders : Table Key ℕ
  pub pending_replacements : Table String PendingReplacement
  pub next_handle_order : ℕ
  pub ownership_version : ℕ
  pub now : ℕ
  pub aborted : List ℕ
  pub uuids : ℕ
  pub tails : ℕ
  pub signals : ℕ
  pub live : List Key

pub record StartSessionInput : Type 0 where
  pub employee_id : String
  pub role : String
  pub project_root : String
  pub scenario : String

pub record ResumeSessionInput : Type 0 where
  pub input : StartSessionInput
  pub previous : SessionHandle
  pub handoff : String

-- AgentAdapter. A call is awaited, and other code may change the state before it settles; a stream
-- is the list of the waits for its events. `native_resume` is whether `capabilities()` says that
-- nativeResume is supported.
pub record AgentAdapter : Type 0 where
  pub start : StartSessionInput → Exec Manager SessionHandle
  pub send : SessionHandle → AgentMessage → List (Exec Manager AgentEvent)
  pub interrupt : SessionHandle → Exec Manager Bool
  pub resume : ResumeSessionInput → Exec Manager SessionHandle
  pub stop : SessionHandle → Exec Manager (Unit {0})
  pub force_stop : Option (SessionHandle → Exec Manager (Unit {0}))
  pub native_resume : Exec Manager Bool

-- What the constructor is given, an adapter for each agent name. `uuid n` is what the call number n
-- of `randomUUID()` returns, `iso` the text of a time, `error_message` that of a thrown error, and
-- `settled n` the wait for the tail number n. `abort_first signal m` says whether the signal is
-- aborted before an operation that is awaited in m settles, and with which state.
pub record SessionManager : Type 0 where
  pub adapter_for : String → AgentAdapter
  pub company_id : String
  pub project_root : String
  pub uuid : ℕ → String
  pub iso : ℕ → String
  pub error_message : Error → String
  pub settled : ℕ → Exec Manager (Unit {0})
  pub abort_first : ℕ → Manager → Bool × Manager

abbrev pub on_store : {A : Type 0} → Exec Store A → Exec Manager A
on_store m s = let (r, store) = m s.store in (r, record s { store = store })

-- signal?.aborted ?? false
abbrev pub is_aborted : Option ℕ → Manager → Bool
is_aborted none m = false
is_aborted (some signal) m = includes m.aborted signal

module _ (k : SessionManager) where
  -- randomUUID()
  unfoldable pub random_uuid : Exec Manager String
  random_uuid m = (ok (k.uuid m.uuids), record m { uuids = m.uuids + 1 })

  -- #newEvent
  unfoldable pub new_event : String → String → Option String → Fields → Exec Manager NewEvent
  unfolding random_uuid
  new_event type actor_id task_id payload = do
    id ← random_uuid
    pure (record {
      id = id;
      type = type;
      actor_id = actor_id;
      task_id = task_id;
      causation_event_id = none;
      payload = payload;
    })

  -- this.store.putSession(this.companyId, employeeId, handle, status, event)
  unfoldable pub put : String → SessionHandle → String → NewEvent → Exec Manager (Unit {0})
  put employee_id handle status event m =
      on_store (put_session k.company_id employee_id handle status event (k.iso m.now)) m
