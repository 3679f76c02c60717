-- ===== src/Contract/Ipc.antt =====
-- packages/runtime-contract/src/ipc.ts: the messages that a client and the Core exchange. The
-- protocol version of a message that was built here is always 1, and `kind` is its type. `ok` and
-- `error` of a response are one field: a response is not ok exactly when it has an error.
use agent_town.Prelude.{ℕ, String, Bool, true, false}
use agent_town.Contract.Value.{Value, Fields}

abbrev pub ipc_protocol_version : ℕ
ipc_protocol_version = 1

-- Number.MAX_SAFE_INTEGER
abbrev pub live_only_after_sequence : ℕ
live_only_after_sequence = 9007199254740991

pub record IpcRequest : Type 0 where
  pub request_id : String
  pub method : String
  pub params : Fields

pub data Answer : Type 0 where
  success : Value → Answer
  failure : (code message : String) → Answer

pub record IpcResponse : Type 0 where
  pub request_id : String
  pub answer : Answer

pub record IpcEvent : Type 0 where
  pub sequence : ℕ
  pub type : String
  pub payload : Fields

pub data Outbound : Type 0 where
  response : IpcResponse → Outbound
  event : IpcEvent → Outbound

unfoldable pub is_success : IpcResponse → Bool
is_success r = elim r.answer [ success _ ↦ true | failure _ _ ↦ false ]
