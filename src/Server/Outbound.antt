-- ===== src/Server/Outbound.antt =====
-- packages/core/src/ipc/core-server.ts: what the server writes to a connection, and the limit on
-- what waits there. `JSON.stringify` is a function of the model: `json_bytes` is how many bytes a
-- message's text has, without the newline that follows it. `len` is Buffer.byteLength of a text.
pub mod Bounds
use Prim.Native.String.{len}
use agent_town.Prelude.{
  ℕ, ◌+◌, ◌-◌, String, Bool, true, false, not, ◌||◌, Option, none, some, List, [], ◌∷◌, ◌++◌, ltb,
  leb, if◌then◌else◌,
}
use agent_town.Contract.Value.{str, field, end}
use agent_town.Contract.Ipc.{IpcResponse, IpcEvent, Outbound, response, event, failure}

pub record Wire : Type 0 where
  pub json_bytes : Outbound → ℕ
  pub max_outbound_queued_bytes : ℕ

-- A call of `socket.write` whose callback has not run: its bytes, and whether the callback ends the
-- socket.
pub record PendingWrite : Type 0 where
  pub bytes : ℕ
  pub ends : Bool

-- ClientConnection. `subscribed` is whether `unsubscribe` is set; `destroyed` and `ended` are the
-- socket's; `written` are the messages that it was given while it was open, oldest first, and
-- `pending` the calls of `socket.write` that wait for their callback. What waits until the
-- connection is idle or closed looks at the queue again, and has no field. `processing` is three
-- fields: the chunks that wait, the bytes of the chunk that #consume is at, and whether it awaits a
-- response.
pub record ClientConnection : Type 0 where
  pub accepting : Bool
  pub inbound_queued_bytes : ℕ
  pub outbound_queued_bytes : ℕ
  pub event_stream_terminal : Bool
  pub client_id : Option String
  pub buffer : String
  pub after_sequence : ℕ
  pub subscribed : Bool
  pub destroyed : Bool
  pub ended : Bool
  pub written : List Outbound
  pub pending : List PendingWrite
  pub chunks : List String
  pub consuming : Option ℕ
  pub awaiting : Bool

abbrev pub max_request_id_bytes : ℕ
max_request_id_bytes = 128

-- errorResponse(requestId, code, message)
unfoldable pub error_response : String → String → String → IpcResponse
error_response request_id code message = record {
  request_id = request_id;
  answer = failure code message;
}

-- #messageBytes(message)
unfoldable pub message_bytes : Wire → Outbound → ℕ
message_bytes w m = w.json_bytes m + 1

-- #boundedResponse(response)
unfoldable pub bounded_response : Wire → IpcResponse → IpcResponse
bounded_response w r =
    if ltb max_request_id_bytes (len r.request_id)
    then error_response "invalid-request" "invalid_request_id" "requestId exceeds 128 bytes"
    else if leb (message_bytes w (response r)) w.max_outbound_queued_bytes
    then r
    else error_response r.request_id "response_too_large"
        "response exceeds the maximum outbound message size"

-- #stopReading(connection)
unfoldable pub stop_reading : ClientConnection → ClientConnection
stop_reading c = if c.accepting then record c { accepting = false; buffer = "" } else c

-- connection.socket.destroy()
unfoldable pub destroy : ClientConnection → ClientConnection
destroy c = record c { destroyed = true }

-- connection.outboundQueuedBytes += bytes, and socket.write(encoded, callback): a socket that has
-- ended does not take the message, but calls back.
unfoldable pub write_socket : Outbound → PendingWrite → ClientConnection → ClientConnection
write_socket m p c = record c {
  outbound_queued_bytes = c.outbound_queued_bytes + p.bytes;
  pending = c.pending ++ p ∷ [];
  written = if c.ended then c.written else c.written ++ m ∷ [];
}

-- The event "ipc.stream_error".
abbrev pub stream_error : ℕ → Outbound
stream_error sequence = event (record {
  sequence = sequence;
  type = "ipc.stream_error";
  payload = field "code" (str "event_too_large") end;
})

-- #terminateEventStream(connection, sequence)
unfoldable pub terminate_event_stream : Wire → ℕ → ClientConnection → ClientConnection
terminate_event_stream w sequence c =
    if c.event_stream_terminal || c.destroyed
    then c
    else let c1 = stop_reading (record c { event_stream_terminal = true; subscribed = false }) in
      let bytes = message_bytes w (stream_error sequence) in
      if ltb w.max_outbound_queued_bytes bytes
      then destroy c1
      else write_socket (stream_error sequence) (record { bytes = bytes; ends = true }) c1

-- The end of #send: the message is queued, or the connection is given up.
unfoldable pub queue : Wire → Outbound → ClientConnection → Bool × ClientConnection
queue w m c =
    let bytes = message_bytes w m in
    if ltb w.max_outbound_queued_bytes bytes
      || ltb w.max_outbound_queued_bytes (c.outbound_queued_bytes + bytes)
    then (false, destroy (stop_reading c))
    else (true, write_socket m (record { bytes = bytes; ends = false }) c)

-- The outbound message of a response.
unfoldable pub outbound_response : Wire → IpcResponse → IpcResponse
outbound_response w r =
    if ltb w.max_outbound_queued_bytes (message_bytes w (response r))
    then bounded_response w r
    else r

-- #send(connection, message)
unfoldable pub send : Wire → Outbound → ClientConnection → Bool × ClientConnection
send w (response r) c =
    if c.destroyed then (false, c) else queue w (response (outbound_response w r)) c
send w (event e) c =
    if c.destroyed
    then (false, c)
    else if ltb w.max_outbound_queued_bytes (message_bytes w (event e))
    then (false, terminate_event_stream w e.sequence c)
    else queue w (event e) c

-- connection.socket.end()
unfoldable pub end_socket : ClientConnection → ClientConnection
end_socket c = record c { ended = true }

-- #rejectAndClose(connection, response)
unfoldable pub reject_and_close : Wire → IpcResponse → ClientConnection → ClientConnection
reject_and_close w r c = end_socket (send w (response r) (stop_reading c)).1

-- The callback of the oldest write.
unfoldable pub flush : ClientConnection → ClientConnection
flush c = elim c.pending [
  | [] ↦ c
  | p ∷ rest ↦
      let c1 : ClientConnection = record c {
        outbound_queued_bytes = c.outbound_queued_bytes - p.bytes;
        pending = rest;
      } in
      if p.ends then (if c.destroyed then c1 else end_socket c1) else c1
]
