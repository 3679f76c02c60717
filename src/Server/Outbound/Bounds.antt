-- ===== src/Server/Outbound/Bounds.antt =====
-- packages/core/src/ipc/core-server.ts: the limit on what waits to be written to a connection.
use agent_town.Prelude.{
  ℕ, ◌+◌, ◌≤◌, ◌≡◌, true, false, List, [], ◌∷◌, ◌++◌, if◌then◌else◌, arith, List-cases, inl, inr,
}
use agent_town.Contract.Ipc.{IpcResponse, Outbound, response, event}
use agent_town.Server.Outbound.{
  Wire, PendingWrite, ClientConnection, stop_reading, destroy, write_socket, terminate_event_stream,
  queue, send, end_socket, reject_and_close, flush, message_bytes, stream_error, outbound_response,
}

-- The bytes of the writes that wait.
unfoldable pub total : List PendingWrite → ℕ
total [] = 0
total (p ∷ ps) = p.bytes + total ps

total-append :
    (ps : List PendingWrite) (p : PendingWrite) → total (ps ++ p ∷ []) ≡ total ps + p.bytes
unfolding total
total-append [] p = omega arith
total-append (q ∷ qs) p = omega (arith, total-append qs p)

-- The counter is what waits; it is within the limit, and after the event that ends the stream
-- within twice the limit.
pub record IsWithinBudget (w : Wire) (c : ClientConnection) : Type 0 where
  pub counted : c.outbound_queued_bytes ≡ total c.pending
  pub within : c.outbound_queued_bytes ≤ (
      if c.event_stream_terminal
      then w.max_outbound_queued_bytes + w.max_outbound_queued_bytes
      else w.max_outbound_queued_bytes)

pub stop_reading-IsWithinBudget :
    (w : Wire) (c : ClientConnection) → IsWithinBudget w c → IsWithinBudget w (stop_reading c)
unfolding stop_reading
stop_reading-IsWithinBudget w c h = record {
  counted = ground (arith, h.counted);
  within = ground (arith, h.within);
}

pub terminate_event_stream-IsWithinBudget :
    (w : Wire) (n : ℕ) (c : ClientConnection)
    → IsWithinBudget w c
    → IsWithinBudget w (terminate_event_stream w n c)
unfolding terminate_event_stream stop_reading destroy write_socket
terminate_event_stream-IsWithinBudget w n c h =
    let more =
      total-append c.pending (record { bytes = message_bytes w (stream_error n); ends = true }) in
    record { counted = ground (arith, h.counted, more); within = ground (arith, h.within) }

queue-IsWithinBudget :
    (w : Wire) (m : Outbound) (c : ClientConnection)
    → IsWithinBudget w c
    → IsWithinBudget w (queue w m c).1
unfolding queue stop_reading destroy write_socket
queue-IsWithinBudget w m c h =
    let more = total-append c.pending (record { bytes = message_bytes w m; ends = false }) in
    record { counted = ground (arith, h.counted, more); within = ground (arith, h.within) }

pub send-IsWithinBudget :
    (w : Wire) (m : Outbound) (c : ClientConnection)
    → IsWithinBudget w c
    → IsWithinBudget w (send w m c).1
unfolding send
send-IsWithinBudget w (response r) c h =
    ground (arith, h, queue-IsWithinBudget w (response (outbound_response w r)) c h)
send-IsWithinBudget w (event e) c h = ground (
  arith,
  h,
  queue-IsWithinBudget w (event e) c h,
  terminate_event_stream-IsWithinBudget w e.sequence c h,
)

pub reject_and_close-IsWithinBudget :
    (w : Wire) (r : IpcResponse) (c : ClientConnection)
    → IsWithinBudget w c
    → IsWithinBudget w (reject_and_close w r c)
unfolding reject_and_close end_socket
reject_and_close-IsWithinBudget w r c h =
    let s =
      send-IsWithinBudget w (response r) (stop_reading c) (stop_reading-IsWithinBudget w c h) in
    record { counted = s.counted; within = s.within }

pub flush-IsWithinBudget :
    (w : Wire) (c : ClientConnection) → IsWithinBudget w c → IsWithinBudget w (flush c)
unfolding flush end_socket total
flush-IsWithinBudget w c h = elim (List-cases c.pending) [
  | inl e ↦ record { counted = ground (arith, h.counted, e); within = ground (arith, h.within, e) }
  | inr (p, ps, e) ↦ record {
    counted = ground (arith, h.counted, e);
    within = ground (arith, h.within, e);
  }
]
