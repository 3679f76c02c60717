-- ===== src/Server/Traffic.antt =====
-- packages/core/src/ipc/core-server.ts: all that is written to a connection, and the limit on it.
use agent_town.Prelude.{true, inl, inr, List, [], ◌∷◌, none, arith, Bool-cases}
use agent_town.Contract.Ipc.{IpcResponse, response, event}
use agent_town.Storage.Schema.{EventRecord}
use agent_town.Storage.Transaction.{Store, list_events}
use agent_town.Server.Outbound.{
  Wire, ClientConnection, send, reject_and_close, flush, destroy, stop_reading,
}
use agent_town.Server.Outbound.Bounds.{
  IsWithinBudget, send-IsWithinBudget, reject_and_close-IsWithinBudget, flush-IsWithinBudget,
  stop_reading-IsWithinBudget, terminate_event_stream-IsWithinBudget,
}
use agent_town.Server.Events.{forward_event, forward_events, start_event_subscription, ipc_event}

-- What happens to the socket of a connection.
pub data Traffic : Type 0 where
  answered rejected : IpcResponse → Traffic
  forwarded : EventRecord → Traffic
  subscribed : Store → Traffic
  flushed failed closing : Traffic

unfoldable pub transmit : Wire → Traffic → ClientConnection → ClientConnection
transmit w (answered r) c = (send w (response r) c).1
transmit w (rejected r) c = reject_and_close w r c
transmit w (forwarded row) c = forward_event w row c
transmit w (subscribed s) c = start_event_subscription w s c
transmit w flushed c = flush c
transmit w failed c = destroy c
transmit w closing c = stop_reading c

unfoldable pub transmit_all : Wire → List Traffic → ClientConnection → ClientConnection
transmit_all w [] c = c
transmit_all w (x ∷ xs) c = transmit_all w xs (transmit w x c)

forward_event-IsWithinBudget :
    (w : Wire) (row : EventRecord) (c : ClientConnection)
    → IsWithinBudget w c
    → IsWithinBudget w (forward_event w row c)
unfolding forward_event
forward_event-IsWithinBudget w row c h = elim (Bool-cases (send w (event (ipc_event row)) c).0) [
  | inl e ↦ ground (
    arith,
    h,
    e,
    send-IsWithinBudget w (event (ipc_event row)) c h,
    terminate_event_stream-IsWithinBudget w row.sequence c h,
  )
  | inr e ↦ ground (
    arith,
    h,
    e,
    send-IsWithinBudget w (event (ipc_event row)) c h,
    terminate_event_stream-IsWithinBudget w row.sequence c h,
  )
]

forward_events-IsWithinBudget :
    (w : Wire) (rows : List EventRecord) (c : ClientConnection)
    → IsWithinBudget w c
    → IsWithinBudget w (forward_events w rows c)
unfolding forward_events
forward_events-IsWithinBudget w [] c h = h
forward_events-IsWithinBudget w (row ∷ rows) c h =
    forward_events-IsWithinBudget w rows (forward_event w row c)
      (forward_event-IsWithinBudget w row c h)

transmit-IsWithinBudget :
    (w : Wire) (x : Traffic) (c : ClientConnection)
    → IsWithinBudget w c
    → IsWithinBudget w (transmit w x c)
unfolding transmit start_event_subscription destroy
transmit-IsWithinBudget w (answered r) c h = send-IsWithinBudget w (response r) c h
transmit-IsWithinBudget w (rejected r) c h = reject_and_close-IsWithinBudget w r c h
transmit-IsWithinBudget w (forwarded row) c h = forward_event-IsWithinBudget w row c h
transmit-IsWithinBudget w (subscribed s) c h =
    forward_events-IsWithinBudget w (list_events s c.after_sequence none)
      (record c { subscribed = true }) (record { counted = h.counted; within = h.within })
transmit-IsWithinBudget w flushed c h = flush-IsWithinBudget w c h
transmit-IsWithinBudget w failed c h = record { counted = h.counted; within = h.within }
transmit-IsWithinBudget w closing c h = stop_reading-IsWithinBudget w c h

-- Whatever is sent on a connection, the counter of its waiting bytes is the sum of the writes that
-- wait, and stays within the limit, or within twice the limit once the event that ends the stream
-- is sent.
pub transmit_all-IsWithinBudget :
    (w : Wire) (xs : List Traffic) (c : ClientConnection)
    → IsWithinBudget w c
    → IsWithinBudget w (transmit_all w xs c)
unfolding transmit_all
transmit_all-IsWithinBudget w [] c h = h
transmit_all-IsWithinBudget w (x ∷ xs) c h =
    transmit_all-IsWithinBudget w xs (transmit w x c) (transmit-IsWithinBudget w x c h)
