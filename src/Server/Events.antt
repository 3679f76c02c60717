-- ===== src/Server/Events.antt =====
-- packages/core/src/ipc/core-server.ts: the stream of events to a connection.
pub mod Delivery
pub mod Subscription
use agent_town.Prelude.{
  ℕ, String, Bool, true, false, ◌||◌, none, List, [], ◌∷◌, leb, ltb, if◌then◌else◌,
}
use agent_town.Contract.Value.{str, nullable}
use agent_town.Contract.Ipc.{IpcEvent, event}
use agent_town.Storage.Schema.{EventRecord}
use agent_town.Storage.Transaction.{Store, list_events}
use agent_town.Orchestrator.Payload.{set_field}
use agent_town.Server.Outbound.{Wire, ClientConnection, message_bytes, terminate_event_stream, send}

-- ipcEvent(event)
unfoldable pub ipc_event : EventRecord → IpcEvent
ipc_event row = record {
  sequence = row.sequence;
  type = row.type;
  payload = set_field "causationEventId" (nullable row.causation_event_id) (
      set_field "taskId" (nullable row.task_id) (
        set_field "actorId" (str row.actor_id) (
          set_field "occurredAt" (str row.occurred_at)
            (set_field "eventId" (str row.event.id) row.event.payload))));
}

abbrev delivered : ℕ → Bool × ClientConnection → ClientConnection
delivered sequence (true, c) = record c { after_sequence = sequence }
delivered sequence (false, c) = c

-- #forwardEvent(connection, event)
unfoldable pub forward_event : Wire → EventRecord → ClientConnection → ClientConnection
forward_event w row c =
    if c.event_stream_terminal || leb row.sequence c.after_sequence
    then c
    else if ltb w.max_outbound_queued_bytes (message_bytes w (event (ipc_event row)))
    then terminate_event_stream w row.sequence c
    else delivered row.sequence (send w (event (ipc_event row)) c)

-- for (const event of …) this.#forwardEvent(connection, event)
unfoldable pub forward_events : Wire → List EventRecord → ClientConnection → ClientConnection
forward_events w [] c = c
forward_events w (row ∷ rows) c = forward_events w rows (forward_event w row c)

-- #startEventSubscription(connection)
unfoldable pub start_event_subscription : Wire → Store → ClientConnection → ClientConnection
start_event_subscription w s c =
    forward_events w (list_events s c.after_sequence none) (record c { subscribed = true })

-- The listener of the subscription, for the events that a method of CoreStore publishes.
unfoldable pub publish : Wire → List EventRecord → ClientConnection → ClientConnection
publish w [] c = c
publish w (row ∷ rows) c = publish w rows (if c.subscribed then forward_event w row c else c)
