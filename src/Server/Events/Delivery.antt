-- ===== src/Server/Events/Delivery.antt =====
-- packages/core/src/ipc/core-server.ts: which events a connection is given.
use agent_town.Prelude.{
  ℕ, ◌≤◌, ◌≡◌, refl, ◌∙◌, Bool, true, ◌||◌, not, List, [], ◌∷◌, ◌++◌, map, leb, ltb, filter,
  if◌then◌else◌, arith, Bool-cases, inl, inr,
}
use mathlib.Core.List.{append_assoc, append-nil}
use agent_town.Contract.Ipc.{Outbound, event}
use agent_town.Storage.Schema.{EventRecord}
use agent_town.Storage.Transaction.{events_after}
use agent_town.Storage.Journal.Order.{Numbered}
use agent_town.Server.Outbound.{
  Wire, ClientConnection, terminate_event_stream, send, queue, stop_reading, destroy, write_socket,
}
use agent_town.Server.Events.{ipc_event, forward_event, forward_events}

-- The connection is still there, and its stream of events has not been ended.
unfoldable pub is_streaming : ClientConnection → Bool
is_streaming c = not (c.event_stream_terminal || c.destroyed || c.ended)

abbrev pub message : EventRecord → Outbound
message row = event (ipc_event row)

-- What forwarding one row does to a connection that goes on streaming.
pub record IsForwarded (row : EventRecord) (c c' : ClientConnection) : Type 0 where
  pub before : is_streaming c ≡ true
  text :
      c'.written
      ≡ (if leb row.sequence c.after_sequence then c.written else c.written ++ message row ∷ [])
  place :
      c'.after_sequence
      ≡ (if leb row.sequence c.after_sequence then c.after_sequence else row.sequence)
  pub listens : c'.subscribed ≡ c.subscribed

pub forward_event-IsForwarded :
    (w : Wire) (row : EventRecord) (c : ClientConnection)
    → is_streaming (forward_event w row c) ≡ true
    → IsForwarded row c (forward_event w row c)
unfolding forward_event send queue terminate_event_stream stop_reading destroy write_socket
    is_streaming
forward_event-IsForwarded w row c h = record {
  before = ground (arith, h);
  text = ground (arith, h);
  place = ground (arith, h);
  listens = ground (arith, h);
}

pub forward_events-before :
    (w : Wire) (rows : List EventRecord) (c : ClientConnection)
    → is_streaming (forward_events w rows c) ≡ true
    → is_streaming c ≡ true
unfolding forward_events
forward_events-before w [] c h = h
forward_events-before w (row ∷ rows) c h =
    (forward_event-IsForwarded w row c
      (forward_events-before w rows (forward_event w row c) h)).before

pub forward_events-listens :
    (w : Wire) (rows : List EventRecord) (c : ClientConnection)
    → is_streaming (forward_events w rows c) ≡ true
    → (forward_events w rows c).subscribed ≡ c.subscribed
unfolding forward_events
forward_events-listens w [] c h = refl
forward_events-listens w (row ∷ rows) c h =
    let c1 = forward_event w row c in
    forward_events-listens w rows c1 h
    ∙ (forward_event-IsForwarded w row c (forward_events-before w rows c1 h)).listens

pub forward_events-append :
    (w : Wire) (xs ys : List EventRecord) (c : ClientConnection)
    → forward_events w (xs ++ ys) c ≡ forward_events w ys (forward_events w xs c)
unfolding forward_events
forward_events-append w [] ys c = refl
forward_events-append w (row ∷ xs) ys c = forward_events-append w xs ys (forward_event w row c)

-- Rows that are all later than a place are what comes after any earlier place.
events_after-Numbered :
    (n k m : ℕ) (rows : List EventRecord)
    → Numbered k rows
    → n ≤ k
    → m ≤ k
    → events_after n rows ≡ events_after m rows
unfolding events_after filter
events_after-Numbered n k m [] h a b = refl
events_after-Numbered n k m (row ∷ rows) (e, h) a b =
    ground (arith, events_after-Numbered n row.sequence m rows h, e, a, b)

-- Of numbered rows, a connection that goes on streaming is given those after its place.
pub forward_events-delivers :
    (w : Wire) (k : ℕ) (rows : List EventRecord) (c : ClientConnection)
    → Numbered k rows
    → is_streaming (forward_events w rows c) ≡ true
    → (forward_events w rows c).written
      ≡ c.written ++ map message (events_after c.after_sequence rows)
unfolding forward_events events_after filter
forward_events-delivers w k [] c n h = ground (arith, append-nil c.written)
forward_events-delivers w k (row ∷ rows) c (e, n) h =
    let c1 = forward_event w row c in
    let f = forward_event-IsForwarded w row c (forward_events-before w rows c1 h) in
    let ih = forward_events-delivers w row.sequence rows c1 n h in
    elim (Bool-cases (leb row.sequence c.after_sequence)) [
      | inl l ↦ ground (arith, ih, f.text, f.place, l)
      | inr l ↦ ground (
        arith,
        ih,
        f.text,
        f.place,
        l,
        e,
        events_after-Numbered row.sequence row.sequence c.after_sequence rows n,
        append_assoc c.written (message row ∷ [])
            (map message (events_after c.after_sequence rows)),
      )
    ]

forward_event-skips :
    (w : Wire) (row : EventRecord) (c : ClientConnection)
    → row.sequence ≤ c.after_sequence
    → forward_event w row c ≡ c
unfolding forward_event
forward_event-skips w row c h = ground (arith, h)

forward_event-le :
    (w : Wire) (row : EventRecord) (c : ClientConnection)
    → c.after_sequence ≤ (forward_event w row c).after_sequence
unfolding forward_event send queue terminate_event_stream stop_reading destroy write_socket
forward_event-le w row c = ground arith

-- What comes before the place of a connection is not forwarded.
pub forward_events-after :
    (w : Wire) (n : ℕ) (rows : List EventRecord) (c : ClientConnection)
    → n ≤ c.after_sequence
    → forward_events w (events_after n rows) c ≡ forward_events w rows c
unfolding forward_events events_after filter
forward_events-after w n [] c h = refl
forward_events-after w n (row ∷ rows) c h = elim (Bool-cases (ltb n row.sequence)) [
  | inl e ↦ ground (
    arith,
    forward_events-after w n rows (forward_event w row c)
        (omega (arith, h, forward_event-le w row c)),
    e,
  )
  | inr e ↦ ground (
    arith,
    forward_events-after w n rows c h,
    forward_event-skips w row c (ground (arith, e, h)),
    e,
  )
]
