-- ===== src/Server/Events/Subscription.antt =====
-- packages/core/src/ipc/core-server.ts: a subscription while the Core goes on writing.
use agent_town.Prelude.{
  ◌≡◌, refl, sym, ap, ◌∙◌, true, List, [], ◌∷◌, ◌++◌, map, arith, Bool-cases, inl, inr,
}
use mathlib.Core.List.{append_assoc, append-nil}
use agent_town.Storage.Schema.{EventRecord}
use agent_town.Storage.Transaction.{Store, list_events, events_after}
use agent_town.Storage.Journal.{Write, write}
use agent_town.Storage.Journal.Effects.{kept, appended, write-Written}
use agent_town.Storage.Journal.Order.{IsJournal, write_all, write_all-Grows}
use agent_town.Storage.Transaction.Rows.{stamp}
use agent_town.Server.Outbound.{Wire, ClientConnection}
use agent_town.Server.Events.{forward_event, forward_events, start_event_subscription, publish}
use agent_town.Server.Events.Delivery.{
  is_streaming, message, forward_event-IsForwarded, forward_events-append, forward_events-delivers,
  forward_events-after, forward_events-listens,
}

-- The rows that a method published: what stands after the rows that were published before.
unfoldable pub rows_since : List EventRecord → List EventRecord → List EventRecord
rows_since [] rows = rows
rows_since (old ∷ olds) [] = []
rows_since (old ∷ olds) (row ∷ rows) = rows_since olds rows

-- The Core writes, and the listener of the connection is called with what each method published.
unfoldable pub watch : Wire → List Write → Store → ClientConnection → ClientConnection
watch w [] s c = c
watch w (x ∷ xs) s c =
    let s1 = (write x s).1 in watch w xs s1 (publish w (rows_since s.published s1.published) c)

rows_since-append : (olds rows : List EventRecord) → rows_since olds (olds ++ rows) ≡ rows
unfolding rows_since
rows_since-append [] rows = refl
rows_since-append (old ∷ olds) rows = rows_since-append olds rows

-- A method adds the same rows to the journal and to what it publishes.
write-appends :
    (x : Write) (s : Store)
    → (rows : List EventRecord) × ((write x s).1.db.events ≡ s.db.events ++ rows)
      × ((write x s).1.published ≡ s.published ++ rows)
write-appends x s = elim (write-Written x s) [
  | kept e p q ↦
      ([], ground (arith, q, append-nil s.db.events), ground (arith, q, append-nil s.published))
  | appended db es same count claims p q ↦
      (stamp s.clock s.skips db.sequence es, ground (arith, q, same), ground (arith, q))
]

publish-before :
    (w : Wire) (rows : List EventRecord) (c : ClientConnection)
    → is_streaming (publish w rows c) ≡ true
    → is_streaming c ≡ true
unfolding publish
publish-before w [] c h = h
publish-before w (row ∷ rows) c h = elim (Bool-cases c.subscribed) [
  | inl e ↦
      (forward_event-IsForwarded w row c
        (publish-before w rows (forward_event w row c) (ground (arith, h, e)))).before
  | inr e ↦ publish-before w rows c (ground (arith, h, e))
]

watch-before :
    (w : Wire) (xs : List Write) (s : Store) (c : ClientConnection)
    → is_streaming (watch w xs s c) ≡ true
    → is_streaming c ≡ true
unfolding watch
watch-before w [] s c h = h
watch-before w (x ∷ xs) s c h =
    let s1 = (write x s).1 in
    let rows = rows_since s.published s1.published in
    publish-before w rows c (watch-before w xs s1 (publish w rows c) h)

publish-forwards :
    (w : Wire) (rows : List EventRecord) (c : ClientConnection)
    → is_streaming (publish w rows c) ≡ true
    → c.subscribed ≡ true
    → (publish w rows c ≡ forward_events w rows c) × ((publish w rows c).subscribed ≡ true)
unfolding publish forward_events
publish-forwards w [] c h l = (refl, l)
publish-forwards w (row ∷ rows) c h l =
    let c1 = forward_event w row c in
    let h1 : is_streaming (publish w rows c1) ≡ true = ground (arith, h, l) in
    let f = forward_event-IsForwarded w row c (publish-before w rows c1 h1) in
    let ih = publish-forwards w rows c1 h1 (f.listens ∙ l) in
    (ground (arith, ih, l), ground (arith, ih, l))

-- While it streams, a subscribed connection is given the rows that the journal grows by.
watch-forwards :
    (w : Wire) (xs : List Write) (s : Store) (c : ClientConnection)
    → is_streaming (watch w xs s c) ≡ true
    → c.subscribed ≡ true
    → (rows : List EventRecord) × ((write_all xs s).db.events ≡ s.db.events ++ rows)
      × (watch w xs s c ≡ forward_events w rows c)
unfolding watch write_all forward_events
watch-forwards w [] s c h l = ([], ground (arith, append-nil s.db.events), refl)
watch-forwards w (x ∷ xs) s c h l =
    let s1 = (write x s).1 in
    let (new, e, p) = write-appends x s in
    let since : rows_since s.published s1.published ≡ new =
      ap (rows_since s.published) p ∙ rows_since-append s.published new in
    let c1 = publish w (rows_since s.published s1.published) c in
    let (f, l1) =
      publish-forwards w (rows_since s.published s1.published) c (watch-before w xs s1 c1 h) l in
    let (rows, g, r) = watch-forwards w xs s1 c1 h l1 in
    (
      new ++ rows,
      ground (arith, g, e, append_assoc s.db.events new rows),
      ground (arith, r, f, since, forward_events-append w new rows c),
    )

start-subscribed :
    (w : Wire) (s : Store) (c : ClientConnection)
    → is_streaming (start_event_subscription w s c) ≡ true
    → (start_event_subscription w s c
        ≡ forward_events w s.db.events (record c { subscribed = true }))
      × ((start_event_subscription w s c).subscribed ≡ true)
unfolding start_event_subscription list_events
start-subscribed w s c h = (
  forward_events-after w c.after_sequence s.db.events (record c { subscribed = true })
      (omega arith),
  forward_events-listens w _ (record c { subscribed = true }) h,
)

-- A connection that subscribes and, whatever the Core writes then, goes on streaming has been given
-- every event of the journal after its place, once and in order, and nothing else.
pub subscription-delivers :
    (w : Wire) (xs : List Write) (s : Store) (c : ClientConnection)
    → IsJournal s
    → is_streaming (watch w xs s (start_event_subscription w s c)) ≡ true
    → (watch w xs s (start_event_subscription w s c)).written
      ≡ c.written ++ map message (events_after c.after_sequence (write_all xs s).db.events)
subscription-delivers w xs s c j h =
    let c0 : ClientConnection = record c { subscribed = true } in
    let c1 = start_event_subscription w s c in
    let (start, l) = start-subscribed w s c (watch-before w xs s c1 h) in
    let (rows, e, r) = watch-forwards w xs s c1 h l in
    let all : watch w xs s c1 ≡ forward_events w (write_all xs s).db.events c0 =
      ground (arith, r, start, e, forward_events-append w s.db.events rows c0) in
    let streams : is_streaming (forward_events w (write_all xs s).db.events c0) ≡ true =
      ap is_streaming (sym all) ∙ h in
    ap (λ x. x.written) all
    ∙ forward_events-delivers w 0 (write_all xs s).db.events c0
        (write_all-Grows xs s j).journal.numbered streams
