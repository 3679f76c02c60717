-- ===== src/Storage/Transaction.antt =====
-- packages/core/src/storage/core-store.ts: transactions, the rows of `events`, and the publication
-- of committed events. The clock is not part of the program: `clock n` is what
-- `new Date().toISOString()` returns when the event row of sequence n is written. Nor is SQLite:
-- AUTOINCREMENT gives a row a sequence that is larger than every one before, mostly by one but
-- maybe by more, and `skips n` is what it leaves out after n.
pub mod Rows
pub mod Commit
use agent_town.Prelude.{
  none, some, ℕ, ◌+◌, String, List, [], ◌∷◌, ◌++◌, map, includes, string_eq, if◌then◌else◌, Option,
  filter, max, ltb, some, take,
}
use agent_town.Result.{Result, ok, err, constraint}
use agent_town.Exec.{Exec, ◌>>=◌, ◌>>◌, pure}
use agent_town.Storage.Schema.{NewEvent, EventRecord, Db}

-- CoreStore: the database, the clock, and the events that the subscribed listeners were called
-- with, oldest first. A listener is taken to return.
pub record Store : Type 0 where
  pub db : Db
  pub clock : ℕ → String
  pub skips : ℕ → ℕ
  pub published : List EventRecord

-- COMMIT keeps what the work wrote; ROLLBACK restores the tables that BEGIN saw.
abbrev end_transaction : {A : Type 0} → Store → Result A → Store → Result A × Store
end_transaction before (ok a) after = (ok a, after)
end_transaction before (err e) after = (err e, record after { db = before.db })

unfoldable pub in_transaction : {A : Type 0} → Exec Store A → Exec Store A
in_transaction work s = let (r, s') = work s in end_transaction s r s'

abbrev pub event_ids : List EventRecord → List String
event_ids = map (λ r. r.event.id)

abbrev pub event_row : (ℕ → String) → ℕ → NewEvent → EventRecord
event_row clock n e = record { event = e; sequence = n; occurred_at = clock n }

-- The sequence that AUTOINCREMENT gives after n
abbrev pub next_sequence : (ℕ → ℕ) → ℕ → ℕ
next_sequence skips n = n + 1 + skips n

abbrev pub with_event_row : EventRecord → Store → Store
with_event_row row s = record s {
  db = record s.db { events = s.db.events ++ row ∷ []; sequence = row.sequence };
}

-- #insertEventRow: `id` is UNIQUE, `sequence` is AUTOINCREMENT.
unfoldable pub insert_event_row : NewEvent → Exec Store EventRecord
insert_event_row e s =
    let row = event_row s.clock (next_sequence s.skips s.db.sequence) e in
    if includes (event_ids s.db.events) e.id
    then (err (constraint "events.id"), s)
    else (ok row, with_event_row row s)

-- events.map((event) => this.#insertEventRow(event))
unfoldable pub insert_event_rows : List NewEvent → Exec Store (List EventRecord)
unfolding insert_event_row
insert_event_rows [] = pure []
insert_event_rows (e ∷ es) = do
  row ← insert_event_row e
  rows ← insert_event_rows es
  pure (row ∷ rows)

unfoldable pub publish_events : List EventRecord → Exec Store (Unit {0})
publish_events rows s = (ok tt, record s { published = s.published ++ rows })

abbrev pub change_db : (Db → Result Db) → Exec Store (Unit {0})
change_db change s = elim (change s.db) [
  | ok db ↦ (ok tt, record s { db = db })
  | err e ↦ (err e, s)
]

-- The form of the writing methods: inserted = inTransaction(() => { …; insertEventRow(…) }), then
-- publishEvents(inserted). `change` is what they do to the tables before the event rows.
unfoldable pub transact : (Db → Result Db) → List NewEvent → Exec Store (Unit {0})
unfolding in_transaction insert_event_rows publish_events
transact change events = do
  inserted ← in_transaction (change_db change >> insert_event_rows events)
  publish_events inserted

unfoldable pub insert_event : NewEvent → Exec Store EventRecord
unfolding in_transaction insert_event_row publish_events
insert_event e = do
  inserted ← in_transaction (insert_event_row e)
  publish_events (inserted ∷ [])
  pure inserted

-- SELECT … FROM events WHERE sequence > ? ORDER BY sequence ASC; rows stand in that order.
unfoldable pub events_after : ℕ → List EventRecord → List EventRecord
events_after n = filter (λ r. ltb n r.sequence)

-- listEvents(afterSequence, limit); `none` is no limit.
unfoldable pub list_events : Store → ℕ → Option ℕ → List EventRecord
unfolding events_after
list_events s n none = events_after n s.db.events
list_events s n (some limit) = take limit (events_after n s.db.events)

-- SELECT COALESCE(MAX(sequence), 0)
unfoldable pub max_sequence : List EventRecord → ℕ
max_sequence [] = 0
max_sequence (r ∷ rs) = max r.sequence (max_sequence rs)

unfoldable pub get_latest_event_sequence : Store → ℕ
unfolding max_sequence
get_latest_event_sequence s = max_sequence s.db.events
