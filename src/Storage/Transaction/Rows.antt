-- ===== src/Storage/Transaction/Rows.antt =====
-- Event rows written one by one, against the list of stamped rows that they amount to.
use mathlib.Core.List.{append-nil, append_assoc, map-append}
use agent_town.Prelude.{
  ℕ, String, Bool, true, false, ◌≡◌, List, [], ◌∷◌, ◌++◌, arith, includes, string_eq, if◌then◌else◌,
}
use agent_town.Result.{ok, err, constraint}
use agent_town.Storage.Schema.{NewEvent, EventRecord}
use agent_town.Storage.Transaction.{
  Store, event_ids, with_event_row, next_sequence, insert_event_rows, event_row,
}

-- The rows that events are stored as, after sequence n, and the last sequence then.
unfoldable pub stamp : (ℕ → String) → (ℕ → ℕ) → ℕ → List NewEvent → List EventRecord
stamp clock skips n [] = []
stamp clock skips n (e ∷ es) =
    event_row clock (next_sequence skips n) e ∷ stamp clock skips (next_sequence skips n) es

unfoldable pub last_sequence : (ℕ → ℕ) → ℕ → List NewEvent → ℕ
last_sequence skips n [] = n
last_sequence skips n (e ∷ es) = last_sequence skips (next_sequence skips n) es

abbrev pub append_events : List NewEvent → Store → Store
append_events es s = record s {
  db = record s.db {
    events = s.db.events ++ stamp s.clock s.skips s.db.sequence es;
    sequence = last_sequence s.skips s.db.sequence es;
  };
}

-- No stored event has one of the ids, and the ids differ from one another.
unfoldable pub fresh_ids : List String → List NewEvent → Bool
fresh_ids ids [] = true
fresh_ids ids (e ∷ es) =
    let rest = fresh_ids (ids ++ e.id ∷ []) es in if includes ids e.id then false else rest

append_events-cons :
    (e : NewEvent) (es : List NewEvent) (s : Store)
    → append_events es
        (with_event_row (event_row s.clock (next_sequence s.skips s.db.sequence) e) s)
      ≡ append_events (e ∷ es) s
unfolding stamp last_sequence
append_events-cons e es s = ground (
  arith,
  append_assoc s.db.events (event_row s.clock (next_sequence s.skips s.db.sequence) e ∷ [])
      (stamp s.clock s.skips (next_sequence s.skips s.db.sequence) es),
)

-- Rows written one by one are the stamped events.
pub insert_event_rows-fresh :
    (es : List NewEvent) (s : Store)
    → fresh_ids (event_ids s.db.events) es ≡ true
    → insert_event_rows es s ≡ (ok (stamp s.clock s.skips s.db.sequence es), append_events es s)
unfolding insert_event_rows stamp last_sequence fresh_ids
insert_event_rows-fresh [] s h = ground (arith, append-nil s.db.events)
insert_event_rows-fresh (e ∷ es) s h =
    let row = event_row s.clock (next_sequence s.skips s.db.sequence) e in
    ground (
      arith,
      map-append (λ r. r.event.id) s.db.events (row ∷ []),
      insert_event_rows-fresh es (with_event_row row s),
      append_events-cons e es s,
    )

-- A repeated id is refused. The clock, the sequences to come and what was published stay as they were.
pub insert_event_rows-used :
    (es : List NewEvent) (s : Store)
    → fresh_ids (event_ids s.db.events) es ≡ false
    → ((insert_event_rows es s).0 ≡ err (constraint "events.id"))
      × ((insert_event_rows es s).1.clock ≡ s.clock)
      × ((insert_event_rows es s).1.skips ≡ s.skips)
      × ((insert_event_rows es s).1.published ≡ s.published)
unfolding insert_event_rows stamp last_sequence fresh_ids
insert_event_rows-used [] s h = cc
insert_event_rows-used (e ∷ es) s h =
    let row = event_row s.clock (next_sequence s.skips s.db.sequence) e in
    ground (
      arith,
      map-append (λ r. r.event.id) s.db.events (row ∷ []),
      insert_event_rows-used es (with_event_row row s),
    )
