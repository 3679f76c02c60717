-- ===== src/Storage/Transaction/Commit.antt =====
-- A writing method makes all of its writes, or none.
use agent_town.Prelude.{◌≡◌, List, ◌++◌, arith, inl, inr, if◌then◌else◌}
use agent_town.Result.{Result, ok, err, constraint, Result-cases}
use agent_town.Storage.Schema.{NewEvent, Db}
use agent_town.Storage.Transaction.{Store, transact, event_ids}
use agent_town.Storage.Transaction.Rows.{
  stamp, last_sequence, fresh_ids, insert_event_rows-fresh, insert_event_rows-used,
}

-- The store once the changed tables and the events are committed, and the events published.
abbrev pub committed : Db → List NewEvent → Store → Store
committed db es s = record s {
  db = record db {
    events = db.events ++ stamp s.clock s.skips db.sequence es;
    sequence = last_sequence s.skips db.sequence es;
  };
  published = s.published ++ stamp s.clock s.skips db.sequence es;
}

abbrev pub check_ids : Db → List NewEvent → Store → Result Store
check_ids db es s =
    if fresh_ids (event_ids db.events) es
    then ok (committed db es s)
    else err (constraint "events.id")

-- The first error, or the new store.
unfoldable pub outcome : (Db → Result Db) → List NewEvent → Store → Result Store
outcome change es s = elim (change s.db) [ err e ↦ err e | ok db ↦ check_ids db es s ]

abbrev pub commit : Result Store → Store → Result (Unit {0}) × Store
commit (ok s') s = (ok tt, s')
commit (err e) s = (err e, s)

-- A transaction that raises leaves the store as it was; one that does not has made every write.
pub transact-commit :
    (change : Db → Result Db) (es : List NewEvent) (s : Store)
    → transact change es s ≡ commit (outcome change es s) s
unfolding transact outcome
transact-commit change es s = elim (Result-cases (change s.db)) [
  | inr (e, h) ↦ ground arith
  | inl (db, h) ↦
      let s₁ : Store = record s { db = db } in
      ground (arith, insert_event_rows-fresh es s₁, insert_event_rows-used es s₁)
]
