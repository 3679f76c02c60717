-- ===== src/Storage/Journal/Order.antt =====
-- The rows of `events` and the events that the listeners were given.
use agent_town.Prelude.{ℕ, ◌<◌, String, ◌≡◌, List, [], ◌∷◌, ◌++◌, arith, refl, ap, sym, ◌∙◌, subst}
use agent_town.Result.{Result}
use agent_town.Storage.Schema.{NewEvent, EventRecord, Db}
use agent_town.Storage.Transaction.{Store, next_sequence}
use agent_town.Storage.Transaction.Rows.{stamp, last_sequence}
use agent_town.Storage.Transaction.Commit.{committed}
use mathlib.Core.List.{append_assoc, append-nil}
use agent_town.Storage.Journal.{Write, write}
use agent_town.Storage.Journal.Effects.{Written, kept, appended, write-Written}

-- The sequences of the rows go up from n.
abbrev pub Numbered : ℕ → List EventRecord → Type 0
Numbered n [] = Unit
Numbered n (r ∷ rs) = (n < r.sequence) × Numbered r.sequence rs

-- The sequence of the last row, or n.
abbrev pub last_of : ℕ → List EventRecord → ℕ
last_of n [] = n
last_of n (r ∷ rs) = last_of r.sequence rs

-- The sequences of the rows go up from 0, and the counter stands at the last.
pub record IsJournal (s : Store) : Type 0 where
  pub numbered : Numbered 0 s.db.events
  pub counted : s.db.sequence ≡ last_of 0 s.db.events

-- The journal has grown by rows, and the listeners were given those rows and no others, in order.
pub record Grows (s s' : Store) : Type 0 where
  pub journal : IsJournal s'
  pub new : List EventRecord
  pub added : s'.db.events ≡ s.db.events ++ new
  pub told : s'.published ≡ s.published ++ new

Numbered-append :
    (n : ℕ) (rs qs : List EventRecord)
    → Numbered n rs
    → Numbered (last_of n rs) qs
    → Numbered n (rs ++ qs)
Numbered-append n [] qs h k = k
Numbered-append n (r ∷ rs) qs (e, h) k = (e, Numbered-append r.sequence rs qs h k)

last_of-append :
    (n : ℕ) (rs qs : List EventRecord) → last_of n (rs ++ qs) ≡ last_of (last_of n rs) qs
last_of-append n [] qs = refl
last_of-append n (r ∷ rs) qs = last_of-append r.sequence rs qs

Numbered-stamp :
    (clock : ℕ → String) (skips : ℕ → ℕ) (n : ℕ) (es : List NewEvent)
    → Numbered n (stamp clock skips n es)
unfolding stamp
Numbered-stamp clock skips n [] = tt
Numbered-stamp clock skips n (e ∷ es) =
    (omega arith, Numbered-stamp clock skips (next_sequence skips n) es)

last_of-stamp :
    (clock : ℕ → String) (skips : ℕ → ℕ) (n : ℕ) (es : List NewEvent)
    → last_of n (stamp clock skips n es) ≡ last_sequence skips n es
unfolding stamp last_sequence
last_of-stamp clock skips n [] = refl
last_of-stamp clock skips n (e ∷ es) = last_of-stamp clock skips (next_sequence skips n) es

committed-Grows :
    (db : Db) (es : List NewEvent) (s : Store)
    → db.events ≡ s.db.events
    → db.sequence ≡ s.db.sequence
    → IsJournal s
    → Grows s (committed db es s)
committed-Grows db es s same count j =
    let rows = stamp s.clock s.skips db.sequence es in
    let last : db.sequence ≡ last_of 0 db.events = count ∙ j.counted ∙ ap (last_of 0) (sym same) in
    record {
      journal = record {
        numbered =
            Numbered-append 0 db.events rows (rw same j.numbered)
              (subst (λ m. Numbered m rows) last (Numbered-stamp s.clock s.skips db.sequence es));
        counted = sym (
            last_of-append 0 db.events rows
            ∙ ap (λ m. last_of m rows) (sym last)
            ∙ last_of-stamp s.clock s.skips db.sequence es);
      };
      new = rows;
      added = ap (λ events. events ++ rows) same;
      told = refl;
    }

stays-Grows : (s : Store) → IsJournal s → Grows s s
stays-Grows s j = record {
  journal = j;
  new = [];
  added = sym (append-nil s.db.events);
  told = sym (append-nil s.published);
}

pub Written-Grows :
    {s s' : Store} {r : Result (Unit {0})} → IsJournal s → Written s r s' → Grows s s'
Written-Grows {s} j (kept e p q) = subst (Grows s) (sym q) (stays-Grows s j)
Written-Grows {s} j (appended db es same count claims p q) =
    subst (Grows s) (sym q) (committed-Grows db es s same count j)

Grows-trans : (s t u : Store) → Grows s t → Grows t u → Grows s u
Grows-trans s t u g h = record {
  journal = h.journal;
  new = g.new ++ h.new;
  added = ground (arith, g.added, h.added, append_assoc s.db.events g.new h.new);
  told = ground (arith, g.told, h.told, append_assoc s.published g.new h.new);
}

unfoldable pub write_all : List Write → Store → Store
write_all [] s = s
write_all (w ∷ ws) s = write_all ws (write w s).1

-- Whatever is written, and whether it succeeds or raises, the sequences of the rows of `events` go
-- up, and the listeners are given exactly the rows that are added from the start of the writing on,
-- once and in order.
pub write_all-Grows : (ws : List Write) (s : Store) → IsJournal s → Grows s (write_all ws s)
unfolding write_all
write_all-Grows [] s j = stays-Grows s j
write_all-Grows (w ∷ ws) s j =
    let s1 = (write w s).1 in
    let g = Written-Grows j (write-Written w s) in
    Grows-trans s s1 _ g (write_all-Grows ws s1 g.journal)
