-- ===== src/Server/Cache/Replay.antt =====
-- packages/core/src/ipc/core-server.ts: what the request cache answers when a request is repeated.
use agent_town.Prelude.{
  ℕ, ◌≤◌, ◌<◌, String, ◌≡◌, refl, Bool, false, none, some, inl, inr, List, [], ◌∷◌, ◌++◌, leb,
  length, includes, find, ==_iff, ==_refl, string_eq, if◌then◌else◌, arith, Option-cases, find-none,
  includes-append, List-cases, ◌==◌, filter,
}
use agent_town.Prelude.Table.{lookup, remove, lookup-insert, lookup-remove}
use agent_town.Prelude.Weights.{weight-remove, weight-empty}
use agent_town.Server.Cache.{
  Memory, CachedRequest, CacheLimits, is_cached, bury, drop_oldest, drop_key, forget, remember,
  cache,
}
use agent_town.Server.Cache.Bounds.{cache-keeps}
use agent_town.Server.Cache.Counted.{IsCounted, includes-drop_key}

-- The key that was completed last, and what the server answers to it.
record IsYoungest (key : String) (m : Memory) : Type 0 where
  older : List String
  last : m.completed_request_order ≡ older ++ key ∷ []
  once : includes older key ≡ false

find-last :
    (p : String → Bool) (older : List String) (key : String)
    → includes older key ≡ false
    → find p (older ++ key ∷ []) ≡ some key
    → find p older ≡ none
unfolding find includes
find-last p [] key n e = refl
find-last p (k ∷ ks) key n e = ground (arith, find-last p ks key, ==_refl key)

-- Only the youngest is in the cache when it is the oldest there.
alone :
    (key : String) (c : CachedRequest) (m : Memory)
    → IsCounted m
    → IsYoungest key m
    → lookup key m.request_cache ≡ some c
    → find (is_cached m) m.completed_request_order ≡ some key
    → m.request_cache_bytes ≡ c.bytes
unfolding is_cached includes
alone key c m h y l f =
    let none_older = find-last (is_cached m) y.older key y.once (ground (arith, f, y.last)) in
    let empty : (k : String) → lookup k (remove key m.request_cache) ≡ none = λ k.
      elim (Option-cases (lookup k m.request_cache)) [
        | inl e ↦ ground (arith, lookup-remove key k m.request_cache, e)
        | inr (d, e) ↦ ground (
          arith,
          lookup-remove key k m.request_cache,
          h.in_order k d e,
          includes-append y.older (key ∷ []) k,
          y.last,
          find-none (is_cached m) y.older k none_older,
          e,
        )
      ] in
    ground (
      arith,
      h.counted,
      weight-remove (λ r. r.bytes) key c m.request_cache h.unique l,
      weight-empty (λ r. r.bytes) (remove key m.request_cache) empty,
    )

-- What the youngest key is answered by: its response, or the mark that it is too large to keep.
abbrev pub Answered : ℕ → String → CachedRequest → Memory → Type 0
Answered limit key c m =
    if leb c.bytes limit
    then lookup key m.request_cache ≡ some c
    else (lookup key m.request_cache ≡ none)
      × (lookup key m.request_tombstones ≡ some c.fingerprint)

module _ (limit : ℕ) (key : String) (c : CachedRequest) (m : Memory) where
  bury-Answered :
      (oldest : String) (d : CachedRequest)
      → IsCounted m
      → limit < m.request_cache_bytes
      → find (is_cached m) m.completed_request_order ≡ some oldest
      → lookup oldest m.request_cache ≡ some d
      → IsYoungest key m
      → Answered limit key c m
      → Answered limit key c (bury oldest m)
  unfolding bury
  bury-Answered oldest d h over f l y a = ground (
    arith,
    lookup-remove oldest key m.request_cache,
    lookup-insert oldest key d.fingerprint m.request_tombstones,
    ==_iff oldest key,
    alone key c m h y,
    a,
  )

  bury-IsYoungest : (oldest : String) → IsYoungest key m → IsYoungest key (bury oldest m)
  unfolding bury
  bury-IsYoungest oldest y = elim (Option-cases (lookup oldest m.request_cache)) [
    | inl e ↦ record { older = y.older; last = ground (arith, y.last, e); once = y.once }
    | inr (d, e) ↦ record { older = y.older; last = ground (arith, y.last, e); once = y.once }
  ]

  drop_oldest-Answered :
      (oldest : String)
      → (oldest == key) ≡ false
      → Answered limit key c m
      → Answered limit key c (drop_oldest oldest m)
  unfolding drop_oldest
  drop_oldest-Answered oldest n a = ground (
    arith,
    lookup-remove oldest key m.request_cache,
    lookup-remove oldest key m.request_tombstones,
    n,
    a,
  )

drop_key-append :
    (old : String) (xs ys : List String)
    → drop_key old (xs ++ ys) ≡ drop_key old xs ++ drop_key old ys
unfolding drop_key filter
drop_key-append old [] ys = refl
drop_key-append old (x ∷ xs) ys = ground (arith, drop_key-append old xs ys)

drop_oldest-IsYoungest :
    (oldest key : String) (m : Memory)
    → (oldest == key) ≡ false
    → IsYoungest key m
    → IsYoungest key (drop_oldest oldest m)
unfolding drop_oldest drop_key filter
drop_oldest-IsYoungest oldest key m n y = record {
  older = drop_key oldest y.older;
  last = ground (
    arith,
    y.last,
    drop_key-append oldest y.older (key ∷ []),
    n,
    ==_iff key oldest,
    ==_iff oldest key,
  );
  once = ground (arith, includes-drop_key oldest key y.older, y.once);
}

-- The oldest of several keys is not the youngest.
oldest-older :
    (key oldest : String) (rest : List String) (m : Memory)
    → 1 ≤ length rest
    → m.completed_request_order ≡ oldest ∷ rest
    → IsYoungest key m
    → (oldest == key) ≡ false
unfolding includes
oldest-older key oldest rest m l e y = elim (List-cases y.older) [
  | inl f ↦ ground (arith, y.last, f, e, l)
  | inr (k, ks, f) ↦ ground (arith, y.last, y.once, f, e)
]

remember-Answered :
    (limit : ℕ) (key : String) (c : CachedRequest) (m : Memory)
    → lookup key m.request_cache ≡ none
    → Answered limit key c (remember limit key c m)
unfolding remember
remember-Answered limit key c m absent = ground (
  arith,
  lookup-insert key key c m.request_cache,
  lookup-insert key key c.fingerprint m.request_tombstones,
  ==_refl key,
  absent,
)

remember-IsYoungest :
    (limit : ℕ) (key : String) (c : CachedRequest) (m : Memory)
    → IsYoungest key (remember limit key c (forget key m))
unfolding remember forget
remember-IsYoungest limit key c m = record {
  older = drop_key key m.completed_request_order;
  last = ground arith;
  once = ground (arith, includes-drop_key key key m.completed_request_order, ==_refl key);
}

-- If the cache has room for at least one key, then after a response is cached the same request is
-- answered by that response, or, when the response is larger than the whole cache, by the
-- fingerprint that marks the request as completed.
pub cache-replays :
    (limits : CacheLimits) (key : String) (c : CachedRequest) (m : Memory)
    → IsCounted m
    → 1 ≤ limits.request_cache_size
    → (n : Memory) × (cache limits key c m ≡ some n)
      × Answered limits.request_cache_byte_limit key c n
unfolding forget
cache-replays limits key c m h room =
    let limit = limits.request_cache_byte_limit in
    let (n, e, i, (y, a), b, l) =
      cache-keeps limits (λ x. IsYoungest key x × Answered limit key c x)
        (λ x k d j o f g (y, a).
          (bury-IsYoungest limit key c x k y, bury-Answered limit key c x k d j o f g y a))
        (λ x k ks j g f (y, a).
          let other = oldest-older key k ks x (omega (arith, g, room)) f y in
          (drop_oldest-IsYoungest k key x other y, drop_oldest-Answered limit key c x k other a))
        key c m h
        (
          remember-IsYoungest limit key c m,
          remember-Answered limit key c (forget key m)
              (ground (arith, lookup-remove key key m.request_cache, ==_refl key)),
        ) in
    (n, e, a)
