-- ===== src/Server/Cache/Bounds.antt =====
-- packages/core/src/ipc/core-server.ts: the limits of the request cache.
use agent_town.Prelude.{
  ℕ, zero, suc, ◌≤◌, ◌<◌, String, ◌≡◌, none, some, inl, inr, List, ◌∷◌, ltb, length, find, filter,
  string_eq, arith, Bool-cases, Option-cases, find-holds, find-none, List-cases, ==_refl, ap,
}
use agent_town.Prelude.Table.{lookup, lookup-remove}
use agent_town.Prelude.Weights.{length-remove, weight-empty}
use agent_town.Server.Cache.{
  Memory, CachedRequest, CacheLimits, drop_key, is_cached, forget, remember, bury, evict_bytes,
  drop_oldest, evict_keys, cache,
}
use agent_town.Server.Cache.Counted.{
  forget-IsCounted, remember-IsCounted, IsCounted, length-drop_key, bury-IsCounted,
  drop_oldest-IsCounted, includes-youngest,
}

-- A response to evict is there whenever the limit is passed.
oldest-IsCached :
    (limit : ℕ) (m : Memory)
    → IsCounted m
    → limit < m.request_cache_bytes
    → (oldest : String) × (c : CachedRequest) × (find (is_cached m) m.completed_request_order
        ≡ some oldest)
      × (lookup oldest m.request_cache ≡ some c)
unfolding is_cached
oldest-IsCached limit m h over =
    elim (Option-cases (find (is_cached m) m.completed_request_order)) [
      | inl e ↦
          let absent : (k : String) → lookup k m.request_cache ≡ none = λ k.
            elim (Option-cases (lookup k m.request_cache)) [
              | inl l ↦ l
              | inr (c, l) ↦ ground (
                arith,
                find-none (is_cached m) m.completed_request_order k e (h.in_order k c l),
                l,
              )
            ] in
          ground (arith, h.counted, weight-empty (λ c. c.bytes) m.request_cache absent, over)
      | inr (k, e) ↦ elim (Option-cases (lookup k m.request_cache)) [
        | inl l ↦ ground (arith, find-holds (is_cached m) m.completed_request_order k e, l)
        | inr (c, l) ↦ (k, c, e, l)
      ]
    ]

-- The loop on the bytes ends within one round for each response, and within the limit; what its
-- body keeps, it keeps.
module _ (limit : ℕ) (P : Memory → Type 0)
    (kept : (m : Memory) (oldest : String) (c : CachedRequest)
      → IsCounted m
      → limit < m.request_cache_bytes
      → find (is_cached m) m.completed_request_order ≡ some oldest
      → lookup oldest m.request_cache ≡ some c
      → P m
      → P (bury oldest m)) where
  evict_bytes-fits :
      (fuel : ℕ) (m : Memory)
      → IsCounted m
      → P m
      → length m.request_cache ≤ fuel
      → (n : Memory) × (evict_bytes fuel limit m ≡ some n)
        × IsCounted n
        × P n
        × (n.request_cache_bytes ≤ limit)
  unfolding evict_bytes bury
  evict_bytes-fits zero m h p enough = elim (Bool-cases (ltb limit m.request_cache_bytes)) [
    | inr e ↦ (m, ground (arith, e), h, p, ground (arith, e))
    | inl e ↦
        let (k, c, f, l) = oldest-IsCached limit m h (ground (arith, e)) in
        ground (arith, length-remove k c m.request_cache l, enough)
  ]
  evict_bytes-fits (suc fuel) m h p enough = elim (Bool-cases (ltb limit m.request_cache_bytes)) [
    | inr e ↦ (m, ground (arith, e), h, p, ground (arith, e))
    | inl e ↦
        let over : limit < m.request_cache_bytes = ground (arith, e) in
        let (k, c, f, l) = oldest-IsCached limit m h over in
        let shorter : length (bury k m).request_cache ≤ fuel =
          ground (arith, length-remove k c m.request_cache l, enough, l) in
        let (n, r, i, q, b) =
          evict_bytes-fits fuel (bury k m) (bury-IsCounted k m h c l) (kept m k c h over f l p)
            shorter in
        (n, ground (arith, e, f, r), i, q, b)
  ]

-- The loop on the keys ends within one round for each key, and within the size.
length-drop_oldest :
    (oldest : String) (rest : List String) (m : Memory)
    → m.completed_request_order ≡ oldest ∷ rest
    → length (drop_oldest oldest m).completed_request_order ≤ length rest
unfolding drop_oldest drop_key filter
length-drop_oldest oldest rest m e = ground (arith, e, ==_refl oldest, length-drop_key oldest rest)

module _ (size : ℕ) (P : Memory → Type 0)
    (kept : (m : Memory) (oldest : String) (rest : List String)
      → IsCounted m
      → size ≤ length rest
      → m.completed_request_order ≡ oldest ∷ rest
      → P m
      → P (drop_oldest oldest m)) where
  evict_keys-fits :
      (fuel : ℕ) (m : Memory)
      → IsCounted m
      → P m
      → length m.completed_request_order ≤ fuel
      → (n : Memory) × (evict_keys fuel size m ≡ some n)
        × IsCounted n
        × P n
        × (length n.completed_request_order ≤ size)
  unfolding evict_keys
  evict_keys-fits zero m h p enough = (m, ground (arith, enough), h, p, omega (arith, enough))
  evict_keys-fits (suc fuel) m h p enough =
      elim (Bool-cases (ltb size (length m.completed_request_order))) [
        | inr e ↦ (m, ground (arith, e), h, p, ground (arith, e))
        | inl e ↦ elim (List-cases m.completed_request_order) [
          | inl f ↦ (m, ground (arith, e, f), h, p, ground (arith, f))
          | inr (k, ks, f) ↦
              let long : size ≤ length ks = ground (arith, e, f) in
              let shorter : length (drop_oldest k m).completed_request_order ≤ fuel =
                omega (arith, length-drop_oldest k ks m f, ap length f, enough) in
              let (n, r, i, q, b) =
                evict_keys-fits fuel (drop_oldest k m) (drop_oldest-IsCounted k m h)
                  (kept m k ks h long f p) shorter in
              (n, ground (arith, e, f, r), i, q, b)
        ]
      ]

drop_oldest-bytes :
    (oldest : String) (m : Memory) (limit : ℕ)
    → m.request_cache_bytes ≤ limit
    → (drop_oldest oldest m).request_cache_bytes ≤ limit
unfolding drop_oldest
drop_oldest-bytes oldest m limit b = omega (arith, b)

-- What both loops keep holds of the cache in the end.
module _ (limits : CacheLimits) (P : Memory → Type 0)
    (kept_bury : (m : Memory) (oldest : String) (c : CachedRequest)
      → IsCounted m
      → limits.request_cache_byte_limit < m.request_cache_bytes
      → find (is_cached m) m.completed_request_order ≡ some oldest
      → lookup oldest m.request_cache ≡ some c
      → P m
      → P (bury oldest m))
    (kept_drop : (m : Memory) (oldest : String) (rest : List String)
      → IsCounted m
      → limits.request_cache_size ≤ length rest
      → m.completed_request_order ≡ oldest ∷ rest
      → P m
      → P (drop_oldest oldest m)) where
  pub cache-keeps :
      (key : String) (c : CachedRequest) (m : Memory)
      → IsCounted m
      → P (remember limits.request_cache_byte_limit key c (forget key m))
      → (n : Memory) × (cache limits key c m ≡ some n)
        × IsCounted n
        × P n
        × (n.request_cache_bytes ≤ limits.request_cache_byte_limit)
        × (length n.completed_request_order ≤ limits.request_cache_size)
  unfolding cache forget
  cache-keeps key c m h p =
      let i =
        remember-IsCounted key (forget key m) (forget-IsCounted key m h)
          limits.request_cache_byte_limit c
          (ground (arith, lookup-remove key key m.request_cache, ==_refl key))
          (ground (arith, includes-youngest key m h key, ==_refl key)) in
      let (m2, e2, i2, p2, b2) =
        evict_bytes-fits limits.request_cache_byte_limit P kept_bury
          (length (remember limits.request_cache_byte_limit key c (forget key m)).request_cache)
          (remember limits.request_cache_byte_limit key c (forget key m)) i p (omega arith) in
      let (n, e, j, (q, b), l) =
        evict_keys-fits limits.request_cache_size
          (λ m'. P m' × (m'.request_cache_bytes ≤ limits.request_cache_byte_limit))
          (λ m' k ks h' l' f (p', b'). (
            kept_drop m' k ks h' l' f p',
            drop_oldest-bytes k m' limits.request_cache_byte_limit b',
          ))
          (length m2.completed_request_order) m2 i2 (p2, b2) (omega arith) in
      (n, ground (arith, e2, e), j, q, b, l)

-- When a response is cached, both loops end; the bytes of the responses are then within their limit and the keys within their number.
pub cache-IsBounded :
    (limits : CacheLimits) (key : String) (c : CachedRequest) (m : Memory)
    → IsCounted m
    → (n : Memory) × (cache limits key c m ≡ some n)
      × IsCounted n
      × (n.request_cache_bytes ≤ limits.request_cache_byte_limit)
      × (length n.completed_request_order ≤ limits.request_cache_size)
cache-IsBounded limits key c m h =
    let (n, e, i, u, b, l) =
      cache-keeps limits (λ m'. Unit {0}) (λ m' k d h' o f l' p. p) (λ m' k ks h' l' f p. p) key c m
        h tt in
    (n, e, i, b, l)
