-- ===== src/Server/Cache.antt =====
-- packages/core/src/ipc/core-server.ts: what the server remembers of completed requests. A `Map` is
-- a table; of `#completedRequestOrder` only the order of the keys is used, so it is their list.
-- `#requestCacheBytes` is always at least what is subtracted from it.
pub mod Counted
pub mod Bounds
pub mod Replay
use agent_town.Prelude.{
  ℕ, zero, suc, ◌+◌, ◌-◌, String, Bool, true, false, not, Option, none, some, List, [], ◌∷◌, ◌++◌,
  leb, ltb, find, filter, length, ◌==◌, string_eq, if◌then◌else◌,
}
use agent_town.Prelude.Table.{Table, lookup, insert, remove}
use agent_town.Contract.Ipc.{IpcResponse}

pub record CachedRequest : Type 0 where
  pub fingerprint : String
  pub response : IpcResponse
  pub bytes : ℕ

-- #requestCache, #requestTombstones, #completedRequestOrder and #requestCacheBytes
pub record Memory : Type 0 where
  pub request_cache : Table String CachedRequest
  pub request_tombstones : Table String String
  pub completed_request_order : List String
  pub request_cache_bytes : ℕ

-- requestCacheSize and requestCacheByteLimit
pub record CacheLimits : Type 0 where
  pub request_cache_size : ℕ
  pub request_cache_byte_limit : ℕ

-- #completedRequestOrder.delete(key)
unfoldable pub drop_key : String → List String → List String
drop_key key = filter (λ k. not (k == key))

-- #requestCache.has(key)
unfoldable pub is_cached : Memory → String → Bool
is_cached m key = elim (lookup key m.request_cache) [ none ↦ false | some _ ↦ true ]

unfoldable pub cached_bytes : Option CachedRequest → ℕ
cached_bytes none = 0
cached_bytes (some c) = c.bytes

-- #cache(cacheKey, cached) up to the test of the size: the key becomes the youngest.
unfoldable pub forget : String → Memory → Memory
forget key m = record {
  request_cache = remove key m.request_cache;
  request_tombstones = remove key m.request_tombstones;
  completed_request_order = drop_key key m.completed_request_order ++ key ∷ [];
  request_cache_bytes = m.request_cache_bytes - cached_bytes (lookup key m.request_cache);
}

-- The test of the size.
unfoldable pub remember : ℕ → String → CachedRequest → Memory → Memory
remember limit key c m =
    if leb c.bytes limit
    then record m {
      request_cache = insert key c m.request_cache;
      request_cache_bytes = m.request_cache_bytes + c.bytes;
    }
    else record m { request_tombstones = insert key c.fingerprint m.request_tombstones }

-- The body of the loop on the bytes: the response goes, its fingerprint stays.
unfoldable pub bury : String → Memory → Memory
bury key m = elim (lookup key m.request_cache) [
  | none ↦ record m { request_cache = remove key m.request_cache }
  | some evicted ↦ record m {
    request_cache = remove key m.request_cache;
    request_cache_bytes = m.request_cache_bytes - evicted.bytes;
    request_tombstones = insert key evicted.fingerprint m.request_tombstones;
  }
]

-- while (this.#requestCacheBytes > this.#requestCacheByteLimit)
unfoldable pub evict_bytes : ℕ → ℕ → Memory → Option Memory
evict_bytes zero limit m = if ltb limit m.request_cache_bytes then none else some m
evict_bytes (suc fuel) limit m = elim (ltb limit m.request_cache_bytes) [
  | false ↦ some m
  | true ↦ elim (find (is_cached m) m.completed_request_order) [
    | none ↦ some m
    | some oldest ↦ evict_bytes fuel limit (bury oldest m)
  ]
]

-- The body of the loop on the number of keys: nothing of the oldest request stays.
unfoldable pub drop_oldest : String → Memory → Memory
drop_oldest oldest m = record {
  request_cache = remove oldest m.request_cache;
  request_tombstones = remove oldest m.request_tombstones;
  completed_request_order = drop_key oldest m.completed_request_order;
  request_cache_bytes = m.request_cache_bytes - cached_bytes (lookup oldest m.request_cache);
}

-- while (this.#completedRequestOrder.size > this.#requestCacheSize)
unfoldable pub evict_keys : ℕ → ℕ → Memory → Option Memory
evict_keys zero size m = if ltb size (length m.completed_request_order) then none else some m
evict_keys (suc fuel) size m = elim (ltb size (length m.completed_request_order)) [
  | false ↦ some m
  | true ↦ elim m.completed_request_order [
    | [] ↦ some m
    | oldest ∷ _ ↦ evict_keys fuel size (drop_oldest oldest m)
  ]
]

abbrev and_evict_keys : ℕ → Option Memory → Option Memory
and_evict_keys size none = none
and_evict_keys size (some m) = evict_keys (length m.completed_request_order) size m

-- #cache(cacheKey, cached); `none` is a loop that has not ended after one round for each response
-- in the cache, or for each key.
unfoldable pub cache : CacheLimits → String → CachedRequest → Memory → Option Memory
cache limits key c m =
    let m1 = remember limits.request_cache_byte_limit key c (forget key m) in
    and_evict_keys limits.request_cache_size
      (evict_bytes (length m1.request_cache) limits.request_cache_byte_limit m1)
