-- ===== src/Server/Cache/Counted.antt =====
-- packages/core/src/ipc/core-server.ts: the counter of the request cache and the order of its keys.
use agent_town.Prelude.{
  ℕ, ◌+◌, ◌≤◌, String, ◌≡◌, true, false, not, ◌&&◌, none, some, inl, inr, List, [], ◌∷◌, length,
  includes, filter, ◌==◌, ==_iff, string_eq, arith, Option-cases, includes-append, ◌-◌, ◌++◌, ◌||◌,
}
use agent_town.Prelude.Table.{lookup, lookup-insert, lookup-remove, Table, remove, insert}
use agent_town.Prelude.Weights.{
  IsUnique, weight, weight-remove, weight-remove-absent, weight-insert, remove-IsUnique,
  insert-IsUnique,
}
use agent_town.Server.Cache.{
  Memory, CachedRequest, drop_key, cached_bytes, forget, remember, bury, drop_oldest,
}

-- The counter is the sum of the responses, and every key that is remembered is in the order.
pub record IsCounted (m : Memory) : Type 0 where
  pub unique : IsUnique m.request_cache
  pub counted : m.request_cache_bytes ≡ weight (λ c. c.bytes) m.request_cache
  pub in_order :
      (k : String) (c : CachedRequest)
      → lookup k m.request_cache ≡ some c
      → includes m.completed_request_order k ≡ true
  pub buried_in_order :
      (k f : String)
      → lookup k m.request_tombstones ≡ some f
      → includes m.completed_request_order k ≡ true

pub includes-drop_key :
    (key k : String) (ks : List String)
    → includes (drop_key key ks) k ≡ (not (key == k) && includes ks k)
unfolding includes drop_key filter
includes-drop_key key k [] = ground arith
includes-drop_key key k (j ∷ ks) =
    ground (arith, includes-drop_key key k ks, ==_iff j key, ==_iff key k, ==_iff j k)

pub length-drop_key : (key : String) (ks : List String) → length (drop_key key ks) ≤ length ks
unfolding drop_key filter
length-drop_key key [] = omega arith
length-drop_key key (j ∷ ks) = ground (arith, length-drop_key key ks)

-- What goes with a key: the counter falls by the bytes of its response.
module _ (key : String) (m : Memory) (h : IsCounted m) where
  counter-remove :
      m.request_cache_bytes - cached_bytes (lookup key m.request_cache)
      ≡ weight (λ c. c.bytes) (remove key m.request_cache)
  unfolding cached_bytes
  counter-remove = elim (Option-cases (lookup key m.request_cache)) [
    | inl e ↦
        ground (arith, h.counted, e, weight-remove-absent (λ c. c.bytes) key m.request_cache e)
    | inr (c, e) ↦
        ground (arith, h.counted, e, weight-remove (λ c. c.bytes) key c m.request_cache h.unique e)
  ]

  pub without-IsCounted :
      (tombstones : Table String String) (order : List String)
      → ((k : String)
          → (key == k) ≡ false
          → includes m.completed_request_order k ≡ true
          → includes order k ≡ true)
      → ((k f : String) → lookup k tombstones ≡ some f → includes order k ≡ true)
      → IsCounted (record {
        request_cache = remove key m.request_cache;
        request_tombstones = tombstones;
        completed_request_order = order;
        request_cache_bytes = m.request_cache_bytes - cached_bytes (lookup key m.request_cache);
      })
  without-IsCounted tombstones order others buried = record {
    unique = remove-IsUnique key m.request_cache h.unique;
    counted = counter-remove;
    in_order =
        λ k c e. ground (arith, others k, h.in_order k c, lookup-remove key k m.request_cache, e);
    buried_in_order = buried;
  }

  pub includes-youngest :
      (k : String)
      → includes (drop_key key m.completed_request_order ++ key ∷ []) k
        ≡ (key == k || includes m.completed_request_order k)
  unfolding includes
  includes-youngest k = ground (
    arith,
    includes-append (drop_key key m.completed_request_order) (key ∷ []) k,
    includes-drop_key key k m.completed_request_order,
    ==_iff key k,
  )

  pub forget-IsCounted : IsCounted (forget key m)
  unfolding forget
  forget-IsCounted =
      without-IsCounted (remove key m.request_tombstones)
        (drop_key key m.completed_request_order ++ key ∷ [])
        (λ k n j. ground (arith, includes-youngest k, n, j))
        (λ k f e. ground (
          arith,
          includes-youngest k,
          lookup-remove key k m.request_tombstones,
          h.buried_in_order k f,
          e,
        ))

  pub drop_oldest-IsCounted : IsCounted (drop_oldest key m)
  unfolding drop_oldest
  drop_oldest-IsCounted =
      without-IsCounted (remove key m.request_tombstones) (drop_key key m.completed_request_order)
        (λ k n j. ground (arith, includes-drop_key key k m.completed_request_order, n, j))
        (λ k f e. ground (
          arith,
          includes-drop_key key k m.completed_request_order,
          lookup-remove key k m.request_tombstones,
          h.buried_in_order k f,
          e,
        ))

  pub bury-IsCounted :
      (c : CachedRequest) → lookup key m.request_cache ≡ some c → IsCounted (bury key m)
  unfolding bury cached_bytes
  bury-IsCounted c e =
      let kept =
        without-IsCounted (insert key c.fingerprint m.request_tombstones) m.completed_request_order
          (λ k n j. j)
          (λ k f l. ground (
            arith,
            lookup-insert key k c.fingerprint m.request_tombstones,
            ==_iff key k,
            h.buried_in_order k f,
            h.in_order key c e,
            l,
          )) in
      ground (arith, kept, e)

  module _ (limit : ℕ) (c : CachedRequest) (absent : lookup key m.request_cache ≡ none)
      (new : includes m.completed_request_order key ≡ true) where
    stored : IsCounted (record m {
      request_cache = insert key c m.request_cache;
      request_cache_bytes = m.request_cache_bytes + c.bytes;
    })
    stored = record {
      unique = insert-IsUnique key c m.request_cache h.unique;
      counted =
          ground (arith, h.counted, weight-insert (λ r. r.bytes) key c m.request_cache absent);
      in_order = λ k r e.
          ground (arith, lookup-insert key k c m.request_cache, ==_iff key k, h.in_order k r, e);
      buried_in_order = h.buried_in_order;
    }

    refused :
        IsCounted (record m { request_tombstones = insert key c.fingerprint m.request_tombstones })
    refused = record {
      unique = h.unique;
      counted = h.counted;
      in_order = h.in_order;
      buried_in_order = λ k f e. ground (
        arith,
        lookup-insert key k c.fingerprint m.request_tombstones,
        ==_iff key k,
        h.buried_in_order k f,
        e,
      );
    }

    pub remember-IsCounted : IsCounted (remember limit key c m)
    unfolding remember
    remember-IsCounted = ground (arith, stored, refused)
