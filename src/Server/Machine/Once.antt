-- ===== src/Server/Machine/Once.antt =====
-- packages/core/src/ipc/core-server.ts: no step executes a mutating request again.
use agent_town.Prelude.{
  ℕ, String, ◌≡◌, refl, none, some, inl, inr, ◌∷◌, includes, if◌then◌else◌, string_eq, pair_eq,
  arith, ==_iff, ◌==◌, Option-cases, Bool-cases, true,
}
use agent_town.Orchestrator.Payload.{◌⧺◌}
use agent_town.Server.Machine.Claims.{
  IsOnce-same, is_claimed, IsDistinct, IsOnce, IsOnce-quiet, IsQuiet-same, replay-IsQuiet,
  begin-IsQuiet, read-IsQuiet,
}
use agent_town.Server.State.{
  CoreServerOptions, CoreServer, store_of, with_store, connection_of, IpcMessage, request, other,
}
use agent_town.Storage.Requests.{
  claim_mutation_request, try_claim, claimed, duplicate, conflict, claimed_row,
}
use agent_town.Server.Lines.{
  parse_ipc_message, version_of, claim_and_begin, after_claim, process_keyed, process_line,
  process_message, process_new, process_request, process_cached, process_value, process_tombstone,
  process_pending, request_client_id,
}
use agent_town.Server.Replies.{begin, send_error, replay, reject_error, reused}
use agent_town.Storage.Transaction.{in_transaction, Store}
use agent_town.Contract.Ipc.{IpcRequest}
use agent_town.Storage.Schema.{MutationRequestRow}
use agent_town.Prelude.Table.{lookup, lookup-insert}
use agent_town.Result.{ok, Result, err}
use agent_town.Server.Requests.{request_key, request_fingerprint, correlation_id, is_mutating}
use agent_town.Server.Methods.{note_execution}
use agent_town.Contract.Value.{Value}
use agent_town.Server.Cache.{CachedRequest}

-- The claim of a request that has no row yet.
claimed-IsOnce :
    (id rid fp at : String) (s : CoreServer)
    → lookup (id, rid) (store_of s).db.ipc_mutation_requests ≡ none
    → IsOnce s
    → IsOnce (
        with_store
          (claim_mutation_request id rid fp at (store_of s)).1
          (record s { executed = (id, rid) ∷ s.executed }))
unfolding claim_mutation_request try_claim in_transaction is_claimed includes IsDistinct
claimed-IsOnce id rid fp at s e h = record {
  each_claimed = λ p i. ground (
    arith,
    lookup-insert (id, rid) p (claimed_row fp at) (store_of s).db.ipc_mutation_requests,
    ==_iff (id, rid) p,
    h.each_claimed p,
    i,
    e,
  );
  distinct = (ground (arith, h.each_claimed (id, rid), e), h.distinct);
}

-- What the claim answers: a request without a row is claimed, and one with a row is left alone.
pub claim-known :
    (id rid fp at : String) (row : MutationRequestRow) (s : Store)
    → lookup (id, rid) s.db.ipc_mutation_requests ≡ some row
    → claim_mutation_request id rid fp at s
      ≡ (ok (if row.fingerprint == fp then duplicate else conflict), s)
unfolding claim_mutation_request try_claim in_transaction
claim-known id rid fp at row s e = ground (arith, e)

pub claim-new :
    (id rid fp at : String) (s : Store)
    → lookup (id, rid) s.db.ipc_mutation_requests ≡ none
    → (claim_mutation_request id rid fp at s).0 ≡ ok claimed
unfolding claim_mutation_request try_claim in_transaction
claim-new id rid fp at s e = ground (arith, e)

-- A mutating request of a client is noted.
pub note-mutating :
    (k : ℕ) (r : IpcRequest) (id : String) (s : CoreServer)
    → is_mutating r.method ≡ true
    → (connection_of k s).client_id ≡ some id
    → note_execution k r s ≡ record s { executed = (id, r.request_id) ∷ s.executed }
unfolding note_execution
note-mutating k r id s mutating client = ground (arith, mutating, client)

module _ (o : CoreServerOptions) (now : ℕ) (at : String) (k : ℕ) where
  claim_and_begin-IsOnce :
      (r : IpcRequest) (id key fp : String) (s : CoreServer)
      → is_mutating r.method ≡ true
      → (connection_of k s).client_id ≡ some id
      → IsOnce s
      → IsOnce (claim_and_begin o now at k r id key fp s)
  unfolding claim_and_begin after_claim connection_of
  claim_and_begin-IsOnce r id key fp s mutating client h =
      elim (Option-cases (lookup (id, r.request_id) (store_of s).db.ipc_mutation_requests)) [
        | inl e ↦
            let s1 = with_store (claim_mutation_request id r.request_id fp at (store_of s)).1 s in
            let noted = note-mutating k r id s1 mutating client in
            ground (
              arith,
              claim-new id r.request_id fp at (store_of s) e,
              IsOnce-quiet (note_execution k r s1) (begin o now k r key fp s1)
                  (begin-IsQuiet o now k r key fp s1)
                  (rw noted (claimed-IsOnce id r.request_id fp at s e h)),
            )
        | inr (row, e) ↦
            let c = claim-known id r.request_id fp at row (store_of s) e in
            IsOnce-quiet s _ (IsQuiet-same s _ (ground (arith, c)) (ground (arith, c))) h
      ]

  process_new-IsOnce :
      (r : IpcRequest) (key fp : String) (s : CoreServer)
      → IsOnce s
      → IsOnce (process_new o now at k r key fp s)
  unfolding process_new
  process_new-IsOnce r key fp s h = elim (Bool-cases (is_mutating r.method)) [
    | inr reads ↦ ground (arith, reads, IsOnce-quiet s _ (read-IsQuiet o now k r key fp s reads) h)
    | inl mutating ↦ elim (Option-cases (connection_of k s).client_id) [
      | inl e ↦ IsOnce-same s _ (ground (arith, mutating, e)) (ground (arith, mutating, e)) h
      | inr (id, e) ↦ ground (arith, mutating, e, claim_and_begin-IsOnce r id key fp s mutating e h)
    ]
  ]

  process_cached-IsOnce :
      (r : IpcRequest) (fp : String) (c : CachedRequest) (s : CoreServer)
      → IsOnce s
      → IsOnce (process_cached o now k r fp c s)
  unfolding process_cached
  process_cached-IsOnce r fp c s h = ground (
    arith,
    IsOnce-quiet s (replay o now k r c.response s) (replay-IsQuiet o now k r c.response s) h,
    IsOnce-same s (send_error o k r.request_id "request_id_conflict" reused s) refl refl h,
  )

  process_keyed-IsOnce :
      (r : IpcRequest) (key fp : String) (s : CoreServer)
      → IsOnce s
      → IsOnce (process_keyed o now at k r key fp s)
  unfolding process_keyed process_tombstone process_pending
  process_keyed-IsOnce r key fp s h = elim (Option-cases (lookup key s.memory.request_cache)) [
    | inr (c, e) ↦ ground (arith, e, process_cached-IsOnce r fp c s h)
    | inl e ↦ elim (Option-cases (lookup key s.memory.request_tombstones)) [
      | inr (b, f) ↦ IsOnce-same s _ (ground (arith, e, f)) (ground (arith, e, f)) h
      | inl f ↦ elim (Option-cases (lookup key s.pending_requests)) [
        | inr (p, g) ↦ IsOnce-same s _ (ground (arith, e, f, g)) (ground (arith, e, f, g)) h
        | inl g ↦ ground (arith, e, f, g, process_new-IsOnce r key fp s h)
      ]
    ]
  ]

  process_request-IsOnce :
      (r : IpcRequest) (s : CoreServer) → IsOnce s → IsOnce (process_request o now at k r s)
  unfolding process_request
  process_request-IsOnce r s h =
      let id = (connection_of k s).client_id in
      ground (
        arith,
        process_keyed-IsOnce r (request_key o.encoding (request_client_id r id) r.request_id)
            (request_fingerprint o.encoding r) s h,
        IsOnce-same s
            (send_error o k r.request_id "handshake_required" "handshake must be the first request"
              s)
            refl refl h,
      )

  process_message-IsOnce :
      (id : String) (m : Result IpcMessage) (s : CoreServer)
      → IsOnce s
      → IsOnce (process_message o now at k id m s)
  unfolding process_message
  process_message-IsOnce id (ok (request r)) s h = process_request-IsOnce r s h
  process_message-IsOnce id (ok (other m)) s h = IsOnce-same s _ refl refl h
  process_message-IsOnce id (err e) s h = IsOnce-same s _ refl refl h

  process_value-IsOnce :
      (raw : Value) (s : CoreServer) → IsOnce s → IsOnce (process_value o now at k raw s)
  unfolding process_value
  process_value-IsOnce raw s h =
      let (id, oversized) = correlation_id raw in
      ground (
        arith,
        IsOnce-same s (reject_error o k id "invalid_request_id" "requestId exceeds 128 bytes" s)
            refl refl h,
        IsOnce-same s (send_error o k id "invalid_request_id" "requestId exceeds 128 bytes" s) refl
            refl h,
        IsOnce-same s
            (reject_error o k id "unsupported_protocol"
              ("unsupported protocol version: " ⧺ o.text_of (version_of raw)) s)
            refl refl h,
        process_message-IsOnce id (parse_ipc_message o raw) s h,
      )

  pub process_line-IsOnce :
      (line : String) (s : CoreServer) → IsOnce s → IsOnce (process_line o now at k line s)
  unfolding process_line
  process_line-IsOnce line s h = elim (Option-cases (o.json_parse line)) [
    | inl e ↦ IsOnce-same s _ (ground (arith, e)) (ground (arith, e)) h
    | inr (raw, e) ↦ ground (arith, e, process_value-IsOnce raw s h)
  ]
