-- ===== src/Server/Machine/Steps.antt =====
-- packages/core/src/ipc/core-server.ts: a mutating request is executed at most once in any run.
use agent_town.Prelude.{
  ℕ, String, ◌≡◌, refl, Bool, true, false, inl, inr, List, [], ◌∷◌, arith, Option-cases, string_eq,
  suc, ◌∙◌, ◌+◌, ap, pair_eq, nat_eq, zero,
}
use agent_town.Server.State.{
  on_connection, put_connection, CoreServer, CoreServerOptions, connection_of, store_of,
}
use agent_town.Server.Machine.Claims.{
  IsOnce-same, IsOnce, IsQuiet, IsOnce-quiet, IsQuiet-trans, IsQuiet-same,
}
use agent_town.Server.Machine.Once.{process_line-IsOnce}
use agent_town.Server.Machine.{
  accept, detach_connection, ensure_transport_closing, force_transport_close, on_each, write_store,
  restart, Step, accepted, closed, flushed, failed, received, consumed, settled, swept,
  lease_settled, closing, forced, restarted, wrote, step, steps, ClientConnection, Write, destroy,
  find?, stop_reading, slice, len,
}
use agent_town.Server.Consume.{
  after_line, start_chunk, next_line, consume, receive, strip_return, too_large,
}
use agent_town.Server.Lines.{process_line}
use agent_town.Storage.Transaction.{in_transaction}
use agent_town.Leases.{trigger_if_empty, wake, LeaseRegistry, initialize, sweep, disconnect, settle}
use agent_town.Storage.Leases.{delete_lease, clear_leases, delete_expired_leases}
use agent_town.Storage.Journal.Effects.{write-requests}
use agent_town.Server.Machine.Landing.{after_line-IsQuiet, settle_request-IsQuiet}

module _ (o : CoreServerOptions) (now : ℕ) (at : String) where
  next_line-IsOnce : (k : ℕ) (s : CoreServer) → IsOnce s → IsOnce (next_line o now at k s)
  unfolding next_line
  next_line-IsOnce k s h = elim (Option-cases (find? (connection_of k s).buffer "\n")) [
    | inl e ↦ IsOnce-same s _ (ground (arith, e)) (ground (arith, e)) h
    | inr (i, e) ↦
        let c = connection_of k s in
        let line = strip_return (slice c.buffer 0 i) in
        let s1 = put_connection k (record c { buffer = slice c.buffer (i + 1) (len c.buffer) }) s in
        let h1 = IsOnce-same s s1 refl refl h in
        let s2 = process_line o now at k line s1 in
        let h2 = process_line-IsOnce o now at k line s1 h1 in
        ground (
          arith,
          e,
          IsOnce-same s (too_large o k s1) refl refl h,
          IsOnce-quiet s2 (after_line k s2) (after_line-IsQuiet k s2) h2,
        )
  ]

  consume-IsOnce : (k : ℕ) (s : CoreServer) → IsOnce s → IsOnce (consume o now at k s)
  unfolding consume start_chunk
  consume-IsOnce k s h = elim (Option-cases (connection_of k s).consuming) [
    | inr (n, e) ↦ ground (arith, e, next_line-IsOnce k s h, h)
    | inl e ↦ IsOnce-same s _ (ground (arith, e)) (ground (arith, e)) h
  ]

on_each-IsQuiet :
    (f : ClientConnection → ClientConnection) (ks : List ℕ) (s : CoreServer)
    → IsQuiet s (on_each f ks s)
on_each-IsQuiet f [] s = IsQuiet-same s s refl refl
on_each-IsQuiet f (k ∷ ks) s =
    let s1 = on_connection k f s in
    IsQuiet-trans s s1 _ (IsQuiet-same s s1 refl refl) (on_each-IsQuiet f ks s1)

trigger_if_empty-requests : (r : LeaseRegistry) → (trigger_if_empty r).store ≡ r.store
unfolding trigger_if_empty
trigger_if_empty-requests r = ground arith

wake-requests : (n : ℕ) (r : LeaseRegistry) → (wake n r).store ≡ r.store
unfolding wake
wake-requests zero r = refl
wake-requests (suc n) r = wake-requests n (trigger_if_empty r) ∙ trigger_if_empty-requests r

settle-requests : (b : Bool) (r : LeaseRegistry) → (settle b r).store ≡ r.store
unfolding settle
settle-requests b r =
    ground (arith, wake-requests r.waiting (record r { trigger_in_flight = false; waiting = 0 }))

detach_connection-IsQuiet : (k : ℕ) (s : CoreServer) → IsQuiet s (detach_connection k s)
unfolding detach_connection disconnect delete_lease in_transaction trigger_if_empty
detach_connection-IsQuiet k s = IsQuiet-same s _ (ground arith) (ground arith)

accept-IsOnce : (k : ℕ) (s : CoreServer) → IsOnce s → IsOnce (accept k s)
unfolding accept
accept-IsOnce k s h = IsOnce-same s _ (ground arith) (ground arith) h

receive-IsOnce :
    (o : CoreServerOptions) (k : ℕ) (chunk : String) (s : CoreServer)
    → IsOnce s
    → IsOnce (receive o k chunk s)
unfolding receive
receive-IsOnce o k chunk s h = IsOnce-same s _ (ground arith) (ground arith) h

swept-IsOnce :
    (now : ℕ) (s : CoreServer) → IsOnce s → IsOnce (record s { leases = sweep now s.leases })
unfolding sweep delete_expired_leases in_transaction trigger_if_empty
swept-IsOnce now s h = IsOnce-same s _ refl (ground arith) h

closing-IsOnce : (s : CoreServer) → IsOnce s → IsOnce (ensure_transport_closing s)
unfolding ensure_transport_closing
closing-IsOnce s h =
    let s1 : CoreServer = record s { draining = true } in
    IsOnce-quiet s1 _ (on_each-IsQuiet stop_reading s.connections s1) (IsOnce-same s s1 refl refl h)

forced-IsOnce : (s : CoreServer) → IsOnce s → IsOnce (force_transport_close s)
unfolding force_transport_close
forced-IsOnce s h =
    IsOnce-quiet s _ (on_each-IsQuiet (λ c. destroy (stop_reading c)) s.connections s) h

restart-IsOnce : (s : CoreServer) → IsOnce s → IsOnce (restart s)
unfolding restart initialize clear_leases in_transaction
restart-IsOnce s h = IsOnce-same s _ refl refl h

write_store-IsOnce :
    (o : CoreServerOptions) (x : Write) (s : CoreServer) → IsOnce s → IsOnce (write_store o x s)
unfolding write_store
write_store-IsOnce o x s h = IsOnce-same s _ refl (write-requests x (store_of s)) h

step-IsOnce : (o : CoreServerOptions) (x : Step) (s : CoreServer) → IsOnce s → IsOnce (step o x s)
unfolding step
step-IsOnce o (accepted k) s h = accept-IsOnce k s h
step-IsOnce o (closed k) s h = IsOnce-quiet s _ (detach_connection-IsQuiet k s) h
step-IsOnce o (flushed k) s h = IsOnce-same s _ refl refl h
step-IsOnce o (failed k) s h = IsOnce-same s _ refl refl h
step-IsOnce o (received k chunk) s h = receive-IsOnce o k chunk s h
step-IsOnce o (consumed now at k) s h = consume-IsOnce o now at k s h
step-IsOnce o (settled now at key r) s h =
    IsOnce-quiet s _ (settle_request-IsQuiet o now at key r s) h
step-IsOnce o (swept now) s h = swept-IsOnce now s h
step-IsOnce o (lease_settled b) s h =
    IsOnce-same s _ refl (ap (λ t. t.db.ipc_mutation_requests) (settle-requests b s.leases)) h
step-IsOnce o closing s h = closing-IsOnce s h
step-IsOnce o forced s h = forced-IsOnce s h
step-IsOnce o restarted s h = restart-IsOnce s h
step-IsOnce o (wrote x) s h = write_store-IsOnce o x s h

-- Whatever the clients send, however the calls end and whenever the Core restarts, no mutating
-- request of a client is executed twice, and what was executed keeps its claim, if this holds of
-- the state at the start.
pub steps-IsOnce :
    (o : CoreServerOptions) (xs : List Step) (s : CoreServer) → IsOnce s → IsOnce (steps o xs s)
unfolding steps
steps-IsOnce o [] s h = h
steps-IsOnce o (x ∷ xs) s h = steps-IsOnce o xs (step o x s) (step-IsOnce o x s h)
