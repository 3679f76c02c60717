-- ===== src/Server/Machine/Landing.antt =====
-- packages/core/src/ipc/core-server.ts: the end of a request executes no mutation.
use agent_town.Prelude.{
  ℕ, String, refl, none, some, inl, inr, List, [], ◌∷◌, arith, Option-cases, filter, find, not,
  ◌==◌, string_eq, pair_eq, nat_eq,
}
use agent_town.Server.State.{
  Flight, CoreServer, CoreServerOptions, record_background_error, connection_of, Waiter, store_of,
  with_store,
}
use agent_town.Server.Methods.{outcome}
use agent_town.Server.Machine.Claims.{
  is_claimed, IsQuiet, IsQuiet-trans, IsQuiet-same, deliver-IsQuiet, replay-IsQuiet,
}
use agent_town.Server.Machine.{
  complete, store_response, resume_waiters, resume, land, settle_request, note_failure,
}
use agent_town.Server.Consume.{after_line}
use agent_town.Contract.Ipc.{IpcResponse, IpcRequest}
use agent_town.Server.Replies.{replay, deliver}
use agent_town.Contract.Value.{Value}
use agent_town.Server.Outbound.{bounded_response}
use agent_town.Server.Requests.{respond}
use agent_town.Storage.Requests.{complete_mutation_request, try_complete}
use agent_town.Result.{ok, err, Result}
use agent_town.Prelude.Table.{lookup, lookup-insert, remove}
use agent_town.Storage.Transaction.{in_transaction}

pub after_line-IsQuiet : (k : ℕ) (s : CoreServer) → IsQuiet s (after_line k s)
unfolding after_line
after_line-IsQuiet k s = IsQuiet-same s _ (ground arith) (ground arith)

pub resume-IsQuiet : (k : ℕ) (s : CoreServer) → IsQuiet s (resume k s)
unfolding after_line
resume-IsQuiet k s = IsQuiet-same s _ (ground arith) (ground arith)

pub note_failure-IsQuiet : (r : Result (Unit {0})) (s : CoreServer) → IsQuiet s (note_failure r s)
unfolding record_background_error
note_failure-IsQuiet (ok u) s = IsQuiet-same s s refl refl
note_failure-IsQuiet (err e) s = IsQuiet-same s _ refl refl

-- The end of a mutation is noted in its row.
pub completed-IsQuiet :
    (id rid at : String) (s : CoreServer)
    → IsQuiet s (with_store (complete_mutation_request id rid none at (store_of s)).1 s)
unfolding complete_mutation_request try_complete in_transaction is_claimed
completed-IsQuiet id rid at s =
    elim (Option-cases (lookup (id, rid) (store_of s).db.ipc_mutation_requests)) [
      | inl e ↦ record { executes_none = refl; keeps_claims = λ p h. ground (arith, e, h) }
      | inr (row, e) ↦ record {
        executes_none = refl;
        keeps_claims = λ p h. ground (
          arith,
          e,
          h,
          lookup-insert (id, rid) p
              (record row { state = "completed"; response = none; completed_at = some at })
              (store_of s).db.ipc_mutation_requests,
        );
      }
    ]

pub complete-IsQuiet :
    (at : String) (k : ℕ) (r : IpcRequest) (s : CoreServer) → IsQuiet s (complete at k r s)
unfolding complete
complete-IsQuiet at k r s = elim (Option-cases (connection_of k s).client_id) [
  | inl e ↦ ground (arith, e, IsQuiet-same s s refl refl)
  | inr (id, e) ↦
      let m = complete_mutation_request id r.request_id none at (store_of s) in
      let s1 = with_store m.1 s in
      ground (
        arith,
        e,
        IsQuiet-same s s refl refl,
        IsQuiet-trans s s1 (note_failure m.0 s1) (completed-IsQuiet id r.request_id at s)
            (note_failure-IsQuiet m.0 s1),
      )
]

pub store_response-IsQuiet :
    (o : CoreServerOptions) (f : Flight) (a : IpcResponse) (s : CoreServer)
    → IsQuiet s (store_response o f a s)
unfolding store_response
store_response-IsQuiet o f a s = IsQuiet-same s _ (ground arith) (ground arith)

module _ (o : CoreServerOptions) (now : ℕ) (at : String) where
  pub resume_waiters-IsQuiet :
      (a : IpcResponse) (xs : List Waiter) (s : CoreServer)
      → IsQuiet s (resume_waiters o now a xs s)
  unfolding resume_waiters
  resume_waiters-IsQuiet a [] s = IsQuiet-same s s refl refl
  resume_waiters-IsQuiet a (x ∷ xs) s =
      let s1 = replay o now x.connection x.request a s in
      let s2 = resume x.connection s1 in
      IsQuiet-trans s s2 _
        (IsQuiet-trans s s1 s2 (replay-IsQuiet o now x.connection x.request a s)
          (resume-IsQuiet x.connection s1))
        (resume_waiters-IsQuiet a xs s2)

  pub land-IsQuiet :
      (f : Flight) (a : IpcResponse) (s : CoreServer) → IsQuiet s (land o now at f a s)
  unfolding land
  land-IsQuiet f a s =
      let s0 : CoreServer = record s {
        pending_requests = remove f.key s.pending_requests;
        flights = filter (λ g. not (g.key == f.key)) s.flights;
        waiters = filter (λ x. not (x.key == f.key)) s.waiters;
      } in
      let s1 = complete at f.connection f.request s0 in
      let s2 = store_response o f a s1 in
      let s3 = deliver o f.connection f.request a s2 in
      let s4 = resume f.connection s3 in
      IsQuiet-trans s s0 _ (IsQuiet-same s s0 refl refl) (
        IsQuiet-trans s0 s1 _ (complete-IsQuiet at f.connection f.request s0) (
          IsQuiet-trans s1 s2 _ (store_response-IsQuiet o f a s1) (
            IsQuiet-trans s2 s3 _ (deliver-IsQuiet o now f.connection f.request a s2) (
              IsQuiet-trans s3 s4 _ (resume-IsQuiet f.connection s3)
                (resume_waiters-IsQuiet a _ s4)))))

  pub settle_request-IsQuiet :
      (key : String) (r : Result Value) (s : CoreServer)
      → IsQuiet s (settle_request o now at key r s)
  unfolding settle_request
  settle_request-IsQuiet key r s = elim (Option-cases (find (λ f. f.key == key) s.flights)) [
    | inl e ↦ ground (arith, e, IsQuiet-same s s refl refl)
    | inr (f, e) ↦
        let a =
          bounded_response o.wire
            (respond o.error_message f.request.request_id (outcome f.work r)) in
        ground (arith, e, land-IsQuiet f a s)
  ]
