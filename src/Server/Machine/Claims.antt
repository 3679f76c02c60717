-- ===== src/Server/Machine/Claims.antt =====
-- packages/core/src/ipc/core-server.ts: a mutating request of a client is executed at most once.
use agent_town.Prelude.{
  ℕ, String, ◌≡◌, refl, Bool, true, false, none, some, inl, inr, List, [], ◌∷◌, includes, string_eq,
  pair_eq, arith, Bool-cases, subst, ◌∙◌, sym,
}
use agent_town.Prelude.Table.{lookup}
use agent_town.Contract.Value.{Fields}
use agent_town.Contract.Ipc.{IpcRequest, IpcResponse, is_success}
use agent_town.Result.{Result-cases}
use agent_town.Storage.Transaction.{in_transaction}
use agent_town.Leases.{heartbeat as renew_lease}
use agent_town.Server.State.{CoreServerOptions, CoreServer}
use agent_town.Server.Methods.{
  handshake, join_client, dispatch, heartbeat, note_execution, dispatch_method,
}
use agent_town.Server.Requests.{is_mutating}
use agent_town.Server.Replies.{deliver, apply_replay_local_effects, replay, begin}
use agent_town.Storage.Leases.{upsert_lease}

-- A request is claimed when its row is there.
unfoldable pub is_claimed : CoreServer → String × String → Bool
is_claimed s p = elim (lookup p s.leases.store.db.ipc_mutation_requests) [
  | none ↦ false
  | some _ ↦ true
]

unfoldable pub IsDistinct : List (String × String) → Type 0
IsDistinct [] = Unit
IsDistinct (p ∷ ps) = (includes ps p ≡ false) × IsDistinct ps

-- What was executed is claimed, and was executed once.
pub record IsOnce (s : CoreServer) : Type 0 where
  pub each_claimed : (p : String × String) → includes s.executed p ≡ true → is_claimed s p ≡ true
  pub distinct : IsDistinct s.executed

-- Nothing is executed, and no claim is lost.
pub record IsQuiet (s s' : CoreServer) : Type 0 where
  pub executes_none : s'.executed ≡ s.executed
  pub keeps_claims : (p : String × String) → is_claimed s p ≡ true → is_claimed s' p ≡ true

pub IsOnce-quiet : (s s' : CoreServer) → IsQuiet s s' → IsOnce s → IsOnce s'
IsOnce-quiet s s' q h = record {
  each_claimed = λ p e. q.keeps_claims p (h.each_claimed p (ground (arith, q.executes_none, e)));
  distinct = subst IsDistinct (sym q.executes_none) h.distinct;
}

pub IsQuiet-trans : (s t u : CoreServer) → IsQuiet s t → IsQuiet t u → IsQuiet s u
IsQuiet-trans s t u p q = record {
  executes_none = q.executes_none ∙ p.executes_none;
  keeps_claims = λ k h. q.keeps_claims k (p.keeps_claims k h);
}

pub IsQuiet-same :
    (s s' : CoreServer)
    → s'.executed ≡ s.executed
    → s'.leases.store.db.ipc_mutation_requests ≡ s.leases.store.db.ipc_mutation_requests
    → IsQuiet s s'
unfolding is_claimed
IsQuiet-same s s' e r = record { executes_none = e; keeps_claims = λ p h. ground (arith, r, h) }

pub IsOnce-same :
    (s s' : CoreServer)
    → s'.executed ≡ s.executed
    → s'.leases.store.db.ipc_mutation_requests ≡ s.leases.store.db.ipc_mutation_requests
    → IsOnce s
    → IsOnce s'
IsOnce-same s s' e r h = IsOnce-quiet s s' (IsQuiet-same s s' e r) h

module _ (o : CoreServerOptions) (now : ℕ) where
  pub deliver-IsQuiet :
      (k : ℕ) (r : IpcRequest) (a : IpcResponse) (s : CoreServer) → IsQuiet s (deliver o k r a s)
  unfolding deliver
  deliver-IsQuiet k r a s = IsQuiet-same s _ (ground arith) (ground arith)

  handshake-IsQuiet :
      (k : ℕ) (params : Fields) (s : CoreServer) → IsQuiet s (handshake o now k params s).1
  unfolding handshake join_client renew_lease upsert_lease in_transaction
  handshake-IsQuiet k params s = IsQuiet-same s _ (ground arith) (ground arith)

  heartbeat-IsQuiet :
      (k : ℕ) (params : Fields) (s : CoreServer) → IsQuiet s (heartbeat now k params s).1
  unfolding heartbeat renew_lease upsert_lease in_transaction
  heartbeat-IsQuiet k params s = IsQuiet-same s _ (ground arith) (ground arith)

  effects-IsQuiet :
      (k : ℕ) (r : IpcRequest) (s : CoreServer)
      → IsQuiet s (apply_replay_local_effects o now k r s).1
  unfolding apply_replay_local_effects
  effects-IsQuiet k r s = ground (
    arith,
    handshake-IsQuiet k r.params s,
    heartbeat-IsQuiet k r.params s,
    IsQuiet-same s s refl refl,
  )

  pub replay-IsQuiet :
      (k : ℕ) (r : IpcRequest) (a : IpcResponse) (s : CoreServer) → IsQuiet s (replay o now k r a s)
  unfolding replay
  replay-IsQuiet k r a s = elim (Bool-cases (is_success a)) [
    | inr e ↦ ground (arith, deliver-IsQuiet k r a s, e)
    | inl e ↦
        let s1 = (apply_replay_local_effects o now k r s).1 in
        let q = effects-IsQuiet k r s in
        elim (Result-cases (apply_replay_local_effects o now k r s).0) [
          | inl (v, f) ↦
              ground
                (arith, IsQuiet-trans s s1 (deliver o k r a s1) q (deliver-IsQuiet k r a s1), e, f)
          | inr (x, f) ↦
              IsQuiet-trans s s1 _ q
                (IsQuiet-same s1 _ (ground (arith, e, f)) (ground (arith, e, f)))
        ]
  ]

  method-IsQuiet :
      (k : ℕ) (r : IpcRequest) (s : CoreServer) → IsQuiet s (dispatch_method o now k r s).1
  method-IsQuiet k r s = ground (
    arith,
    handshake-IsQuiet k r.params s,
    heartbeat-IsQuiet k r.params s,
    IsQuiet-same s s refl refl,
  )

  -- What begins a request executes what its dispatch notes, and no more.
  pub begin-IsQuiet :
      (k : ℕ) (r : IpcRequest) (key fp : String) (s : CoreServer)
      → IsQuiet (note_execution k r s) (begin o now k r key fp s)
  unfolding begin dispatch
  begin-IsQuiet k r key fp s =
      let s1 = (dispatch_method o now k r (note_execution k r s)).1 in
      IsQuiet-trans _ s1 _ (method-IsQuiet k r (note_execution k r s)) (IsQuiet-same s1 _ refl refl)

  -- A request that does not mutate executes nothing.
  pub read-IsQuiet :
      (k : ℕ) (r : IpcRequest) (key fp : String) (s : CoreServer)
      → is_mutating r.method ≡ false
      → IsQuiet s (begin o now k r key fp s)
  unfolding note_execution
  read-IsQuiet k r key fp s reads =
      IsQuiet-trans s (note_execution k r s) _
        (IsQuiet-same s _ (ground (arith, reads)) (ground (arith, reads)))
        (begin-IsQuiet k r key fp s)
