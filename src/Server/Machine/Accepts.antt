-- ===== src/Server/Machine/Accepts.antt =====
-- packages/core/src/ipc/core-server.ts: which mutating requests are executed.
use agent_town.Prelude.{String, ◌≡◌, none, some, [], ◌∷◌, ◌++◌, string_eq, pair_eq, nat_eq}
use agent_town.Prelude.Table.{lookup}
use agent_town.Contract.Ipc.{IpcRequest}
use agent_town.Server.State.{CoreServer, Flight, store_of}

-- The server remembers no request under the key, and the database has no claim of it.
pub record IsUnseen (key : String) (p : String × String) (s : CoreServer) : Type 0 where
  pub uncached : lookup key s.memory.request_cache ≡ none
  pub unburied : lookup key s.memory.request_tombstones ≡ none
  pub idle : lookup key s.pending_requests ≡ none
  pub unclaimed : lookup p (store_of s).db.ipc_mutation_requests ≡ none

-- The request is executed and waits for the end of its call.
pub record IsBegun (r : IpcRequest) (key fp : String) (p : String × String) (s s' : CoreServer)
    : Type 0 where
  pub executed : s'.executed ≡ p ∷ s.executed
  pub awaited : lookup key s'.pending_requests ≡ some fp
  pub flight : Flight
  pub flies : s'.flights ≡ s.flights ++ flight ∷ []
  pub own : flight.request ≡ r
  pub keyed : flight.key ≡ key

pub data Admission (r : IpcRequest) (key fp : String) (p : String × String) (s s' : CoreServer)
    : Type 0 where
  begun : IsUnseen key p s → IsBegun r key fp p s s' → Admission r key fp p s s'
  turned_away : ¬ IsUnseen key p s → s'.executed ≡ s.executed → Admission r key fp p s s'
