-- ===== src/Storage/Requests.antt =====
-- packages/core/src/storage/core-store.ts: the claims of mutating requests, by which a request that
-- a client repeats is executed once. `at` is what `new Date().toISOString()` returns to the call.
use agent_town.Prelude.{String, Option, none, some, ◌==◌, string_eq, pair_eq, if◌then◌else◌}
use agent_town.Prelude.Table.{Table, lookup, insert}
use agent_town.Contract.Value.{Fields}
use agent_town.Result.{Result, ok, err, claim_disappeared, claim_not_found}
use agent_town.Exec.{Exec}
use agent_town.Storage.Schema.{MutationRequestRow}
use agent_town.Storage.Transaction.{Store, in_transaction}

pub data Claim : Type 0 where
  claimed duplicate conflict : Claim

abbrev pub Requests : Type 0
Requests = Table (String × String) MutationRequestRow

abbrev pub with_requests : Requests → Store → Store
with_requests rows s = record s { db = record s.db { ipc_mutation_requests = rows } }

abbrev pub claimed_row : String → String → MutationRequestRow
claimed_row fingerprint at = record {
  fingerprint = fingerprint;
  state = "claimed";
  response = none;
  claimed_at = at;
  completed_at = none;
}

-- The SELECT after an INSERT that was ignored.
abbrev pub compare_fingerprint : String → Option MutationRequestRow → Result Claim
compare_fingerprint fingerprint none = err claim_disappeared
compare_fingerprint fingerprint (some row) =
    ok (if row.fingerprint == fingerprint then duplicate else conflict)

-- INSERT OR IGNORE, and the answer by the number of changes.
unfoldable pub try_claim : String → String → String → String → Exec Store Claim
try_claim client_id request_id fingerprint at s =
    elim (lookup (client_id, request_id) s.db.ipc_mutation_requests) [
      | none ↦ (
        ok claimed,
        with_requests
            (insert (client_id, request_id) (claimed_row fingerprint at) s.db.ipc_mutation_requests)
            s,
      )
      | some _ ↦ (
        compare_fingerprint fingerprint (lookup (client_id, request_id) s.db.ipc_mutation_requests),
        s,
      )
    ]

-- claimMutationRequest(clientId, requestId, fingerprint)
unfoldable pub claim_mutation_request : String → String → String → String → Exec Store Claim
unfolding in_transaction try_claim
claim_mutation_request client_id request_id fingerprint at =
    in_transaction (try_claim client_id request_id fingerprint at)

unfoldable pub try_complete : String → String → Option Fields → String → Exec Store (Unit {0})
try_complete client_id request_id response at s =
    elim (lookup (client_id, request_id) s.db.ipc_mutation_requests) [
      | none ↦ (err (claim_not_found client_id request_id), s)
      | some row ↦ (
        ok tt,
        with_requests
            (insert (client_id, request_id)
              (record row { state = "completed"; response = response; completed_at = some at })
              s.db.ipc_mutation_requests)
            s,
      )
    ]

-- completeMutationRequest(clientId, requestId, response)
unfoldable pub complete_mutation_request :
    String → String → Option Fields → String → Exec Store (Unit {0})
unfolding in_transaction try_complete
complete_mutation_request client_id request_id response at =
    in_transaction (try_complete client_id request_id response at)
