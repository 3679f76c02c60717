-- ===== src/Storage/Leases.antt =====
-- packages/core/src/storage/core-store.ts: the leases of the connected clients.
use agent_town.Prelude.{ℕ, String, not, [], filter, length, leb, string_eq}
use agent_town.Prelude.Table.{Table, insert, remove}
use agent_town.Result.{ok}
use agent_town.Exec.{Exec, modify}
use agent_town.Storage.Transaction.{Store, in_transaction}

abbrev pub with_leases : Table String ℕ → Store → Store
with_leases rows s = record s { db = record s.db { client_leases = rows } }

-- upsertLease(clientId, expiresAtMs)
unfoldable pub upsert_lease : String → ℕ → Exec Store (Unit {0})
unfolding in_transaction
upsert_lease client_id expires_at_ms =
    in_transaction (modify λ s. with_leases (insert client_id expires_at_ms s.db.client_leases) s)

-- deleteLease(clientId)
unfoldable pub delete_lease : String → Exec Store (Unit {0})
unfolding in_transaction
delete_lease client_id =
    in_transaction (modify λ s. with_leases (remove client_id s.db.client_leases) s)

-- DELETE FROM client_leases WHERE expires_at_ms <= ?
abbrev pub unexpired : ℕ → Table String ℕ → Table String ℕ
unexpired now_ms = filter (λ lease. not (leb lease.1 now_ms))

abbrev pub expired : ℕ → Table String ℕ → Table String ℕ
expired now_ms = filter (λ lease. leb lease.1 now_ms)

-- deleteExpiredLeases(nowMs), with the number of rows that it deleted
unfoldable pub delete_expired_leases : ℕ → Exec Store ℕ
unfolding in_transaction
delete_expired_leases now_ms = in_transaction λ s. (
  ok (length (expired now_ms s.db.client_leases)),
  with_leases (unexpired now_ms s.db.client_leases) s,
)

-- countLeases()
unfoldable pub count_leases : Store → ℕ
count_leases s = length s.db.client_leases

-- clearLeases()
unfoldable pub clear_leases : Exec Store (Unit {0})
unfolding in_transaction
clear_leases = in_transaction (modify λ s. with_leases [] s)
