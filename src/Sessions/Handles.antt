-- ===== src/Sessions/Handles.antt =====
-- packages/core/src/agents/session-manager.ts: the handles that SessionManager owns, their order, and
-- the snapshot of the owners.
use agent_town.Prelude.{
  ℕ, ◌+◌, String, Bool, true, false, none, some, List, [], ◌∷◌, ◌++◌, map, leb, ◌==◌, string_eq,
  pair_eq, if◌then◌else◌,
}
use agent_town.Prelude.Table.{Table, lookup, insert, remove}
use agent_town.Contract.Agent.{SessionHandle}
use agent_town.Sessions.{
  Manager, Key, handle_key, CleanupHandle, PendingReplacement, StopOutcome, StopStatus, Owner,
  OwnerKind, OwnershipSnapshot,
}

-- #registerHandle(handle)
unfoldable pub register_handle : SessionHandle → Manager → ℕ × Manager
register_handle handle m = elim (lookup (handle_key handle) m.handle_orders) [
  | some existing ↦ (existing, m)
  | none ↦ (
    m.next_handle_order + 1,
    record m {
      next_handle_order = m.next_handle_order + 1;
      handle_orders = insert (handle_key handle) (m.next_handle_order + 1) m.handle_orders;
    },
  )
]

-- #retainForCleanup(handle)
unfoldable pub retain_for_cleanup : SessionHandle → Manager → Manager
retain_for_cleanup handle m =
    let (order, m') = register_handle handle m in
    record m' {
      cleanup_handles =
          insert (handle_key handle) (record { handle = handle; order = order }) m'.cleanup_handles;
      ownership_version = m'.ownership_version + 1;
    }

-- if (this.#cleanupHandles.delete(key)) this.#ownershipVersion += 1
unfoldable pub delete_cleanup : Key → Manager → Manager
delete_cleanup key m = elim (lookup key m.cleanup_handles) [
  | none ↦ m
  | some _ ↦ record m {
    cleanup_handles = remove key m.cleanup_handles;
    ownership_version = m.ownership_version + 1;
  }
]

-- … and then this.#handleOrders.delete(key)
unfoldable pub delete_handle : Key → Manager → Manager
delete_handle key m =
    let m' = delete_cleanup key m in record m' { handle_orders = remove key m'.handle_orders }

-- #forgetHandle(handle)
unfoldable pub forget_handle : SessionHandle → Manager → Manager
unfolding delete_handle
forget_handle handle m = delete_handle (handle_key handle) m

-- #removeCleanupHandle(handle)
unfoldable pub remove_cleanup_handle : SessionHandle → Manager → Manager
unfolding delete_cleanup
remove_cleanup_handle handle m = delete_cleanup (handle_key handle) m

-- this.#sessions.set(employeeId, handle); this.#ownershipVersion += 1
unfoldable pub set_session : String → SessionHandle → Manager → Manager
set_session employee_id handle m = record m {
  sessions = insert employee_id handle m.sessions;
  ownership_version = m.ownership_version + 1;
}

-- if (this.#sessions.delete(employeeId)) this.#ownershipVersion += 1
unfoldable pub delete_session : String → Manager → Manager
delete_session employee_id m = elim (lookup employee_id m.sessions) [
  | none ↦ m
  | some _ ↦ record m {
    sessions = remove employee_id m.sessions;
    ownership_version = m.ownership_version + 1;
  }
]

-- The same, if the handle that is current for the employee has the key.
unfoldable pub delete_current : String → Key → Manager → Manager
unfolding delete_session
delete_current employee_id key m = elim (lookup employee_id m.sessions) [
  | none ↦ m
  | some current ↦ if handle_key current == key then delete_session employee_id m else m
]

-- this.#unavailableEmployees.add(employeeId)
unfoldable pub add_unavailable : String → Manager → Manager
add_unavailable employee_id m = record m { unavailable = employee_id ∷ m.unavailable }

unfoldable without : String → List String → List String
without id [] = []
without id (x ∷ xs) = let rest = without id xs in if x == id then rest else x ∷ rest

-- this.#unavailableEmployees.delete(employeeId)
unfoldable pub delete_unavailable : String → Manager → Manager
unfolding without
delete_unavailable employee_id m = record m { unavailable = without employee_id m.unavailable }

-- #beginReplacement(employeeId), for the id that randomUUID() gave
unfoldable pub begin_replacement : String → String → Manager → Manager
begin_replacement id employee_id m = record m {
  pending_replacements =
      insert id (record { employee_id = employee_id; cancelled = false }) m.pending_replacements;
  ownership_version = m.ownership_version + 1;
}

-- #finishReplacement(id)
unfoldable pub finish_replacement : String → Manager → Manager
finish_replacement id m = elim (lookup id m.pending_replacements) [
  | none ↦ m
  | some _ ↦ record m {
    pending_replacements = remove id m.pending_replacements;
    ownership_version = m.ownership_version + 1;
  }
]

-- pending.state.cancelled: the object is shared with the map while it stands there.
unfoldable pub is_cancelled : String → Manager → Bool
is_cancelled id m = elim (lookup id m.pending_replacements) [
  | none ↦ false
  | some pending ↦ pending.cancelled
]

abbrev pub pending_outcome : String × PendingReplacement → StopOutcome
pending_outcome (id, pending) = record {
  employee_id = pending.employee_id;
  status = StopStatus.aborted;
  error = some "replacement creation still pending";
}

abbrev pub cancel : String × PendingReplacement → String × PendingReplacement
cancel (id, pending) = (id, record pending { cancelled = true })

-- cancelPendingReplacements()
unfoldable pub cancel_pending_replacements : Manager → List StopOutcome × Manager
cancel_pending_replacements m = (
  map pending_outcome m.pending_replacements,
  record m { pending_replacements = map cancel m.pending_replacements },
)

pub record Candidate : Type 0 where
  pub employee_id : String
  pub handle : SessionHandle
  pub active : Bool
  pub order : ℕ

-- The first loop of #collectStopCandidates, over the sessions.
unfoldable pub active_candidates :
    Table String SessionHandle → Table Key Candidate → Manager → Table Key Candidate × Manager
active_candidates [] candidates m = (candidates, m)
active_candidates ((employee_id, handle) ∷ rest) candidates m =
    let (order, m') = register_handle handle m in
    let candidate : Candidate = record {
      employee_id = employee_id;
      handle = handle;
      active = true;
      order = order;
    } in
    active_candidates rest (insert (handle_key handle) candidate candidates) m'

-- The second, over the handles that wait for their cleanup.
unfoldable pub cleanup_candidates :
    Table Key CleanupHandle → Table Key Candidate → Table Key Candidate
cleanup_candidates [] candidates = candidates
cleanup_candidates ((key, cleanup) ∷ rest) candidates =
    let candidate : Candidate = record {
      employee_id = cleanup.handle.employee_id;
      handle = cleanup.handle;
      active = false;
      order = cleanup.order;
    } in
    let added = cleanup_candidates rest (insert key candidate candidates) in
    let kept = cleanup_candidates rest candidates in
    elim (lookup key candidates) [ some _ ↦ kept | none ↦ added ]

unfoldable pub insert_newest : Key × Candidate → List (Key × Candidate) → List (Key × Candidate)
insert_newest x [] = x ∷ []
insert_newest x (y ∷ ys) =
    let rest = insert_newest x ys in if leb y.1.order x.1.order then x ∷ y ∷ ys else y ∷ rest

-- sort(([, left], [, right]) => right.order - left.order)
unfoldable pub sort_newest : List (Key × Candidate) → List (Key × Candidate)
unfolding insert_newest
sort_newest [] = []
sort_newest (x ∷ xs) = insert_newest x (sort_newest xs)

-- #collectStopCandidates
unfoldable pub collect_stop_candidates : Manager → List (Key × Candidate) × Manager
unfolding active_candidates cleanup_candidates sort_newest
collect_stop_candidates m =
    let (candidates, m') = active_candidates m.sessions [] m in
    (sort_newest (cleanup_candidates m'.cleanup_handles candidates), m')

unfoldable pub active_owners : Table String SessionHandle → Table Key Owner → Table Key Owner
active_owners [] owners = owners
active_owners ((employee_id, handle) ∷ rest) owners = active_owners rest (
    insert (handle_key handle) (record { employee_id = employee_id; kind = OwnerKind.active })
      owners)

unfoldable pub cleanup_owners : Table Key CleanupHandle → Table Key Owner → Table Key Owner
cleanup_owners [] owners = owners
cleanup_owners ((key, c) ∷ rest) owners =
    let owner : Owner = record { employee_id = c.handle.employee_id; kind = OwnerKind.cleanup } in
    let added = cleanup_owners rest (insert key owner owners) in
    let kept = cleanup_owners rest owners in
    elim (lookup key owners) [ some _ ↦ kept | none ↦ added ]

abbrev pub pending_owner : String × PendingReplacement → Owner
pending_owner (id, pending) = record {
  employee_id = pending.employee_id;
  kind = OwnerKind.pending_replacement;
}

abbrev owner_of : Key × Owner → Owner
owner_of (key, owner) = owner

-- cleanupOwnershipSnapshot()
unfoldable pub cleanup_ownership_snapshot : Manager → OwnershipSnapshot
unfolding active_owners cleanup_owners
cleanup_ownership_snapshot m = record {
  version = m.ownership_version;
  owners =
      map owner_of (cleanup_owners m.cleanup_handles (active_owners m.sessions []))
      ++ map pending_owner m.pending_replacements;
}
