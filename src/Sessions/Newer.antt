-- ===== src/Sessions/Newer.antt =====
-- The number of the ownership snapshot of SessionManager rises whenever the owners change.
use agent_town.Sessions.Calls.{run, Reads, run-Keeps}
use agent_town.Sessions.Steps.{
  Step, IsStable, Awaits, wrote, counted, queued, marked, registered, retained, cleaned, forgotten,
  adopted, dropped, begun, finished, cancelled,
}
use agent_town.Sessions.Handles.{
  delete_session, cleanup_ownership_snapshot, delete_cleanup, delete_handle, finish_replacement,
  register_handle, retain_for_cleanup, set_session, begin_replacement, cancel_pending_replacements,
  pending_owner, cancel,
}
use agent_town.Prelude.{
  pair_eq, string_eq, ◌<◌, String, ◌≡◌, refl, ◌∙◌, ap, subst, sym, ◌⊎◌, inl, inr, [], ◌∷◌, arith,
  Option-cases, map,
}
use agent_town.Sessions.{
  SessionManager, Manager, Table, Key, OwnershipSnapshot, PendingReplacement, SessionHandle,
  handle_key,
}
use agent_town.Prelude.Table.{lookup}
use agent_town.Sessions.Call.{Call}

-- The number has risen, or the snapshot is what it was, with its number.
abbrev pub IsNewer : Manager → Manager → Type 0
IsNewer m m' =
    (m.ownership_version < m'.ownership_version)
    ⊎ (cleanup_ownership_snapshot m' ≡ cleanup_ownership_snapshot m)

snapshot-version :
    (m m' : Manager)
    → cleanup_ownership_snapshot m' ≡ cleanup_ownership_snapshot m
    → m'.ownership_version ≡ m.ownership_version
unfolding cleanup_ownership_snapshot
snapshot-version m m' e = ap (λ (s : OwnershipSnapshot). s.version) e

IsNewer-trans : (m₀ m m' : Manager) → IsNewer m m' → IsNewer m₀ m → IsNewer m₀ m'
IsNewer-trans m₀ m m' (inl h) (inl g) = inl (omega arith)
IsNewer-trans m₀ m m' (inl h) (inr g) = inl (omega (arith, snapshot-version m₀ m g))
IsNewer-trans m₀ m m' (inr h) (inl g) = inl (omega (arith, snapshot-version m m' h))
IsNewer-trans m₀ m m' (inr h) (inr g) = inr (h ∙ g)

map-pending_owner :
    (t : Table String PendingReplacement) → map pending_owner (map cancel t) ≡ map pending_owner t
map-pending_owner [] = refl
map-pending_owner (p ∷ t) = ground (arith, map-pending_owner t)

register_handle-IsNewer : (h : SessionHandle) (m : Manager) → IsNewer m (register_handle h m).1
unfolding register_handle cleanup_ownership_snapshot
register_handle-IsNewer h m = elim (Option-cases (lookup (handle_key h) m.handle_orders)) [
  | inl e ↦ inr (ground arith)
  | inr (o, e) ↦ inr (ground arith)
]

retain-IsNewer : (h : SessionHandle) (m : Manager) → IsNewer m (retain_for_cleanup h m)
unfolding register_handle retain_for_cleanup
retain-IsNewer h m = inl (ground arith)

delete_cleanup-IsNewer : (key : Key) (m : Manager) → IsNewer m (delete_cleanup key m)
unfolding delete_cleanup
delete_cleanup-IsNewer key m = elim (Option-cases (lookup key m.cleanup_handles)) [
  | inl e ↦ inr (ground arith)
  | inr (o, e) ↦ inl (ground arith)
]

delete_handle-IsNewer : (key : Key) (m : Manager) → IsNewer m (delete_handle key m)
unfolding delete_handle cleanup_ownership_snapshot
delete_handle-IsNewer key m = delete_cleanup-IsNewer key m

delete_session-IsNewer : (e : String) (m : Manager) → IsNewer m (delete_session e m)
unfolding delete_session
delete_session-IsNewer e m = elim (Option-cases (lookup e m.sessions)) [
  | inl h ↦ inr (ground arith)
  | inr (o, h) ↦ inl (ground arith)
]

finish-IsNewer : (id : String) (m : Manager) → IsNewer m (finish_replacement id m)
unfolding finish_replacement
finish-IsNewer id m = elim (Option-cases (lookup id m.pending_replacements)) [
  | inl h ↦ inr (ground arith)
  | inr (o, h) ↦ inl (ground arith)
]

Step-IsNewer : (m m' : Manager) → Step m m' → IsNewer m m'
unfolding cleanup_ownership_snapshot set_session begin_replacement cancel_pending_replacements
Step-IsNewer m m' (wrote s free e) = inr (ap cleanup_ownership_snapshot e)
Step-IsNewer m m' (counted n e) = inr (ap cleanup_ownership_snapshot e)
Step-IsNewer m m' (queued n tails e) = inr (ap cleanup_ownership_snapshot e)
Step-IsNewer m m' (marked ids e) = inr (ap cleanup_ownership_snapshot e)
Step-IsNewer m m' (registered h e) = subst (IsNewer m) (sym e) (register_handle-IsNewer h m)
Step-IsNewer m m' (retained h e) = subst (IsNewer m) (sym e) (retain-IsNewer h m)
Step-IsNewer m m' (cleaned key e) = subst (IsNewer m) (sym e) (delete_cleanup-IsNewer key m)
Step-IsNewer m m' (forgotten key e) = subst (IsNewer m) (sym e) (delete_handle-IsNewer key m)
Step-IsNewer m m' (adopted id h e) = inl (ground arith)
Step-IsNewer m m' (dropped id e) = subst (IsNewer m) (sym e) (delete_session-IsNewer id m)
Step-IsNewer m m' (begun id employee_id e) = inl (ground arith)
Step-IsNewer m m' (finished id e) = subst (IsNewer m) (sym e) (finish-IsNewer id m)
Step-IsNewer m m' (cancelled e) =
    subst (IsNewer m) (sym e) (inr (ground (arith, map-pending_owner m.pending_replacements)))

pub IsNewer-stable : (m₀ : Manager) → IsStable (IsNewer m₀)
IsNewer-stable m₀ m m' step h = IsNewer-trans m₀ m m' (Step-IsNewer m m' step) h

-- Whatever a method of SessionManager does and however it ends, either the number of the snapshot
-- has risen or the snapshot of the owners is what it was; the same is asked of what runs while the
-- method waits, and of the reader of a stream.
pub run-IsNewer :
    (k : SessionManager) (m : Manager) (call : Call)
    → Awaits (IsNewer m) k
    → Reads (IsNewer m) call
    → IsNewer m (run k call m).1
run-IsNewer k m call aw r = (run-Keeps (IsNewer-stable m) k aw call r).run m (inr refl)
