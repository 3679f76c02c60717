-- ===== src/Sessions/Landed.antt =====
-- No handle that an adapter makes for a replacement is lost.
use agent_town.Sessions.{
  random_uuid, new_event, put, NewEvent, is_aborted, SessionManager, Manager, CleanupHandle,
  handle_key,
}
use agent_town.Exec.{modify, pure, ◌>>◌, Exec, raise, continue, resolve, try_catch}
use agent_town.Prelude.{
  ℕ, String, Bool, true, false, ◌≡◌, refl, Option, none, some, arith, ==_refl, string_eq, pair_eq,
  ◌||◌, ◌+◌,
}
use agent_town.Prelude.Table.{lookup, lookup-insert}
use agent_town.Contract.Value.{Fields}
use agent_town.Contract.Company.{EmployeeDefinition}
use agent_town.Contract.Agent.{SessionHandle}
use agent_town.Result.{
  Error, Result, ok, err, is_ok, replacement_cleanup_failed, replacement_aborted,
  abort_cleanup_failed,
}
use agent_town.Sessions.Handles.{
  register_handle, retain_for_cleanup, delete_cleanup, delete_handle, remove_cleanup_handle,
  forget_handle, set_session, delete_unavailable, finish_replacement, is_cancelled,
}
use agent_town.Sessions.Replace.{
  stop_or_retain, reject_aborted_replacement, persist_replacement, take_over, land, adopt,
  forget_previous,
}

-- A method that raised. Either it asked the adapter in a state of `at` to stop the handle, the adapter
-- did, and what the method leaves is the state after that, with the handle forgotten; or the handle
-- waits for its cleanup.
pub data Refused {A : Type 0} (k : SessionManager) (agent : String) (h : SessionHandle)
    (at : Manager → Type 0) (r : Result A) (s' : Manager) : Type 0 where
  stopped :
      (e : Error)
      → r ≡ err e
      → (s : Manager) → at s
      → is_ok ((k.adapter_for agent).stop h s).0 ≡ true
      → s' ≡ forget_handle h ((k.adapter_for agent).stop h s).1
      → Refused k agent h at r s'
  retained :
      (e : Error)
      → r ≡ err e
      → (c : CleanupHandle) → lookup (handle_key h) s'.cleanup_handles ≡ some c
      → Refused k agent h at r s'

-- What became of the handle: it is the session of the employee, or the method raised as above.
pub data Landed (k : SessionManager) (employee : EmployeeDefinition) (h : SessionHandle)
    (at : Manager → Type 0) (r : Result SessionHandle) (s' : Manager) : Type 0 where
  active : r ≡ ok h → lookup employee.id s'.sessions ≡ some h → Landed k employee h at r s'
  refused : Refused k employee.agent h at r s' → Landed k employee h at r s'

-- The handle is noted for cleanup and the replacement is no longer pending.
abbrev pub noted : String → SessionHandle → Manager → Manager
noted id h s = finish_replacement id (retain_for_cleanup h s)

abbrev pub started_event :
    SessionManager → EmployeeDefinition → Option String → Fields → Manager → NewEvent
started_event k employee task_id payload s = record {
  id = k.uuid s.uuids;
  type = "session.started";
  actor_id = employee.id;
  task_id = task_id;
  causation_event_id = none;
  payload = payload;
}

-- The session and its event are written.
abbrev pub saved :
    SessionManager
    → EmployeeDefinition
    → Option String
    → Fields
    → SessionHandle
    → Manager
    → Result (Unit {0}) × Manager
saved k employee task_id payload h s =
    put k employee.id h "running" (started_event k employee task_id payload s)
      (record s { uuids = s.uuids + 1 })

-- The states in which the adapter is asked to stop a session that it made in s: the replacement was
-- aborted or cancelled by then, or the write of the session failed.
pub data Asked (k : SessionManager) (employee : EmployeeDefinition) (h : SessionHandle)
    (task_id : Option String) (payload : Fields) (signal : Option ℕ) (id : String) (s : Manager)
    : Manager → Type 0 where
  rejected :
      (is_aborted signal s || is_cancelled id s) ≡ true
      → Asked k employee h task_id payload signal id s (noted id h s)
  unsaved :
      (e : Error)
      → (saved k employee task_id payload h (noted id h s)).0 ≡ err e
      → Asked k employee h task_id payload signal id s
          (saved k employee task_id payload h (noted id h s)).1

retain-lookup :
    (h : SessionHandle) (m : Manager)
    → (c : CleanupHandle) × (lookup (handle_key h) (retain_for_cleanup h m).cleanup_handles
        ≡ some c)
unfolding retain_for_cleanup
retain-lookup h m =
    let m' = register_handle h m in
    let c : CleanupHandle = record { handle = h; order = m'.0 } in
    (
      c,
      ground (
        arith,
        lookup-insert (handle_key h) (handle_key h) c m'.1.cleanup_handles,
        ==_refl (handle_key h),
      ),
    )

delete_handle-sessions : (key : _) (m : Manager) → (delete_handle key m).sessions ≡ m.sessions
unfolding delete_handle delete_cleanup
delete_handle-sessions key m = ground arith

forget_previous-sessions :
    (p : Option SessionHandle) (h : SessionHandle) (m : Manager)
    → (forget_previous p h m).sessions ≡ m.sessions
unfolding forget_previous forget_handle
forget_previous-sessions none h m = refl
forget_previous-sessions (some p) h m = ground (arith, delete_handle-sessions (handle_key p) m)

adopt-lookup :
    (e : String) (h : SessionHandle) (m : Manager) → lookup e (adopt e h m).sessions ≡ some h
unfolding adopt remove_cleanup_handle delete_cleanup set_session delete_unavailable
adopt-lookup e h m =
    let m' = remove_cleanup_handle h (delete_unavailable e (set_session e h m)) in
    ground (
      arith,
      forget_previous-sessions (lookup e m.sessions) h m',
      lookup-insert e e h m.sessions,
      ==_refl e,
    )

same_signals :
    (signal : Option ℕ) (h : SessionHandle) (id : String) (m : Manager)
    → is_aborted signal (finish_replacement id (retain_for_cleanup h m)) ≡ is_aborted signal m
unfolding finish_replacement retain_for_cleanup register_handle
same_signals none h id m = refl
same_signals (some signal) h id m = ground arith

same_flags :
    (h : SessionHandle) (id : String) (m : Manager)
    → is_cancelled id (retain_for_cleanup h m) ≡ is_cancelled id m
unfolding is_cancelled retain_for_cleanup register_handle
same_flags h id m = ground arith

module _ (k : SessionManager) (employee : EmployeeDefinition) (h : SessionHandle)
    (at : Manager → Type 0) where
  after_stop-Refused :
      {A : Type 0} (e failure : Error) (s : Manager)
      → at s
      → (r : Result (Unit {0})) → ((k.adapter_for employee.agent).stop h s).0 ≡ r
      → let m : Exec Manager A =
          resolve r
            (λ _. modify (forget_handle h) >> raise e)
            (λ _. modify (retain_for_cleanup h) >> raise failure) in
        let s' = ((k.adapter_for employee.agent).stop h s).1 in
        Refused k employee.agent h at (m s').0 (m s').1
  after_stop-Refused e failure s asked (ok u) f = stopped e refl s asked (ground (arith, f)) refl
  after_stop-Refused e failure s asked (err x) f =
      let (c, found) = retain-lookup h ((k.adapter_for employee.agent).stop h s).1 in
      retained failure refl c found

  stop_or_retain-Refused :
      {A : Type 0} (e failure : Error) (s : Manager)
      → at s
      → let m : Exec Manager A = stop_or_retain k employee h (raise e) failure in
        Refused k employee.agent h at (m s).0 (m s).1
  unfolding stop_or_retain try_catch
  stop_or_retain-Refused e failure s asked =
      after_stop-Refused e failure s asked ((k.adapter_for employee.agent).stop h s).0 refl

  -- What follows an error does not run.
  Refused-continue :
      {A : Type 0} (r : Result A) (f : A → Exec Manager SessionHandle) (s : Manager)
      → Refused k employee.agent h at r s
      → Refused k employee.agent h at (continue r f s).0 (continue r f s).1
  Refused-continue (ok a) f s (stopped e x s' i y z) = cc
  Refused-continue (ok a) f s (retained e x c y) = cc
  Refused-continue (err e') f s (stopped e x s' i y z) = stopped e' refl s' i y z
  Refused-continue (err e') f s (retained e x c y) = retained e' refl c y

  after_put-Landed :
      (r : Result (Unit {0})) (s : Manager)
      → ((e : Error) → r ≡ err e → at s)
      → let m : Exec Manager (Unit {0}) =
          resolve r
            (λ _. modify (adopt employee.id h))
            (λ error. stop_or_retain k employee h (raise error) replacement_cleanup_failed) in
        Landed k employee h at
          (continue (m s).0 (λ _. pure h) (m s).1).0
          (continue (m s).0 (λ _. pure h) (m s).1).1
  after_put-Landed (ok u) s asked = active refl (adopt-lookup employee.id h s)
  after_put-Landed (err e) s asked =
      let m : Exec Manager (Unit {0}) =
        stop_or_retain k employee h (raise e) replacement_cleanup_failed in
      refused (
        Refused-continue (m s).0 (λ _. pure h) (m s).1
          (stop_or_retain-Refused e replacement_cleanup_failed s (asked e refl)))

  take_over-Landed :
      (task_id : Option String) (payload : Fields) (s : Manager)
      → ((e : Error)
          → (saved k employee task_id payload h s).0 ≡ err e
          → at (saved k employee task_id payload h s).1)
      → Landed k employee h at
          (take_over k employee task_id payload h s).0
          (take_over k employee task_id payload h s).1
  unfolding take_over persist_replacement try_catch new_event random_uuid
  take_over-Landed task_id payload s asked =
      let stored = saved k employee task_id payload h s in after_put-Landed stored.0 stored.1 asked

  after_reject-Landed :
      (task_id : Option String) (payload : Fields) (is_rejected : Bool) (s : Manager)
      → (is_rejected ≡ true → at s)
      → ((e : Error)
          → (saved k employee task_id payload h s).0 ≡ err e
          → at (saved k employee task_id payload h s).1)
      → let m : Exec Manager (Unit {0}) = elim is_rejected [
        | false ↦ pure tt
        | true ↦
            stop_or_retain k employee h
              (raise (replacement_aborted employee.id))
              (abort_cleanup_failed employee.id)
      ] in
        Landed k employee h at
          (continue (m s).0 (λ _. take_over k employee task_id payload h) (m s).1).0
          (continue (m s).0 (λ _. take_over k employee task_id payload h) (m s).1).1
  after_reject-Landed task_id payload false s asked failed =
      take_over-Landed task_id payload s failed
  after_reject-Landed task_id payload true s asked failed =
      let m : Exec Manager (Unit {0}) =
        stop_or_retain k employee h (raise (replacement_aborted employee.id))
          (abort_cleanup_failed employee.id) in
      refused (
        Refused-continue (m s).0 (λ _. take_over k employee task_id payload h) (m s).1
          (stop_or_retain-Refused (replacement_aborted employee.id)
            (abort_cleanup_failed employee.id) s (asked refl)))

-- Whatever the adapter, the store and the signal do once a session was made for a replacement, its
-- handle is not lost: either resumeOne or rebuildOne returns it and it is the session of the employee,
-- or it raises, and then the handle waits for its cleanup, or the adapter was asked in this run to
-- stop it, because the replacement was aborted or cancelled or the write of the session failed, and
-- it did, and what is left is the state after that stop, with the handle forgotten.
pub land-Landed :
    (k : SessionManager) (employee : EmployeeDefinition) (h : SessionHandle)
    (task_id : Option String) (payload : SessionHandle → Fields) (signal : Option ℕ) (id : String)
    (s : Manager)
    → Landed k employee h
        (Asked k employee h task_id (payload h) signal id s)
        (land k employee task_id payload signal id h s).0
        (land k employee task_id payload signal id h s).1
unfolding land reject_aborted_replacement
land-Landed k employee h task_id payload signal id s =
    let s₁ = retain_for_cleanup h s in
    after_reject-Landed k employee h _ task_id (payload h)
      (is_aborted signal (finish_replacement id s₁) || is_cancelled id s₁) (noted id h s)
      (λ e. rejected (ground (arith, e, same_signals signal h id s, same_flags h id s))) unsaved
