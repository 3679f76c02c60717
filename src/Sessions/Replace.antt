-- ===== src/Sessions/Replace.antt =====
-- packages/core/src/agents/session-manager.ts: the turns of an employee, and the replacement of its
-- session.
use agent_town.Prelude.{
  ℕ, ◌+◌, String, Bool, true, false, not, Option, none, some, ◌||◌, ◌==◌, string_eq, pair_eq,
  nat_eq, if◌then◌else◌,
}
use agent_town.Prelude.Table.{lookup, insert, remove}
use agent_town.Contract.Value.{bool, str, Fields, field, end}
use agent_town.Contract.Company.{EmployeeDefinition}
use agent_town.Contract.Agent.{SessionHandle, SessionCheckpoint}
use agent_town.Result.{
  Error, ok, guard, checkpoint_employee_mismatch, replacement_aborted, replacement_cleanup_failed,
  abort_cleanup_failed,
}
use agent_town.Exec.{Exec, ◌>>=◌, ◌>>◌, pure, asks, modify, raise, lift, try_catch, try_finally}
use agent_town.Storage.Schema.{NewEvent}
use agent_town.Checkpoint.Payload.{handle_value}
use agent_town.Sessions.{
  SessionManager, Manager, handle_key, StartSessionInput, is_aborted, random_uuid, new_event, put,
}
use agent_town.Sessions.Handles.{
  retain_for_cleanup, forget_handle, remove_cleanup_handle, set_session, delete_unavailable,
  begin_replacement, finish_replacement, is_cancelled,
}

-- The function that #acquire returns, for the tail with the number.
unfoldable pub release : String → ℕ → Manager → Manager
release employee_id tail m = elim (lookup employee_id m.send_tails) [
  | none ↦ m
  | some last ↦
      if last == tail then record m { send_tails = remove employee_id m.send_tails } else m
]

-- if (previous !== undefined && this.#handleKey(previous) !== this.#handleKey(handle)) …
unfoldable pub forget_previous : Option SessionHandle → SessionHandle → Manager → Manager
forget_previous none handle m = m
forget_previous (some previous) handle m =
    if handle_key previous == handle_key handle then m else forget_handle previous m

-- The end of #persistReplacement, once the session is stored.
unfoldable pub adopt : String → SessionHandle → Manager → Manager
unfolding forget_previous
adopt employee_id handle m = forget_previous (lookup employee_id m.sessions) handle (
    remove_cleanup_handle handle
      (delete_unavailable employee_id (set_session employee_id handle m)))

module _ (k : SessionManager) where
  abbrev pub await_previous : Option ℕ → ℕ → Exec Manager ℕ
  await_previous none tail = pure tail
  await_previous (some previous) tail = k.settled previous >> pure tail

  -- #acquire(employeeId): the number of the tail, once the previous one is settled.
  unfoldable pub acquire : String → Exec Manager ℕ
  acquire employee_id m =
      let taken : Manager = record m {
        tails = m.tails + 1;
        send_tails = insert employee_id m.tails m.send_tails;
      } in
      await_previous (lookup employee_id m.send_tails) m.tails taken

  -- const release = await this.#acquire(…); try { … } finally { release(); }
  unfoldable pub in_turn : {A : Type 0} → String → Exec Manager A → Exec Manager A
  unfolding acquire release
  in_turn employee_id body =
      acquire employee_id >>= λ tail. try_finally body (release employee_id tail)

  -- try { await stop(handle); this.#forgetHandle(handle); } catch { this.#retainForCleanup(handle); … }
  unfoldable pub stop_or_retain :
      {A : Type 0} → EmployeeDefinition → SessionHandle → Exec Manager A → Error → Exec Manager A
  stop_or_retain employee handle next failure =
      try_catch ((k.adapter_for employee.agent).stop handle)
        (λ _. modify (forget_handle handle) >> next)
        (λ _. modify (retain_for_cleanup handle) >> raise failure)

  -- #rejectAbortedReplacement
  unfoldable pub reject_aborted_replacement :
      EmployeeDefinition → SessionHandle → Option ℕ → Bool → Exec Manager (Unit {0})
  unfolding stop_or_retain
  reject_aborted_replacement employee handle signal cancelled = do
    rejected ← asks (λ m. ok (is_aborted signal m || cancelled))
    elim rejected [
      | false ↦ pure tt
      | true ↦
          stop_or_retain employee handle (raise (replacement_aborted employee.id))
            (abort_cleanup_failed employee.id)
    ]

  -- #persistReplacement
  unfoldable pub persist_replacement :
      EmployeeDefinition → SessionHandle → NewEvent → Exec Manager (Unit {0})
  unfolding stop_or_retain adopt
  persist_replacement employee handle event =
      try_catch (put k employee.id handle "running" event) (λ _. modify (adopt employee.id handle))
        (λ error. stop_or_retain employee handle (raise error) replacement_cleanup_failed)

  -- The event of a replacement, and its session
  unfoldable pub take_over :
      EmployeeDefinition → Option String → Fields → SessionHandle → Exec Manager SessionHandle
  unfolding persist_replacement
  take_over employee task_id payload handle = do
    event ← new_event k "session.started" employee.id task_id payload
    persist_replacement employee handle event
    pure handle

  -- What resumeOne and rebuildOne do with the handle that the adapter made.
  unfoldable pub land :
      EmployeeDefinition
      → Option String
      → (SessionHandle → Fields)
      → Option ℕ
      → String
      → SessionHandle
      → Exec Manager SessionHandle
  unfolding reject_aborted_replacement take_over
  land employee task_id payload signal id handle = do
    modify (retain_for_cleanup handle)
    cancelled ← asks (λ m. ok (is_cancelled id m))
    modify (finish_replacement id)
    reject_aborted_replacement employee handle signal cancelled
    take_over employee task_id (payload handle) handle

  -- What they share: `create` is the adapter's call, `payload` the fields of the event.
  unfoldable pub replace :
      EmployeeDefinition
      → Option String
      → Exec Manager SessionHandle
      → (SessionHandle → Fields)
      → Option ℕ
      → Exec Manager SessionHandle
  unfolding land
  replace employee task_id create payload signal = in_turn employee.id (do
    asks (λ m. guard (not (is_aborted signal m)) (replacement_aborted employee.id))
    id ← random_uuid k
    modify (begin_replacement id employee.id)
    try_catch create (land employee task_id payload signal id)
        (λ error. modify (finish_replacement id) >> raise error))

  abbrev pub start_input : EmployeeDefinition → String → StartSessionInput
  start_input employee scenario = record {
    employee_id = employee.id;
    role = employee.role;
    project_root = k.project_root;
    scenario = scenario;
  }

  -- resumeOne(employee, checkpoint, signal, scenario)
  unfoldable pub resume_one :
      EmployeeDefinition → SessionCheckpoint → Option ℕ → String → Exec Manager SessionHandle
  unfolding replace
  resume_one employee checkpoint signal scenario = do
    lift (
        guard (checkpoint.employee_id == employee.id)
          (checkpoint_employee_mismatch checkpoint.employee_id))
    replace employee checkpoint.active_task_id
        ((k.adapter_for employee.agent).resume (record {
          input = start_input employee scenario;
          previous = checkpoint.handle;
          handoff = checkpoint.handoff;
        }))
        (λ handle. field "handle" (handle_value handle) (field "resumed" (bool true) end)) signal

  -- rebuildOne(employee, handoff, signal, scenario)
  unfoldable pub rebuild_one :
      EmployeeDefinition → String → Option ℕ → String → Exec Manager SessionHandle
  unfolding replace
  rebuild_one employee handoff signal scenario =
      replace employee none ((k.adapter_for employee.agent).start (start_input employee scenario))
        (λ handle.
          field "handle" (handle_value handle)
            (field "rebuilt" (bool true) (field "handoff" (str handoff) end)))
        signal
