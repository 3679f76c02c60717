-- ===== src/Sessions/Moves.antt =====
-- Each method of SessionManager keeps every predicate that its writes and its waits keep.
pub mod Start
pub mod Stop
pub mod Send
use agent_town.Prelude.{
  ℕ, ◌+◌, pair_eq, String, Bool, true, false, ◌≡◌, refl, Option, none, some, List, [], ◌∷◌, ◌||◌,
  not, inl, inr, arith, is_empty, map, nat_eq, string_eq, Bool-cases, Option-cases, ◌==◌, Eq,
}
use agent_town.Prelude.Table.{Table, insert, lookup}
use agent_town.Contract.Value.{Fields}
use agent_town.Contract.Company.{CompanyDefinition, EmployeeDefinition}
use agent_town.Contract.Agent.{
  SessionHandle, UsageSnapshot, AgentMessage, AgentEvent, session_started, output_delta,
  output_completed, action_proposed, usage_updated, session_interrupted, session_exited,
  adapter_error, SessionCheckpoint,
}
use agent_town.Result.{
  Error, ok, err, Result-cases, abort_cleanup_failed, replacement_aborted, guard,
  checkpoint_employee_mismatch,
}
use agent_town.Exec.{Exec, pure, modify}
use agent_town.Storage.Schema.{NewEvent, SessionRow}
use agent_town.Storage.Transaction.{Store, insert_event}
use agent_town.Storage.Transaction.Commit.{transact-commit, outcome}
use agent_town.Storage.Sessions.{
  put_session, write_session, delete_session as erase_fact, erase_session, put_usage_snapshot,
  write_usage,
}
use agent_town.Orchestrator.Shared.{insert_event-tasks}
use agent_town.Sessions.{
  SessionManager, Manager, Key, random_uuid, new_event, put, handle_key, is_aborted,
}
use agent_town.Sessions.Handles.{
  register_handle, retain_for_cleanup, delete_cleanup, delete_handle, forget_handle,
  remove_cleanup_handle, set_session, delete_session, delete_current, add_unavailable,
  delete_unavailable, begin_replacement, finish_replacement, cancel_pending_replacements, Candidate,
  active_candidates, collect_stop_candidates, cancel, is_cancelled,
}
use agent_town.Sessions.Replace.{
  acquire, await_previous, release, in_turn, forget_previous, adopt, stop_or_retain,
  reject_aborted_replacement, persist_replacement, take_over, land, replace, resume_one,
  rebuild_one,
}
use agent_town.Sessions.Steps.{
  Step, IsOther, wrote, counted, queued, marked, registered, retained, cleaned, forgotten, adopted,
  dropped, begun, finished, cancelled, IsStable, Keeps, Awaits, Keeps-lift, Keeps-pure, Keeps-raise,
  Keeps-asks, Keeps-finally, Keeps-bind, Keeps-seq, Keeps-try, Keeps-option, Keeps-if, Keeps-modify,
  Keeps-after, Keeps-store, pick-if, pick-option,
}

put_session-IsOther :
    (c e : String) (h : SessionHandle) (status : String) (event : NewEvent) (at : String)
    (s : Store)
    → IsOther (put_session c e h status event at s).1 s
unfolding put_session write_session outcome
put_session-IsOther c e h status event at s =
    let row : SessionRow = record { handle = h; status = status; updated_at = at } in
    ground (arith, transact-commit (write_session c e row) (event ∷ []) s)

pub delete_session-IsOther :
    (c e : String) (event : NewEvent) (s : Store) → IsOther (erase_fact c e event s).1 s
unfolding erase_fact erase_session outcome
delete_session-IsOther c e event s =
    ground (arith, transact-commit (erase_session c e) (event ∷ []) s)

pub put_usage_snapshot-IsOther :
    (c e : String) (usage : UsageSnapshot) (event : NewEvent) (s : Store)
    → IsOther (put_usage_snapshot c e usage event s).1 s
unfolding put_usage_snapshot write_usage outcome
put_usage_snapshot-IsOther c e usage event s =
    ground (arith, transact-commit (write_usage c e usage) (event ∷ []) s)

pub insert_event-IsOther : (e : NewEvent) (s : Store) → IsOther (insert_event e s).1 s
unfolding insert_event
insert_event-IsOther e s = ground arith

module _ {P : Manager → Type 0} (st : IsStable P) (k : SessionManager) where
  pub random_uuid-Keeps : Keeps P (random_uuid k)
  unfolding random_uuid
  random_uuid-Keeps = record { run = λ m p. st m _ (counted (m.uuids + 1) refl) p }

  pub new_event-Keeps :
      (type actor_id : String) (task_id : Option String) (payload : Fields)
      → Keeps P (new_event k type actor_id task_id payload)
  unfolding new_event random_uuid
  new_event-Keeps type actor_id task_id payload = record {
    run = λ m p. st m _ (counted (m.uuids + 1) refl) p;
  }

  pub put-Keeps :
      (e : String) (h : SessionHandle) (status : String) (event : NewEvent)
      → Keeps P (put k e h status event)
  unfolding put
  put-Keeps e h status event = record {
    run = λ m p.
        st m _
          (wrote _ (put_session-IsOther k.company_id e h status event (k.iso m.now) m.store) refl)
          p;
  }

  pub retain-Keeps : (h : SessionHandle) → Keeps P (modify (retain_for_cleanup h))
  retain-Keeps h = Keeps-modify st _ (λ m. retained h refl)

  pub forget-Keeps : (h : SessionHandle) → Keeps P (modify (forget_handle h))
  unfolding forget_handle
  forget-Keeps h = Keeps-modify st _ (λ m. forgotten _ refl)

  pub finish-Keeps : (id : String) → Keeps P (modify (finish_replacement id))
  finish-Keeps id = Keeps-modify st _ (λ m. finished id refl)

  pub delete_unavailable-Keeps : (e : String) → Keeps P (modify (delete_unavailable e))
  unfolding delete_unavailable
  delete_unavailable-Keeps e = Keeps-modify st _ (λ m. marked _ refl)

  forget_previous-Keeps :
      (previous : Option SessionHandle) (h : SessionHandle)
      → Keeps P (modify (forget_previous previous h))
  unfolding forget_previous forget_handle
  forget_previous-Keeps none h = Keeps-pure tt
  forget_previous-Keeps (some previous) h = record {
    run = λ m p.
        pick-if P (handle_key previous == handle_key h) p
          (st m _ (forgotten (handle_key previous) refl) p);
  }

  adopt-Keeps : (e : String) (h : SessionHandle) → Keeps P (modify (adopt e h))
  unfolding adopt remove_cleanup_handle delete_unavailable
  adopt-Keeps e h = record {
    run = λ m p.
        (forget_previous-Keeps (lookup e m.sessions) h).run _
          (st _ _ (cleaned _ refl) (st _ _ (marked _ refl) (st m _ (adopted e h refl) p)));
  }

  release-Keeps : (e : String) (tail : ℕ) → Keeps P (modify (release e tail))
  unfolding release
  release-Keeps e tail = record {
    run = λ m p.
        pick-option P (lookup e m.send_tails) p
          (λ last. pick-if P (last == tail) (st m _ (queued m.tails _ refl) p) p);
  }

  module _ (aw : Awaits P k) where
    await_previous-Keeps :
        (previous : Option ℕ) (tail : ℕ) → Keeps P (await_previous k previous tail)
    await_previous-Keeps none tail = Keeps-pure tail
    await_previous-Keeps (some previous) tail = Keeps-seq (aw.settled previous) (Keeps-pure tail)

    acquire-Keeps : (e : String) → Keeps P (acquire k e)
    unfolding acquire
    acquire-Keeps e = record {
      run = λ m p.
          let taken : P _ = st m _ (queued (m.tails + 1) (insert e m.tails m.send_tails) refl) p in
          (await_previous-Keeps (lookup e m.send_tails) m.tails).run _ taken;
    }

    pub in_turn-Keeps :
        {A : Type 0} (e : String) {body : Exec Manager A}
        → Keeps P body
        → Keeps P (in_turn k e body)
    unfolding in_turn
    in_turn-Keeps e b =
        Keeps-bind (acquire-Keeps e)
          (λ tail. Keeps-finally (release e tail) b (release-Keeps e tail))

    stop_or_retain-Keeps :
        {A : Type 0} (employee : EmployeeDefinition) (h : SessionHandle) {next : Exec Manager A}
        (failure : Error)
        → Keeps P next
        → Keeps P (stop_or_retain k employee h next failure)
    unfolding stop_or_retain
    stop_or_retain-Keeps employee h failure n =
        Keeps-try (aw.stop employee.agent h) (λ _. Keeps-seq (forget-Keeps h) n)
          (λ _. Keeps-seq (retain-Keeps h) (Keeps-raise failure))

    reject-Keeps :
        (employee : EmployeeDefinition) (h : SessionHandle) (signal : Option ℕ) (b : Bool)
        → Keeps P (reject_aborted_replacement k employee h signal b)
    unfolding reject_aborted_replacement
    reject-Keeps employee h signal b =
        Keeps-bind (Keeps-asks (λ m. ok (is_aborted signal m || b))) (λ rejected.
          Keeps-if rejected
            (stop_or_retain-Keeps employee h (abort_cleanup_failed employee.id)
              (Keeps-raise (replacement_aborted employee.id)))
            (Keeps-pure tt))

    persist_replacement-Keeps :
        (employee : EmployeeDefinition) (h : SessionHandle) (event : NewEvent)
        → Keeps P (persist_replacement k employee h event)
    unfolding persist_replacement
    persist_replacement-Keeps employee h event =
        Keeps-try (put-Keeps employee.id h "running" event) (λ _. adopt-Keeps employee.id h)
          (λ error. stop_or_retain-Keeps employee h _ (Keeps-raise error))

    take_over-Keeps :
        (employee : EmployeeDefinition) (task_id : Option String) (payload : Fields)
        (h : SessionHandle)
        → Keeps P (take_over k employee task_id payload h)
    unfolding take_over
    take_over-Keeps employee task_id payload h =
        Keeps-bind (new_event-Keeps "session.started" employee.id task_id payload)
          (λ event. Keeps-seq (persist_replacement-Keeps employee h event) (Keeps-pure h))

    land-Keeps :
        (employee : EmployeeDefinition) (task_id : Option String) (payload : SessionHandle → Fields)
        (signal : Option ℕ) (id : String) (h : SessionHandle)
        → Keeps P (land k employee task_id payload signal id h)
    unfolding land
    land-Keeps employee task_id payload signal id h = Keeps-seq (retain-Keeps h) (
        Keeps-bind (Keeps-asks (λ m. ok (is_cancelled id m))) (λ b. Keeps-seq (finish-Keeps id) (
          Keeps-seq (reject-Keeps employee h signal b)
            (take_over-Keeps employee task_id (payload h) h))))

    replace-Keeps :
        (employee : EmployeeDefinition) (task_id : Option String)
        {create : Exec Manager SessionHandle} (payload : SessionHandle → Fields) (signal : Option ℕ)
        → Keeps P create
        → Keeps P (replace k employee task_id create payload signal)
    unfolding replace
    replace-Keeps employee task_id payload signal c = in_turn-Keeps employee.id (
        Keeps-seq
          (Keeps-asks (λ m. guard (not (is_aborted signal m)) (replacement_aborted employee.id)))
          (Keeps-bind random_uuid-Keeps (λ id.
            Keeps-seq (Keeps-modify st _ (λ m. begun id employee.id refl)) (
              Keeps-try c (land-Keeps employee task_id payload signal id)
                (λ error. Keeps-seq (finish-Keeps id) (Keeps-raise error))))))

    pub resume_one-Keeps :
        (employee : EmployeeDefinition) (c : SessionCheckpoint) (signal : Option ℕ)
        (scenario : String)
        → Keeps P (resume_one k employee c signal scenario)
    unfolding resume_one
    resume_one-Keeps employee c signal scenario =
        Keeps-seq
          (Keeps-lift
            (guard (c.employee_id == employee.id) (checkpoint_employee_mismatch c.employee_id)))
          (replace-Keeps employee c.active_task_id _ signal (aw.resume employee.agent _))

    pub rebuild_one-Keeps :
        (employee : EmployeeDefinition) (handoff : String) (signal : Option ℕ) (scenario : String)
        → Keeps P (rebuild_one k employee handoff signal scenario)
    unfolding rebuild_one
    rebuild_one-Keeps employee handoff signal scenario =
        replace-Keeps employee none _ signal (aw.start employee.agent _)
