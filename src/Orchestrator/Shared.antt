-- ===== src/Orchestrator/Shared.antt =====
-- The shared methods of the orchestrator keep every predicate that its ways of writing keep.
use agent_town.Prelude.{
  ℕ, String, true, false, ◌≡◌, Option, arith, refl, Bool-cases, ◌==◌, nat_eq, inl, inr, subst, sym,
}
use agent_town.Contract.Value.{Fields}
use agent_town.Contract.Task.{running}
use agent_town.Result.{ok, guard}
use agent_town.Exec.{Exec, lift}
use agent_town.Storage.Schema.{NewEvent}
use agent_town.Storage.Transaction.{Store, insert_event}
use agent_town.Tasks.Service.{Method, call}
use agent_town.Tasks.Invariant.{StartsFresh}
use agent_town.Orchestrator.{CompanyOrchestrator, Dispatcher, on_store, random_uuid}
use agent_town.Orchestrator.Calls.{
  core_event, record_event, record_approval_request, record_capacity_approval, task_call,
  start_ready_task, has_running_capacity, with_capacity, start_in_flight, open_round, open_task,
  assert_epoch, if_current, task_get,
}
use agent_town.Orchestrator.Kept.{
  NeedsNoPlace, IsKept, IsTaskFree, Keeps, Keeps-pure, Keeps-asks, Keeps-bind, Keeps-seq,
  Keeps-modify, Keeps-if, Takes,
}

pub insert_event-tasks : (e : NewEvent) (s : Store) → (insert_event e s).1.db.tasks ≡ s.db.tasks
unfolding insert_event
insert_event-tasks e s = ground arith

open_round-store :
    (o : CompanyOrchestrator) (task_id : String) (d : Dispatcher)
    → (open_round o task_id d).1.store ≡ d.store
unfolding open_round task_get lift
open_round-store o task_id d = ground arith

pub start_in_flight-store :
    (o : CompanyOrchestrator) (task_id : String) (d : Dispatcher)
    → (start_in_flight o task_id d).store ≡ d.store
unfolding start_in_flight open_task assert_epoch guard
start_in_flight-store o task_id d = ground (arith, open_round-store o task_id d)

module _ (o : CompanyOrchestrator) {P : Store → Type 0} (k : IsKept o P) where
  pub Keeps-free : {A : Type 0} {m : Exec Dispatcher A} → IsTaskFree m → Keeps P m
  Keeps-free f = record { run = λ d h. k.tables d.store _ (f d) h }

  pub random_uuid-Keeps : Keeps P (random_uuid o)
  random_uuid-Keeps = Keeps-free (λ d. refl)

  insert_event-Keeps : (e : NewEvent) → Keeps P (on_store (insert_event e))
  insert_event-Keeps e = Keeps-free (λ d. insert_event-tasks e d.store)

  pub record_event-Keeps :
      (type actor_id : String) (task_id : Option String) (payload : Fields)
      → Keeps P (record_event o type actor_id task_id payload)
  unfolding record_event
  record_event-Keeps type actor_id task_id payload = Keeps-bind random_uuid-Keeps (λ id.
      Keeps-seq (insert_event-Keeps (core_event id type actor_id task_id payload)) (Keeps-pure tt))

  pub record_approval_request-Keeps :
      (task_id : Option String) (actor_id reason : String) (payload : Fields)
      → Keeps P (record_approval_request o task_id actor_id reason payload)
  unfolding record_approval_request
  record_approval_request-Keeps task_id actor_id reason payload = record_event-Keeps _ _ _ _

  pub record_capacity_approval-Keeps :
      (task_id actor_id : String) → Keeps P (record_capacity_approval o task_id actor_id)
  unfolding record_capacity_approval
  record_capacity_approval-Keeps task_id actor_id = record_approval_request-Keeps _ _ _ _

  call-Keeps : (m : Method) → StartsFresh m → NeedsNoPlace m → Keeps P (on_store (call o.tasks m))
  call-Keeps m fresh free = record { run = λ d h. k.calls m d.store fresh free h }

  pub task_call-Keeps :
      (method : String → Method)
      → ((id : String) → StartsFresh (method id))
      → ((id : String) → NeedsNoPlace (method id))
      → Keeps P (task_call o method)
  unfolding task_call
  task_call-Keeps method fresh free =
      Keeps-bind random_uuid-Keeps (λ id. call-Keeps (method id) (fresh id) (free id))

  abbrev pub HasPlace : Store → Type 0
  HasPlace s = (has_running_capacity o s ≡ true) × P s

  -- A call that starts a task, where the capacity was seen to be there.
  pub start_call-Keeps :
      (task_id actor_id : String)
      → Takes HasPlace P (task_call o (λ id. Method.transition id task_id running actor_id))
  unfolding task_call
  start_call-Keeps task_id actor_id = record {
    run = λ d h. k.starts (o.uuid d.uuids) task_id actor_id d.store h.0 h.1;
  }

  -- What follows a test of the capacity has the place.
  pub with_capacity-Keeps :
      {A : Type 0} {go_on : Exec Dispatcher A} (task_id actor_id : String) (default : A)
      → Takes HasPlace P go_on
      → Keeps P (with_capacity o task_id actor_id default go_on)
  unfolding with_capacity
  with_capacity-Keeps task_id actor_id default g = record {
    run = λ d h. elim (Bool-cases (has_running_capacity o d.store)) [
      | inl e ↦ rw e (g.run d (e, h))
      | inr e ↦ rw e (
          (Keeps-seq (record_capacity_approval-Keeps task_id actor_id) (Keeps-pure default)).run d
            h)
    ];
  }

  pub Keeps-with_place : {A : Type 0} {m : Exec Dispatcher A} → Keeps P m → Takes HasPlace P m
  Keeps-with_place l = record { run = λ d h. l.run d h.1 }

  pub start_ready_task-Keeps :
      (task_id actor_id : String) → Keeps P (start_ready_task o task_id actor_id)
  unfolding start_ready_task
  start_ready_task-Keeps task_id actor_id = with_capacity-Keeps task_id actor_id false (
      Keeps-seq
        (Keeps-seq (start_call-Keeps task_id actor_id)
          (Keeps-modify (start_in_flight o task_id) (start_in_flight-store o task_id)))
        (Keeps-pure true))

pub open_round-Keeps :
    {P : Store → Type 0} (o : CompanyOrchestrator) (task_id : String)
    → Keeps P (open_round o task_id)
open_round-Keeps {P} o task_id = record {
  run = λ d h. subst P (sym (open_round-store o task_id d)) h;
}

pub assert_epoch-Keeps : {P : Store → Type 0} (epoch : ℕ) → Keeps P (assert_epoch epoch)
unfolding assert_epoch
assert_epoch-Keeps epoch = Keeps-asks _

pub if_current-Keeps :
    {P : Store → Type 0} {A : Type 0} {m : Exec Dispatcher A} (epoch : ℕ) (default : A)
    → Keeps P m
    → Keeps P (if_current epoch default m)
unfolding if_current
if_current-Keeps epoch default k =
    Keeps-bind (Keeps-asks (λ d. ok (epoch == d.dispatch_epoch)))
      (λ current. Keeps-if current k (Keeps-pure default))

pub task_get-Keeps :
    {P : Store → Type 0} (o : CompanyOrchestrator) (id : String) → Keeps P (task_get o id)
unfolding task_get
task_get-Keeps o id = Keeps-asks _
