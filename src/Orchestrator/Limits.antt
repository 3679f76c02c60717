-- ===== src/Orchestrator/Limits.antt =====
-- What the orchestrator never breaks: the limit of running tasks, and the soundness of the tasks.
use agent_town.Prelude.{
  ℕ, ◌+◌, ◌≤◌, ◌<◌, String, Bool, true, false, ◌≡◌, List, [], ◌∷◌, arith, refl, filter, length,
  ltb→lt, sym, ap, ◌∙◌, ◌==◌, string_eq, nat_eq, pair_eq,
}
use agent_town.Prelude.Table.{Table, insert}
use agent_town.Contract.Task.{TaskRecord, running, state_eq}
use agent_town.Result.{ok}
use agent_town.Storage.Schema.{TaskRow, NewEvent}
use agent_town.Storage.Order.{sort_by, insert_by}
use agent_town.Storage.Transaction.{Store}
use agent_town.Storage.Tasks.{
  get_task, list_tasks, company_tasks, task_row, write_task, upsert_task,
}
use agent_town.Storage.Tasks.Put.{put_outcome}
use agent_town.Storage.Transaction.Commit.{outcome}
use agent_town.Tasks.Decide.{
  Decision, decide_create, decide_assign, decide_transition, decide_submit, decide_retry,
  decide_reject, decide_unblock,
}
use agent_town.Tasks.Service.{Method, decide}
use agent_town.Tasks.Invariant.{IsSoundStore, call-IsSoundStore}
use agent_town.Tasks.Effects.{Effect, nothing, one, call-Effect}
use agent_town.Orchestrator.{CompanyOrchestrator, Dispatcher, Sessions}
use agent_town.Orchestrator.Calls.{has_running_capacity, running_tasks}
use agent_town.Orchestrator.Machine.{Step, steps}
use agent_town.Orchestrator.Kept.{IsKept, NeedsNoPlace, WritesNoTask}
use agent_town.Orchestrator.Steps.{steps_keep}
use agent_town.Orchestrator.Waits.{interleaved, interleaved-Respects}

abbrev is_running : TaskRecord → Bool
is_running t = t.status == running

abbrev count_running : List TaskRecord → ℕ
count_running ts = length (filter is_running ts)

abbrev weight : Bool → ℕ
weight true = 1
weight false = 0

count-insert_by :
    (t : TaskRecord) (ts : List TaskRecord)
    → count_running (insert_by (λ t. t.id) t ts) ≡ weight (is_running t) + count_running ts
unfolding insert_by filter
count-insert_by t [] = ground arith
count-insert_by t (u ∷ us) = ground (arith, count-insert_by t us)

count-sort_by : (ts : List TaskRecord) → count_running (sort_by (λ t. t.id) ts) ≡ count_running ts
unfolding sort_by filter
count-sort_by [] = refl
count-sort_by (t ∷ ts) =
    ground (arith, count-insert_by t (sort_by (λ t. t.id) ts), count-sort_by ts)

weight-bound : (b : Bool) → weight b ≤ 1
weight-bound true = omega arith
weight-bound false = omega arith

-- A row that is written adds at most itself.
count-insert :
    (c id : String) (row : TaskRow) (rows : Table (String × String) TaskRow)
    → count_running (company_tasks c (insert (c, id) row rows))
      ≤ weight (is_running row.task) + count_running (company_tasks c rows)
unfolding company_tasks insert filter
count-insert c id row [] = ground arith
count-insert c id row ((key, old) ∷ rows) = ground (arith, count-insert c id row rows)

put-tasks :
    (c : String) (t : TaskRecord) (es : List NewEvent) (s s' : Store)
    → put_outcome c t es s ≡ ok s'
    → s'.db.tasks ≡ insert (c, t.id) (task_row t) s.db.tasks
unfolding put_outcome outcome write_task upsert_task
put-tasks c t es s s' h = ground arith

module _ (o : CompanyOrchestrator) where
  abbrev limit : ℕ
  limit = o.tasks.company.limits.max_parallel_tasks

  abbrev running_count : Store → ℕ
  running_count s = length (running_tasks o s)

  -- No more tasks run than the company allows.
  abbrev pub IsWithinLimit : Store → Type 0
  IsWithinLimit s = running_count s ≤ limit

  running_count-rows :
      (s : Store) → running_count s ≡ count_running (company_tasks o.tasks.company_id s.db.tasks)
  unfolding list_tasks
  running_count-rows s = count-sort_by (company_tasks o.tasks.company_id s.db.tasks)

  put-running_count :
      (d : Decision) (s s' : Store)
      → put_outcome o.tasks.company_id d.task d.events s ≡ ok s'
      → running_count s' ≤ weight (is_running d.task) + running_count s
  put-running_count d s s' h =
      let c = o.tasks.company_id in
      let e = put-tasks c d.task d.events s s' h in
      let g = count-insert c d.task.id (task_row d.task) s.db.tasks in
      let l = running_count-rows s in
      let r = running_count-rows s' ∙ ap (λ rows. count_running (company_tasks c rows)) e in
      rw r (rw l g)

  decide-rests :
      (m : Method) (s : Store) (d : Decision)
      → NeedsNoPlace m
      → decide o.tasks m s ≡ ok d
      → is_running d.task ≡ false
  unfolding decide decide_create decide_assign decide_transition decide_submit decide_retry
      decide_reject decide_unblock
  decide-rests (Method.create uuid input) s d n h = ground arith
  decide-rests (Method.assign uuid id employee_id) s d n h = ground arith
  decide-rests (Method.transition uuid id next actor_id) s d n h = ground arith
  decide-rests (Method.submit uuid uuid' id actor_id artifacts evidence) s d n h = ground arith
  decide-rests (Method.retry uuid id actor_id) s d n h = ground arith
  decide-rests (Method.reject uuid id reviewer_id findings) s d n h = ground arith
  decide-rests (Method.unblock uuid id actor_id) s d n h = ground arith

  rest-IsWithinLimit :
      {m : Method} {s s' : Store}
      → NeedsNoPlace m
      → IsWithinLimit s
      → Effect o.tasks m s s'
      → IsWithinLimit s'
  rest-IsWithinLimit n v (nothing e) = rw e v
  rest-IsWithinLimit {m = m} {s = s} {s' = s'} n v (one d decided written) =
      let p = put-running_count d s s' written in
      let q = ap weight (decide-rests m s d n decided) in omega (arith, p, q, v)

  start-IsWithinLimit :
      {m : Method} {s s' : Store}
      → running_count s < limit
      → Effect o.tasks m s s'
      → IsWithinLimit s'
  start-IsWithinLimit v (nothing e) = rw e (omega arith)
  start-IsWithinLimit {m = m} {s = s} {s' = s'} v (one d decided written) =
      let p = put-running_count d s s' written in
      omega (arith, p, v, weight-bound (is_running d.task))

  tables-IsWithinLimit :
      (s s' : Store) → s'.db.tasks ≡ s.db.tasks → IsWithinLimit s → IsWithinLimit s'
  tables-IsWithinLimit s s' e v =
      let l = running_count-rows s in
      let r =
        running_count-rows s'
        ∙ ap (λ rows. count_running (company_tasks o.tasks.company_id rows)) e in
      rw r (rw (sym l) v)

  has_place-lt : (s : Store) → has_running_capacity o s ≡ true → running_count s < limit
  unfolding has_running_capacity
  has_place-lt s c = ltb→lt _ _ c

  IsWithinLimit-IsKept : IsKept o IsWithinLimit
  IsWithinLimit-IsKept = record {
    tables = tables-IsWithinLimit;
    calls = λ m s fresh n v. rest-IsWithinLimit n v (call-Effect o.tasks m s);
    starts = λ id task_id actor_id s c v.
        start-IsWithinLimit (has_place-lt s c)
          (call-Effect o.tasks (Method.transition id task_id running actor_id) s);
  }

  tables-IsSoundStore :
      (s s' : Store) → s'.db.tasks ≡ s.db.tasks → IsSoundStore o.tasks s → IsSoundStore o.tasks s'
  unfolding get_task
  tables-IsSoundStore s s' e v = record {
    sound = λ id t h. v.sound id t (ground (arith, e, h));
    keyed = λ id t h. v.keyed id t (ground (arith, e, h));
  }

  IsSoundStore-IsKept : IsKept o (IsSoundStore o.tasks)
  IsSoundStore-IsKept = record {
    tables = λ s s' e v. tables-IsSoundStore s s' e v;
    calls = λ m s fresh n v. call-IsSoundStore o.tasks m s fresh v;
    starts = λ id task_id actor_id s c v.
        call-IsSoundStore o.tasks (Method.transition id task_id running actor_id) s tt v;
  }

  module _ (base : Sessions) (w : WritesNoTask base) (fuel : ℕ)
      (schedule : ℕ → Dispatcher → List Step) (depth : ℕ) (es : List Step) (d : Dispatcher) where
    -- If SessionManager itself writes no task, then no sequence of calls and of promises that run,
    -- whatever other calls and promises run to their end during each of their waits and during the
    -- waits of those, to any depth, whatever the agents propose and however the sessions fail, leads
    -- from at most `max_parallel_tasks` running tasks to more.
    pub steps-IsWithinLimit :
        IsWithinLimit d.store
        → IsWithinLimit (steps o (interleaved o base fuel schedule depth) fuel es d).store
    steps-IsWithinLimit =
        steps_keep o IsWithinLimit-IsKept _
          (interleaved-Respects o IsWithinLimit-IsKept base w fuel schedule depth) fuel es d

    -- If SessionManager itself writes no task, then every sequence of calls and of promises that run,
    -- with other calls and promises that run to their end during each of their waits and during the
    -- waits of those, to any depth, keeps the store sound: each task stands under its own id, has an owner unless it is a draft or
    -- ready, and none as a draft; in review or completed it has artifacts and evidence; its retries
    -- are within the limit.
    pub steps-IsSoundStore :
        IsSoundStore o.tasks d.store
        → IsSoundStore o.tasks (steps o (interleaved o base fuel schedule depth) fuel es d).store
    steps-IsSoundStore =
        steps_keep o IsSoundStore-IsKept _
          (interleaved-Respects o IsSoundStore-IsKept base w fuel schedule depth) fuel es d
