-- ===== src/Storage/Journal/Effects.antt =====
-- What each writing method of CoreStore does to the journal.
use agent_town.Prelude.{
  String, ◌≡◌, List, [], ◌∷◌, arith, is_empty, refl, inl, inr, if◌then◌else◌, Bool-cases, includes,
  string_eq, ap, ◌∙◌,
}
use agent_town.Contract.Task.{TaskRecord}
use agent_town.Contract.Company.{CompanyDefinition}
use agent_town.Contract.Agent.{UsageSnapshot}
use agent_town.Result.{Error, Result, ok, err, Result-cases, event_required, constraint}
use agent_town.Exec.{raise}
use agent_town.Storage.Schema.{NewEvent, Db, StoredCheckpoint, SessionRow}
use agent_town.Storage.Transaction.{insert_event, Store, transact, event_ids}
use agent_town.Storage.Transaction.Rows.{stamp, last_sequence, fresh_ids}
use agent_town.Storage.Transaction.Commit.{outcome, committed, transact-commit}
use agent_town.Storage.Tasks.{put_task, write_task}
use agent_town.Storage.Companies.{
  create_company, write_company, set_company_status, update_status,
  commit_company_status_with_events, put_checkpoint, insert_checkpoint, TerminalStatus,
  commit_suspension_facts, write_suspension,
}
use agent_town.Storage.Sessions.{
  put_session, write_session, delete_session, erase_session, put_usage_snapshot, write_usage,
}
use agent_town.Storage.Journal.{
  event_inserted, Write, write, company_created, status_set, status_committed, task_put,
  session_put, session_deleted, usage_put, checkpoint_put, suspended,
}

-- A change of the tables that leaves the journal and the claims of requests alone.
abbrev IsSilent : (Db → Result Db) → Type 0
IsSilent change =
    (db db' : Db)
    → change db ≡ ok db'
    → (db'.events ≡ db.events)
      × (db'.sequence ≡ db.sequence)
      × (db'.ipc_mutation_requests ≡ db.ipc_mutation_requests)

-- The end of a writing method: an error and the store as it was, or its writes and its events.
pub data Written (s : Store) (r : Result (Unit {0})) (s' : Store) : Type 0 where
  kept : (e : Error) → r ≡ err e → s' ≡ s → Written s r s'
  appended :
      (db : Db) (es : List NewEvent)
      → db.events ≡ s.db.events
      → db.sequence ≡ s.db.sequence
      → db.ipc_mutation_requests ≡ s.db.ipc_mutation_requests
      → r ≡ ok tt
      → s' ≡ committed db es s
      → Written s r s'

transact-Written :
    (change : Db → Result Db) (es : List NewEvent) (s : Store)
    → IsSilent change
    → Written s (transact change es s).0 (transact change es s).1
unfolding outcome
transact-Written change es s q = elim (Result-cases (change s.db)) [
  | inr (e, h) ↦
      kept e (ground (arith, transact-commit change es s))
        (ground (arith, transact-commit change es s))
  | inl (db, h) ↦
      let (same, count, claims) = q s.db db h in
      let p = transact-commit change es s in
      elim (Bool-cases (fresh_ids (event_ids db.events) es)) [
        | inl f ↦ appended db es same count claims (ground (arith, p)) (ground (arith, p))
        | inr f ↦ kept (constraint "events.id") (ground (arith, p)) (ground (arith, p))
      ]
]

module _ (c : String) where
  write_task-IsSilent : (t : TaskRecord) → IsSilent (write_task c t)
  unfolding write_task
  write_task-IsSilent t db db' h = ground arith

  write_company-IsSilent : (d : CompanyDefinition) (at : String) → IsSilent (write_company c d at)
  unfolding write_company
  write_company-IsSilent d at db db' h = ground arith

  update_status-IsSilent : (status at : String) → IsSilent (update_status c status at)
  unfolding update_status
  update_status-IsSilent status at db db' h = ground arith

  write_session-IsSilent : (id : String) (row : SessionRow) → IsSilent (write_session c id row)
  unfolding write_session
  write_session-IsSilent id row db db' h = ground arith

  erase_session-IsSilent : (id : String) → IsSilent (erase_session c id)
  unfolding erase_session
  erase_session-IsSilent id db db' h = ground arith

  write_usage-IsSilent : (id : String) (usage : UsageSnapshot) → IsSilent (write_usage c id usage)
  unfolding write_usage
  write_usage-IsSilent id usage db db' h = ground arith

module _ (c : StoredCheckpoint) where
  insert_checkpoint-IsSilent : IsSilent (insert_checkpoint c)
  unfolding insert_checkpoint
  insert_checkpoint-IsSilent db db' h = ground arith

  write_suspension-IsSilent :
      (status : TerminalStatus) (at : String) → IsSilent (write_suspension c status at)
  unfolding write_suspension
  write_suspension-IsSilent status at db db' h = ground arith

-- A call without events is refused before the transaction.
required-Written :
    (change : Db → Result Db) (es : List NewEvent) (s : Store)
    → IsSilent change
    → let m = if is_empty es then raise event_required else transact change es in
      Written s (m s).0 (m s).1
unfolding is_empty
required-Written change [] s q = kept event_required refl refl
required-Written change (e ∷ es) s q = transact-Written change (e ∷ es) s q

insert_event-Written :
    (e : NewEvent) (s : Store)
    → Written s (write (event_inserted e) s).0 (write (event_inserted e) s).1
unfolding write insert_event stamp last_sequence
insert_event-Written e s = elim (Bool-cases (includes (event_ids s.db.events) e.id)) [
  | inl used ↦ kept (constraint "events.id") (ground arith) (ground arith)
  | inr new ↦ appended s.db (e ∷ []) refl refl refl (ground arith) (ground arith)
]

pub write-Written : (w : Write) (s : Store) → Written s (write w s).0 (write w s).1
unfolding write put_task create_company set_company_status commit_company_status_with_events
    put_session delete_session put_usage_snapshot put_checkpoint commit_suspension_facts
write-Written (event_inserted e) s = insert_event-Written e s
write-Written (company_created id d event at) s =
    transact-Written _ _ s (write_company-IsSilent id d at)
write-Written (status_set id status event at) s =
    transact-Written _ _ s (update_status-IsSilent id status at)
write-Written (status_committed id status events at) s =
    required-Written _ events s (update_status-IsSilent id status at)
write-Written (task_put c t events) s = required-Written _ events s (write_task-IsSilent c t)
write-Written (session_put c id handle status event at) s =
    transact-Written _ _ s (write_session-IsSilent c id _)
write-Written (session_deleted c id event) s = transact-Written _ _ s (erase_session-IsSilent c id)
write-Written (usage_put c id usage event) s =
    transact-Written _ _ s (write_usage-IsSilent c id usage)
write-Written (checkpoint_put c event) s = transact-Written _ _ s (insert_checkpoint-IsSilent c)
write-Written (suspended c e status e' at) s =
    transact-Written _ _ s (write_suspension-IsSilent c status at)

-- A writing method of CoreStore that raises, whatever constraint or guard it met, leaves the store
-- as it was, and publishes nothing.
pub write-atomic : (w : Write) (s : Store) (e : Error) → (write w s).0 ≡ err e → (write w s).1 ≡ s
write-atomic w s e h = unchanged (write-Written w s) h
  where
    unchanged : {r : Result (Unit {0})} {s' : Store} → Written s r s' → r ≡ err e → s' ≡ s
    unchanged (kept x p q) k = q
    unchanged (appended db es p q u k' t) k = cc

-- No writing method touches the claims of requests.
pub write-requests :
    (w : Write) (s : Store) → (write w s).1.db.ipc_mutation_requests ≡ s.db.ipc_mutation_requests
write-requests w s = same (write-Written w s)
  where
    same :
        {r : Result (Unit {0})} {s' : Store}
        → Written s r s'
        → s'.db.ipc_mutation_requests ≡ s.db.ipc_mutation_requests
    same (kept e p q) = ap (λ t. t.db.ipc_mutation_requests) q
    same (appended db es p q claims k t) = ap (λ u. u.db.ipc_mutation_requests) t ∙ claims
