-- ===== src/Checkpoint/Lifecycle/Paused.antt =====
-- A pause or a stop that returns has stored the status, and nothing is owned any more.
use agent_town.Storage.Transaction.Commit.{outcome, transact-commit}
use agent_town.Sessions.{random_uuid, Manager, StopOutcome}
use agent_town.Sessions.Stop.{interrupt_all}
use agent_town.Checkpoint.Lifecycle.{
  core_event, Lifecycle, Deadline, Fields, company_id, abort, deadline, service, commit_status,
}
use agent_town.Sessions.Handles.{cleanup_ownership_snapshot}
use agent_town.Prelude.{
  ℕ, String, true, false, ◌≡◌, refl, ap, Option, none, some, List, [], ◌∷◌, inl, inr, arith,
  is_empty, string_eq, Option-cases, ==_refl, ◌∙◌, not, filter,
}
use agent_town.Contract.Agent.{CompanyCheckpoint, PauseReason}
use agent_town.Result.{Error, Result, ok, Result-cases, pause_failed, bind_ok}
use agent_town.Exec.{◌>>◌, pure, asks, raise}
use agent_town.Storage.Schema.{StoredCheckpoint, NewEvent, CompanyRow, Db}
use agent_town.Storage.Transaction.{Store, transact}
use agent_town.Storage.Companies.{
  TerminalStatus, paused, stopped, terminal_text, commit_suspension_facts, write_suspension,
  insert_checkpoint, update_status, get_company, commit_pause_facts,
}
use agent_town.Sessions.Steps.{Keeps, Awaits}
use agent_town.Sessions.Triple.{
  Returns, Returns-bind, Returns-raise, Returns-after, Returns-finally, Returns-try, Returns-pure,
}
use agent_town.Checkpoint.Lifecycle.Cleanup.{owners, cleanup_within_deadline}
use agent_town.Checkpoint.Lifecycle.Status.{HasStatus, cleanup_within_deadline-Keeps}
use agent_town.Checkpoint.Lifecycle.Rest.{cleanup_within_deadline-owners}
use agent_town.Checkpoint.Lifecycle.Suspend.{
  commit_facts, commit_checkpoint, commit_suspension_failure, fail_suspension, finish_suspension,
  save, suspend, transition_type, reason_fields, terminal_type, checkpoint_fields,
  transitioning_status, in_phase, record_interrupt_outcomes, is_pending, record_timeout,
}
use agent_town.Prelude.Table.{lookup, lookup-insert}
use agent_town.Checkpoint.Build.{build_checkpoint}

abbrev row_status : Option CompanyRow → Option String
row_status o = elim o [ none ↦ none | some row ↦ some row.status ]

update_status-row :
    (id status at : String) (db db' : Db)
    → update_status id status at db ≡ ok db'
    → row_status (lookup id db'.companies) ≡ some status
unfolding update_status
update_status-row id status at db db' h = elim (Option-cases (lookup id db.companies)) [
  | inl e ↦ ground arith
  | inr (row, e) ↦
      let new : CompanyRow = record row { status = status; updated_at = at } in
      ground (arith, lookup-insert id id new db.companies, ==_refl id)
]

write_suspension-row :
    (c : StoredCheckpoint) (status : TerminalStatus) (at : String) (db db' : Db)
    → write_suspension c status at db ≡ ok db'
    → row_status (lookup c.company_id db'.companies) ≡ some (terminal_text status)
unfolding write_suspension
write_suspension-row c status at db db' h =
    let (db₁, _, e) = bind_ok (insert_checkpoint c db) _ db' h in
    update_status-row c.company_id (terminal_text status) at db₁ db' e

transact-ok :
    (change : Db → Result Db) (es : List NewEvent) (s : Store) (u : Unit {0})
    → (transact change es s).0 ≡ ok u
    → (db : Db) × (change s.db ≡ ok db) × ((transact change es s).1.db.companies ≡ db.companies)
unfolding outcome
transact-ok change es s u h = elim (Result-cases (change s.db)) [
  | inr (e, f) ↦ absurd (ground (arith, transact-commit change es s))
  | inl (db, f) ↦ (db, f, ground (arith, transact-commit change es s))
]

commit_suspension_facts-status :
    (c : StoredCheckpoint) (e : NewEvent) (status : TerminalStatus) (e' : NewEvent) (at : String)
    (s : Store) (u : Unit {0})
    → (commit_suspension_facts c e status e' at s).0 ≡ ok u
    → row_status (get_company (commit_suspension_facts c e status e' at s).1 c.company_id)
      ≡ some (terminal_text status)
unfolding commit_suspension_facts get_company
commit_suspension_facts-status c e status e' at s u h =
    let (db, f, same) = transact-ok (write_suspension c status at) (e ∷ e' ∷ []) s u h in
    let row = write_suspension-row c status at s.db db f in ground (arith, row)

module _ (l : Lifecycle) where
  abbrev IsSaved : TerminalStatus → Manager → Type 0
  IsSaved ts = HasStatus l (terminal_text ts)

  commit_facts-Returns :
      (ts : TerminalStatus) (id at : String) (payload : Fields) (e e' : NewEvent)
      {P : Manager → Type 0}
      → Returns P
          (commit_facts l ts
            (record { id = id; company_id = company_id l; created_at = at; payload = payload })
            e
            e')
          (λ _. IsSaved ts)
  unfolding commit_facts commit_pause_facts
  commit_facts-Returns paused id at payload e e' = record {
    run = λ s u p h.
        commit_suspension_facts-status
          (record { id = id; company_id = company_id l; created_at = at; payload = payload }) e
          paused e' (l.sessions.iso s.now) s.store u h;
  }
  commit_facts-Returns stopped id at payload e e' = record {
    run = λ s u p h.
        commit_suspension_facts-status
          (record { id = id; company_id = company_id l; created_at = at; payload = payload }) e
          stopped e' (l.sessions.iso s.now) s.store u h;
  }

  commit_checkpoint-Returns :
      (reason : PauseReason) (ts : TerminalStatus) {P : Manager → Type 0}
      → Returns P (commit_checkpoint l reason ts) (λ _. IsSaved ts)
  unfolding commit_checkpoint
  commit_checkpoint-Returns reason ts =
      Returns-after (asks (λ m. build_checkpoint (service l m) reason)) (λ checkpoint.
        Returns-after (random_uuid l.sessions) (λ id. Returns-after (asks (λ m. ok m.now)) (λ now.
          Returns-after (core_event l "company.checkpointed" _) (λ e.
            Returns-after (core_event l (terminal_type ts) (reason_fields reason)) (λ e'.
              Returns-bind {Q = λ _. IsSaved ts}
                (commit_facts-Returns ts id (l.sessions.iso now) (checkpoint_fields checkpoint) e
                  e')
                (λ _. Returns-pure checkpoint))))))

  save-Returns :
      (reason : PauseReason) (ts : TerminalStatus) (d : Deadline) {P : Manager → Type 0}
      → Returns P (save l reason ts d) (λ _. IsSaved ts)
  unfolding save
  save-Returns reason ts d = Returns-after l.stop_dispatching (λ _.
      Returns-after (core_event l (transition_type ts) (reason_fields reason)) (λ transition.
        Returns-after (commit_status l (transitioning_status ts) (transition ∷ [])) (λ _.
          Returns-after (in_phase l d (λ signal. interrupt_all l.sessions (some signal))) (λ os.
            Returns-after (record_interrupt_outcomes l os) (λ _.
              Returns-after (in_phase l d l.quiesce) (λ quiesced.
                Returns-after (asks (λ m. ok (filter is_pending (owners m)))) (λ pending.
                  Returns-after (record_timeout l quiesced pending)
                    (λ _. commit_checkpoint-Returns reason ts))))))))

  -- The end of a suspension
  abbrev IsAtRest : TerminalStatus → Manager → Type 0
  IsAtRest ts m = IsSaved ts m × (owners m ≡ [])

  module _ (ts : TerminalStatus) (aw : Awaits (HasStatus l (terminal_text ts)) l.sessions)
      (turn : Keeps (HasStatus l (terminal_text ts)) l.turn) where
    after_cleanup-Returns :
        (c : CompanyCheckpoint) (failed : List StopOutcome)
        → Returns {A = CompanyCheckpoint}
            (λ m. IsSaved ts m × (failed ≡ [] → owners m ≡ []))
            (elim (is_empty failed) [
              | true ↦ pure c
              | false ↦ commit_suspension_failure l failed ts true none >> raise pause_failed
            ])
            (λ _. IsAtRest ts)
    unfolding is_empty
    after_cleanup-Returns c [] = record { run = λ s a p h. (p.0, p.1 refl) }
    after_cleanup-Returns c (o ∷ os) =
        Returns-after (commit_suspension_failure l (o ∷ os) ts true none)
          (λ _. Returns-raise pause_failed)

    finish_suspension-Returns :
        (fuel : ℕ) (d : Deadline) (c : CompanyCheckpoint)
        → Returns (IsSaved ts) (finish_suspension l fuel ts d c) (λ _. IsAtRest ts)
    unfolding finish_suspension
    finish_suspension-Returns fuel d c =
        Returns-bind {Q = λ failed m. IsSaved ts m × (failed ≡ [] → owners m ≡ [])}
          (record {
            run = λ s failed p h. (
              (cleanup_within_deadline-Keeps l (terminal_text ts) aw turn fuel d).run s p,
              λ none. cleanup_within_deadline-owners l fuel d s (h ∙ ap ok none),
            );
          })
          (after_cleanup-Returns c)

    fail_suspension-Returns :
        (fuel : ℕ) (d : Deadline) (e : Error)
        → Returns (λ _. Unit) (fail_suspension l fuel ts d e) (λ _. IsAtRest ts)
    unfolding fail_suspension
    fail_suspension-Returns fuel d pause_failed = Returns-raise pause_failed
    fail_suspension-Returns fuel d e = Returns-after (cleanup_within_deadline l fuel d) (λ cleanup.
        Returns-after
          (commit_suspension_failure l cleanup ts (not (is_empty cleanup))
            (some (l.sessions.error_message e)))
          (λ _. Returns-raise e))

    -- If a pause or a stop returns, whatever the adapters answered and whatever failed meanwhile, the
    -- company is stored as paused or as stopped, and SessionManager owns nothing: no active session,
    -- no handle that waits for its cleanup and no replacement that is pending. What runs while it
    -- waits is asked not to change the status.
    pub suspend-IsAtRest :
        (fuel : ℕ) (reason : PauseReason) (m : Manager) (c : CompanyCheckpoint)
        → (suspend l fuel reason ts m).0 ≡ ok c
        → IsAtRest ts (suspend l fuel reason ts m).1
    unfolding suspend abort cleanup_ownership_snapshot
    suspend-IsAtRest fuel reason m c h =
        (Returns-after {P = λ _. Unit} (deadline l.pause_timeout_ms) (λ d.
            Returns-finally {Q = λ _. IsAtRest ts} (abort d.controller)
              (Returns-try {Q = λ _. IsAtRest ts}
                (Returns-bind {Q = λ _. IsSaved ts} (save-Returns reason ts d)
                  (finish_suspension-Returns fuel d))
                (λ c'. Returns-pure c') (fail_suspension-Returns fuel d))
              (λ c' s p. p))).run
          m c tt h
