-- ===== src/Checkpoint/Lifecycle/Request.antt =====
-- packages/core/src/lifecycle/checkpoint-service.ts: pause, stop, recoverLatest and recover, of which one
-- operation runs at a time.
use agent_town.Prelude.{ℕ, String, Bool, true, false, Option, none, some, ◌==◌, string_eq, List}
use agent_town.Contract.Company.{CompanyDefinition}
use agent_town.Contract.Agent.{CompanyCheckpoint, PauseReason}
use agent_town.Result.{Error, Result, ok, err, ◌>>=◌, ◌>>◌, malformed, operation_in_progress}
use agent_town.Exec.{Exec, asks, try_catch}
use agent_town.Storage.Schema.{StoredCheckpoint}
use agent_town.Storage.Companies.{paused, latest_checkpoint}
use agent_town.Checkpoint.Build.{CheckpointService, validate_checkpoint, checkpoint_from_stored}
use agent_town.Sessions.{Manager}
use agent_town.Checkpoint.Lifecycle.{Lifecycle, company_id, service}
use agent_town.Checkpoint.Lifecycle.Suspend.{suspend, suspend_stopped}
use agent_town.Checkpoint.Lifecycle.Recover.{
  RecoveryDecision, recover, block_invalid_recovery, status_of, is_paused, check_eligible,
}

pub data OperationKind : Type 0 where
  pause stop recovery : OperationKind

-- What a public method answers at once: an error, the promise of the operation that runs, the value of
-- a promise that is resolved, or a new operation, of the kind that #operation then holds.
pub data Answer (A : Type 0) : Type 0 where
  rejected : Error → Answer A
  joined : Answer A
  resolved : A → Answer A
  started : OperationKind → Exec Manager A → Answer A

-- if (this.#operation !== null) { if (this.#operation.kind !== kind) return reject(…); return …promise; }
unfoldable pub unless_busy :
    {A : Type 0} → OperationKind → Option OperationKind → Answer A → Answer A
unless_busy kind none go_on = go_on
unless_busy pause (some pause) go_on = joined
unless_busy stop (some stop) go_on = joined
unless_busy recovery (some recovery) go_on = joined
unless_busy kind (some other) go_on = rejected operation_in_progress

-- checkpointFromStored and validateCheckpoint
unfoldable pub read_checkpoint : CheckpointService → StoredCheckpoint → Result CompanyCheckpoint
read_checkpoint k stored = do
  checkpoint ← checkpoint_from_stored k stored
  validate_checkpoint k checkpoint
  ok checkpoint

unfoldable pub read_stored :
    CheckpointService → Option StoredCheckpoint → Result (Option CompanyCheckpoint)
unfolding read_checkpoint
read_stored k none = ok none
read_stored k (some stored) = do checkpoint ← read_checkpoint k stored; ok (some checkpoint)

module _ (l : Lifecycle) (m : Manager) where
  abbrev status : Option String
  status = status_of (company_id l) m

  -- #existingPausedCheckpoint
  unfoldable pub existing_paused_checkpoint : Result (Option CompanyCheckpoint)
  unfolding read_stored
  existing_paused_checkpoint = elim (is_paused status) [
    | false ↦ ok none
    | true ↦ read_stored (service l m) (latest_checkpoint m.store (company_id l))
  ]

  abbrev pause_with :
      Result (Option CompanyCheckpoint) → Exec Manager CompanyCheckpoint → Answer CompanyCheckpoint
  pause_with (err error) run = rejected error
  pause_with (ok (some existing)) run = resolved existing
  pause_with (ok none) run = started pause run

  -- pause(reason), when #operation is what is given
  unfoldable pub request_pause : ℕ → PauseReason → Option OperationKind → Answer CompanyCheckpoint
  unfolding unless_busy existing_paused_checkpoint suspend
  request_pause fuel reason operation =
      unless_busy pause operation
        (pause_with existing_paused_checkpoint (suspend l fuel reason paused))

  abbrev is_stopped_company : Option String → Bool
  is_stopped_company none = false
  is_stopped_company (some text) = text == "stopped"

  -- stop()
  unfoldable pub request_stop : ℕ → Option OperationKind → Answer (Unit {0})
  unfolding unless_busy suspend_stopped
  request_stop fuel operation = unless_busy stop operation (elim (is_stopped_company status) [
    | true ↦ resolved tt
    | false ↦ started stop (suspend_stopped l fuel)
  ])

-- recover(checkpoint, company), once the operation runs
unfoldable pub recover_from :
    Lifecycle → CompanyCheckpoint → CompanyDefinition → Exec Manager (List RecoveryDecision)
unfolding recover block_invalid_recovery
recover_from l checkpoint company =
    try_catch
      (asks (λ m. validate_checkpoint (record (service l m) { company = company }) checkpoint))
      (λ _. recover l checkpoint company) (block_invalid_recovery l "checkpoint")

-- recoverLatest(), once the operation runs
unfoldable pub recover_latest : Lifecycle → Exec Manager (List RecoveryDecision)
unfolding read_checkpoint recover block_invalid_recovery
recover_latest l m = elim (latest_checkpoint m.store (company_id l)) [
  | none ↦ block_invalid_recovery l "checkpoint" (malformed "checkpoint not found") m
  | some stored ↦
      try_catch (asks (λ m. read_checkpoint (service l m) stored))
        (λ checkpoint. recover l checkpoint l.company) (block_invalid_recovery l "checkpoint") m
]

abbrev if_eligible : {A : Type 0} → Result (Unit {0}) → Answer A → Answer A
if_eligible (err error) go_on = rejected error
if_eligible (ok _) go_on = go_on

unfoldable pub request_recover_latest :
    Lifecycle → Manager → Option OperationKind → Answer (List RecoveryDecision)
unfolding unless_busy recover_latest
request_recover_latest l m operation = unless_busy recovery operation (
    if_eligible (check_eligible (status_of (company_id l) m)) (started recovery (recover_latest l)))

unfoldable pub request_recover :
    Lifecycle
    → CompanyCheckpoint
    → CompanyDefinition
    → Option OperationKind
    → Answer (List RecoveryDecision)
unfolding unless_busy recover_from
request_recover l checkpoint company operation =
    unless_busy recovery operation (started recovery (recover_from l checkpoint company))
