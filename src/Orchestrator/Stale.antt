-- ===== src/Orchestrator/Stale.antt =====
-- packages/core/src/company/orchestrator.ts: sendTask when dispatching is stopped during a wait.
use agent_town.Prelude.{ℕ, String, ◌≡◌, List, ◌∷◌, nat_eq}
use agent_town.Contract.Task.{ActionProposal}
use agent_town.Contract.Agent.{AgentEvent, action_proposed, session_exited, adapter_error}
use agent_town.Result.{ok}
use agent_town.Exec.{Exec, ◌>>◌, lift}
use agent_town.Orchestrator.{Dispatcher}
use agent_town.Orchestrator.Calls.{assert_proposal_task}

-- Events that sendTask passes over.
abbrev pub IsPassed : AgentEvent → Type 0
IsPassed (action_proposed action) = ⊥
IsPassed (adapter_error code message) = ⊥
IsPassed (session_exited code) = ⊥
IsPassed _ = Unit

module _ (dispatch : ActionProposal → Exec Dispatcher (Unit {0})) (task_id : String)
    (epoch : ℕ) where
  -- An event after which the loop of sendTask goes on, and the state then.
  pub data GoesOn (d : Dispatcher) : AgentEvent → Dispatcher → Type 0 where
    passed : (event : AgentEvent) → IsPassed event → GoesOn d event d
    dispatched :
        (action : ActionProposal) (d' : Dispatcher)
        → (lift (assert_proposal_task action task_id) >> dispatch action) d ≡ (ok tt, d')
        → GoesOn d (action_proposed action) d'

  -- The loop, before some waits and in a state, comes to later waits and a state.
  pub data Reaches
      : List (Exec Dispatcher AgentEvent)
        → Dispatcher
        → List (Exec Dispatcher AgentEvent)
        → Dispatcher
        → Type 0 where
    here : (stream : List (Exec Dispatcher AgentEvent)) (d : Dispatcher) → Reaches stream d stream d
    there :
        (next : Exec Dispatcher AgentEvent) (rest later : List (Exec Dispatcher AgentEvent))
        (event : AgentEvent) (d d' d'' : Dispatcher)
        → (next d).0 ≡ ok event
        → epoch ≡ (next d).1.dispatch_epoch
        → GoesOn (next d).1 event d'
        → Reaches rest d' later d''
        → Reaches (next ∷ rest) d later d''
