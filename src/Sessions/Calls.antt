-- ===== src/Sessions/Calls.antt =====
-- packages/core/src/agents/session-manager.ts: the public methods as one. Each keeps every predicate
-- that its writes and its waits keep.
use agent_town.Prelude.{string_eq, pair_eq}
use agent_town.Contract.Agent.{AgentEvent}
use agent_town.Exec.{Exec, ◌>>◌, pure}
use agent_town.Sessions.{SessionManager, Manager}
use agent_town.Sessions.Replace.{resume_one, rebuild_one}
use agent_town.Sessions.Start.{start_all}
use agent_town.Sessions.Stop.{interrupt_all, stop_all_bounded, stop_all}
use agent_town.Sessions.Send.{send}
use agent_town.Sessions.Steps.{IsStable, Keeps, Awaits, Keeps-pure, Keeps-seq}
use agent_town.Sessions.Moves.{resume_one-Keeps, rebuild_one-Keeps}
use agent_town.Sessions.Moves.Start.{start_all-Keeps}
use agent_town.Sessions.Moves.Stop.{interrupt_all-Keeps, stop_all_bounded-Keeps, stop_all-Keeps}
use agent_town.Sessions.Moves.Send.{send-Keeps}
use agent_town.Sessions.Call.{Call}

unfoldable pub run : SessionManager → Call → Exec Manager (Unit {0})
run k (Call.start_all company scenarios) = start_all k company scenarios
run k (Call.send employee message signal consume) = send k employee message signal consume
run k (Call.interrupt_all signal) = interrupt_all k signal >> pure tt
run k (Call.stop_all_bounded signal force deadline_at) =
    stop_all_bounded k signal force deadline_at >> pure tt
run k Call.stop_all = stop_all k
run k (Call.resume_one employee checkpoint signal scenario) =
    resume_one k employee checkpoint signal scenario >> pure tt
run k (Call.rebuild_one employee handoff signal scenario) =
    rebuild_one k employee handoff signal scenario >> pure tt

-- What the reader of a stream does keeps P.
abbrev pub Reads : (Manager → Type 0) → Call → Type 0
Reads P (Call.send employee message signal consume) = (event : AgentEvent) → Keeps P (consume event)
Reads P _ = Unit

pub run-Keeps :
    {P : Manager → Type 0} (st : IsStable P) (k : SessionManager) (aw : Awaits P k) (call : Call)
    → Reads P call
    → Keeps P (run k call)
unfolding run
run-Keeps st k aw (Call.start_all company scenarios) r = start_all-Keeps st k aw company scenarios
run-Keeps st k aw (Call.send employee message signal consume) r =
    send-Keeps st k aw employee message signal r
run-Keeps st k aw (Call.interrupt_all signal) r =
    Keeps-seq (interrupt_all-Keeps st k aw signal) (Keeps-pure tt)
run-Keeps st k aw (Call.stop_all_bounded signal force deadline_at) r =
    Keeps-seq (stop_all_bounded-Keeps st k aw signal force deadline_at) (Keeps-pure tt)
run-Keeps st k aw Call.stop_all r = stop_all-Keeps st k aw
run-Keeps st k aw (Call.resume_one employee checkpoint signal scenario) r =
    Keeps-seq (resume_one-Keeps st k aw employee checkpoint signal scenario) (Keeps-pure tt)
run-Keeps st k aw (Call.rebuild_one employee handoff signal scenario) r =
    Keeps-seq (rebuild_one-Keeps st k aw employee handoff signal scenario) (Keeps-pure tt)
