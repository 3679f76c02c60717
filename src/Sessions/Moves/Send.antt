-- ===== src/Sessions/Moves/Send.antt =====
-- send of SessionManager keeps every predicate that its writes and its waits keep.
use agent_town.Prelude.{ℕ, String, Option, List, [], ◌∷◌, refl, ◌==◌, includes, not, string_eq}
use agent_town.Contract.Company.{EmployeeDefinition}
use agent_town.Contract.Agent.{
  SessionHandle, AgentMessage, AgentEvent, session_started, output_delta, output_completed,
  action_proposed, usage_updated, session_interrupted, session_exited, adapter_error,
}
use agent_town.Result.{ok, guard, message_employee_mismatch, session_unavailable}
use agent_town.Exec.{Exec}
use agent_town.Storage.Transaction.{insert_event}
use agent_town.Sessions.{SessionManager, Manager, is_aborted}
use agent_town.Sessions.Send.{
  agent_event, end_session, on_agent_event, send_loop, send, event_for, log_event, usage_snapshot,
  usage_event,
}
use agent_town.Sessions.Steps.{
  IsStable, Keeps, Awaits, AllKeep, Keeps-lift, Keeps-pure, Keeps-asks, Keeps-bind, Keeps-seq,
  Keeps-if, Keeps-modify, Keeps-store, marked,
}
use agent_town.Sessions.Moves.{
  new_event-Keeps, put-Keeps, random_uuid-Keeps, in_turn-Keeps, put_usage_snapshot-IsOther,
  insert_event-IsOther,
}
use agent_town.Sessions.Handles.{add_unavailable}
use agent_town.Storage.Sessions.{put_usage_snapshot}
use agent_town.Sessions.Start.{get}

module _ {P : Manager → Type 0} (st : IsStable P) (k : SessionManager) where
  event_for-Keeps :
      (e : String) (message : AgentMessage) (event : AgentEvent)
      → Keeps P (event_for k e message event)
  event_for-Keeps e message event =
      new_event-Keeps st k (agent_event event).0 e message.task_id (agent_event event).1

  end_session-Keeps :
      (e : String) (message : AgentMessage) (h : SessionHandle) (status : String)
      (event : AgentEvent)
      → Keeps P (end_session k e message h status event)
  unfolding end_session add_unavailable
  end_session-Keeps e message h status event =
      Keeps-seq (Keeps-modify st _ (λ m. marked _ refl))
        (Keeps-bind (event_for-Keeps e message event) (put-Keeps st k e h status))

  logged-Keeps :
      (e : String) (message : AgentMessage) (event : AgentEvent)
      → Keeps P (log_event k e message event)
  unfolding log_event
  logged-Keeps e message event = Keeps-bind (event_for-Keeps e message event) (λ row.
      Keeps-seq (Keeps-store st (insert_event row) (insert_event-IsOther row)) (Keeps-pure tt))

  on_agent_event-Keeps :
      (e : String) (message : AgentMessage) (h : SessionHandle) (event : AgentEvent)
      → Keeps P (on_agent_event k e message h event)
  unfolding on_agent_event
  on_agent_event-Keeps e message h (usage_updated a b c) =
      Keeps-bind (random_uuid-Keeps st k) (λ id. Keeps-bind (Keeps-asks (λ m. ok m.now)) (λ now.
        Keeps-store st
          (put_usage_snapshot k.company_id e (usage_snapshot (k.iso now) a b c)
            (usage_event id e message a b c))
          (put_usage_snapshot-IsOther k.company_id e (usage_snapshot (k.iso now) a b c)
            (usage_event id e message a b c))))
  on_agent_event-Keeps e message h (session_exited code) =
      end_session-Keeps e message h _ (session_exited code)
  on_agent_event-Keeps e message h (adapter_error code text) =
      end_session-Keeps e message h _ (adapter_error code text)
  on_agent_event-Keeps e message h (session_started x) = logged-Keeps e message (session_started x)
  on_agent_event-Keeps e message h (output_delta x) = logged-Keeps e message (output_delta x)
  on_agent_event-Keeps e message h (output_completed x) =
      logged-Keeps e message (output_completed x)
  on_agent_event-Keeps e message h (action_proposed x) = logged-Keeps e message (action_proposed x)
  on_agent_event-Keeps e message h (session_interrupted x) =
      logged-Keeps e message (session_interrupted x)

  send_loop-Keeps :
      (employee : EmployeeDefinition) (message : AgentMessage) (signal : Option ℕ)
      (h : SessionHandle) {consume : AgentEvent → Exec Manager (Unit {0})}
      (stream : List (Exec Manager AgentEvent))
      → ((event : AgentEvent) → Keeps P (consume event))
      → AllKeep P stream
      → Keeps P (send_loop k employee message signal h consume stream)
  unfolding send_loop
  send_loop-Keeps employee message signal h [] c all = Keeps-pure tt
  send_loop-Keeps employee message signal h (next ∷ stream) c all = Keeps-bind all.0 (λ event.
      Keeps-bind (Keeps-asks (λ m. ok (is_aborted signal m))) (λ aborted.
        Keeps-if aborted (Keeps-pure tt) (
          Keeps-seq (on_agent_event-Keeps employee.id message h event)
            (Keeps-seq (c event) (send_loop-Keeps employee message signal h stream c all.1)))))

  pub send-Keeps :
      (aw : Awaits P k) (employee : EmployeeDefinition) (message : AgentMessage) (signal : Option ℕ)
      {consume : AgentEvent → Exec Manager (Unit {0})}
      → ((event : AgentEvent) → Keeps P (consume event))
      → Keeps P (send k employee message signal consume)
  unfolding send
  send-Keeps aw employee message signal c =
      Keeps-seq
        (Keeps-lift (
          guard (message.employee_id == employee.id)
            (message_employee_mismatch message.employee_id)))
        (in_turn-Keeps st k aw employee.id (
          Keeps-bind (Keeps-asks (get employee.id)) (λ session.
            Keeps-bind (Keeps-asks (λ m. ok (includes m.unavailable employee.id))) (λ unavailable.
              Keeps-seq (Keeps-lift (guard (not unavailable) (session_unavailable employee.id))) (
                send_loop-Keeps employee message signal session _ c
                  (aw.send employee.agent session message))))))
