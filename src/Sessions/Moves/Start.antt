-- ===== src/Sessions/Moves/Start.antt =====
-- startAll of SessionManager keeps every predicate that its writes and its waits keep.
use agent_town.Prelude.{String, List, [], ◌∷◌, refl, is_empty, none}
use agent_town.Prelude.Table.{Table}
use agent_town.Contract.Value.{field, end}
use agent_town.Contract.Company.{CompanyDefinition, EmployeeDefinition}
use agent_town.Result.{
  ok, err, guard, sessions_already_started, failed_to_start, start_result_mismatch,
}
use agent_town.Exec.{modify}
use agent_town.Sessions.{SessionManager, Manager}
use agent_town.Sessions.Start.{
  Started, register_started, failed_employee_ids, all_settled, stop_started_handles,
  persist_started, roll_back, start_all, scenario_of,
}
use agent_town.Sessions.Steps.{
  IsStable, Keeps, Awaits, Keeps-lift, Keeps-pure, Keeps-raise, Keeps-asks, Keeps-bind, Keeps-seq,
  Keeps-try, Keeps-if, Keeps-modify, Keeps-store, registered, adopted, dropped,
}
use agent_town.Sessions.Moves.{
  new_event-Keeps, put-Keeps, retain-Keeps, forget-Keeps, delete_unavailable-Keeps,
  delete_session-IsOther,
}
use agent_town.Storage.Sessions.{delete_session as erase_fact}
use agent_town.Sessions.Replace.{start_input}
use agent_town.Checkpoint.Payload.{handle_value}
use agent_town.Server.Requests.{join}

module _ {P : Manager → Type 0} (st : IsStable P) (k : SessionManager) where
  register_started-Keeps : (rs : List Started) → Keeps P (modify (register_started rs))
  unfolding register_started
  register_started-Keeps [] = Keeps-pure tt
  register_started-Keeps ((e, ok h) ∷ rs) = record {
    run = λ m p. (register_started-Keeps rs).run _ (st m _ (registered h refl) p);
  }
  register_started-Keeps ((e, err x) ∷ rs) = record {
    run = λ m p. (register_started-Keeps rs).run m p;
  }

  persist_started-Keeps : (rs : List Started) → Keeps P (persist_started k rs)
  unfolding persist_started
  persist_started-Keeps [] = Keeps-pure tt
  persist_started-Keeps ((e, ok h) ∷ rs) =
      Keeps-bind
        (new_event-Keeps st k "session.started" e.id none (field "handle" (handle_value h) end))
        (λ event. Keeps-seq (put-Keeps st k e.id h "running" event) (
          Keeps-seq (Keeps-modify st _ (λ m. adopted e.id h refl))
            (Keeps-seq (delete_unavailable-Keeps st k e.id) (persist_started-Keeps rs))))
  persist_started-Keeps ((e, err x) ∷ rs) = Keeps-raise start_result_mismatch

  roll_back-Keeps : (es : List EmployeeDefinition) → Keeps P (roll_back k es)
  unfolding roll_back
  roll_back-Keeps [] = Keeps-pure tt
  roll_back-Keeps (e ∷ es) = Keeps-seq (Keeps-modify st _ (λ m. dropped e.id refl)) (
      Keeps-seq (delete_unavailable-Keeps st k e.id) (
        Keeps-bind (new_event-Keeps st k "session.start_rolled_back" e.id none end) (λ event.
          Keeps-seq
            (Keeps-try
              (Keeps-store st (erase_fact k.company_id e.id event)
                (delete_session-IsOther k.company_id e.id event))
              (λ _. Keeps-pure tt) (λ _. Keeps-pure tt))
            (roll_back-Keeps es))))

  module _ (aw : Awaits P k) where
    all_settled-Keeps :
        (es : List EmployeeDefinition) (scenarios : Table String String)
        → Keeps P (all_settled k es scenarios)
    unfolding all_settled
    all_settled-Keeps [] scenarios = Keeps-pure []
    all_settled-Keeps (e ∷ es) scenarios =
        Keeps-bind
          (Keeps-try (aw.start e.agent (start_input k e (scenario_of scenarios e.id)))
            (λ h. Keeps-pure (ok h)) (λ x. Keeps-pure (err x)))
          (λ r. Keeps-bind (all_settled-Keeps es scenarios) (λ rs. Keeps-pure ((e, r) ∷ rs)))

    stop_started-Keeps : (rs : List Started) → Keeps P (stop_started_handles k rs)
    unfolding stop_started_handles
    stop_started-Keeps [] = Keeps-pure tt
    stop_started-Keeps ((e, ok h) ∷ rs) =
        Keeps-seq (stop_started-Keeps rs)
          (Keeps-try (aw.stop e.agent h) (λ _. forget-Keeps st k h) (λ _. retain-Keeps st k h))
    stop_started-Keeps ((e, err x) ∷ rs) = stop_started-Keeps rs

    pub start_all-Keeps :
        (company : CompanyDefinition) (scenarios : Table String String)
        → Keeps P (start_all k company scenarios)
    unfolding start_all
    start_all-Keeps company scenarios =
        Keeps-bind (Keeps-asks (λ m. ok (is_empty m.sessions))) (λ vacant.
          Keeps-seq (Keeps-lift (guard vacant sessions_already_started)) (
            Keeps-bind (all_settled-Keeps company.employees scenarios) (λ rs.
              Keeps-seq (register_started-Keeps rs) (
                Keeps-if (is_empty (failed_employee_ids rs))
                  (Keeps-try (persist_started-Keeps rs) (λ _. Keeps-pure tt)
                    (λ x.
                      Keeps-seq
                        (Keeps-seq (stop_started-Keeps rs) (roll_back-Keeps company.employees))
                        (Keeps-raise x)))
                  (Keeps-seq (stop_started-Keeps rs)
                    (Keeps-raise (failed_to_start (join ", " (failed_employee_ids rs)))))))))
