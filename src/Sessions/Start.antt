-- ===== src/Sessions/Start.antt =====
-- packages/core/src/agents/session-manager.ts: startAll and get.
use agent_town.Prelude.{String, true, false, none, some, List, [], ◌∷◌, is_empty, string_eq}
use agent_town.Prelude.Table.{Table, lookup}
use agent_town.Contract.Value.{field, end}
use agent_town.Contract.Company.{CompanyDefinition, EmployeeDefinition}
use agent_town.Contract.Agent.{SessionHandle}
use agent_town.Result.{
  Result, ok, err, guard, required, sessions_already_started, session_not_started, failed_to_start,
  start_result_mismatch,
}
use agent_town.Exec.{Exec, ◌>>=◌, ◌>>◌, pure, asks, modify, raise, lift, try_catch}
use agent_town.Storage.Sessions.{delete_session as erase_fact}
use agent_town.Server.Requests.{join}
use agent_town.Checkpoint.Payload.{handle_value}
use agent_town.Sessions.{SessionManager, Manager, on_store, new_event, put}
use agent_town.Sessions.Handles.{
  register_handle, retain_for_cleanup, forget_handle, set_session, delete_session,
  delete_unavailable,
}
use agent_town.Sessions.Replace.{start_input}

-- scenarios[employee.id] ?? "idle"
abbrev pub scenario_of : Table String String → String → String
scenario_of scenarios id = elim (lookup id scenarios) [ none ↦ "idle" | some scenario ↦ scenario ]

-- An employee with what its start settled to.
abbrev pub Started : Type 0
Started = EmployeeDefinition × Result SessionHandle

-- for (const result of results) if (result.status === "fulfilled") this.#registerHandle(result.value)
unfoldable pub register_started : List Started → Manager → Manager
register_started [] m = m
register_started ((employee, ok handle) ∷ results) m =
    register_started results (register_handle handle m).1
register_started ((employee, err error) ∷ results) m = register_started results m

unfoldable pub failed_employee_ids : List Started → List String
failed_employee_ids [] = []
failed_employee_ids ((employee, ok handle) ∷ results) = failed_employee_ids results
failed_employee_ids ((employee, err error) ∷ results) = employee.id ∷ failed_employee_ids results

module _ (k : SessionManager) where
  -- Promise.allSettled of the starts: what each settled to, in the order of the employees.
  unfoldable pub all_settled :
      List EmployeeDefinition → Table String String → Exec Manager (List Started)
  all_settled [] scenarios = pure []
  all_settled (employee ∷ rest) scenarios = do
    result ←
        try_catch
          ((k.adapter_for employee.agent).start
            (start_input k employee (scenario_of scenarios employee.id)))
          (λ handle. pure (ok handle)) (λ error. pure (err error))
    results ← all_settled rest scenarios
    pure ((employee, result) ∷ results)

  -- #stopStartedHandles: the last result first
  unfoldable pub stop_started_handles : List Started → Exec Manager (Unit {0})
  stop_started_handles [] = pure tt
  stop_started_handles ((employee, ok handle) ∷ results) =
      stop_started_handles results
      >> try_catch ((k.adapter_for employee.agent).stop handle) (λ _. modify (forget_handle handle))
          (λ _. modify (retain_for_cleanup handle))
  stop_started_handles ((employee, err error) ∷ results) = stop_started_handles results

  -- The loop of startAll's try
  unfoldable pub persist_started : List Started → Exec Manager (Unit {0})
  persist_started [] = pure tt
  persist_started ((employee, ok handle) ∷ results) = do
    event ←
        new_event k "session.started" employee.id none (field "handle" (handle_value handle) end)
    put k employee.id handle "running" event
    modify (set_session employee.id handle)
    modify (delete_unavailable employee.id)
    persist_started results
  persist_started ((employee, err error) ∷ results) = raise start_result_mismatch

  -- The loop of its catch
  unfoldable pub roll_back : List EmployeeDefinition → Exec Manager (Unit {0})
  roll_back [] = pure tt
  roll_back (employee ∷ rest) = do
    modify (delete_session employee.id)
    modify (delete_unavailable employee.id)
    event ← new_event k "session.start_rolled_back" employee.id none end
    try_catch (on_store (erase_fact k.company_id employee.id event)) (λ _. pure tt) (λ _. pure tt)
    roll_back rest

  -- startAll(company, scenarios)
  unfoldable pub start_all : CompanyDefinition → Table String String → Exec Manager (Unit {0})
  unfolding all_settled register_started failed_employee_ids stop_started_handles persist_started
      roll_back join
  start_all company scenarios = do
    vacant ← asks (λ m. ok (is_empty m.sessions))
    lift (guard vacant sessions_already_started)
    results ← all_settled company.employees scenarios
    modify (register_started results)
    elim (is_empty (failed_employee_ids results)) [
      | false ↦
          stop_started_handles results
          >> raise (failed_to_start (join ", " (failed_employee_ids results)))
      | true ↦
          try_catch (persist_started results) (λ _. pure tt)
            (λ error. stop_started_handles results >> roll_back company.employees >> raise error)
    ]

-- get(employeeId)
unfoldable pub get : String → Manager → Result SessionHandle
get employee_id m = required (lookup employee_id m.sessions) (session_not_started employee_id)
