-- ===== src/Organization.antt =====
-- packages/runtime-contract/src/company.ts: validateOrganization. The parsing of the YAML text and
-- its schema belong to libraries; the function takes the definition that they give.
pub mod Hierarchy
use agent_town.Prelude.{
  ℕ, zero, suc, ◌+◌, String, Bool, not, ◌&&◌, Option, none, some, List, [], ◌∷◌, map, find,
  includes, length, ◌==◌, string_eq, if◌then◌else◌,
}
use agent_town.Contract.Company.{CompanyDefinition, EmployeeDefinition}
use agent_town.Result.{
  Result, ok, err, ◌>>=◌, ◌>>◌, guard, duplicate_employee_id, unknown_reports_to, reporting_cycle,
  out_of_fuel,
}

-- The first loop: the set of ids, if they differ.
unfoldable pub collect_ids : List String → List EmployeeDefinition → Result (List String)
collect_ids ids [] = ok ids
collect_ids ids (e ∷ es) =
    let rest = collect_ids (e.id ∷ ids) es in
    if includes ids e.id then err (duplicate_employee_id e.id) else rest

-- The second loop: who everybody reports to is known.
unfoldable pub check_managers : List String → List EmployeeDefinition → Result (Unit {0})
check_managers ids [] = ok tt
check_managers ids (e ∷ es) =
    let rest = check_managers ids es in
    if not (e.reports_to == "owner") && not (includes ids e.reports_to)
    then err (unknown_reports_to e.reports_to)
    else rest

-- The while loop of the third: up from a manager to the owner. The fuel bounds its rounds.
unfoldable pub climb : ℕ → List EmployeeDefinition → List String → String → Result (Unit {0})
climb zero es visited manager = err out_of_fuel
climb (suc f) es visited manager =
    let step : Result (Unit {0}) = elim (find (λ e. e.id == manager) es) [
      | none ↦ err (unknown_reports_to manager)
      | some e ↦ climb f es (manager ∷ visited) e.reports_to
    ] in
    if manager == "owner"
    then ok tt
    else if includes visited manager
    then err (reporting_cycle manager)
    else step

-- A round adds the id of an employee that was not visited.
abbrev pub enough_rounds : List EmployeeDefinition → ℕ
enough_rounds es = length es + 1

-- The third loop.
unfoldable pub climb_all : List EmployeeDefinition → List EmployeeDefinition → Result (Unit {0})
unfolding climb
climb_all all [] = ok tt
climb_all all (e ∷ es) =
    let rest = climb_all all es in climb (enough_rounds all) all (e.id ∷ []) e.reports_to >> rest

-- validateOrganization(company)
unfoldable pub validate_organization : CompanyDefinition → Result CompanyDefinition
unfolding collect_ids check_managers climb_all
validate_organization company = do
  ids ← collect_ids [] company.employees
  check_managers ids company.employees
  climb_all company.employees company.employees
  ok company
