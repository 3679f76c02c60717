-- ===== src/Organization/Hierarchy.antt =====
-- In a valid organization every chain of managers ends at the owner.
use agent_town.Prelude.{
  ℕ, zero, suc, ◌<◌, String, ◌≡◌, ◌≢◌, true, false, some, inl, inr, List, [], ◌∷◌, map, includes,
  find, length, arith, ==_iff, string_eq, Option-cases, Bool-cases, ap, ◌==◌, refl,
}
use agent_town.Prelude.Remaining.{remaining, remaining-enter, remaining-le}
use agent_town.Contract.Company.{CompanyDefinition, EmployeeDefinition}
use agent_town.Result.{ok, err, out_of_fuel, Result-cases}
use agent_town.Organization.{
  climb, climb_all, enough_rounds, validate_organization, Option, check_managers, collect_ids,
}

abbrev pub employee : List EmployeeDefinition → String → Option EmployeeDefinition
employee es id = find (λ e. e.id == id) es

-- The chain of managers from an id reaches the owner.
pub data ReportsUp (es : List EmployeeDefinition) : String → Type 0 where
  top : {id : String} → id ≡ "owner" → ReportsUp es id
  up :
      {id : String}
      → (e : EmployeeDefinition) → employee es id ≡ some e
      → ReportsUp es e.reports_to
      → ReportsUp es id

-- Every employee's manager reaches the owner.
abbrev pub AllReportUp : List EmployeeDefinition → List EmployeeDefinition → Type 0
AllReportUp all [] = Unit
AllReportUp all (e ∷ es) = ReportsUp all e.reports_to × AllReportUp all es

-- No id is in the set, and none occurs twice.
abbrev pub Apart : List String → List EmployeeDefinition → Type 0
Apart ids [] = Unit
Apart ids (e ∷ es) = (includes ids e.id ≡ false) × Apart (e.id ∷ ids) es

pub record IsHierarchy (company : CompanyDefinition) : Type 0 where
  pub distinct : Apart [] company.employees
  pub reports : AllReportUp company.employees company.employees

climb-ReportsUp :
    (f : ℕ) (es : List EmployeeDefinition) (visited : List String) (manager : String) (u : Unit {0})
    → climb f es visited manager ≡ ok u
    → ReportsUp es manager
unfolding climb
climb-ReportsUp zero es visited manager u h = cc
climb-ReportsUp (suc f) es visited manager u h = elim (Bool-cases (manager == "owner")) [
  | inl p ↦ top ((==_iff manager "owner").0 p)
  | inr p ↦ elim (Option-cases (employee es manager)) [
    | inl q ↦ ground arith
    | inr (e, q) ↦ up e q (climb-ReportsUp f es (manager ∷ visited) e.reports_to u (ground arith))
  ]
]

climb_all-AllReportUp :
    (all es : List EmployeeDefinition) (u : Unit {0}) → climb_all all es ≡ ok u → AllReportUp all es
unfolding climb_all
climb_all-AllReportUp all [] u h = tt
climb_all-AllReportUp all (e ∷ es) u h = (
  climb-ReportsUp (enough_rounds all) all (e.id ∷ []) e.reports_to tt (ground arith),
  climb_all-AllReportUp all es u (ground arith),
)

collect_ids-Apart :
    (ids r : List String) (es : List EmployeeDefinition) → collect_ids ids es ≡ ok r → Apart ids es
unfolding collect_ids
collect_ids-Apart ids r [] h = tt
collect_ids-Apart ids r (e ∷ es) h =
    (ground arith, collect_ids-Apart (e.id ∷ ids) r es (ground arith))

find-includes :
    (es : List EmployeeDefinition) (id : String) (e : EmployeeDefinition)
    → employee es id ≡ some e
    → includes (map (λ x. x.id) es) id ≡ true
unfolding find includes
find-includes [] id e h = cc
find-includes (x ∷ es) id e h = ground (arith, find-includes es id e)

length-ids : (es : List EmployeeDefinition) → length (map (λ x. x.id) es) ≡ length es
length-ids [] = refl
length-ids (x ∷ es) = ap suc (length-ids es)

-- The loop ends within its rounds.
climb-fuelled :
    (f : ℕ) (es : List EmployeeDefinition) (visited : List String) (manager : String)
    → remaining (map (λ x. x.id) es) visited < f
    → climb f es visited manager ≢ err out_of_fuel
unfolding climb
climb-fuelled zero es visited manager m h = absurd (omega arith)
climb-fuelled (suc f) es visited manager m h = elim (Option-cases (employee es manager)) [
  | inl q ↦ ground arith
  | inr (e, q) ↦ elim (Bool-cases (includes visited manager)) [
    | inl p ↦ ground arith
    | inr p ↦
        let lt =
          remaining-enter (map (λ x. x.id) es) manager visited (find-includes es manager e q) p in
        ground (arith, climb-fuelled f es (manager ∷ visited) e.reports_to)
  ]
]

climb_all-fuelled : (all es : List EmployeeDefinition) → climb_all all es ≢ err out_of_fuel
unfolding climb_all
climb_all-fuelled all [] h = cc
climb_all-fuelled all (e ∷ es) h =
    let le = remaining-le (map (λ x. x.id) all) (e.id ∷ []) in
    elim (Result-cases (climb (enough_rounds all) all (e.id ∷ []) e.reports_to)) [
      | inl (u, k) ↦ climb_all-fuelled all es (ground arith)
      | inr (x, k) ↦
          climb-fuelled (enough_rounds all) all (e.id ∷ []) e.reports_to
            (omega (arith, le, length-ids all)) (ground arith)
    ]

collect_ids-fuelled :
    (ids : List String) (es : List EmployeeDefinition) → collect_ids ids es ≢ err out_of_fuel
unfolding collect_ids
collect_ids-fuelled ids [] h = cc
collect_ids-fuelled ids (e ∷ es) h = ground (arith, collect_ids-fuelled (e.id ∷ ids) es)

check_managers-fuelled :
    (ids : List String) (es : List EmployeeDefinition) → check_managers ids es ≢ err out_of_fuel
unfolding check_managers
check_managers-fuelled ids [] h = cc
check_managers-fuelled ids (e ∷ es) h = ground (arith, check_managers-fuelled ids es)

-- An organization that passes is handed on as it came; its employees have different ids, and from
-- every one of them the managers lead up to the owner.
pub validate_organization-IsHierarchy :
    (company c : CompanyDefinition)
    → validate_organization company ≡ ok c
    → (c ≡ company) × IsHierarchy company
unfolding validate_organization
validate_organization-IsHierarchy company c h =
    elim (Result-cases (collect_ids [] company.employees)) [
      | inr (e, k) ↦ ground arith
      | inl (ids, k) ↦ (
        ground arith,
        record {
          distinct = collect_ids-Apart [] ids company.employees k;
          reports = climb_all-AllReportUp company.employees company.employees tt (ground arith);
        },
      )
    ]

-- The loop up the managers ends for every company: the rounds given are enough.
pub validate_organization-fuelled :
    (company : CompanyDefinition) → validate_organization company ≢ err out_of_fuel
unfolding validate_organization
validate_organization-fuelled company h = elim (Result-cases (collect_ids [] company.employees)) [
  | inr (e, k) ↦ ground (arith, collect_ids-fuelled [] company.employees)
  | inl (ids, k) ↦ ground (
    arith,
    check_managers-fuelled ids company.employees,
    climb_all-fuelled company.employees company.employees,
  )
]
