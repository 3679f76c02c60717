-- ===== src/Tasks/Cycle.antt =====
-- packages/core/src/tasks/task-service.ts: #assertNoDependencyCycle, a depth-first search that
-- raises when it meets a task that it is still visiting.
pub mod View
pub mod Sound
pub mod Fuel
pub mod Kept
pub mod Complete
pub mod Decides
use agent_town.Prelude.{
  ℕ, zero, suc, ◌+◌, String, not, none, some, List, [], ◌∷◌, map, length, filter, includes, ◌==◌,
  string_eq, if◌then◌else◌,
}
use agent_town.Prelude.Table.{Table, lookup, insert}
use agent_town.Result.{Result, ok, err, dependency_cycle, out_of_fuel}

-- Map<string, string[]>
abbrev pub Graph : Type 0
Graph = Table String (List String)

-- dependencies.get(taskId) ?? []
unfoldable pub dependencies_of : Graph → String → List String
dependencies_of g n = elim (lookup n g) [ none ↦ [] | some ds ↦ ds ]

-- The two sets of the search.
pub record Walk : Type 0 where
  pub visiting : List String
  pub visited : List String

abbrev pub enter : String → Walk → Walk
enter n w = record w { visiting = n ∷ w.visiting }

abbrev pub leave : String → Walk → Walk
leave n w = record { visiting = filter (λ m. not (m == n)) w.visiting; visited = n ∷ w.visited }

-- for (const id of ids) visit(id)
unfoldable pub visit_each : (String → Walk → Result Walk) → List String → Walk → Result Walk
visit_each visit [] w = ok w
visit_each visit (n ∷ ns) w = elim (visit n w) [ ok w' ↦ visit_each visit ns w' | err e ↦ err e ]

abbrev pub finish : String → Result Walk → Result Walk
finish n (ok w) = ok (leave n w)
finish n (err e) = err e

-- The fuel bounds the depth of the calls.
unfoldable pub visit : ℕ → Graph → String → Walk → Result Walk
unfolding visit_each
visit zero g n w = err out_of_fuel
visit (suc f) g n w =
    let below = finish n (visit_each (visit f g) (dependencies_of g n) (enter n w)) in
    if includes w.visiting n
    then err (dependency_cycle n)
    else if includes w.visited n
    then ok w
    else below

abbrev pub keys : Graph → List String
keys = map (λ entry. entry.0)

-- A call enters a task that is not yet being visited, and only a key has calls below it.
abbrev pub enough_fuel : Graph → ℕ
enough_fuel g = length g + 2

unfoldable pub search_graph : Graph → Result Walk
unfolding visit
search_graph g =
    visit_each (visit (enough_fuel g) g) (keys g) (record { visiting = []; visited = [] })

-- new Map(entries)
unfoldable pub from_entries : List (String × List String) → Graph → Graph
from_entries [] g = g
from_entries ((id, ds) ∷ es) g = from_entries es (insert id ds g)
