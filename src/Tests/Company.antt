-- ===== src/Tests/Company.antt =====
-- Organizations, policy and leases at concrete inputs.
use agent_town.Prelude.{
  ap, ◌==◌, string_eq, List, String, ◌≡◌, ◌↔◌, true, refl, [], ◌∷◌, arith, false, find, some, ◌≢◌,
  includes, none,
}
use agent_town.Contract.Value.{end}
use agent_town.Contract.Task.{ActionProposal, propose}
use agent_town.Organization.{validate_organization}
use agent_town.Organization.Hierarchy.{
  IsHierarchy, validate_organization-IsHierarchy, validate_organization-fuelled,
}
use agent_town.Policy.{ActionPolicy, validate}
use agent_town.Policy.Permission.{IsAllowed, validate_iff}
use agent_town.Leases.{LeaseRegistry, Event, run, heartbeat, beat, gone, swept, settled}
use agent_town.Leases.Triggers.{run-paused}
use agent_town.Leases.Live.{run-live}
use agent_town.Tests.Fixture.{company, opened}
use agent_town.Result.{err, is_ok, ok, out_of_fuel}

company_passes : validate_organization company ≡ ok company
unfolding validate_organization find includes
company_passes = refl

validate_organization-IsHierarchy_example : (company ≡ company) × IsHierarchy company
validate_organization-IsHierarchy_example =
    validate_organization-IsHierarchy company company company_passes

validate_organization-fuelled_example : validate_organization company ≢ err out_of_fuel
validate_organization-fuelled_example = validate_organization-fuelled company

abbrev policy : ActionPolicy
policy = record { company = company; leader_id = "leader"; reviewer_ids = "reviewer" ∷ [] }

abbrev proposal : ActionProposal
proposal = record {
  action_id = "a1";
  type = propose;
  actor_employee_id = "leader";
  task_id = some "build";
  payload = end;
  reason = "work";
  causation_event_id = none;
}

validate_iff_example : (is_ok (validate policy proposal) ≡ true) ↔ IsAllowed policy proposal
validate_iff_example = validate_iff policy proposal

abbrev registry : LeaseRegistry
registry = record {
  store = opened;
  ttl_ms = 10;
  had_lease = true;
  pause_triggered = false;
  trigger_in_flight = false;
  waiting = 0;
  calls = 0;
}

run-paused_example :
    (run
      (swept 20 ∷ settled true ∷ gone "cli" ∷ [])
      (record registry { pause_triggered = true })).calls
    ≡ 0
run-paused_example =
    run-paused (swept 20 ∷ settled true ∷ gone "cli" ∷ [])
      (record registry { pause_triggered = true }) (tt, (tt, (tt, tt))) refl

-- Another client comes and goes, and a sweep and the end of a call fall into the time to live.
abbrev visitors : List Event
visitors = beat "web" 6 ∷ swept 14 ∷ gone "web" ∷ settled true ∷ swept 14 ∷ []

other_client : let other : String = "web" in other ≢ "cli"
other_client h =
    let e : false ≡ true = ap (λ (s : String). s == "cli") h in absurd (ground (arith, e))

run-live_example : (run visitors (heartbeat "cli" 5 registry)).calls ≡ 0
run-live_example =
    run-live "cli" 5 visitors registry
      (omega arith, (omega arith, (other_client, (tt, (omega arith, tt)))))

-- A lease that has run out when the sweep comes.
abbrev overdue : LeaseRegistry
overdue = record registry {
  store = record opened { db = record opened.db { client_leases = ("cli", 4) ∷ [] } };
}
