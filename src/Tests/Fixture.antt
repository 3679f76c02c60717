-- ===== src/Tests/Fixture.antt =====
-- The company of packages/core/test/helpers.ts, and stores with its tasks.
use agent_town.Prelude.{String, none, some, [], ◌∷◌}
use agent_town.Contract.Value.{end}
use agent_town.Contract.Task.{TaskState, TaskRecord, draft, review}
use agent_town.Contract.Company.{
  CompanyDefinition, EmployeeDefinition, read_only, git_worktree, review_package,
}
use agent_town.Storage.Schema.{NewEvent, CompanyRow, empty_db}
use agent_town.Storage.Transaction.{Store}
use agent_town.Storage.Tasks.{task_row}
use agent_town.Tasks.Rules.{TaskService}
use agent_town.Tasks.Decide.{NewTask}

abbrev pub leader : EmployeeDefinition
leader = record {
  id = "leader";
  role = "Leader";
  agent = "fake";
  reports_to = "owner";
  workspace = read_only;
}

abbrev pub developer : EmployeeDefinition
developer = record {
  id = "developer";
  role = "Developer";
  agent = "fake";
  reports_to = "leader";
  workspace = git_worktree;
}

abbrev pub reviewer : EmployeeDefinition
reviewer = record {
  id = "reviewer";
  role = "Reviewer";
  agent = "fake";
  reports_to = "leader";
  workspace = review_package;
}

abbrev pub company : CompanyDefinition
company = record {
  name = "Fixture Company";
  mission = "Test AgentTown core storage";
  success_criteria = [];
  operating_rules = [];
  employees = leader ∷ developer ∷ reviewer ∷ [];
  limits = record { max_task_retry = 1; max_review_loops = 2; max_parallel_tasks = 2 };
}

abbrev pub svc : TaskService
svc = record { company_id = "c"; company = company; leader_id = "leader" }

abbrev pub event : String → NewEvent
event id = record {
  id = id;
  type = "test";
  actor_id = "core";
  task_id = none;
  causation_event_id = none;
  payload = end;
}

abbrev pub blank : Store
blank = record { db = empty_db; clock = λ n. "now"; skips = λ n. 0; published = [] }

abbrev pub company_row : CompanyRow
company_row = record {
  definition = company;
  status = "active";
  created_at = "now";
  updated_at = "now";
}

-- The store with the company, and with tasks.
abbrev pub opened : Store
opened = record blank { db = record empty_db { companies = ("c", company_row) ∷ [] } }

abbrev pub with_task : TaskRecord → Store
with_task t = record opened {
  db = record empty_db {
    companies = ("c", company_row) ∷ [];
    tasks = (("c", t.id), task_row t) ∷ [];
  };
}

abbrev pub build : TaskRecord
build = record {
  id = "build";
  title = "Build";
  objective = "Build it";
  owner_employee_id = none;
  dependencies = [];
  acceptance_criteria = "it runs" ∷ [];
  status = draft;
  retry_count = 0;
  review_loop_count = 0;
  artifacts = [];
  evidence = [];
  created_event_id = "e1";
  updated_event_id = "e1";
}

abbrev pub owned : TaskState → TaskRecord
owned state = record build { owner_employee_id = some "developer"; status = state }

abbrev pub in_review : TaskRecord
in_review = record build {
  owner_employee_id = some "developer";
  status = review;
  artifacts = "build.patch" ∷ [];
  evidence = "tests pass" ∷ [];
}

abbrev pub new_task : NewTask
new_task = record {
  id = "build";
  title = "Build";
  objective = "Build it";
  owner_employee_id = none;
  dependencies = [];
  acceptance_criteria = "it runs" ∷ [];
  status = draft;
  retry_count = 0;
  review_loop_count = 0;
  artifacts = [];
  evidence = [];
}
