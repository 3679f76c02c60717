-- ===== src/Contract/Company.antt =====
-- packages/runtime-contract/src/company.ts: the definition of a company.
use agent_town.Prelude.{ℕ, String, Bool, true, false, ◌≡◌, ◌↔◌, List, arith, Eq}

pub data WorkspaceMode : Type 0 where
  read_only git_worktree review_package : WorkspaceMode

abbrev pub workspace_beq : WorkspaceMode → WorkspaceMode → Bool
workspace_beq read_only read_only = true
workspace_beq git_worktree git_worktree = true
workspace_beq review_package review_package = true
workspace_beq _ _ = false

pub workspace_beq_iff : (s t : WorkspaceMode) → (workspace_beq s t ≡ true) ↔ (s ≡ t)
workspace_beq_iff s t = ground arith

instance abbrev pub workspace_eq : Eq WorkspaceMode
workspace_eq = record { is_same = workspace_beq; is_same_iff = workspace_beq_iff }

pub record EmployeeDefinition : Type 0 where
  pub id : String
  pub role : String
  pub agent : String
  pub reports_to : String
  pub workspace : WorkspaceMode

pub record Limits : Type 0 where
  pub max_task_retry : ℕ
  pub max_review_loops : ℕ
  pub max_parallel_tasks : ℕ

pub record CompanyDefinition : Type 0 where
  pub name : String
  pub mission : String
  pub success_criteria : List String
  pub operating_rules : List String
  pub employees : List EmployeeDefinition
  pub limits : Limits
