-- ===== src/ControlPlane/Models.antt =====
-- domain/models.py and domain/errors.py of the control plane: roles, statuses, and the objects with
-- their methods. `now` arguments elsewhere are the readings of the clock that `created_at` keeps.
pub mod Transitions
use mvp_master.Base.{
  ℕ, ◌+◌, String, Bool, true, false, ◌||◌, not, Option, none, some, List, nat_beq, if◌then◌else◌,
}
use mvp_master.Exec.{Result, ok, err}
use mvp_master.Contracts.{Uuid, Time}

pub data DomainError : Type 0 where
  invalid_transition permission_denied not_found conflict : DomainError

pub data Role : Type 0 where
  owner admin developer reviewer client : Role

pub data IntakeStatus : Type 0 where
  received clarification_required specification_drafted awaiting_approval specification_approved :
      IntakeStatus

pub data SpecificationStatus : Type 0 where
  draft awaiting_approval approved superseded : SpecificationStatus

pub data WorkItemStatus : Type 0 where
  in_review reviewed ready building verification delivered failed awaiting_human : WorkItemStatus

pub record Organization : Type 0 where
  pub id : Uuid
  pub name : String
  pub created_at : Time

pub record Project : Type 0 where
  pub id : Uuid
  pub organization_id : Uuid
  pub name : String
  pub description : String
  pub execution_approval_required : Bool
  pub created_at : Time

pub record IntakeRequest : Type 0 where
  pub id : Uuid
  pub organization_id : Uuid
  pub project_id : Uuid
  pub client_id : Option Uuid
  pub submitted_by : String
  pub problem : String
  pub intended_users : String
  pub required_functionality : List String
  pub exclusions : List String
  pub constraints : List String
  pub status : IntakeStatus
  pub created_at : Time

pub record SpecificationVersion : Type 0 where
  pub id : Uuid
  pub specification_id : Uuid
  pub version : ℕ
  pub title : String
  pub problem : String
  pub intended_users : String
  pub requirements : List String
  pub exclusions : List String
  pub constraints : List String
  pub created_by : String
  pub created_at : Time

pub record Specification : Type 0 where
  pub id : Uuid
  pub organization_id : Uuid
  pub project_id : Uuid
  pub intake_id : Uuid
  pub current_version_id : Uuid
  pub current_version : ℕ
  pub status : SpecificationStatus

pub record Approval : Type 0 where
  pub id : Uuid
  pub organization_id : Uuid
  pub subject_type : String
  pub subject_id : Uuid
  pub subject_version : ℕ
  pub decision : String
  pub actor_subject : String
  pub reason : Option String
  pub created_at : Time

-- The amounts are natural numbers: `BudgetRequest` (entrypoints/api.py) refuses others.
pub record Budget : Type 0 where
  pub max_duration_seconds : ℕ
  pub max_attempts : ℕ
  pub max_turns : ℕ
  pub max_cost_minor : ℕ
  pub currency : String

pub record WorkItem : Type 0 where
  pub id : Uuid
  pub organization_id : Uuid
  pub project_id : Uuid
  pub specification_version_id : Uuid
  pub title : String
  pub description : String
  pub acceptance_criteria : List String
  pub status : WorkItemStatus
  pub repository_connection_id : Option Uuid
  pub provider_configuration_id : Option Uuid
  pub runner_pool_id : Option Uuid
  pub budget : Option Budget
  pub version : ℕ
