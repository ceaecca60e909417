-- ===== src/Runner/Models.antt =====
-- domain/models.py and domain/errors.py of the runner.
use mvp_master.Base.{ℕ, String, Bool, Option, List}
use mvp_master.Contracts.{Uuid, Time, Details, SecretReference}

-- The runner's errors, with the `RuntimeError` and `ValueError` that it raises itself, and any
-- exception of the agent, the validator or the workspace.
pub data RunnerError : Type 0 where
  unknown_provider unsupported_runtime unsupported_authentication_mode : RunnerError
  secret_resolution_failed : RunnerError
  runtime_error value_error : RunnerError
  other_error : String → RunnerError

pub data AgentEventKind : Type 0 where
  plan tool command result error approval usage : AgentEventKind

pub record AgentCapabilities : Type 0 where
  pub supports_resume : Bool
  pub supports_structured_events : Bool
  pub supports_usage : Bool
  pub supports_approval : Bool
  pub supported_authentication_modes : List String

pub record AgentRequest : Type 0 where
  pub execution_id : Uuid
  pub organization_id : Uuid
  pub provider : String
  pub model : String
  pub authentication_mode : String
  pub secret_reference : Option SecretReference
  pub workspace : String
  pub title : String
  pub problem : String
  pub acceptance_criteria : List String
  pub max_turns : ℕ
  pub max_duration_seconds : ℕ

pub record AgentEvent : Type 0 where
  pub sequence : ℕ
  pub kind : AgentEventKind
  pub name : String
  pub message : String
  pub occurred_at : Time
  pub metadata : Details

pub record AgentResult : Type 0 where
  pub success : Bool
  pub summary : String
  pub session_id : Option String
  pub input_tokens : Option ℕ
  pub cached_input_tokens : Option ℕ
  pub output_tokens : Option ℕ
  pub turns : ℕ
  pub changed_paths : List String
  pub events : List AgentEvent

pub record ValidationCommand : Type 0 where
  pub executable : String
  pub arguments : List String
  pub timeout_seconds : ℕ

-- A process's `returncode`: the number it exited with, or the negative of the signal that ended it,
-- as `signalled 8` for -9.
pub data ExitCode : Type 0 where
  exited : ℕ → ExitCode
  signalled : ℕ → ExitCode

pub record ValidationEvidence : Type 0 where
  pub executable : String
  pub arguments : List String
  pub exit_code : ExitCode
  pub stdout : String
  pub stderr : String
  pub duration_ms : ℕ

pub record ValidationResult : Type 0 where
  pub passed : Bool
  pub validator_image : String
  pub evidence : List ValidationEvidence
