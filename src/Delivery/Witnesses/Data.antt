-- ===== src/Delivery/Witnesses/Data.antt =====
-- Concrete values of the delivery service.
use mvp_master.Base.{ℕ, true, false, none, some, [], ◌∷◌}
use mvp_master.Contracts.{ExternalReference}
use mvp_master.Delivery.Models.{
  ExecutionBudget, Execution, ExecutionStatus, Runner, approved, online, api_key_reference,
}
use mvp_master.Delivery.Configuration.{AgentProviderConfiguration}
use mvp_master.Delivery.Service.{ReadyWorkItem}
use mvp_master.Delivery.Jobs.{RunnerJob, JobPayload, JobResult, JobStatus}
use mvp_master.Delivery.Database.{Database}
use mvp_master.Delivery.Activity.{Draws}

abbrev pub budget : ExecutionBudget
budget = record {
  max_duration_seconds = 600;
  max_attempts = 2;
  max_turns = 20;
  max_cost_minor = 500;
  currency = "USD";
}

abbrev pub item : ReadyWorkItem
item = record {
  organization_id = 1;
  project_id = 2;
  work_item_id = 3;
  title = "Login";
  description = "Users cannot log in";
  acceptance_criteria = "A user logs in" ∷ [];
  repository_connection_id = 4;
  provider_configuration_id = 5;
  runner_pool_id = 6;
  budget = budget;
  correlation_id = 7;
}

abbrev pub reference : ExternalReference
reference = record {
  provider = "github";
  account_id = "a";
  repository = some "r";
  resource_type = "pull_request";
  external_id = "12";
}

abbrev pub configuration : AgentProviderConfiguration
configuration = record {
  id = 5;
  organization_id = 1;
  display_name = "Codex";
  provider = "openai";
  runtime = "codex-cli";
  model = "gpt-5.1-codex";
  authentication_mode = api_key_reference;
  secret_reference = some (record { store = "file"; namespace = "n"; key = "k"; version = none });
  enabled = true;
  is_development_substitute = false;
}

-- An execution of the work item in a status, with what it used so far.
abbrev pub execution : ExecutionStatus → ℕ → Execution
execution status attempts = record {
  id = 10;
  organization_id = 1;
  project_id = 2;
  work_item_id = 3;
  title = "Login";
  description = "Users cannot log in";
  acceptance_criteria = "A user logs in" ∷ [];
  repository_connection_id = 4;
  provider_configuration_id = 5;
  runner_pool_id = 6;
  budget = budget;
  approval_status = approved;
  status = status;
  attempt_count = attempts;
  turn_count = 0;
  duration_seconds = 0;
  cost_minor = 0;
  version = 5;
  cancellation_requested = true;
  result_reference = none;
}

abbrev pub payload : JobPayload
payload = record {
  execution_id = 10;
  organization_id = 1;
  repository_connection_id = 4;
  provider = "openai";
  runtime = "codex-cli";
  model = "gpt-5.1-codex";
  authentication_mode = "API_KEY_REFERENCE";
  secret_reference = none;
  title = "Login";
  problem = "Users cannot log in";
  acceptance_criteria = [];
  max_turns = 20;
  max_duration_seconds = 600;
}

abbrev pub good : JobResult
good = record {
  commit_sha = "c0ffee";
  duration_seconds = 60;
  cost_minor = 12;
  agent_success = true;
  agent_turns = 4;
  agent_events =
      record { sequence = 1; kind = "PLAN"; name = "plan"; message = "Planned."; metadata = [] }
      ∷ [];
  validation_passed = true;
}

-- The agent claims success; the independent validation failed.
abbrev pub bad : JobResult
bad = record good { validation_passed = false }

abbrev pub job : JobStatus → JobResult → RunnerJob
job status result = record {
  id = 11;
  organization_id = 1;
  execution_id = 10;
  pool_id = 6;
  status = status;
  payload = payload;
  result = some result;
  leased_by_runner_id = some 20;
  leased_at = some 1_000;
  completed_at = none;
}

abbrev pub runner : ℕ → Runner
runner id = record {
  id = id;
  organization_id = 1;
  pool_id = 6;
  name = "r";
  capabilities = [];
  credential_hash = "h";
  status = online;
  last_seen_at = 0;
}

abbrev pub database : Execution → RunnerJob → Database
database e j = record {
  configurations = (5, configuration) ∷ [];
  executions = (10, e) ∷ [];
  events = [];
  jobs = (11, j) ∷ [];
}

abbrev pub draws : Draws
draws = record { event_id = λ n. n; now = λ n. n }
