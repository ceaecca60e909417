-- ===== src/Runner/Agents.antt =====
-- adapters/agent_registry.py and entrypoints/job.py of the runner: which agent a job gets, and the
-- result of a job that gets none.
pub mod Compatibility
use mvp_master.Base.{
  ℕ, String, Bool, true, false, Option, none, some, List, [], ◌∷◌, string_eq, contains, concat,
  if◌then◌else◌,
}
use mvp_master.Exec.{Result, ok, err}
use mvp_master.Dict.{Dict, get}
use mvp_master.Contracts.{Time}
use mvp_master.Runner.Models.{
  secret_resolution_failed, RunnerError, unknown_provider, unsupported_runtime,
  unsupported_authentication_mode, other_error, runtime_error, value_error, AgentCapabilities,
  AgentRequest, AgentResult, error,
}
use mvp_master.Runner.Providers.{ProviderEndpoint, endpoint_for}

-- `SUPPORTED_RUNTIMES`
abbrev pub supported_runtimes : List String
supported_runtimes = "deterministic" ∷ "codex-cli" ∷ "claude-code-cli" ∷ "claude-agent-sdk" ∷ []

-- `EGRESS_REQUIRED_RUNTIMES`
abbrev pub egress_required_runtimes : List String
egress_required_runtimes = "codex-cli" ∷ "claude-code-cli" ∷ "claude-agent-sdk" ∷ []

-- `DeterministicAgent.capabilities`
abbrev pub deterministic : AgentCapabilities
deterministic = record {
  supports_resume = false;
  supports_structured_events = true;
  supports_usage = true;
  supports_approval = false;
  supported_authentication_modes = "NONE" ∷ [];
}

-- `CodexCliAgent.capabilities`
abbrev pub codex_cli : AgentCapabilities
codex_cli = record {
  supports_resume = true;
  supports_structured_events = true;
  supports_usage = true;
  supports_approval = true;
  supported_authentication_modes = "LOCAL_SESSION" ∷ "API_KEY_REFERENCE" ∷ [];
}

-- `ClaudeCodeCliAgent.capabilities`
abbrev pub claude_code_cli : AgentCapabilities
claude_code_cli = record {
  supports_resume = false;
  supports_structured_events = true;
  supports_usage = true;
  supports_approval = false;
  supported_authentication_modes = "LOCAL_SESSION" ∷ "API_KEY_REFERENCE" ∷ [];
}

-- `ClaudeAgentSdkAgent.capabilities`
abbrev pub claude_agent_sdk : AgentCapabilities
claude_agent_sdk = record {
  supports_resume = false;
  supports_structured_events = true;
  supports_usage = true;
  supports_approval = false;
  supported_authentication_modes = "API_KEY_REFERENCE" ∷ [];
}

-- What the agents of `build_agents` are capable of, by runtime
abbrev pub agents : Dict String AgentCapabilities
agents =
    ("deterministic", deterministic)
    ∷ ("codex-cli", codex_cli)
    ∷ ("claude-code-cli", claude_code_cli)
    ∷ ("claude-agent-sdk", claude_agent_sdk)
    ∷ []

-- `authentication_mode not in capabilities.supported_authentication_modes`; a runtime that
-- `build_agents` does not have raises `KeyError`.
abbrev capable : Option AgentCapabilities → String → Result RunnerError AgentCapabilities
capable none mode = err (other_error "KeyError")
capable (some c) mode =
    if contains c.supported_authentication_modes mode
    then ok c
    else err unsupported_authentication_mode

abbrev select_for :
    Result RunnerError ProviderEndpoint → String → String → Result RunnerError AgentCapabilities
select_for (err e) runtime mode = err e
select_for (ok endpoint) runtime mode =
    if contains supported_runtimes runtime
    then capable (get agents runtime) mode
    else err unsupported_runtime

-- The `try` block of `_execute`
unfoldable pub select_agent : String → String → String → Result RunnerError AgentCapabilities
unfolding endpoint_for get
select_agent provider runtime mode = select_for (endpoint_for provider) runtime mode

-- `type(error).__name__.lower()`
abbrev error_name : RunnerError → String
error_name unknown_provider = "runtime.unknownprovider"
error_name unsupported_runtime = "runtime.unsupportedruntime"
error_name unsupported_authentication_mode = "runtime.unsupportedauthenticationmode"
error_name secret_resolution_failed = "runtime.secretresolutionfailed"
error_name runtime_error = "runtime.runtimeerror"
error_name value_error = "runtime.valueerror"
error_name (other_error name) = concat "runtime." name

-- The errors that `_execute` catches
abbrev pub is_caught : RunnerError → Bool
is_caught unknown_provider = true
is_caught unsupported_runtime = true
is_caught unsupported_authentication_mode = true
is_caught _ = false

-- `_failed_result`; `message` is the error's text.
unfoldable pub failed_result : String → Time → RunnerError → AgentResult
failed_result message now e = record {
  success = false;
  summary =
      "The isolated runner job could not start: the requested runtime configuration is not supported.";
  session_id = none;
  input_tokens = none;
  cached_input_tokens = none;
  output_tokens = none;
  turns = 0;
  changed_paths = [];
  events =
      record {
        sequence = 1;
        kind = error;
        name = error_name e;
        message = message;
        occurred_at = now;
        metadata = [];
      }
      ∷ [];
}

module _ (run : String → AgentRequest → Result RunnerError AgentResult) where
  abbrev execute_selected :
      Result RunnerError AgentCapabilities
      → String
      → Time
      → String
      → AgentRequest
      → Result RunnerError AgentResult
  execute_selected (err e) message now runtime request =
      if is_caught e then ok (failed_result message now e) else err e
  execute_selected (ok _) message now runtime request = run runtime request

  -- `_execute`; `run` is what the agent of a runtime answers.
  unfoldable pub execute : String → Time → String → AgentRequest → Result RunnerError AgentResult
  unfolding select_agent failed_result
  execute message now runtime request =
      execute_selected (select_agent request.provider runtime request.authentication_mode) message
        now runtime request
