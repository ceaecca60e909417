-- ===== src/Runner/Execution.antt =====
-- application/execute.py of the runner: `RunnerExecutionService`. The agents, the validator and the
-- workspaces (application/ports.py) are interfaces over the state `W` outside.
pub mod Cleanup
use mvp_master.Base.{
  ℕ, String, Bool, true, false, not, Option, none, some, List, string_eq, contains, if◌then◌else◌,
  ⊤,
}
use mvp_master.Exec.{Exec, Result, ok, err, pure, or_raise, raise_if, ◌>>=◌, ◌>>◌}
use mvp_master.Dict.{Dict, get}
use mvp_master.Contracts.{Uuid, SecretReference}
use mvp_master.Runner.Models.{
  RunnerError, unsupported_runtime, unsupported_authentication_mode, runtime_error,
  AgentCapabilities, AgentRequest, AgentResult, ValidationCommand, ValidationResult,
}

-- `AgentRuntime`
pub record AgentRuntime (W : Type 0) : Type 0 where
  pub available : Exec RunnerError W Bool
  pub capabilities : Exec RunnerError W AgentCapabilities
  pub execute : AgentRequest → Exec RunnerError W AgentResult

-- `WorkspaceManager`
pub record WorkspaceManager (W : Type 0) : Type 0 where
  pub provision : Uuid → Exec RunnerError W String
  pub cleanup : Uuid → Exec RunnerError W ⊤

-- The fields of `RunnerExecutionService`
pub record RunnerExecutionService (W : Type 0) : Type 0 where
  pub agents : Dict String (AgentRuntime W)
  pub validate : String → List ValidationCommand → Exec RunnerError W ValidationResult
  pub workspaces : WorkspaceManager W

-- The arguments of `execute`
pub record Job : Type 0 where
  pub execution_id : Uuid
  pub organization_id : Uuid
  pub runtime : String
  pub provider : String
  pub model : String
  pub authentication_mode : String
  pub secret_reference : Option SecretReference
  pub title : String
  pub problem : String
  pub acceptance_criteria : List String
  pub max_turns : ℕ
  pub max_duration_seconds : ℕ
  pub validation_commands : List ValidationCommand
  pub keep_failed_workspace : Bool

-- The constructor call `AgentRequest(...)`
abbrev pub request_of : Job → String → AgentRequest
request_of j workspace = record {
  execution_id = j.execution_id;
  organization_id = j.organization_id;
  provider = j.provider;
  model = j.model;
  authentication_mode = j.authentication_mode;
  secret_reference = j.secret_reference;
  workspace = workspace;
  title = j.title;
  problem = j.problem;
  acceptance_criteria = j.acceptance_criteria;
  max_turns = j.max_turns;
  max_duration_seconds = j.max_duration_seconds;
}

-- What comes out of a `finally` block that ran after a result: an error of its own replaces it.
abbrev pub after_cleanup :
    {A W : Type 0} → Result RunnerError A → Result RunnerError ⊤ × W → Result RunnerError A × W
after_cleanup r (ok _, w) = (r, w)
after_cleanup r (err e, w) = (err e, w)

-- `try: ... finally: ...`
abbrev pub finally_do :
    {A W : Type 0} → Exec RunnerError W A → Exec RunnerError W ⊤ → Exec RunnerError W A
finally_do body cleanup w = let (r, w') = body w in after_cleanup r (cleanup w')

module _ {W : Type 0} (service : RunnerExecutionService W) where
  -- The `try` block
  abbrev pub work :
      AgentRuntime W → Job → String → Exec RunnerError W (AgentResult × ValidationResult)
  work agent j workspace = do
    result ← agent.execute (request_of j workspace)
    validation ← service.validate workspace j.validation_commands
    pure (result, validation)

  abbrev pub clean : Job → Exec RunnerError W ⊤
  clean j w =
      if j.keep_failed_workspace then (ok tt, w) else service.workspaces.cleanup j.execution_id w

  -- From the workspace on
  abbrev pub in_workspace :
      AgentRuntime W → Job → Exec RunnerError W (AgentResult × ValidationResult)
  in_workspace agent j = do
    workspace ← service.workspaces.provision j.execution_id
    finally_do (work agent j workspace) (clean j)

  -- Once the agent has said what it is capable of
  abbrev pub if_capable :
      AgentRuntime W → Job → AgentCapabilities → Exec RunnerError W (AgentResult × ValidationResult)
  if_capable agent j capabilities = do
    raise_if (not (contains capabilities.supported_authentication_modes j.authentication_mode))
        unsupported_authentication_mode
    in_workspace agent j

  -- Once the agent has said whether it is available
  abbrev pub if_available :
      AgentRuntime W → Job → Bool → Exec RunnerError W (AgentResult × ValidationResult)
  if_available agent j available = do
    raise_if (not available) runtime_error
    capabilities ← agent.capabilities
    if_capable agent j capabilities

  unfoldable pub execute : Job → Exec RunnerError W (AgentResult × ValidationResult)
  execute j = do
    agent ← or_raise (get service.agents j.runtime) unsupported_runtime
    available ← agent.available
    if_available agent j available
