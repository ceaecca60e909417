-- ===== src/Runner/Witnesses.antt =====
-- The runner at concrete inputs.
use mathlib.Core.Path.{subst}
use mvp_master.Base.{ℕ, String, ◌≡◌, refl, true, false, none, some, [], ◌∷◌, Bool, ⊤, string_eq}
use mvp_master.Exec.{ok, err, Result}
use mvp_master.Dict.{get}
use mvp_master.Delivery.Runtimes.{ensure_supported}
use mvp_master.Runner.Models.{
  ValidationCommand, ValidationResult, exited, runtime_error, RunnerError,
}
use mvp_master.Runner.Agents.{claude_code_cli}
use mvp_master.Runner.Agents.Compatibility.{Runnable, accepted_runs}
use mvp_master.Runner.Execution.{AgentRuntime, RunnerExecutionService, Job, execute}
use mvp_master.Runner.Execution.Cleanup.{Surroundings, workspace_released}
use mvp_master.Runner.Validation.{Ending, finished, validate}
use mvp_master.Runner.Validation.Evidence.{Endings, state_after, RanAs, Judged, validate-Judged}

accepted_runs_example : Runnable false "claude-code-cli" "zhipu-glm" "API_KEY_REFERENCE"
unfolding ensure_supported get
accepted_runs_example =
    accepted_runs false "claude-code-cli" "zhipu-glm" "API_KEY_REFERENCE" "glm-5.2" refl

-- Outside there is only whether the job's workspace is there. The agent fails at its work.
abbrev agent : AgentRuntime Bool
agent = record {
  available = λ w. (ok true, w);
  capabilities = λ w. (ok claude_code_cli, w);
  execute = λ request w. (err runtime_error, w);
}

abbrev service : RunnerExecutionService Bool
service = record {
  agents = ("claude-code-cli", agent) ∷ [];
  validate = λ workspace commands w.
      (ok (record { passed = true; validator_image = "i"; evidence = [] }), w);
  workspaces = record { provision = λ k w. (ok "/w", true); cleanup = λ k w. (ok tt, false) };
}

abbrev job : Job
job = record {
  execution_id = 1;
  organization_id = 2;
  runtime = "claude-code-cli";
  provider = "anthropic";
  model = "claude-opus-5";
  authentication_mode = "API_KEY_REFERENCE";
  secret_reference = none;
  title = "t";
  problem = "p";
  acceptance_criteria = [];
  max_turns = 3;
  max_duration_seconds = 60;
  validation_commands = [];
  keep_failed_workspace = false;
}

get-agent : (a : AgentRuntime Bool) → get service.agents "claude-code-cli" ≡ some a → agent ≡ a
unfolding get
get-agent a p = cc

around : Surroundings service job
around = record {
  Free = λ w. w ≡ false;
  asked = λ a w p h. subst (λ (x : AgentRuntime Bool). (x.available w).1 ≡ false) (get-agent a p) h;
  described =
      λ a w p h. subst (λ (x : AgentRuntime Bool). (x.capabilities w).1 ≡ false) (get-agent a p) h;
  made = λ w. ("/w", refl);
  removed = λ w. refl;
  freed = λ w. refl;
}

workspace_released_example : (execute service job false).1 ≡ false
unfolding around
workspace_released_example = workspace_released service job around false refl refl

abbrev command : String → ValidationCommand
command name = record { executable = name; arguments = []; timeout_seconds = 5 }

-- Every command exits with 1.
abbrev run_one : ValidationCommand → ⊤ → Result RunnerError (Ending × ℕ) × ⊤
run_one c w = (ok (finished (some (exited 1)) "out" "", 2), w)

abbrev plain : String → String
plain text = text

validate-Judged_example :
    (result : ValidationResult) × (endings : Endings) × (validate run_one plain "i"
        (command "test" ∷ command "lint" ∷ [])
        tt
      ≡ (ok result, state_after run_one plain (command "test" ∷ command "lint" ∷ []) tt endings))
    × RanAs run_one plain (command "test" ∷ command "lint" ∷ []) tt endings
    × Judged plain (command "test" ∷ command "lint" ∷ []) endings result.passed result.evidence
validate-Judged_example =
    validate-Judged run_one plain (λ c w. ((finished (some (exited 1)) "out" "", 2), refl)) "i"
      (command "test" ∷ command "lint" ∷ []) tt
