-- ===== src/Runner/Execution/Cleanup.antt =====
-- The workspaces of `RunnerExecutionService.execute` (application/execute.py of the runner).
use mathlib.Core.Path.{ap}
use mvp_master.Base.{String, ◌≡◌, false, not, some, string_eq, contains, Option-cases, inl, inr}
use mvp_master.Exec.{Result, ok, raise_if, ◌>>=◌, bind-holds, bind-step}
use mvp_master.Dict.{get}
use mvp_master.Runner.Models.{RunnerError, unsupported_authentication_mode}
use mvp_master.Runner.Execution.{
  AgentRuntime, RunnerExecutionService, Job, execute, in_workspace, if_available, if_capable, work,
  clean, finally_do, runtime_error,
}

-- What is known of a service's surroundings: `Free w` says that no workspace of the job is there.
-- Asking an agent makes none, a workspace can be made, and a clean-up succeeds and removes it.
pub record Surroundings {W : Type 0} (service : RunnerExecutionService W) (j : Job) : Type 1 where
  pub Free : W → Type 0
  pub asked :
      (agent : AgentRuntime W) (w : W)
      → get service.agents j.runtime ≡ some agent
      → Free w
      → Free (agent.available w).1
  pub described :
      (agent : AgentRuntime W) (w : W)
      → get service.agents j.runtime ≡ some agent
      → Free w
      → Free (agent.capabilities w).1
  pub made :
      (w : W)
      → (workspace : String) × ((service.workspaces.provision j.execution_id w).0 ≡ ok workspace)
  pub removed : (w : W) → (service.workspaces.cleanup j.execution_id w).0 ≡ ok tt
  pub freed : (w : W) → Free (service.workspaces.cleanup j.execution_id w).1

module _ {W : Type 0} (service : RunnerExecutionService W) (j : Job)
    (around : Surroundings service j) where
  in_workspace-Free :
      (agent : AgentRuntime W) (w : W)
      → j.keep_failed_workspace ≡ false
      → around.Free w
      → around.Free (in_workspace service agent j w).1
  in_workspace-Free agent w clears h =
      bind-step (λ out. around.Free out.1)
        (λ workspace. finally_do (work service agent j workspace) (clean service j)) w
        (service.workspaces.provision j.execution_id)
        (λ e t p.
          absurd (cc (ap (λ (x : Result RunnerError String × W). x.0) p, (around.made w).1)))
        (λ workspace t p.
          let v = (work service agent j workspace t).1 in
          rw (clears, around.removed v) (around.freed v))

  -- Where workspaces can be made and removed and are not to be kept, and asking an agent what it can
  -- do makes none, there is none when the call ends if there was none before, whether it succeeds,
  -- the agent or the validator raises, or the job is refused.
  pub workspace_released :
      (w : W)
      → j.keep_failed_workspace ≡ false
      → around.Free w
      → around.Free (execute service j w).1
  unfolding execute
  workspace_released w clears h = elim (Option-cases (get service.agents j.runtime)) [
    | inl nothing ↦ rw nothing h
    | inr (agent, found) ↦ rw found (
        bind-holds around.Free agent.available (if_available service agent j) w
          (around.asked agent w found h)
          (λ available t h1.
            let next = agent.capabilities >>= if_capable service agent j in
            bind-holds around.Free (raise_if (not available) runtime_error) (λ _. next) t h1
              (λ _ u h2.
                bind-holds around.Free agent.capabilities (if_capable service agent j) u
                  (around.described agent u found h2)
                  (λ capabilities v h3.
                    bind-holds around.Free
                      (raise_if
                        (not (
                          contains capabilities.supported_authentication_modes
                            j.authentication_mode))
                        unsupported_authentication_mode)
                      (λ _. in_workspace service agent j) v h3
                      (λ _ x h4. in_workspace-Free agent x clears h4)))))
  ]
