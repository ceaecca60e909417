-- ===== src/Runner.antt =====
-- The runner (runners/docker_runner/src/mvp_runner): which agents and providers it knows, how one job
-- runs in a workspace, and how its result is validated.
pub mod Models
pub mod Providers
pub mod Agents
pub mod Execution
pub mod Validation
pub mod Witnesses
