-- ===== src/Runner/Agents/Compatibility.antt =====
-- The runner's catalog and registry against the delivery service's policy (domain/agent_runtimes.py
-- there): both sides keep tables of runtimes, providers and authentication modes.
use mvp_master.Base.{
  String, ◌≡◌, refl, Bool, true, false, some, List, [], ◌∷◌, string_eq, contains, inl, inr, ◌&&◌,
  not,
}
use mvp_master.Exec.{ok}
use mvp_master.Delivery.Runtimes.{ensure_supported}
use mvp_master.Delivery.Runtimes.Policy.{Accepted, ensure_supported-Accepted}
use mvp_master.Runner.Models.{AgentCapabilities}
use mvp_master.Runner.Providers.{
  local, anthropic, openai, zhipu_glm, moonshot_kimi, ProviderEndpoint, endpoint_for,
  allowlisted_hosts,
}
use mvp_master.Runner.Agents.{
  deterministic, codex_cli, claude_code_cli, claude_agent_sdk, select_agent,
  egress_required_runtimes,
}

-- Whether all of some hosts are on a list.
abbrev pub all_listed : List String → List String → Bool
all_listed hosts [] = true
all_listed hosts (h ∷ l) = contains hosts h && all_listed hosts l

-- What the runner has for a combination: the provider's endpoint, which is for the runtime and whose hosts the
-- proxy lets through, and an agent with the authentication mode; the runtime needs the network
-- exactly where it is not the development substitute.
abbrev pub Runnable : Bool → String → String → String → Type 0
Runnable substitute runtime provider mode =
    (endpoint : ProviderEndpoint) × (agent : AgentCapabilities) × (endpoint_for provider
      ≡ ok endpoint)
    × (select_agent provider runtime mode ≡ ok agent)
    × (contains endpoint.compatible_runtimes runtime ≡ true)
    × (all_listed allowlisted_hosts endpoint.egress_hosts ≡ true)
    × (contains egress_required_runtimes runtime ≡ not substitute)

Accepted-Runnable :
    (substitute : Bool) (runtime provider mode model : String)
    → Accepted substitute runtime provider mode model
    → Runnable substitute runtime provider mode
unfolding select_agent endpoint_for allowlisted_hosts
Accepted-Runnable true runtime provider mode model (r, p, m) =
    rw (r, p, m) (local, deterministic, refl, refl, refl, refl, refl)
Accepted-Runnable false runtime provider mode model (inl (r, p, inl m, _)) =
    rw (r, p, m) (openai, codex_cli, refl, refl, refl, refl, refl)
Accepted-Runnable false runtime provider mode model (inl (r, p, inr m, _)) =
    rw (r, p, m) (openai, codex_cli, refl, refl, refl, refl, refl)
Accepted-Runnable false runtime provider mode model (inr (inl (r, p, inl m, _))) =
    rw (r, p, m) (anthropic, claude_code_cli, refl, refl, refl, refl, refl)
Accepted-Runnable false runtime provider mode model (inr (inl (r, p, inr m, _))) =
    rw (r, p, m) (anthropic, claude_code_cli, refl, refl, refl, refl, refl)
Accepted-Runnable false runtime provider mode model (inr (inr (inl (r, p, m, _)))) =
    rw (r, p, m) (zhipu_glm, claude_code_cli, refl, refl, refl, refl, refl)
Accepted-Runnable false runtime provider mode model (inr (inr (inr (inl (r, p, m, _))))) =
    rw (r, p, m) (moonshot_kimi, claude_code_cli, refl, refl, refl, refl, refl)
Accepted-Runnable false runtime provider mode model (inr (inr (inr (inr (r, p, m, _))))) =
    rw (r, p, m) (anthropic, claude_agent_sdk, refl, refl, refl, refl, refl)

-- A combination that the delivery service accepts, with a model named, can run: the runner has the
-- provider's endpoint, it is for the runtime, the proxy lets its hosts through, the job gets an
-- agent that has the authentication mode, and the runtime is one that needs the network exactly
-- where the combination is no development substitute.
pub accepted_runs :
    (substitute : Bool) (runtime provider mode model : String)
    → ensure_supported runtime provider mode substitute (some model) ≡ ok tt
    → Runnable substitute runtime provider mode
accepted_runs substitute runtime provider mode model h =
    Accepted-Runnable substitute runtime provider mode model
      ((ensure_supported-Accepted substitute runtime provider mode model).0 h)
