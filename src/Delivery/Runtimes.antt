-- ===== src/Delivery/Runtimes.antt =====
-- domain/agent_runtimes.py: which combinations of runtime, provider, authentication mode and model
-- are supported. The frozen sets are lists, of which only membership is asked.
pub mod Policy
use mvp_master.Base.{
  String, Bool, true, false, not, ◌&&◌, Option, none, some, is_some, List, [], ◌∷◌, ◌==◌, string_eq,
  ◌||◌, contains, find, if◌then◌else◌, ⊤, ◌||◌,
}
use mvp_master.Exec.{Result, ok, err}
use mvp_master.Dict.{Dict, get}
use mvp_master.Delivery.Models.{DeliveryError, unsupported_provider_configuration}

pub record RuntimeCompatibility : Type 0 where
  pub runtime : String
  pub providers : List String
  pub authentication_modes : List String
  pub is_development_substitute : Bool
  pub local_session_provider : Option String

pub record AgentCatalogEntry : Type 0 where
  pub provider : String
  pub provider_display_name : String
  pub runtime : String
  pub runtime_display_name : String
  pub models : List String
  pub recommended_model : String
  pub tier : String

abbrev pub runtime_compatibility : Dict String RuntimeCompatibility
runtime_compatibility =
    (
      "deterministic",
      record {
        runtime = "deterministic";
        providers = "local" ∷ [];
        authentication_modes = "NONE" ∷ [];
        is_development_substitute = true;
        local_session_provider = none;
      },
    )
    ∷ (
      "codex-cli",
      record {
        runtime = "codex-cli";
        providers = "openai" ∷ [];
        authentication_modes = "LOCAL_SESSION" ∷ "API_KEY_REFERENCE" ∷ [];
        is_development_substitute = false;
        local_session_provider = some "openai";
      },
    )
    ∷ (
      "claude-code-cli",
      record {
        runtime = "claude-code-cli";
        providers = "anthropic" ∷ "zhipu-glm" ∷ "moonshot-kimi" ∷ [];
        authentication_modes = "LOCAL_SESSION" ∷ "API_KEY_REFERENCE" ∷ [];
        is_development_substitute = false;
        local_session_provider = some "anthropic";
      },
    )
    ∷ (
      "claude-agent-sdk",
      record {
        runtime = "claude-agent-sdk";
        providers = "anthropic" ∷ [];
        authentication_modes = "API_KEY_REFERENCE" ∷ [];
        is_development_substitute = false;
        local_session_provider = none;
      },
    )
    ∷ []

abbrev pub agent_catalog : List AgentCatalogEntry
agent_catalog =
    record {
      provider = "openai";
      provider_display_name = "OpenAI";
      runtime = "codex-cli";
      runtime_display_name = "Codex";
      models = "gpt-5.1-codex" ∷ "gpt-5.1-codex-max" ∷ [];
      recommended_model = "gpt-5.1-codex";
      tier = "PRIMARY";
    }
    ∷ record {
      provider = "anthropic";
      provider_display_name = "Anthropic";
      runtime = "claude-code-cli";
      runtime_display_name = "Claude Code";
      models = "claude-opus-5" ∷ [];
      recommended_model = "claude-opus-5";
      tier = "PRIMARY";
    }
    ∷ record {
      provider = "anthropic";
      provider_display_name = "Anthropic";
      runtime = "claude-agent-sdk";
      runtime_display_name = "Claude Agent SDK";
      models = "claude-opus-5" ∷ [];
      recommended_model = "claude-opus-5";
      tier = "ADVANCED";
    }
    ∷ record {
      provider = "zhipu-glm";
      provider_display_name = "Zhipu GLM";
      runtime = "claude-code-cli";
      runtime_display_name = "Claude Code compatible runtime";
      models = "glm-5.2" ∷ [];
      recommended_model = "glm-5.2";
      tier = "ADVANCED";
    }
    ∷ record {
      provider = "moonshot-kimi";
      provider_display_name = "Moonshot Kimi";
      runtime = "claude-code-cli";
      runtime_display_name = "Claude Code compatible runtime";
      models = "kimi-k2.5" ∷ [];
      recommended_model = "kimi-k2.5";
      tier = "ADVANCED";
    }
    ∷ []

unfoldable pub catalog_entry : String → String → Option AgentCatalogEntry
unfolding find
catalog_entry runtime provider =
    find (λ entry. entry.runtime == runtime && entry.provider == provider) agent_catalog

-- `provider != compatibility.local_session_provider`, with `None` different from every text
abbrev pub is_session_provider : Option String → String → Bool
is_session_provider none provider = false
is_session_provider (some p) provider = provider == p

-- `entry is not None and model in entry.models`
abbrev pub has_model : Option AgentCatalogEntry → String → Bool
has_model none model = false
has_model (some entry) model = contains entry.models model

-- The last test of `ensure_supported`, which a development substitute and `model=None` pass.
abbrev pub is_reviewed : String → String → Bool → Option String → Bool
is_reviewed runtime provider true model = true
is_reviewed runtime provider false none = true
is_reviewed runtime provider false (some model) = has_model (catalog_entry runtime provider) model

abbrev pub reject_unless : Bool → Result DeliveryError ⊤ → Result DeliveryError ⊤
reject_unless b rest = if b then rest else err unsupported_provider_configuration

abbrev pub flag_eq : Bool → Bool → Bool
flag_eq true b = b
flag_eq false b = not b

-- The tests after the look-up of the runtime, in the source's order.
abbrev pub check :
    Option RuntimeCompatibility
    → String
    → String
    → String
    → Bool
    → Option String
    → Result DeliveryError ⊤
check none runtime provider mode substitute model = err unsupported_provider_configuration
check (some c) runtime provider mode substitute model =
    reject_unless (contains c.providers provider) (
      reject_unless (contains c.authentication_modes mode) (
        reject_unless
          (not (mode == "LOCAL_SESSION") || is_session_provider c.local_session_provider provider)
          (reject_unless (flag_eq substitute c.is_development_substitute)
            (reject_unless (is_reviewed runtime provider substitute model) (ok tt)))))

-- `ensure_supported(runtime, provider, authentication_mode, is_development_substitute, model)`
unfoldable pub ensure_supported :
    String → String → String → Bool → Option String → Result DeliveryError ⊤
unfolding catalog_entry get
ensure_supported runtime provider mode substitute model =
    check (get runtime_compatibility runtime) runtime provider mode substitute model
