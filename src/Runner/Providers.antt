-- ===== src/Runner/Providers.antt =====
-- adapters/provider_catalog.py of the runner: the endpoints of the model providers.
use mvp_master.Base.{
  String, Option, none, some, List, [], ◌∷◌, ◌++◌, string_eq, contains, if◌then◌else◌,
}
use mvp_master.Exec.{Result, ok, err}
use mvp_master.Dict.{Dict, get, put, values}
use mvp_master.Runner.Models.{RunnerError, unknown_provider, value_error}

pub data ProviderAuthStyle : Type 0 where
  no_auth anthropic_api_key anthropic_auth_token openai_api_key : ProviderAuthStyle

-- `auth_style.value`
abbrev pub auth_style_value : ProviderAuthStyle → String
auth_style_value no_auth = "NONE"
auth_style_value anthropic_api_key = "ANTHROPIC_API_KEY"
auth_style_value anthropic_auth_token = "ANTHROPIC_AUTH_TOKEN"
auth_style_value openai_api_key = "OPENAI_API_KEY"

pub record ProviderEndpoint : Type 0 where
  pub provider : String
  pub display_name : String
  pub auth_style : ProviderAuthStyle
  pub base_url : Option String
  pub egress_hosts : List String
  pub compatible_runtimes : List String

-- The entries of `_ENTRIES`
abbrev pub local : ProviderEndpoint
local = record {
  provider = "local";
  display_name = "Local development substitute";
  auth_style = no_auth;
  base_url = none;
  egress_hosts = [];
  compatible_runtimes = "deterministic" ∷ [];
}

abbrev pub anthropic : ProviderEndpoint
anthropic = record {
  provider = "anthropic";
  display_name = "Anthropic";
  auth_style = anthropic_api_key;
  base_url = none;
  egress_hosts = "api.anthropic.com" ∷ [];
  compatible_runtimes = "claude-agent-sdk" ∷ "claude-code-cli" ∷ [];
}

abbrev pub openai : ProviderEndpoint
openai = record {
  provider = "openai";
  display_name = "OpenAI";
  auth_style = openai_api_key;
  base_url = none;
  egress_hosts = "api.openai.com" ∷ "chatgpt.com" ∷ [];
  compatible_runtimes = "codex-cli" ∷ [];
}

abbrev pub zhipu_glm : ProviderEndpoint
zhipu_glm = record {
  provider = "zhipu-glm";
  display_name = "Zhipu GLM";
  auth_style = anthropic_auth_token;
  base_url = some "https://open.bigmodel.cn/api/anthropic";
  egress_hosts = "open.bigmodel.cn" ∷ [];
  compatible_runtimes = "claude-code-cli" ∷ [];
}

abbrev pub moonshot_kimi : ProviderEndpoint
moonshot_kimi = record {
  provider = "moonshot-kimi";
  display_name = "Moonshot Kimi";
  auth_style = anthropic_auth_token;
  base_url = some "https://api.moonshot.ai/anthropic";
  egress_hosts = "api.moonshot.ai" ∷ [];
  compatible_runtimes = "claude-code-cli" ∷ [];
}

-- `_ENTRIES`
abbrev pub entries : List ProviderEndpoint
entries = local ∷ anthropic ∷ openai ∷ zhipu_glm ∷ moonshot_kimi ∷ []

abbrev by_provider :
    List ProviderEndpoint → Dict String ProviderEndpoint → Dict String ProviderEndpoint
by_provider [] d = d
by_provider (entry ∷ l) d = by_provider l (put d entry.provider entry)

-- `PROVIDER_CATALOG`
unfoldable pub provider_catalog : Dict String ProviderEndpoint
unfolding put
provider_catalog = by_provider entries []

abbrev known : Option ProviderEndpoint → Result RunnerError ProviderEndpoint
known none = err unknown_provider
known (some endpoint) = ok endpoint

unfoldable pub endpoint_for : String → Result RunnerError ProviderEndpoint
unfolding provider_catalog get
endpoint_for provider = known (get provider_catalog provider)

abbrev with_base_url : Option String → Dict String String → Dict String String
with_base_url none environment = environment
with_base_url (some url) environment = put environment "ANTHROPIC_BASE_URL" url

abbrev authenticated :
    ProviderAuthStyle → Option String → Option String → Result RunnerError (Dict String String)
authenticated no_auth base_url secret = ok []
authenticated style base_url none = err value_error
authenticated style base_url (some secret) =
    ok (with_base_url base_url ((auth_style_value style, secret) ∷ []))

unfoldable pub environment_for :
    ProviderEndpoint → Option String → Result RunnerError (Dict String String)
unfolding put
environment_for endpoint secret = authenticated endpoint.auth_style endpoint.base_url secret

-- The inner loop of `allowlisted_hosts`
unfoldable pub add_hosts : List String → List String → List String
add_hosts hosts [] = hosts
add_hosts hosts (host ∷ l) = add_hosts (if contains hosts host then hosts else hosts ++ host ∷ []) l

unfoldable pub hosts_of : List String → List ProviderEndpoint → List String
unfolding add_hosts
hosts_of hosts [] = hosts
hosts_of hosts (entry ∷ l) = hosts_of (add_hosts hosts entry.egress_hosts) l

unfoldable pub allowlisted_hosts : List String
unfolding hosts_of provider_catalog
allowlisted_hosts = hosts_of [] (values provider_catalog)
