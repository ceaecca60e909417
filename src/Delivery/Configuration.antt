-- ===== src/Delivery/Configuration.antt =====
-- `AgentProviderConfiguration` (domain/models.py), which is made only through its checks.
use mvp_master.Base.{String, Bool, true, Option, some, is_some, if◌then◌else◌, not, false}
use mvp_master.Exec.{Result, ok, err}
use mvp_master.Contracts.{Uuid, SecretReference}
use mvp_master.Delivery.Models.{
  DeliveryError, value_error, AuthenticationMode, api_key_reference, mode_value,
}
use mvp_master.Delivery.Runtimes.{ensure_supported, flag_eq}

pub record AgentProviderConfiguration : Type 0 where
  pub id : Uuid
  pub organization_id : Uuid
  pub display_name : String
  pub provider : String
  pub runtime : String
  pub model : String
  pub authentication_mode : AuthenticationMode
  pub secret_reference : Option SecretReference
  pub enabled : Bool
  pub is_development_substitute : Bool

-- `authentication_mode is AuthenticationMode.API_KEY_REFERENCE`
abbrev pub needs_secret : AuthenticationMode → Bool
needs_secret api_key_reference = true
needs_secret _ = false

-- The constructor call, with `__post_init__`: the configuration itself, or what it raises.
unfoldable pub construct :
    AgentProviderConfiguration → Result DeliveryError AgentProviderConfiguration
construct c =
    if not (flag_eq (needs_secret c.authentication_mode) (is_some c.secret_reference))
    then err value_error
    else elim (ensure_supported c.runtime c.provider (mode_value c.authentication_mode)
        c.is_development_substitute (some c.model)) [ ok _ ↦ ok c | err x ↦ err x ]
