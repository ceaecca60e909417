-- ===== src/Integrations/Models.antt =====
-- domain/models.py and domain/errors.py of the integrations service, and the records of
-- application/ports.py.
use mvp_master.Base.{String, Bool, Option, List, concat, ◌==◌, string_eq, if◌then◌else◌}
use mvp_master.Exec.{Result, ok, err}
use mvp_master.Contracts.{Uuid, Time, SecretReference, ExternalReference}

-- The exceptions that the service raises, with `KeyError`, `ValueError`, and what the calls of a
-- provider raise.
pub data IntegrationError : Type 0 where
  invalid_installation_state repository_access_denied duplicate_delivery : IntegrationError
  key_error value_error provider_error : IntegrationError

pub data InstallationStatus : Type 0 where
  active suspended disconnected : InstallationStatus

pub data WebhookMode : Type 0 where
  webhook polling : WebhookMode

-- `webhook_mode.value`
abbrev pub webhook_mode_value : WebhookMode → String
webhook_mode_value webhook = "WEBHOOK"
webhook_mode_value polling = "POLLING"

pub data ConfigurationHealth : Type 0 where
  pending healthy invalid disabled : ConfigurationHealth

-- `ConfigurationHealth(text)`, which raises `ValueError` for any other text
abbrev pub configuration_health : String → Result IntegrationError ConfigurationHealth
configuration_health text =
    if text == "PENDING"
    then ok pending
    else if text == "HEALTHY"
    then ok healthy
    else if text == "INVALID"
    then ok invalid
    else if text == "DISABLED"
    then ok disabled
    else err value_error

pub data RepositoryAccessStatus : Type 0 where
  active revoked : RepositoryAccessStatus

-- The three references are kept as dicts in the source (`model_dump`).
pub record SourceControlConfiguration : Type 0 where
  pub id : Uuid
  pub display_name : String
  pub provider : String
  pub web_base_url : String
  pub api_base_url : String
  pub api_version : String
  pub app_id : String
  pub client_id : String
  pub app_slug : String
  pub private_key_reference : SecretReference
  pub client_secret_reference : SecretReference
  pub webhook_secret_reference : SecretReference
  pub webhook_mode : WebhookMode
  pub enabled : Bool
  pub health : ConfigurationHealth
  pub created_at : Time

pub record ConnectorInstallation : Type 0 where
  pub id : Uuid
  pub organization_id : Uuid
  pub provider : String
  pub external_account_id : String
  pub account_login : String
  pub requested_permissions : List String
  pub is_development_substitute : Bool
  pub provider_configuration_id : Option Uuid
  pub granted_permissions : List String
  pub repository_selection : String
  pub last_reconciled_at : Option Time
  pub status : InstallationStatus
  pub created_at : Time

abbrev suspend_from :
    InstallationStatus → ConnectorInstallation → Result IntegrationError ConnectorInstallation
suspend_from disconnected i = err invalid_installation_state
suspend_from _ i = ok (record i { status = suspended })

unfoldable pub suspend : ConnectorInstallation → Result IntegrationError ConnectorInstallation
suspend i = suspend_from i.status i

abbrev activate_from :
    InstallationStatus → ConnectorInstallation → Result IntegrationError ConnectorInstallation
activate_from disconnected i = err invalid_installation_state
activate_from _ i = ok (record i { status = InstallationStatus.active })

unfoldable pub activate : ConnectorInstallation → Result IntegrationError ConnectorInstallation
activate i = activate_from i.status i

unfoldable pub disconnect : ConnectorInstallation → ConnectorInstallation
disconnect i = record i { status = disconnected }

pub record RepositoryConnection : Type 0 where
  pub id : Uuid
  pub organization_id : Uuid
  pub installation_id : Uuid
  pub external_repository_id : String
  pub owner : String
  pub name : String
  pub default_branch : String
  pub clone_locator : String
  pub is_private : Bool
  pub is_development_substitute : Bool
  pub access_status : RepositoryAccessStatus
  pub last_seen_at : Option Time
  pub revoked_at : Option Time
  pub created_at : Time

-- `f"{self.owner}/{self.name}"`
abbrev pub full_name : RepositoryConnection → String
full_name r = concat r.owner (concat "/" r.name)

pub record PullRequestResult : Type 0 where
  pub reference : ExternalReference
  pub title : String
  pub url : String
  pub head_branch : String
  pub base_branch : String
  pub is_development_substitute : Bool

-- `RepositoryDescriptor` (application/ports.py)
pub record RepositoryDescriptor : Type 0 where
  pub external_id : String
  pub owner : String
  pub name : String
  pub default_branch : String
  pub clone_locator : String
  pub is_private : Bool
