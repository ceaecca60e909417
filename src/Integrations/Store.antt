-- ===== src/Integrations/Store.antt =====
-- adapters/memory.py of the integrations service: `MemoryIntegrationRepository`.
pub mod Upserts
pub mod Attempts
use mvp_master.Base.{
  String, Bool, true, false, not, ◌&&◌, ◌||◌, Option, none, some, List, [], ◌∷◌, ◌++◌, ◌==◌, nat_eq,
  string_eq, pair_eq, leb, find, select, contains, if◌then◌else◌, ⊤, map,
}
use mvp_master.Exec.{Exec, Result, ok, err, pure, modify, lift, ◌>>=◌, ◌>>◌}
use mvp_master.Dict.{Dict, get, put, remove, values}
use mvp_master.Contracts.{Uuid, Time, Details}
use mvp_master.Integrations.Models.{
  IntegrationError, ConfigurationHealth, configuration_health, SourceControlConfiguration,
  ConnectorInstallation, RepositoryConnection, revoked,
}

-- The tuples of `platform_setup_attempts` and `connector_setup_attempts`.
pub record PlatformSetup : Type 0 where
  pub actor_subject : String
  pub expires_at : Time
  pub used : Bool

pub record ConnectorSetup : Type 0 where
  pub actor_subject : String
  pub configuration_id : Uuid
  pub expires_at : Time
  pub used : Bool

pub record Audit : Type 0 where
  pub organization_id : Uuid
  pub actor_subject : String
  pub action : String
  pub target_type : String
  pub target_id : Uuid
  pub details : Details

pub record PlatformAudit : Type 0 where
  pub actor_subject : String
  pub action : String
  pub target_type : String
  pub target_id : Uuid
  pub details : Details

-- The two sets are lists, of which only membership is asked.
pub record Store : Type 0 where
  pub installations : Dict Uuid ConnectorInstallation
  pub repositories : Dict Uuid RepositoryConnection
  pub webhook_deliveries : List (String × String)
  pub audits : List Audit
  pub configurations : Dict Uuid SourceControlConfiguration
  pub platform_audits : List PlatformAudit
  pub platform_setup_attempts : Dict String PlatformSetup
  pub connector_setup_attempts : Dict (Uuid × String) ConnectorSetup
  pub source_capability_redemptions : List (Uuid × String)

abbrev pub empty : Store
empty = record {
  installations = [];
  repositories = [];
  webhook_deliveries = [];
  audits = [];
  configurations = [];
  platform_audits = [];
  platform_setup_attempts = [];
  connector_setup_attempts = [];
  source_capability_redemptions = [];
}

unfoldable pub create_platform_setup_attempt : String → String → Time → Store → Store
create_platform_setup_attempt state_hash actor expires s = record s {
  platform_setup_attempts =
      put s.platform_setup_attempts state_hash
        (record { actor_subject = actor; expires_at = expires; used = false });
}

abbrev consume_platform : Option PlatformSetup → String → String → Time → Store → Bool × Store
consume_platform none state_hash actor now s = (false, s)
consume_platform (some attempt) state_hash actor now s =
    if not (attempt.actor_subject == actor) || attempt.used || leb attempt.expires_at now
    then (false, s)
    else (
      true,
      record s {
        platform_setup_attempts =
            put s.platform_setup_attempts state_hash (record attempt { used = true });
      },
    )

unfoldable pub consume_platform_setup_attempt : String → String → Time → Store → Bool × Store
consume_platform_setup_attempt state_hash actor now s =
    consume_platform (get s.platform_setup_attempts state_hash) state_hash actor now s

unfoldable pub create_connector_setup_attempt : Uuid → String → String → Uuid → Time → Store → Store
create_connector_setup_attempt o state_hash actor configuration_id expires s = record s {
  connector_setup_attempts =
      put s.connector_setup_attempts (o, state_hash)
        (record {
          actor_subject = actor;
          configuration_id = configuration_id;
          expires_at = expires;
          used = false;
        });
}

abbrev consume_connector :
    Option ConnectorSetup → Uuid → String → String → Time → Store → Option Uuid × Store
consume_connector none o state_hash actor now s = (none, s)
consume_connector (some attempt) o state_hash actor now s =
    if not (attempt.actor_subject == actor) || attempt.used || leb attempt.expires_at now
    then (none, s)
    else (
      some attempt.configuration_id,
      record s {
        connector_setup_attempts =
            put s.connector_setup_attempts (o, state_hash) (record attempt { used = true });
      },
    )

unfoldable pub consume_connector_setup_attempt :
    Uuid → String → String → Time → Store → Option Uuid × Store
consume_connector_setup_attempt o state_hash actor now s =
    consume_connector (get s.connector_setup_attempts (o, state_hash)) o state_hash actor now s

-- `expires_at` is dropped by the method.
unfoldable pub redeem_source_capability : Uuid → String → Store → Bool × Store
redeem_source_capability o capability_id s =
    let key : Uuid × String = (o, capability_id) in
    if contains s.source_capability_redemptions key
    then (false, s)
    else (true, record s { source_capability_redemptions = key ∷ s.source_capability_redemptions })

unfoldable pub record_webhook_delivery : String → String → Store → Bool × Store
record_webhook_delivery provider delivery_id s =
    let key : String × String = (provider, delivery_id) in
    if contains s.webhook_deliveries key
    then (false, s)
    else (true, record s { webhook_deliveries = key ∷ s.webhook_deliveries })

unfoldable pub add_source_control_configuration : SourceControlConfiguration → Store → Store
add_source_control_configuration c s = record s { configurations = put s.configurations c.id c }

unfoldable pub get_source_control_configuration : Store → Uuid → Option SourceControlConfiguration
get_source_control_configuration s k = get s.configurations k

unfoldable pub source_control_configuration_for_app_id :
    Store → String → String → Option SourceControlConfiguration
unfolding find
source_control_configuration_for_app_id s provider app_id =
    find (λ c. c.provider == provider && c.app_id == app_id) (values s.configurations)

unfoldable pub list_source_control_configurations : Store → List SourceControlConfiguration
list_source_control_configurations s = values s.configurations

abbrev with_health :
    Option SourceControlConfiguration → Uuid → String → Bool → Exec IntegrationError Store ⊤
with_health none k health enabled = pure tt
with_health (some c) k health enabled = do
  h ← lift (configuration_health health)
  modify (λ s. record s {
    configurations = put s.configurations k (record c { health = h; enabled = enabled });
  })

unfoldable pub update_source_control_configuration_health :
    Uuid → String → Bool → Exec IntegrationError Store ⊤
update_source_control_configuration_health k health enabled s =
    with_health (get s.configurations k) k health enabled s

unfoldable pub record_platform_audit : PlatformAudit → Store → Store
record_platform_audit a s = record s { platform_audits = s.platform_audits ++ a ∷ [] }

-- `add_installation` and `update_installation`, which are one assignment
unfoldable pub update_installation : ConnectorInstallation → Store → Store
update_installation i s = record s { installations = put s.installations i.id i }

-- `x if x and x.organization_id == organization_id else None`
abbrev pub within {ℓ} : {A : Type ℓ} → (A → Uuid) → Uuid → Option A → Option A
within owner_of organization_id none = none
within owner_of organization_id (some a) = if owner_of a == organization_id then some a else none

unfoldable pub get_installation : Store → Uuid → Uuid → Option ConnectorInstallation
get_installation s o k = within (λ i. i.organization_id) o (get s.installations k)

abbrev owner_of_found : Option ConnectorInstallation → Option Uuid
owner_of_found none = none
owner_of_found (some i) = some i.organization_id

unfoldable pub organization_for_external_installation : Store → String → String → Option Uuid
unfolding find
organization_for_external_installation s provider account = owner_of_found (
    find (λ i. i.provider == provider && i.external_account_id == account) (values s.installations))

unfoldable pub installation_for_external :
    Store → Uuid → String → String → Option ConnectorInstallation
unfolding find
installation_for_external s o provider account =
    find (λ i. i.organization_id == o && i.provider == provider && i.external_account_id == account)
      (values s.installations)

unfoldable pub list_installation_routes : Store → List (Uuid × Uuid)
list_installation_routes s =
    map (λ (i : ConnectorInstallation). (i.organization_id, i.id)) (values s.installations)

unfoldable pub add_repository : RepositoryConnection → Store → Store
add_repository r s = record s { repositories = put s.repositories r.id r }

-- Whether two rows stand for the same repository of the same installation.
abbrev pub same_repository : RepositoryConnection → RepositoryConnection → Bool
same_repository r x =
    x.organization_id == r.organization_id
    && (x.installation_id == r.installation_id
        && x.external_repository_id == r.external_repository_id)

abbrev pub without :
    Option RepositoryConnection → Dict Uuid RepositoryConnection → Dict Uuid RepositoryConnection
without none d = d
without (some existing) d = remove d existing.id

unfoldable pub upsert_repository : RepositoryConnection → Store → Store
unfolding find
upsert_repository r s = record s {
  repositories =
      put (without (find (same_repository r) (values s.repositories)) s.repositories) r.id r;
}

-- The row after the loop of `revoke_repositories_except`
abbrev pub revoke_row :
    Uuid → Uuid → List String → Time → RepositoryConnection → RepositoryConnection
revoke_row o k active_ids at r =
    if r.organization_id == o
      && (r.installation_id == k && not (contains active_ids r.external_repository_id))
    then record r { access_status = revoked; revoked_at = some at }
    else r

-- The loop goes over the items and assigns to keys that are there.
unfoldable pub revoke_rows :
    Uuid
    → Uuid
    → List String
    → Time
    → Dict Uuid RepositoryConnection
    → Dict Uuid RepositoryConnection
revoke_rows o k active_ids at [] = []
revoke_rows o k active_ids at ((j, r) ∷ d) =
    (j, revoke_row o k active_ids at r) ∷ revoke_rows o k active_ids at d

unfoldable pub revoke_repositories_except : Uuid → Uuid → List String → Time → Store → Store
unfolding revoke_rows
revoke_repositories_except o k active_ids at s = record s {
  repositories = revoke_rows o k active_ids at s.repositories;
}

unfoldable pub get_repository : Store → Uuid → Uuid → Option RepositoryConnection
get_repository s o k = within (λ r. r.organization_id) o (get s.repositories k)

unfoldable pub list_repositories : Store → Uuid → List RepositoryConnection
unfolding select
list_repositories s o = select (λ r. r.organization_id == o) (values s.repositories)

unfoldable pub record_audit : Audit → Store → Store
record_audit a s = record s { audits = s.audits ++ a ∷ [] }
