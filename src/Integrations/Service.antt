-- ===== src/Integrations/Service.antt =====
-- application/service.py of the integrations service: `IntegrationService` over the memory store and
-- the providers it is given. What a call has written before it raised stays written.

pub mod Rows
pub mod Reconciliation
pub mod Permits
pub mod PullRequests
use mvp_master.Base.{
  ℕ, zero, suc, String, Bool, true, false, not, ◌&&◌, ◌||◌, Option, none, some, List, [], ◌∷◌, ◌==◌,
  nat_eq, string_eq, contains, concat, length, select, if◌then◌else◌, ⊤,
}
use mvp_master.Exec.{
  Exec, Result, ok, err, pure, raise, gets, lift, or_raise, raise_if, modify, ◌>>=◌, ◌>>◌,
}
use mvp_master.Dict.{Dict, get, put}
use mvp_master.Contracts.{Uuid, Time, Details, text, int, flag, SecretReference}
use mvp_master.Integrations.Models.{
  IntegrationError, key_error, repository_access_denied, WebhookMode, webhook_mode_value, pending,
  InstallationStatus, suspended, disconnected, RepositoryAccessStatus, SourceControlConfiguration,
  ConnectorInstallation, RepositoryConnection, PullRequestResult, RepositoryDescriptor,
}
use mvp_master.Integrations.Store.{
  Store, Audit, add_source_control_configuration, record_platform_audit, update_installation,
  add_repository, upsert_repository, revoke_repositories_except, get_repository, get_installation,
  list_repositories, record_audit,
}
use mvp_master.Integrations.Providers.{Provider, PullRequest, CheckRun}

-- `GITHUB_MINIMUM_PERMISSIONS`
abbrev pub github_minimum_permissions : List String
github_minimum_permissions =
    "metadata:read" ∷ "contents:read-write" ∷ "pull_requests:read-write" ∷ "checks:read-write" ∷ []

-- `configuration` is the constructor call's value, with `enabled=True` and `health=PENDING`.
unfoldable pub configure_source_control :
    String → SourceControlConfiguration → Exec IntegrationError Store SourceControlConfiguration
unfolding add_source_control_configuration record_platform_audit
configure_source_control actor given = do
  let configuration = record given { enabled = true; health = pending }
  modify (add_source_control_configuration configuration)
  modify (
      record_platform_audit (record {
        actor_subject = actor;
        action = "source_control_configuration.created";
        target_type = "source_control_configuration";
        target_id = configuration.id;
        details =
            ("provider", text configuration.provider)
            ∷ ("webhook_mode", text (webhook_mode_value configuration.webhook_mode))
            ∷ [];
      }))
  pure configuration

-- The identifiers and times that the objects of a loop get, by the place of their descriptor.
pub record Draws : Type 0 where
  pub id : ℕ → Uuid
  pub created_at : ℕ → Time

-- The arguments of `connect`
pub record Connection : Type 0 where
  pub organization_id : Uuid
  pub provider : String
  pub external_account_id : String
  pub account_login : String
  pub provider_configuration_id : Option Uuid
  pub granted_permissions : List String
  pub repository_selection : String

-- The constructor call `ConnectorInstallation(...)` of `connect`
abbrev pub new_installation : Uuid → Time → Bool → Connection → ConnectorInstallation
new_installation k now substitute c = record {
  id = k;
  organization_id = c.organization_id;
  provider = c.provider;
  external_account_id = c.external_account_id;
  account_login = c.account_login;
  requested_permissions = github_minimum_permissions;
  is_development_substitute = substitute;
  provider_configuration_id = c.provider_configuration_id;
  granted_permissions = c.granted_permissions;
  repository_selection = c.repository_selection;
  last_reconciled_at = none;
  status = InstallationStatus.active;
  created_at = now;
}

-- The constructor call `RepositoryConnection(...)` of `connect`
abbrev pub connected_repository :
    Draws → ℕ → ConnectorInstallation → RepositoryDescriptor → RepositoryConnection
connected_repository draws n i d = record {
  id = draws.id n;
  organization_id = i.organization_id;
  installation_id = i.id;
  external_repository_id = d.external_id;
  owner = d.owner;
  name = d.name;
  default_branch = d.default_branch;
  clone_locator = d.clone_locator;
  is_private = d.is_private;
  is_development_substitute = i.is_development_substitute;
  access_status = RepositoryAccessStatus.active;
  last_seen_at = none;
  revoked_at = none;
  created_at = draws.created_at n;
}

-- The dict `existing`: of rows with one external id the last counts.
unfoldable pub by_external_id :
    Uuid
    → List RepositoryConnection
    → Dict String RepositoryConnection
    → Dict String RepositoryConnection
by_external_id k [] d = d
by_external_id k (r ∷ l) d =
    by_external_id k l (if r.installation_id == k then put d r.external_repository_id r else d)

abbrev id_or : Option RepositoryConnection → Uuid → Uuid
id_or none k = k
id_or (some previous) k = previous.id

abbrev created_or : Option RepositoryConnection → Time → Time
created_or none now = now
created_or (some previous) now = previous.created_at

-- The constructor call `RepositoryConnection(...)` of `reconcile`
abbrev pub seen_repository :
    Bool
    → Uuid
    → Time
    → ConnectorInstallation
    → Option RepositoryConnection
    → RepositoryDescriptor
    → RepositoryConnection
seen_repository substitute k now i previous d = record {
  id = id_or previous k;
  organization_id = i.organization_id;
  installation_id = i.id;
  external_repository_id = d.external_id;
  owner = d.owner;
  name = d.name;
  default_branch = d.default_branch;
  clone_locator = d.clone_locator;
  is_private = d.is_private;
  is_development_substitute = substitute;
  access_status = RepositoryAccessStatus.active;
  last_seen_at = some now;
  revoked_at = none;
  created_at = created_or previous now;
}

abbrev pub external_ids : List RepositoryDescriptor → List String
external_ids [] = []
external_ids (d ∷ ds) = d.external_id ∷ external_ids ds

-- The arguments of `create_pull_request`
pub record PullRequestForm : Type 0 where
  pub repository_id : Uuid
  pub title : String
  pub body : String
  pub head_branch : String
  pub head_sha : Option String
  pub idempotency_key : String

-- `if head_sha`: neither `None` nor empty
abbrev pub present : Option String → Option String
present none = none
present (some sha) = if sha == "" then none else some sha

abbrev pub is_active : InstallationStatus → Bool
is_active InstallationStatus.active = true
is_active _ = false

abbrev pub request_of : PullRequestForm → ConnectorInstallation → RepositoryConnection → PullRequest
request_of f i r = record {
  installation = i;
  repository = r;
  title = f.title;
  body = f.body;
  head_branch = f.head_branch;
  base_branch = r.default_branch;
  idempotency_key = f.idempotency_key;
}

abbrev pub check_of :
    PullRequestForm → ConnectorInstallation → RepositoryConnection → String → CheckRun
check_of f i r sha = record {
  installation = i;
  repository = r;
  head_sha = sha;
  name = "MVP Master independent verification";
  summary = "Agent output was independently validated before publication.";
  idempotency_key = concat f.idempotency_key ":verification";
}

module _ {P : Type 0} (providers : Dict String (Provider P)) where
  -- The store, and what the providers keep.
  abbrev pub Action : Type 0 → Type 0
  Action A = Exec IntegrationError (Store × P) A

  abbrev pub stored : (Store → Store) → Action ⊤
  stored f = modify (λ w. (f w.0, w.1))

  -- A call of the provider
  abbrev pub remote : {A : Type 0} → Exec IntegrationError P A → Action A
  remote call w = let (r, p) = call w.1 in (r, (w.0, p))

  connect_each :
      Draws
      → ℕ
      → ConnectorInstallation
      → List RepositoryDescriptor
      → Action (List RepositoryConnection)
  unfolding add_repository
  connect_each draws n i [] = pure []
  connect_each draws n i (d ∷ ds) = do
    let repository = connected_repository draws n i d
    stored (add_repository repository)
    rest ← connect_each draws (suc n) i ds
    pure (repository ∷ rest)

  unfoldable pub connect :
      Draws
      → Uuid
      → Time
      → String
      → Connection
      → Action (ConnectorInstallation × List RepositoryConnection)
  unfolding connect_each update_installation record_audit
  connect draws k now actor c = do
    adapter ← or_raise (get providers c.provider) key_error
    let installation = new_installation k now adapter.is_development_substitute c
    stored (update_installation installation)
    descriptors ← remote (adapter.repositories c.external_account_id)
    repositories ← connect_each draws 0 installation descriptors
    stored (
        record_audit (record {
          organization_id = c.organization_id;
          actor_subject = actor;
          action = "connector.connected";
          target_type = "connector_installation";
          target_id = installation.id;
          details =
              ("provider", text c.provider)
              ∷ ("repository_count", int (length repositories))
              ∷ ("development_substitute", flag adapter.is_development_substitute)
              ∷ [];
        }))
    pure (installation, repositories)

  unfoldable pub reconcile_each :
      (ℕ → Uuid)
      → Bool
      → Time
      → ConnectorInstallation
      → Dict String RepositoryConnection
      → ℕ
      → List RepositoryDescriptor
      → Action (List RepositoryConnection)
  unfolding upsert_repository
  reconcile_each ids substitute now i existing n [] = pure []
  reconcile_each ids substitute now i existing n (d ∷ ds) = do
    let repository = seen_repository substitute (ids n) now i (get existing d.external_id) d
    stored (upsert_repository repository)
    rest ← reconcile_each ids substitute now i existing (suc n) ds
    pure (repository ∷ rest)

  -- What `reconcile` does after its loop
  abbrev pub settle :
      Time
      → String
      → ConnectorInstallation
      → List RepositoryDescriptor
      → List RepositoryConnection
      → Action (List RepositoryConnection)
  settle now actor i descriptors connected = do
    stored (revoke_repositories_except i.organization_id i.id (external_ids descriptors) now)
    stored (update_installation (record i { last_reconciled_at = some now }))
    stored (
        record_audit (record {
          organization_id = i.organization_id;
          actor_subject = actor;
          action = "connector.reconciled";
          target_type = "connector_installation";
          target_id = i.id;
          details = ("repository_count", int (length connected)) ∷ [];
        }))
    pure connected

  unfoldable pub reconcile :
      (ℕ → Uuid) → Time → String → ConnectorInstallation → Action (List RepositoryConnection)
  unfolding reconcile_each by_external_id list_repositories revoke_repositories_except
      update_installation record_audit
  reconcile ids now actor i = do
    adapter ← or_raise (get providers i.provider) key_error
    rows ← gets (λ w. list_repositories w.0 i.organization_id)
    let existing = by_external_id i.id rows []
    descriptors ← remote (adapter.repositories i.external_account_id)
    connected ← reconcile_each ids adapter.is_development_substitute now i existing 0 descriptors
    settle now actor i descriptors connected

  abbrev pub check :
      Provider P
      → Option String
      → PullRequestForm
      → ConnectorInstallation
      → RepositoryConnection
      → Action ⊤
  check adapter none f i r = pure tt
  check adapter (some sha) f i r = remote (adapter.create_check_run (check_of f i r sha))

  -- The installation of the repository, where it is active.
  abbrev active_installation : Option ConnectorInstallation → Action ConnectorInstallation
  active_installation none = raise repository_access_denied
  active_installation (some i) =
      if is_active i.status then pure i else raise repository_access_denied

  -- What `create_pull_request` does with the provider's result
  abbrev pub published :
      Uuid
      → String
      → PullRequestForm
      → RepositoryConnection
      → ConnectorInstallation
      → Provider P
      → PullRequestResult
      → Action PullRequestResult
  published o actor f repository installation adapter result = do
    check adapter (present f.head_sha) f installation repository
    stored (
        record_audit (record {
          organization_id = o;
          actor_subject = actor;
          action = "pull_request.created";
          target_type = "repository_connection";
          target_id = repository.id;
          details =
              ("external_id", text result.reference.external_id)
              ∷ ("development_substitute", flag result.is_development_substitute)
              ∷ [];
        }))
    pure result

  unfoldable pub create_pull_request : Uuid → String → PullRequestForm → Action PullRequestResult
  unfolding get_repository get_installation record_audit
  create_pull_request o actor f = do
    found ← gets (λ w. get_repository w.0 o f.repository_id)
    repository ← or_raise found repository_access_denied
    holder ← gets (λ w. get_installation w.0 o repository.installation_id)
    installation ← active_installation holder
    adapter ← or_raise (get providers installation.provider) key_error
    result ← remote (adapter.create_pull_request (request_of f installation repository))
    published o actor f repository installation adapter result
