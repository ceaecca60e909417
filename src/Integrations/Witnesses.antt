-- ===== src/Integrations/Witnesses.antt =====
-- The integrations service at concrete inputs.
use mvp_master.Base.{
  ℕ, ◌+◌, String, ◌≡◌, refl, true, ◌⊎◌, none, some, [], ◌∷◌, List, arith, nat_eq, string_eq, length,
}
use mvp_master.Exec.{ok}
use mvp_master.Dict.{Dict, get, put}
use mvp_master.Contracts.{Uuid}
use mvp_master.Integrations.Models.{
  ConnectorInstallation, InstallationStatus, RepositoryConnection, RepositoryAccessStatus,
  RepositoryDescriptor, PullRequestResult,
}
use mvp_master.Integrations.Store.{
  Store, empty, get_repository, get_installation, create_connector_setup_attempt,
  consume_connector_setup_attempt,
}
use mvp_master.Integrations.Store.Upserts.{IsUnique, Rows}
use mvp_master.Integrations.Store.Attempts.{setup_attempt_once}
use mvp_master.Integrations.Providers.{Provider}
use mvp_master.Integrations.Providers.Local.{LocalSourceControl, local_source_control, repositories}
use mvp_master.Integrations.Service.{PullRequestForm, create_pull_request, reconcile, external_ids}
use mvp_master.Integrations.Service.Rows.{Fresh}
use mvp_master.Integrations.Service.Reconciliation.{Mirrors, reconcile-Mirrors}
use mvp_master.Integrations.Service.PullRequests.{
  Denied, Allowed, create_pull_request-Guarded, pull_request_retried,
}

abbrev installation : ConnectorInstallation
installation = record {
  id = 1;
  organization_id = 2;
  provider = "github-local";
  external_account_id = "acme";
  account_login = "acme";
  requested_permissions = [];
  is_development_substitute = true;
  provider_configuration_id = none;
  granted_permissions = [];
  repository_selection = "all";
  last_reconciled_at = none;
  status = InstallationStatus.active;
  created_at = 0;
}

abbrev row : Uuid → Uuid → String → RepositoryConnection
row k installation_id name = record {
  id = k;
  organization_id = 2;
  installation_id = installation_id;
  external_repository_id = name;
  owner = "acme";
  name = name;
  default_branch = "main";
  clone_locator = "file:///x.git";
  is_private = true;
  is_development_substitute = true;
  access_status = RepositoryAccessStatus.active;
  last_seen_at = none;
  revoked_at = none;
  created_at = 0;
}

-- A repository that is gone, and one of another installation.
abbrev rows : Rows
rows = (5, row 5 1 "gone") ∷ (6, row 6 9 "other") ∷ []

abbrev store : Store
store = record empty { repositories = rows; installations = (1, installation) ∷ [] }

abbrev providers : Dict String (Provider LocalSourceControl)
providers = ("github-local", local_source_control) ∷ []

abbrev substitute : LocalSourceControl
substitute = mvp_master.Integrations.Providers.Local.empty

rows-IsUnique : IsUnique rows
unfolding get
rows-IsUnique = record {
  keyed = (refl, refl, (refl, refl, tt));
  one_each = λ j k x y p q same. ground arith;
}

abbrev ids : ℕ → Uuid
ids j = 100 + j

ids-Fresh : Fresh ids rows
unfolding get
ids-Fresh = record { distinct = λ j k p. omega (arith, p); unused = λ j. ground arith }

abbrev listing : List RepositoryDescriptor
listing =
    record {
      external_id = "local-acme-sample";
      owner = "acme";
      name = "sample-webapp";
      default_branch = "main";
      clone_locator = "file:///fixtures/sample-webapp.git";
      is_private = true;
    }
    ∷ []

reconcile-Mirrors_example :
    (connected : List RepositoryConnection) × (s' : Store) × (reconcile providers ids 7 "ann"
        installation
        (store, substitute)
      ≡ (ok connected, (s', substitute)))
    × (length connected ≡ 1)
    × (get s'.installations 1 ≡ some (record installation { last_reconciled_at = some 7 }))
    × Mirrors installation (external_ids listing) 7 rows s'.repositories
unfolding get repositories
reconcile-Mirrors_example =
    reconcile-Mirrors providers local_source_control ids 7 "ann" installation listing store
      substitute substitute refl refl rows-IsUnique ids-Fresh

abbrev form : PullRequestForm
form = record {
  repository_id = 5;
  title = "t";
  body = "b";
  head_branch = "work";
  head_sha = some "abc";
  idempotency_key = "k";
}

create_pull_request-Guarded_example :
    Denied 3 form
      (store, substitute)
      (create_pull_request providers 3 "ann" form (store, substitute))
    ⊎ Allowed 3 "ann" form
        (store, substitute)
        (create_pull_request providers 3 "ann" form (store, substitute))
create_pull_request-Guarded_example =
    create_pull_request-Guarded providers 3 "ann" form (store, substitute)

pull_request_retried_example :
    (result : PullRequestResult) × (s1 s2 : Store) × (l1 : LocalSourceControl)
    × (create_pull_request providers 2 "ann" form (store, substitute) ≡ (ok result, (s1, l1)))
    × (create_pull_request providers 2 "ann" form (s1, l1) ≡ (ok result, (s2, l1)))
    × (get l1.pull_requests "k" ≡ some result)
unfolding get_repository get_installation get
pull_request_retried_example =
    pull_request_retried "github-local" 2 "ann" form installation (row 5 1 "gone") store substitute
      refl refl refl refl

-- The state after the attempt has been issued and consumed
abbrev consumed : Store
consumed =
    (consume_connector_setup_attempt 2 "h" "ann" 50
      (create_connector_setup_attempt 2 "h" "ann" 8 100 store)).1

setup_attempt_once_example :
    consume_connector_setup_attempt 2 "h" "eve" 60 consumed ≡ (none, consumed)
unfolding create_connector_setup_attempt consume_connector_setup_attempt get put
setup_attempt_once_example = (setup_attempt_once 2 8 "h" "ann" "ann" "eve" 100 50 60 store).2 refl
