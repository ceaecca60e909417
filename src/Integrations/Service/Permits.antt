-- ===== src/Integrations/Service/Permits.antt =====
-- What permits `create_pull_request` (application/service.py of the integrations service), by the rows
-- of the store.
use mvp_master.Base.{◌≡◌, true, some, nat_eq, string_eq, arith}
use mvp_master.Dict.{get}
use mvp_master.Contracts.{Uuid}
use mvp_master.Integrations.Models.{InstallationStatus, ConnectorInstallation, RepositoryConnection}
use mvp_master.Integrations.Store.{Store, get_repository, get_installation}
use mvp_master.Integrations.Service.{PullRequestForm, is_active}

-- The repository that a form names is the organization's, and so is its installation, which is active.
pub record Permits (s : Store) (o : Uuid) (f : PullRequestForm) (r : RepositoryConnection)
    (i : ConnectorInstallation) : Type 0 where
  pub named : get s.repositories f.repository_id ≡ some r
  pub owned : r.organization_id ≡ o
  pub installed : get s.installations r.installation_id ≡ some i
  pub connected : i.organization_id ≡ o
  pub active : i.status ≡ InstallationStatus.active

-- What the two look-ups and the test of the status tell
module _ (s : Store) (o : Uuid) (f : PullRequestForm) where
  pub get_repository_lem :
      (r : RepositoryConnection)
      → get_repository s o f.repository_id ≡ some r
      → (get s.repositories f.repository_id ≡ some r) × (r.organization_id ≡ o)
  unfolding get_repository
  get_repository_lem r found = ground (arith, nat_eq.beq_iff r.organization_id o)

  pub get_installation_lem :
      (k : Uuid) (i : ConnectorInstallation)
      → get_installation s o k ≡ some i
      → (get s.installations k ≡ some i) × (i.organization_id ≡ o)
  unfolding get_installation
  get_installation_lem k i found = ground (arith, nat_eq.beq_iff i.organization_id o)

  pub is_active_lem :
      (status : InstallationStatus) → is_active status ≡ true → status ≡ InstallationStatus.active
  is_active_lem status p = ground arith

  pub Permits-looked_up :
      (r : RepositoryConnection) (i : ConnectorInstallation)
      → Permits s o f r i
      → (get_repository s o f.repository_id ≡ some r)
        × (get_installation s o r.installation_id ≡ some i)
        × (is_active i.status ≡ true)
  unfolding get_repository get_installation
  Permits-looked_up r i h = (
    ground (arith, h.named, h.owned, nat_eq.beq_iff r.organization_id o),
    ground (arith, h.installed, h.connected, nat_eq.beq_iff i.organization_id o),
    ground (arith, h.active),
  )
