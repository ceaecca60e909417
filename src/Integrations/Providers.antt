-- ===== src/Integrations/Providers.antt =====
-- `SourceControlProvider` (application/ports.py of the integrations service), as an interface over
-- whatever state the provider has, and its development substitute, adapters/local_source_control.py.
pub mod Local
use mvp_master.Base.{String, Bool, List, ⊤}
use mvp_master.Exec.{Exec}
use mvp_master.Contracts.{Uuid}
use mvp_master.Integrations.Models.{
  IntegrationError, ConnectorInstallation, RepositoryConnection, PullRequestResult,
  RepositoryDescriptor,
}

-- The arguments of `create_pull_request`
pub record PullRequest : Type 0 where
  pub installation : ConnectorInstallation
  pub repository : RepositoryConnection
  pub title : String
  pub body : String
  pub head_branch : String
  pub base_branch : String
  pub idempotency_key : String

-- The arguments of `create_check_run`
pub record CheckRun : Type 0 where
  pub installation : ConnectorInstallation
  pub repository : RepositoryConnection
  pub head_sha : String
  pub name : String
  pub summary : String
  pub idempotency_key : String

-- `P` is what the provider keeps, on its side or here.
pub record Provider (P : Type 0) : Type 0 where
  pub is_development_substitute : Bool
  pub repositories : String → Exec IntegrationError P (List RepositoryDescriptor)
  pub create_pull_request : PullRequest → Exec IntegrationError P PullRequestResult
  pub create_check_run : CheckRun → Exec IntegrationError P ⊤
