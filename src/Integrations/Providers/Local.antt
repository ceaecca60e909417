-- ===== src/Integrations/Providers/Local.antt =====
-- adapters/local_source_control.py of the integrations service: `LocalSourceControl`.
use mvp_master.Base.{
  String, ◌+◌, true, Option, none, some, is_some, List, [], ◌∷◌, ◌++◌, string_eq, length, concat,
  decimal, if◌then◌else◌, ⊤,
}
use mvp_master.Exec.{Exec, ok, pure, modify}
use mvp_master.Dict.{Dict, get, put}
use mvp_master.Contracts.{Uuid}
use mvp_master.Integrations.Models.{
  IntegrationError, PullRequestResult, RepositoryDescriptor, full_name,
}
use mvp_master.Integrations.Providers.{PullRequest, CheckRun, Provider}

-- An entry of `comments`; `comment_id` is from `uuid4`.
pub record Comment : Type 0 where
  pub installation_id : Uuid
  pub external_reference_id : String
  pub body : String
  pub idempotency_key : String
  pub comment_id : Uuid

-- An entry of `check_runs`
pub record Check : Type 0 where
  pub repository : String
  pub head_sha : String
  pub name : String
  pub summary : String

pub record LocalSourceControl : Type 0 where
  pub pull_requests : Dict String PullRequestResult
  pub comments : List Comment
  pub check_runs : Dict String Check

abbrev pub empty : LocalSourceControl
empty = record { pull_requests = []; comments = []; check_runs = [] }

abbrev Local : Type 0 → Type 0
Local A = Exec IntegrationError LocalSourceControl A

unfoldable pub repositories : String → Local (List RepositoryDescriptor)
repositories account = pure (
    record {
      external_id = concat "local-" (concat account "-sample");
      owner = account;
      name = "sample-webapp";
      default_branch = "main";
      clone_locator = "file:///fixtures/sample-webapp.git";
      is_private = true;
    }
    ∷ [])

unfoldable pub new_pull_request : LocalSourceControl → PullRequest → PullRequestResult
unfolding decimal
new_pull_request l p =
    let number = decimal (length l.pull_requests + 1) in
    record {
      reference = record {
        provider = "github-local";
        account_id = p.installation.external_account_id;
        repository = some (full_name p.repository);
        resource_type = "pull_request";
        external_id = number;
      };
      title = p.title;
      url = concat "http://localhost:3000/dev/github/pulls/" number;
      head_branch = p.head_branch;
      base_branch = p.base_branch;
      is_development_substitute = true;
    }

abbrev create_or : Option PullRequestResult → PullRequest → Local PullRequestResult
create_or (some existing) p l = pure existing l
create_or none p l = (
  ok (new_pull_request l p),
  record l { pull_requests = put l.pull_requests p.idempotency_key (new_pull_request l p) },
)

unfoldable pub create_pull_request : PullRequest → Local PullRequestResult
create_pull_request p l = create_or (get l.pull_requests p.idempotency_key) p l

unfoldable pub add_comment : Comment → Local ⊤
add_comment c = modify (λ l. record l { comments = l.comments ++ c ∷ [] })

unfoldable pub create_check_run : CheckRun → Local ⊤
create_check_run c = modify (λ l.
    if is_some (get l.check_runs c.idempotency_key) then l else record l {
      check_runs = put l.check_runs c.idempotency_key (record {
        repository = full_name c.repository;
        head_sha = c.head_sha;
        name = c.name;
        summary = c.summary;
      });
    })

abbrev pub local_source_control : Provider LocalSourceControl
local_source_control = record {
  is_development_substitute = true;
  repositories = repositories;
  create_pull_request = create_pull_request;
  create_check_run = create_check_run;
}
