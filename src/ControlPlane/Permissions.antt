-- ===== src/ControlPlane/Permissions.antt =====
-- domain/permissions.py of the control plane: the sets of roles, as tests, and `require_role`.
use mvp_master.Base.{Bool, true, false, ◌||◌, Option, none, some, if◌then◌else◌}
use mvp_master.Exec.{Result, ok, err}
use mvp_master.ControlPlane.Models.{
  DomainError, permission_denied, Role, owner, admin, developer, reviewer, client,
}

unfoldable pub project_editors : Role → Bool
project_editors owner = true
project_editors admin = true
project_editors developer = true
project_editors _ = false

unfoldable pub reviewers : Role → Bool
reviewers owner = true
reviewers admin = true
reviewers reviewer = true
reviewers _ = false

abbrev is_client : Role → Bool
is_client client = true
is_client _ = false

abbrev is_reviewer : Role → Bool
is_reviewer reviewer = true
is_reviewer _ = false

unfoldable pub intake_creators : Role → Bool
unfolding project_editors
intake_creators r = project_editors r || is_client r

unfoldable pub execution_requesters : Role → Bool
unfolding project_editors
execution_requesters r = project_editors r || is_reviewer r

unfoldable pub require_role : Option Role → (Role → Bool) → Result DomainError Role
require_role none allowed = err permission_denied
require_role (some actual) allowed = if allowed actual then ok actual else err permission_denied
