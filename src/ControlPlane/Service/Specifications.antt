-- ===== src/ControlPlane/Service/Specifications.antt =====
-- application/service.py of the control plane: a specification is drafted from an intake, submitted
-- and approved. A method called on a stored object changes it in the store before the next step.
use mvp_master.Base.{String, strip, Option, Bool, ◌||◌, none, [], ◌∷◌}
use mvp_master.Exec.{Result, pure, gets, lift, or_raise, ◌>>=◌, ◌>>◌}
use mvp_master.Contracts.{Uuid, Time, uuid, int}
use mvp_master.ControlPlane.Models.{
  DomainError, not_found, Role, draft, in_review, IntakeRequest, SpecificationVersion,
  Specification, Approval, WorkItem,
}
use mvp_master.ControlPlane.Models.Transitions.{
  mark_specification_drafted, mark_awaiting_approval, mark_approved, submit_for_approval, approve,
}
use mvp_master.ControlPlane.Permissions.{project_editors, reviewers}
use mvp_master.ControlPlane.Store.{
  Action, update_intake, update_specification, add_specification, get_specification_version,
  add_approval, update_work_item,
}
use mvp_master.ControlPlane.Service.{
  Request, authorize, audit, required_intake, required_specification,
}

-- `PROJECT_EDITORS | REVIEWERS`
unfoldable pub drafters : Role → Bool
unfolding project_editors reviewers
drafters r = project_editors r || reviewers r

-- A method called on the stored intake: what it changes is in the store from then on.
unfoldable pub on_intake :
    (IntakeRequest → Result DomainError IntakeRequest) → IntakeRequest → Action IntakeRequest
unfolding update_intake
on_intake method intake = do changed ← lift (method intake); update_intake changed; pure changed

unfoldable pub on_specification :
    (Specification → Result DomainError Specification) → Specification → Action Specification
unfolding update_specification
on_specification method specification = do
  changed ← lift (method specification)
  update_specification changed
  pure changed

-- The constructor calls of `draft_specification`
abbrev pub new_version :
    Request → Uuid → Uuid → Time → String → IntakeRequest → SpecificationVersion
new_version q specification_id version_id now title intake = record {
  id = version_id;
  specification_id = specification_id;
  version = 1;
  title = title;
  problem = intake.problem;
  intended_users = intake.intended_users;
  requirements = intake.required_functionality;
  exclusions = intake.exclusions;
  constraints = intake.constraints;
  created_by = q.actor_subject;
  created_at = now;
}

abbrev pub new_specification : Request → SpecificationVersion → IntakeRequest → Specification
new_specification q version intake = record {
  id = version.specification_id;
  organization_id = q.organization_id;
  project_id = intake.project_id;
  intake_id = intake.id;
  current_version_id = version.id;
  current_version = version.version;
  status = draft;
}

unfoldable pub draft_specification :
    Request → Uuid → Uuid → Time → Uuid → String → Action (Specification × SpecificationVersion)
unfolding authorize drafters required_intake on_intake mark_specification_drafted strip
    update_intake add_specification audit
draft_specification q specification_id version_id now intake_id title = do
  authorize q drafters
  found ← required_intake q.organization_id intake_id
  intake ← on_intake mark_specification_drafted found
  let version = new_version q specification_id version_id now (strip title) intake
  let specification = new_specification q version intake
  update_intake intake
  add_specification specification version
  audit q "specification.drafted" "specification" specification.id
      (("version", int 1) ∷ ("intake_id", uuid intake.id) ∷ [])
  pure (specification, version)

unfoldable pub submit_specification : Request → Uuid → Action Specification
unfolding authorize drafters required_specification required_intake on_specification on_intake
    submit_for_approval mark_awaiting_approval update_specification update_intake audit
submit_specification q specification_id = do
  authorize q drafters
  found ← required_specification q.organization_id specification_id
  asked ← required_intake q.organization_id found.intake_id
  specification ← on_specification submit_for_approval found
  intake ← on_intake mark_awaiting_approval asked
  update_specification specification
  update_intake intake
  audit q "specification.submitted" "specification" specification.id
      (("version", int specification.current_version) ∷ [])
  pure specification

-- The constructor calls of `approve_specification`
abbrev pub new_approval : Request → Uuid → Time → Option String → Specification → Approval
new_approval q approval_id now reason specification = record {
  id = approval_id;
  organization_id = q.organization_id;
  subject_type = "specification";
  subject_id = specification.id;
  subject_version = specification.current_version;
  decision = "APPROVED";
  actor_subject = q.actor_subject;
  reason = reason;
  created_at = now;
}

abbrev pub new_work_item : Request → Uuid → Specification → SpecificationVersion → WorkItem
new_work_item q work_item_id specification version = record {
  id = work_item_id;
  organization_id = q.organization_id;
  project_id = specification.project_id;
  specification_version_id = version.id;
  title = version.title;
  description = version.problem;
  acceptance_criteria = version.requirements;
  status = in_review;
  repository_connection_id = none;
  provider_configuration_id = none;
  runner_pool_id = none;
  budget = none;
  version = 1;
}

unfoldable pub approve_specification :
    Request → Uuid → Uuid → Time → Uuid → Option String → Action (Specification × WorkItem)
unfolding authorize reviewers required_specification get_specification_version required_intake
    on_specification on_intake approve mark_approved update_specification update_intake add_approval
    update_work_item audit
approve_specification q approval_id work_item_id now specification_id reason = do
  authorize q reviewers
  found ← required_specification q.organization_id specification_id
  current ← gets (λ s. get_specification_version s q.organization_id found.current_version_id)
  version ← or_raise current not_found
  asked ← required_intake q.organization_id found.intake_id
  specification ← on_specification approve found
  intake ← on_intake mark_approved asked
  let work_item = new_work_item q work_item_id specification version
  update_specification specification
  update_intake intake
  add_approval (new_approval q approval_id now reason specification)
  update_work_item work_item
  audit q "specification.approved" "specification" specification.id
      (("version", int specification.current_version) ∷ ("work_item_id", uuid work_item.id) ∷ [])
  pure (specification, work_item)
