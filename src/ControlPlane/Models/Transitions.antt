-- ===== src/ControlPlane/Models/Transitions.antt =====
-- The methods of domain/models.py of the control plane that change a status: the changed object, or
-- what the method raises, in which case the object is as it was.
use mvp_master.Base.{◌+◌, some}
use mvp_master.Exec.{Result, ok, err}
use mvp_master.Contracts.{Uuid}
use mvp_master.ControlPlane.Models.{
  DomainError, invalid_transition, IntakeStatus, SpecificationStatus, WorkItemStatus, received,
  clarification_required, specification_drafted, specification_approved, draft, approved, in_review,
  reviewed, ready, IntakeRequest, Specification, Budget, WorkItem,
}

abbrev drafted_from : IntakeStatus → IntakeRequest → Result DomainError IntakeRequest
drafted_from received i = ok (record i { status = specification_drafted })
drafted_from clarification_required i = ok (record i { status = specification_drafted })
drafted_from _ i = err invalid_transition

unfoldable pub mark_specification_drafted : IntakeRequest → Result DomainError IntakeRequest
mark_specification_drafted i = drafted_from i.status i

abbrev awaited_from : IntakeStatus → IntakeRequest → Result DomainError IntakeRequest
awaited_from specification_drafted i = ok (record i { status = IntakeStatus.awaiting_approval })
awaited_from _ i = err invalid_transition

unfoldable pub mark_awaiting_approval : IntakeRequest → Result DomainError IntakeRequest
mark_awaiting_approval i = awaited_from i.status i

abbrev approved_from : IntakeStatus → IntakeRequest → Result DomainError IntakeRequest
approved_from IntakeStatus.awaiting_approval i = ok (record i { status = specification_approved })
approved_from _ i = err invalid_transition

unfoldable pub mark_approved : IntakeRequest → Result DomainError IntakeRequest
mark_approved i = approved_from i.status i

abbrev submitted_from : SpecificationStatus → Specification → Result DomainError Specification
submitted_from draft s = ok (record s { status = SpecificationStatus.awaiting_approval })
submitted_from _ s = err invalid_transition

unfoldable pub submit_for_approval : Specification → Result DomainError Specification
submit_for_approval s = submitted_from s.status s

abbrev accepted_from : SpecificationStatus → Specification → Result DomainError Specification
accepted_from SpecificationStatus.awaiting_approval s = ok (record s { status = approved })
accepted_from _ s = err invalid_transition

unfoldable pub approve : Specification → Result DomainError Specification
approve s = accepted_from s.status s

abbrev reviewed_from : WorkItemStatus → WorkItem → Result DomainError WorkItem
reviewed_from in_review w = ok (record w { status = reviewed; version = w.version + 1 })
reviewed_from _ w = err invalid_transition

unfoldable pub mark_reviewed : WorkItem → Result DomainError WorkItem
mark_reviewed w = reviewed_from w.status w

-- The keyword arguments of `mark_ready`.
pub record Readiness : Type 0 where
  pub repository_connection_id : Uuid
  pub provider_configuration_id : Uuid
  pub runner_pool_id : Uuid
  pub budget : Budget

abbrev readied_from : WorkItemStatus → Readiness → WorkItem → Result DomainError WorkItem
readied_from reviewed r w = ok (record w {
  repository_connection_id = some r.repository_connection_id;
  provider_configuration_id = some r.provider_configuration_id;
  runner_pool_id = some r.runner_pool_id;
  budget = some r.budget;
  status = ready;
  version = w.version + 1;
})
readied_from _ r w = err invalid_transition

unfoldable pub mark_ready : Readiness → WorkItem → Result DomainError WorkItem
mark_ready r w = readied_from w.status r w
