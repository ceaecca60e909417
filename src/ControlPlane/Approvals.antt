-- ===== src/ControlPlane/Approvals.antt =====
-- Work items and the approved specifications they come from (`approve_specification` of
-- application/service.py): the invariant, and the changes of the store that matter to it.
pub mod Effects
use mathlib.Core.Path.{subst}
use mvp_master.Base.{
  ◌∙◌, refl, ◌==◌, Bool-cases, ◌+◌, String, ◌≡◌, ◌⊎◌, inl, inr, true, false, Option, none, some,
  arith, nat_eq, Option-cases, eq_refl,
}
use mvp_master.Dict.{get, put, get-put, get-put_self, put-put}
use mvp_master.Contracts.{Uuid, Time}
use mvp_master.ControlPlane.Models.{
  IntakeStatus, SpecificationStatus, Specification, SpecificationVersion, Approval, WorkItem,
  approved, reviewed, ready,
}
use mvp_master.ControlPlane.Models.Transitions.{
  mark_reviewed, mark_ready, Readiness, approve, mark_approved,
}
use mvp_master.ControlPlane.Store.{Store}
use mvp_master.ControlPlane.Service
use mvp_master.ControlPlane.Service.{Request}
use mvp_master.ControlPlane.Service.Specifications
use mvp_master.ControlPlane.Service.Specifications.{new_approval, new_work_item}
use mvp_master.ControlPlane.Service.WorkItems
use mvp_master.ControlPlane.Coherence.{is_approved}

-- The specification that a work item comes from, and the approval of it, both stored.
pub record IsApproved (s : Store) (w : WorkItem) : Type 0 where
  pub specification : Specification
  pub found : get s.specifications specification.id ≡ some specification
  pub approved_now : is_approved specification.status ≡ true
  pub same_version : w.specification_version_id ≡ specification.current_version_id
  pub same_owner : w.organization_id ≡ specification.organization_id
  pub approval : Approval
  pub recorded : get s.approvals approval.id ≡ some approval
  pub about : approval.subject_id ≡ specification.id
  pub decision : approval.decision ≡ "APPROVED"

abbrev pub AllApproved : Store → Type 0
AllApproved s = (k : Uuid) (w : WorkItem) → get s.work_items k ≡ some w → IsApproved s w

-- What a call does to the work items and approvals.
pub data Change (s t : Store) : Type 0 where
  kept : t.approvals ≡ s.approvals → t.work_items ≡ s.work_items → Change s t
  rewritten :
      (w w' : WorkItem)
      → get s.work_items w.id ≡ some w
      → w'.id ≡ w.id
      → w'.specification_version_id ≡ w.specification_version_id
      → w'.organization_id ≡ w.organization_id
      → t.approvals ≡ s.approvals
      → t.work_items ≡ put s.work_items w'.id w'
      → Change s t
  approving :
      (p : Specification) (a : Approval) (w : WorkItem)
      → get t.specifications p.id ≡ some p
      → is_approved p.status ≡ true
      → get s.approvals a.id ≡ none
      → a.subject_id ≡ p.id
      → a.decision ≡ "APPROVED"
      → w.specification_version_id ≡ p.current_version_id
      → w.organization_id ≡ p.organization_id
      → t.approvals ≡ put s.approvals a.id a
      → t.work_items ≡ put s.work_items w.id w
      → Change s t

-- Approved specifications and recorded approvals stay, so what came from them still does.
carry :
    (s t : Store) (w w' : WorkItem)
    → ((k : Uuid) (p : Specification)
        → get s.specifications k ≡ some p
        → is_approved p.status ≡ true
        → get t.specifications k ≡ some p)
    → ((k : Uuid) (a : Approval) → get s.approvals k ≡ some a → get t.approvals k ≡ some a)
    → w'.specification_version_id ≡ w.specification_version_id
    → w'.organization_id ≡ w.organization_id
    → IsApproved s w
    → IsApproved t w'
carry s t w w' stays kept_approvals version owner i = record {
  specification = i.specification;
  found = stays i.specification.id i.specification i.found i.approved_now;
  approved_now = i.approved_now;
  same_version = version ∙ i.same_version;
  same_owner = owner ∙ i.same_owner;
  approval = i.approval;
  recorded = kept_approvals i.approval.id i.approval i.recorded;
  about = i.about;
  decision = i.decision;
}

pub Change-AllApproved :
    (s t : Store)
    → ((k : Uuid) (p : Specification)
        → get s.specifications k ≡ some p
        → is_approved p.status ≡ true
        → get t.specifications k ≡ some p)
    → Change s t
    → AllApproved s
    → AllApproved t
Change-AllApproved s t stays (kept approvals items) h k x found =
    carry s t x x stays (λ j a r. rw approvals r) refl refl (h k x (ground (arith, items, found)))
Change-AllApproved s t stays (rewritten w w' there id version owner approvals items) h k x found =
    elim (Bool-cases (w'.id == k)) [
      | inl same ↦
          let before =
            carry s t w w' stays (λ j a r. rw approvals r) version owner (h w.id w there) in
          subst (IsApproved t) {x = w'}
            (ground (arith, items, found, get-put s.work_items w'.id w' k)) before
      | inr other ↦
          carry s t x x stays (λ j a r. rw approvals r) refl refl
            (h k x (ground (arith, items, found, get-put s.work_items w'.id w' k)))
    ]
Change-AllApproved s t stays
      (approving p a w p_found done fresh about decision version owner approvals items) h k x
      found =
    elim (Bool-cases (w.id == k)) [
      | inl same ↦
          subst (IsApproved t) {x = w} (ground (arith, items, found, get-put s.work_items w.id w k))
            (record {
              specification = p;
              found = p_found;
              approved_now = done;
              same_version = version;
              same_owner = owner;
              approval = a;
              recorded = rw approvals (get-put_self s.approvals a.id a);
              about = about;
              decision = decision;
            })
      | inr other ↦
          carry s t x x stays
            (λ j b r. ground (arith, approvals, r, fresh, get-put s.approvals a.id a j)) refl refl
            (h k x (ground (arith, items, found, get-put s.work_items w.id w k)))
    ]
