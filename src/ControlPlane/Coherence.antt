-- ===== src/ControlPlane/Coherence.antt =====
-- Intakes, specifications and their versions (application/service.py of the control plane): the
-- invariant that ties them together.
pub mod Steps
pub mod Effects
use mvp_master.Base.{◌≡◌, Bool, true, false, some, none, nat_eq}
use mvp_master.Dict.{get}
use mvp_master.Contracts.{Uuid}
use mvp_master.ControlPlane.Models.{
  IntakeStatus, SpecificationStatus, IntakeRequest, SpecificationVersion, Specification, WorkItem,
  draft, approved, specification_drafted, specification_approved,
}
use mvp_master.ControlPlane.Store.{Store}

-- The status of the intake that goes with a specification's status.
abbrev pub matches : SpecificationStatus → IntakeStatus → Bool
matches draft specification_drafted = true
matches SpecificationStatus.awaiting_approval IntakeStatus.awaiting_approval = true
matches approved specification_approved = true
matches _ _ = false

abbrev pub is_approved : SpecificationStatus → Bool
is_approved approved = true
is_approved _ = false

-- The intake of a specification, and the version that is its current one.
pub record IsBacked (s : Store) (p : Specification) : Type 0 where
  pub intake : IntakeRequest
  pub intake_found : get s.intakes p.intake_id ≡ some intake
  pub intake_owned : intake.organization_id ≡ p.organization_id
  pub in_step : matches p.status intake.status ≡ true
  pub version : SpecificationVersion
  pub version_found : get s.specification_versions p.current_version_id ≡ some version
  pub version_owned : version.specification_id ≡ p.id

pub record IsCoherent (s : Store) : Type 0 where
  pub intakes_keyed : (k : Uuid) (i : IntakeRequest) → get s.intakes k ≡ some i → i.id ≡ k
  pub specifications_keyed :
      (k : Uuid) (p : Specification) → get s.specifications k ≡ some p → p.id ≡ k
  pub versions_keyed :
      (k : Uuid) (v : SpecificationVersion) → get s.specification_versions k ≡ some v → v.id ≡ k
  pub backed : (k : Uuid) (p : Specification) → get s.specifications k ≡ some p → IsBacked s p
  pub one_each :
      (j k : Uuid) (p q : Specification)
      → get s.specifications j ≡ some p
      → get s.specifications k ≡ some q
      → p.intake_id ≡ q.intake_id
      → j ≡ k
