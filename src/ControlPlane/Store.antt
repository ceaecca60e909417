-- ===== src/ControlPlane/Store.antt =====
-- adapters/memory.py of the control plane: `MemoryControlPlaneRepository`. Its `get_` methods return
-- the stored objects themselves, so a method called on one of them changes the store at once.
pub mod Rows
use mvp_master.Base.{
  ℕ, String, Bool, Option, none, some, List, [], ◌∷◌, ◌++◌, ◌==◌, nat_eq, string_eq, pair_eq,
  select, if◌then◌else◌, ⊤,
}
use mvp_master.Exec.{Exec, modify}
use mvp_master.Dict.{Dict, get, put, values}
use mvp_master.Contracts.{Uuid, Time, Details}
use mvp_master.ControlPlane.Models.{
  DomainError, Role, owner, Organization, Project, IntakeRequest, SpecificationVersion,
  Specification, Approval, Budget, WorkItem,
}

pub record Audit : Type 0 where
  pub organization_id : Uuid
  pub actor_subject : String
  pub action : String
  pub target_type : String
  pub target_id : Uuid
  pub correlation_id : Uuid
  pub details : Details

-- The `data` of the two events that the control plane publishes.
pub data EventData : Type 0 where
  membership_changed :
      (subject : String) (role : String) (active : Bool) (project_ids client_ids : List Uuid)
      → EventData
  work_item_ready :
      (work_item_id project_id repository_connection_id provider_configuration_id
        runner_pool_id : Uuid)
      (budget : Budget) (title description : String) (acceptance_criteria : List String)
      → EventData

-- The `subject` of an event, and with it the `type`: `organization/{id}/membership/{subject}` or
-- `work-item/{id}`.
pub data Subject : Type 0 where
  membership : Uuid → String → Subject
  work_item : Uuid → Subject

-- `EventEnvelope`, whose `source` is a constant here
pub record Event : Type 0 where
  pub id : Uuid
  pub time : Time
  pub subject : Subject
  pub organization_id : Uuid
  pub aggregate_version : ℕ
  pub correlation_id : Uuid
  pub contents : EventData

pub record Store : Type 0 where
  pub organizations : Dict Uuid Organization
  pub memberships : Dict (Uuid × String) Role
  pub projects : Dict Uuid Project
  pub intakes : Dict Uuid IntakeRequest
  pub specifications : Dict Uuid Specification
  pub specification_versions : Dict Uuid SpecificationVersion
  pub approvals : Dict Uuid Approval
  pub work_items : Dict Uuid WorkItem
  pub audits : List Audit
  pub outbox : List Event

abbrev pub empty : Store
empty = record {
  organizations = [];
  memberships = [];
  projects = [];
  intakes = [];
  specifications = [];
  specification_versions = [];
  approvals = [];
  work_items = [];
  audits = [];
  outbox = [];
}

abbrev pub Action : Type 0 → Type 0
Action A = Exec DomainError Store A

unfoldable pub role_for : Store → Uuid → String → Option Role
role_for s organization_id subject = get s.memberships (organization_id, subject)

unfoldable pub add_organization : Organization → String → Action ⊤
add_organization o owner_subject = modify (λ s. record s {
  organizations = put s.organizations o.id o;
  memberships = put s.memberships (o.id, owner_subject) owner;
})

unfoldable pub add_project : Project → Action ⊤
add_project p = modify (λ s. record s { projects = put s.projects p.id p })

-- `x if x and x.organization_id == organization_id else None`
abbrev pub owned {ℓ} : {A : Type ℓ} → (A → Uuid) → Uuid → Option A → Option A
owned whose organization_id none = none
owned whose organization_id (some a) = if whose a == organization_id then some a else none

unfoldable pub get_project : Store → Uuid → Uuid → Option Project
get_project s organization_id k = owned (λ p. p.organization_id) organization_id (get s.projects k)

-- `add_intake` and `update_intake`, which are one assignment
unfoldable pub update_intake : IntakeRequest → Action ⊤
update_intake i = modify (λ s. record s { intakes = put s.intakes i.id i })

unfoldable pub get_intake : Store → Uuid → Uuid → Option IntakeRequest
get_intake s organization_id k = owned (λ i. i.organization_id) organization_id (get s.intakes k)

unfoldable pub add_specification : Specification → SpecificationVersion → Action ⊤
add_specification p v = modify (λ s. record s {
  specifications = put s.specifications p.id p;
  specification_versions = put s.specification_versions v.id v;
})

unfoldable pub get_specification : Store → Uuid → Uuid → Option Specification
get_specification s organization_id k =
    owned (λ p. p.organization_id) organization_id (get s.specifications k)

abbrev kept_if {ℓ κ} : {A : Type ℓ} {B : Type κ} → Option A → B → Option B
kept_if none v = none
kept_if (some a) v = some v

abbrev version_of : Store → Uuid → Option SpecificationVersion → Option SpecificationVersion
version_of s organization_id none = none
version_of s organization_id (some v) =
    kept_if
      (owned (λ p. p.organization_id) organization_id (get s.specifications v.specification_id)) v

unfoldable pub get_specification_version : Store → Uuid → Uuid → Option SpecificationVersion
get_specification_version s organization_id k =
    version_of s organization_id (get s.specification_versions k)

unfoldable pub update_specification : Specification → Action ⊤
update_specification p = modify (λ s. record s { specifications = put s.specifications p.id p })

unfoldable pub add_approval : Approval → Action ⊤
add_approval a = modify (λ s. record s { approvals = put s.approvals a.id a })

-- `add_work_item` and `update_work_item`, which are one assignment
unfoldable pub update_work_item : WorkItem → Action ⊤
update_work_item w = modify (λ s. record s { work_items = put s.work_items w.id w })

unfoldable pub get_work_item : Store → Uuid → Uuid → Option WorkItem
get_work_item s organization_id k =
    owned (λ w. w.organization_id) organization_id (get s.work_items k)

unfoldable pub add_audit : Audit → Action ⊤
add_audit a = modify (λ s. record s { audits = s.audits ++ a ∷ [] })

unfoldable pub add_outbox : Event → Action ⊤
add_outbox e = modify (λ s. record s { outbox = s.outbox ++ e ∷ [] })
