-- ===== src/ControlPlane/Service.antt =====
-- application/service.py of the control plane: `ControlPlaneService` over the memory store. What
-- `uuid4` and the clock return are arguments. The unit of work keeps what a call has written before
-- it raised: `MemoryUnitOfWork` has no rollback.
pub mod Specifications
pub mod WorkItems
pub mod Calls
use mvp_master.Base.{
  String, strip, true, none, some, Option, Bool, is_some, not, List, [], ◌∷◌, map, ◌||◌, ⊤,
}
use mvp_master.Exec.{pure, raise, gets, lift, or_raise, ◌>>=◌, ◌>>◌, modify}
use mvp_master.Contracts.{Uuid, Time, Details, text, uuid}
use mvp_master.ControlPlane.Models.{
  not_found, Role, Organization, Project, IntakeRequest, received, Specification, WorkItem,
}
use mvp_master.ControlPlane.Permissions.{project_editors, reviewers, intake_creators, require_role}
use mvp_master.ControlPlane.Store.{
  Store, Action, Audit, Event, membership_changed, membership, role_for, add_organization,
  add_project, get_project, update_intake, get_intake, get_specification, get_work_item, add_audit,
  add_outbox,
}
use mvp_master.ControlPlane.Store.Rows.{
  list_projects, list_intakes, list_specifications, list_work_items, list_audits,
}

-- The arguments that the calls share.
pub record Request : Type 0 where
  pub actor_subject : String
  pub organization_id : Uuid
  pub correlation_id : Uuid

-- `require_role(await repository.role_for(...), allowed)`
unfoldable pub authorize : Request → (Role → Bool) → Action Role
unfolding role_for require_role
authorize q allowed = do
  actual ← gets (λ s. role_for s q.organization_id q.actor_subject)
  lift (require_role actual allowed)

-- `_audit`
unfoldable pub audit : Request → String → String → Uuid → Details → Action ⊤
unfolding add_audit
audit q action target_type target_id details = add_audit (record {
  organization_id = q.organization_id;
  actor_subject = q.actor_subject;
  action = action;
  target_type = target_type;
  target_id = target_id;
  correlation_id = q.correlation_id;
  details = details;
})

unfoldable pub required_intake : Uuid → Uuid → Action IntakeRequest
unfolding get_intake
required_intake organization_id k = do
  found ← gets (λ s. get_intake s organization_id k)
  or_raise found not_found

unfoldable pub required_specification : Uuid → Uuid → Action Specification
unfolding get_specification
required_specification organization_id k = do
  found ← gets (λ s. get_specification s organization_id k)
  or_raise found not_found

unfoldable pub required_work_item : Uuid → Uuid → Action WorkItem
unfolding get_work_item
required_work_item organization_id k = do
  found ← gets (λ s. get_work_item s organization_id k)
  or_raise found not_found

-- The event `com.mvp.membership.changed.v1`
abbrev pub membership_event : Request → Uuid → Time → Event
membership_event q event_id event_time = record {
  id = event_id;
  time = event_time;
  subject = membership q.organization_id q.actor_subject;
  organization_id = q.organization_id;
  aggregate_version = 1;
  correlation_id = q.correlation_id;
  contents = membership_changed q.actor_subject "OWNER" true [] [];
}

-- The organization of the request is the new one, whose id `uuid4` gave.
unfoldable pub create_organization : Request → Uuid → Time → Time → String → Action Organization
unfolding add_organization add_outbox audit strip
create_organization q event_id now event_time name = do
  let organization : Organization = record {
    id = q.organization_id;
    name = strip name;
    created_at = now;
  }
  add_organization organization q.actor_subject
  add_outbox (membership_event q event_id event_time)
  audit q "organization.created" "organization" organization.id
      (("name", text organization.name) ∷ [])
  pure organization

-- The five lists of `dashboard`
pub record Dashboard : Type 0 where
  pub projects : List Project
  pub intakes : List IntakeRequest
  pub specifications : List Specification
  pub work_items : List WorkItem
  pub audits : List Audit

unfoldable pub dashboard : Request → Action Dashboard
unfolding authorize project_editors reviewers list_projects list_intakes list_specifications
    list_work_items list_audits
dashboard q = do
  authorize q (λ r. project_editors r || reviewers r)
  gets (λ s. record {
    projects = list_projects s q.organization_id;
    intakes = list_intakes s q.organization_id;
    specifications = list_specifications s q.organization_id;
    work_items = list_work_items s q.organization_id;
    audits = list_audits s q.organization_id;
  })

unfoldable pub create_project : Request → Uuid → Time → String → String → Action Project
unfolding authorize project_editors add_project audit strip
create_project q project_id now name description = do
  let project : Project = record {
    id = project_id;
    organization_id = q.organization_id;
    name = strip name;
    description = strip description;
    execution_approval_required = true;
    created_at = now;
  }
  authorize q project_editors
  add_project project
  audit q "project.created" "project" project.id (("name", text project.name) ∷ [])
  pure project

-- The arguments of `submit_intake`
pub record IntakeForm : Type 0 where
  pub project_id : Uuid
  pub client_id : Option Uuid
  pub problem : String
  pub intended_users : String
  pub required_functionality : List String
  pub exclusions : List String
  pub constraints : List String

-- The constructor call `IntakeRequest(...)`
unfoldable pub new_intake : Request → Uuid → Time → IntakeForm → IntakeRequest
unfolding strip
new_intake q intake_id now form = record {
  id = intake_id;
  organization_id = q.organization_id;
  project_id = form.project_id;
  client_id = form.client_id;
  submitted_by = q.actor_subject;
  problem = strip form.problem;
  intended_users = strip form.intended_users;
  required_functionality = map strip form.required_functionality;
  exclusions = map strip form.exclusions;
  constraints = map strip form.constraints;
  status = received;
  created_at = now;
}

unfoldable pub submit_intake : Request → Uuid → Time → IntakeForm → Action IntakeRequest
unfolding authorize intake_creators get_project new_intake update_intake audit
submit_intake q intake_id now form = do
  let intake = new_intake q intake_id now form
  authorize q intake_creators
  project ← gets (λ s. get_project s q.organization_id form.project_id)
  or_raise project not_found
  update_intake intake
  audit q "intake.submitted" "intake" intake.id (("project_id", uuid form.project_id) ∷ [])
  pure intake
