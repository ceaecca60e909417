-- ===== src/ControlPlane/Witnesses.antt =====
-- The theorems about the control plane at a concrete history: an organization is created, a project,
-- an intake, and its specification, which is approved; the work item is reviewed and made ready.
mod Outboxes
use mvp_master.Base.{◌≡◌, refl, none, [], ◌∷◌, arith, nat_eq, pair_eq, string_eq, some}
use mvp_master.Exec.{err}
use mvp_master.Dict.{get, put}
use mvp_master.ControlPlane.Models.{
  IntakeRequest, Specification, WorkItem, permission_denied, invalid_transition, draft, in_review,
  ready,
}
use mvp_master.ControlPlane.Models.Transitions.{Readiness}
use mvp_master.ControlPlane.Store.{Store, empty}
use mvp_master.ControlPlane.Service
use mvp_master.ControlPlane.Service.{Request, IntakeForm, new_intake}
use mvp_master.ControlPlane.Service.Specifications
use mvp_master.ControlPlane.Service.WorkItems
use mvp_master.ControlPlane.Service.Calls.{Call, serve, Served, here, next}
use mvp_master.ControlPlane.Coherence.{IsCoherent}
use mvp_master.ControlPlane.Histories.{Served-IsCoherent, Served-error_unchanged}
use mvp_master.ControlPlane.Publication.{publications}
use mvp_master.ControlPlane.Publication.Effects.{ready_published_once}
use mvp_master.ControlPlane.Approvals.{IsApproved}
use mvp_master.ControlPlane.Approvals.Effects.{work_item-IsApproved}
use mvp_master.ControlPlane.Authorization.{Refuses, denied, foreign_raises}

abbrev ann : Request
ann = record { actor_subject = "ann"; organization_id = 1; correlation_id = 100 }

abbrev eve : Request
eve = record { actor_subject = "eve"; organization_id = 2; correlation_id = 101 }

abbrev form : IntakeForm
form = record {
  project_id = 5;
  client_id = none;
  problem = " p ";
  intended_users = "u";
  required_functionality = "f" ∷ [];
  exclusions = [];
  constraints = [];
}

abbrev readiness : Readiness
readiness = record {
  repository_connection_id = 20;
  provider_configuration_id = 21;
  runner_pool_id = 22;
  budget = record {
    max_duration_seconds = 60;
    max_attempts = 2;
    max_turns = 5;
    max_cost_minor = 100;
    currency = "USD";
  };
}

abbrev organized : Store
organized = (serve ann (Call.create_organization 90 0 0 "Org") empty).1

abbrev planned : Store
planned = (serve ann (Call.create_project 5 1 "P" "d") organized).1

abbrev asked : Store
asked = (serve ann (Call.submit_intake 6 2 form) planned).1

abbrev drafted : Store
drafted = (serve ann (Call.draft_specification 7 8 3 6 "T") asked).1

abbrev submitted : Store
submitted = (serve ann (Call.submit_specification 7) drafted).1

abbrev approved : Store
approved = (serve ann (Call.approve_specification 9 10 4 7 none) submitted).1

abbrev reviewed : Store
reviewed = (serve ann (Call.review_work_item 10) approved).1

abbrev readied : Store
readied = (serve ann (Call.ready_work_item 11 5 10 readiness) reviewed).1

asked-Served : Served asked
unfolding serve get put Service.create_organization Service.create_project
asked-Served =
    next
      (next (next here ann (Call.create_organization 90 0 0 "Org") tt) ann
        (Call.create_project 5 1 "P" "d") tt)
      ann (Call.submit_intake 6 2 form) refl

drafted-Served : Served drafted
unfolding serve get put Service.create_organization Service.create_project Service.submit_intake
drafted-Served = next asked-Served ann (Call.draft_specification 7 8 3 6 "T") (refl, refl)

readied-Served : Served readied
unfolding serve get put Service.create_organization Service.create_project Service.submit_intake
    Specifications.draft_specification Specifications.submit_specification
readied-Served =
    next
      (next
        (next (next drafted-Served ann (Call.submit_specification 7) tt) ann
          (Call.approve_specification 9 10 4 7 none) (refl, refl))
        ann (Call.review_work_item 10) tt)
      ann (Call.ready_work_item 11 5 10 readiness) tt

Served-IsCoherent_example : IsCoherent readied
Served-IsCoherent_example = Served-IsCoherent readied-Served

Served-error_unchanged_example :
    (serve ann (Call.approve_specification 12 13 9 7 none) drafted).1 ≡ drafted
unfolding serve get put Service.create_organization Service.create_project Service.submit_intake
    Specifications.draft_specification Specifications.approve_specification
Served-error_unchanged_example =
    Served-error_unchanged ann (Call.approve_specification 12 13 9 7 none) invalid_transition
      drafted-Served refl

ready_published_once_example : publications 10 readied.outbox ≡ 1
unfolding serve get put Service.create_organization Service.create_project Service.submit_intake
    Specifications.draft_specification Specifications.submit_specification
    Specifications.approve_specification WorkItems.review_work_item WorkItems.ready_work_item
ready_published_once_example = ready_published_once 10 readied-Served

denied_example :
    serve eve (Call.create_project 15 1 "Q" "d") organized ≡ (err permission_denied, organized)
unfolding serve get put Service.create_organization
denied_example = denied eve (Call.create_project 15 1 "Q" "d") organized refl

abbrev intake : IntakeRequest
intake = new_intake ann 6 2 form

abbrev specification : Specification
specification = record {
  id = 7;
  organization_id = 1;
  project_id = 5;
  intake_id = 6;
  current_version_id = 8;
  current_version = 1;
  status = draft;
}

abbrev work_item : WorkItem
work_item = record {
  id = 10;
  organization_id = 1;
  project_id = 5;
  specification_version_id = 8;
  title = "T";
  description = "p";
  acceptance_criteria = [];
  status = in_review;
  repository_connection_id = none;
  provider_configuration_id = none;
  runner_pool_id = none;
  budget = none;
  version = 1;
}

abbrev filled : Store
filled = record empty {
  intakes = (6, intake) ∷ [];
  specifications = (7, specification) ∷ [];
  work_items = (10, work_item) ∷ [];
}

foreign_raises_example :
    Refuses eve filled (Call.draft_specification 30 31 6 6 "T")
    × Refuses eve filled (Call.submit_specification 7)
    × Refuses eve filled (Call.approve_specification 30 31 6 7 none)
    × Refuses eve filled (Call.review_work_item 10)
    × Refuses eve filled (Call.ready_work_item 30 6 10 readiness)
unfolding get new_intake
foreign_raises_example =
    foreign_raises eve filled intake specification work_item 6 7 10 30 31 6 "T" none readiness refl
      refl refl (λ p. omega arith) (λ p. omega arith) (λ p. omega arith)

abbrev ready_item : WorkItem
ready_item = record work_item {
  acceptance_criteria = "f" ∷ [];
  repository_connection_id = some readiness.repository_connection_id;
  provider_configuration_id = some readiness.provider_configuration_id;
  runner_pool_id = some readiness.runner_pool_id;
  budget = some readiness.budget;
  status = ready;
  version = 3;
}

work_item-IsApproved_example : IsApproved readied ready_item
unfolding serve get put Service.create_organization Service.create_project Service.submit_intake
    Specifications.draft_specification Specifications.submit_specification
    Specifications.approve_specification WorkItems.review_work_item WorkItems.ready_work_item
work_item-IsApproved_example = work_item-IsApproved 10 ready_item readied-Served refl
