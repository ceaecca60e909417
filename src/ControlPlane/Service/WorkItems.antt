-- ===== src/ControlPlane/Service/WorkItems.antt =====
-- application/service.py of the control plane: a work item is reviewed, then made ready, which
-- publishes it to the delivery service through the outbox.
use mvp_master.Base.{[], ◌∷◌}
use mvp_master.Exec.{Result, pure, lift, ◌>>=◌, ◌>>◌}
use mvp_master.Contracts.{Uuid, Time, uuid, int}
use mvp_master.ControlPlane.Models.{DomainError, WorkItem}
use mvp_master.ControlPlane.Models.Transitions.{mark_reviewed, Readiness, mark_ready}
use mvp_master.ControlPlane.Permissions.{reviewers, execution_requesters}
use mvp_master.ControlPlane.Store.{
  Action, Event, update_work_item, work_item, work_item_ready, add_outbox,
}
use mvp_master.ControlPlane.Service.{Request, authorize, audit, required_work_item}

-- A method called on the stored work item: what it changes is in the store from then on.
unfoldable pub on_work_item : (WorkItem → Result DomainError WorkItem) → WorkItem → Action WorkItem
unfolding update_work_item
on_work_item method item = do changed ← lift (method item); update_work_item changed; pure changed

unfoldable pub review_work_item : Request → Uuid → Action WorkItem
unfolding authorize reviewers required_work_item on_work_item mark_reviewed update_work_item audit
review_work_item q work_item_id = do
  authorize q reviewers
  found ← required_work_item q.organization_id work_item_id
  item ← on_work_item mark_reviewed found
  update_work_item item
  audit q "work_item.reviewed" "work_item" item.id (("version", int item.version) ∷ [])
  pure item

-- The event `com.mvp.work_item.ready.v1`
abbrev pub ready_event : Request → Uuid → Time → Readiness → WorkItem → Event
ready_event q event_id event_time r item = record {
  id = event_id;
  time = event_time;
  subject = work_item item.id;
  organization_id = q.organization_id;
  aggregate_version = item.version;
  correlation_id = q.correlation_id;
  contents =
      work_item_ready item.id item.project_id r.repository_connection_id r.provider_configuration_id
        r.runner_pool_id r.budget item.title item.description item.acceptance_criteria;
}

unfoldable pub ready_work_item : Request → Uuid → Time → Uuid → Readiness → Action WorkItem
unfolding authorize execution_requesters required_work_item on_work_item mark_ready update_work_item
    add_outbox audit
ready_work_item q event_id event_time work_item_id r = do
  authorize q execution_requesters
  found ← required_work_item q.organization_id work_item_id
  item ← on_work_item (mark_ready r) found
  update_work_item item
  add_outbox (ready_event q event_id event_time r item)
  audit q "work_item.readied" "work_item" item.id
      (("event_id", uuid event_id) ∷ ("version", int item.version) ∷ [])
  pure item
