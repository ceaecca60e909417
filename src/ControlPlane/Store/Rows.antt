-- ===== src/ControlPlane/Store/Rows.antt =====
-- The `list_` methods of adapters/memory.py of the control plane, and the rows of `dashboard`.
use mvp_master.Base.{List, ◌==◌, nat_eq, string_eq, select}
use mvp_master.Dict.{values}
use mvp_master.Contracts.{Uuid}
use mvp_master.ControlPlane.Models.{Project, IntakeRequest, Specification, WorkItem}
use mvp_master.ControlPlane.Store.{Store, Audit}

unfoldable pub list_projects : Store → Uuid → List Project
unfolding select
list_projects s o = select (λ p. p.organization_id == o) (values s.projects)

unfoldable pub list_intakes : Store → Uuid → List IntakeRequest
unfolding select
list_intakes s o = select (λ i. i.organization_id == o) (values s.intakes)

unfoldable pub list_specifications : Store → Uuid → List Specification
unfolding select
list_specifications s o = select (λ p. p.organization_id == o) (values s.specifications)

unfoldable pub list_work_items : Store → Uuid → List WorkItem
unfolding select
list_work_items s o = select (λ w. w.organization_id == o) (values s.work_items)

unfoldable pub list_audits : Store → Uuid → List Audit
unfolding select
list_audits s o = select (λ a. a.organization_id == o) s.audits
