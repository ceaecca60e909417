-- ===== src/Delivery/Rows/RoundTrip.antt =====
-- The rows of executions (adapters/postgres.py of the delivery service), written, updated and read
-- back.
use mvp_master.Base.{ap, ◌∙◌, ◌≡◌, refl, ◌≢◌, Option, none, some, [], ◌∷◌, string_eq}
use mvp_master.Exec.{ok}
use mvp_master.Dict.{get}
use mvp_master.Contracts.{ExternalReference}
use mvp_master.Delivery.Models.{
  ExecutionStatus, ApprovalStatus, Execution, awaiting_approval, queued, provisioning, planning,
  awaiting_plan_approval, building, verifying, repairing, delivering, delivered, failed, cancelled,
  awaiting_human, pending, approved, rejected,
}
use mvp_master.Delivery.Rows.{
  ReferenceColumn, status_value, approval_value, execution_status, approval_status, Conversions,
  budget_column, reference_column, execution_row, updated_row, read_budget, read_reference,
  execution,
}

execution_status-value : (s : ExecutionStatus) → execution_status (status_value s) ≡ ok s
unfolding execution_status
execution_status-value awaiting_approval = refl
execution_status-value queued = refl
execution_status-value provisioning = refl
execution_status-value planning = refl
execution_status-value awaiting_plan_approval = refl
execution_status-value building = refl
execution_status-value verifying = refl
execution_status-value repairing = refl
execution_status-value delivering = refl
execution_status-value delivered = refl
execution_status-value failed = refl
execution_status-value cancelled = refl
execution_status-value awaiting_human = refl

approval_status-value : (s : ApprovalStatus) → approval_status (approval_value s) ≡ ok s
unfolding approval_status
approval_status-value pending = refl
approval_status-value approved = refl
approval_status-value rejected = refl

-- The fields that no update writes are the same.
pub record SameTask (e e' : Execution) : Type 0 where
  pub id : e.id ≡ e'.id
  pub organization_id : e.organization_id ≡ e'.organization_id
  pub project_id : e.project_id ≡ e'.project_id
  pub work_item_id : e.work_item_id ≡ e'.work_item_id
  pub title : e.title ≡ e'.title
  pub description : e.description ≡ e'.description
  pub acceptance_criteria : e.acceptance_criteria ≡ e'.acceptance_criteria
  pub repository_connection_id : e.repository_connection_id ≡ e'.repository_connection_id
  pub provider_configuration_id : e.provider_configuration_id ≡ e'.provider_configuration_id
  pub runner_pool_id : e.runner_pool_id ≡ e'.runner_pool_id
  pub budget : e.budget ≡ e'.budget

-- Updating makes the row that the later state is written as.
updated_row_lem :
    (c : Conversions) (e e' : Execution)
    → SameTask e e'
    → updated_row c e' (execution_row c e) ≡ execution_row c e'
unfolding execution_row updated_row
updated_row_lem c e e' same = λ i. record {
  id = same.id i;
  organization_id = same.organization_id i;
  project_id = same.project_id i;
  work_item_id = same.work_item_id i;
  title = same.title i;
  description = same.description i;
  acceptance_criteria = same.acceptance_criteria i;
  repository_connection_id = same.repository_connection_id i;
  provider_configuration_id = same.provider_configuration_id i;
  runner_pool_id = same.runner_pool_id i;
  budget = budget_column (same.budget i);
  approval_status = approval_value e'.approval_status;
  status = status_value e'.status;
  attempt_count = e'.attempt_count;
  turn_count = e'.turn_count;
  duration_seconds = e'.duration_seconds;
  cost_minor = e'.cost_minor;
  version = e'.version;
  cancellation_requested = e'.cancellation_requested;
  result_reference = reference_column c e'.result_reference;
}

-- What pydantic documents: the constructor takes a model's own dict back to the model, and a model
-- with fields has a dict that is not empty.
pub record IsFaithful (c : Conversions) : Type 0 where
  pub rebuilt : (r : ExternalReference) → c.external_reference (c.model_dump r) ≡ ok r
  pub filled : (r : ExternalReference) → c.model_dump r ≢ []

filled_lem :
    (c : Conversions) (column : ReferenceColumn) (r : ExternalReference)
    → column ≢ []
    → c.external_reference column ≡ ok r
    → read_reference c (some column) ≡ ok (some r)
filled_lem c [] r full p = absurd (full refl)
filled_lem c (k ∷ column) r full p = rw p refl

read_reference-column :
    (c : Conversions) (r : Option ExternalReference)
    → IsFaithful c
    → read_reference c (reference_column c r) ≡ ok r
read_reference-column c none h = refl
read_reference-column c (some r) h = filled_lem c (c.model_dump r) r (h.filled r) (h.rebuilt r)

read_back :
    (c : Conversions) (e : Execution) → IsFaithful c → execution c (execution_row c e) ≡ ok e
unfolding execution execution_row read_budget get
read_back c e h =
    rw
      (
        approval_status-value e.approval_status,
        execution_status-value e.status,
        read_reference-column c e.result_reference h,
      )
      refl

-- Where pydantic's constructor takes a reference's own dict back to the reference, and that dict is
-- not empty: a row that was written for an execution is read back as it, its budget from the dict of
-- the five keys; and after it was updated with a later state of the same task it is read back as
-- that state.
pub execution-updated_row :
    (c : Conversions) (e e' : Execution)
    → IsFaithful c
    → SameTask e e'
    → (execution c (execution_row c e) ≡ ok e)
      × (execution c (updated_row c e' (execution_row c e)) ≡ ok e')
execution-updated_row c e e' h same =
    (read_back c e h, ap (execution c) (updated_row_lem c e e' same) ∙ read_back c e' h)
