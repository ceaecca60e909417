-- ===== src/Delivery/Rows.antt =====
-- The rows of the table `executions` (adapters/postgres.py of the delivery service): how an execution
-- is written, updated and read back. Its two JSON columns are dicts; what turns a text into a number
-- and back, and pydantic's model_dump and constructor of a reference, are parameters.
pub mod RoundTrip
use mvp_master.Base.{
  ap, ◌∙◌, ℕ, String, ◌≡◌, refl, ◌≢◌, Bool, Option, none, some, List, [], ◌∷◌, ◌==◌, string_eq,
  if◌then◌else◌,
}
use mvp_master.Exec.{Result, ok, err}
use mvp_master.Dict.{Dict, get}
use mvp_master.Contracts.{Uuid, ExternalReference}
use mvp_master.Delivery.Models.{
  DeliveryError, value_error, lookup_error, ExecutionStatus, ApprovalStatus, ExecutionBudget,
  Execution, awaiting_approval, queued, provisioning, planning, awaiting_plan_approval, building,
  verifying, repairing, delivering, delivered, failed, cancelled, awaiting_human, pending, approved,
  rejected,
}

-- `int | str`
pub data Scalar : Type 0 where
  number : ℕ → Scalar
  string : String → Scalar

-- `dict[str, int | str]` and `dict[str, str | None]`
abbrev pub BudgetColumn : Type 0
BudgetColumn = Dict String Scalar

abbrev pub ReferenceColumn : Type 0
ReferenceColumn = Dict String (Option String)

pub record ExecutionRow : Type 0 where
  pub id : Uuid
  pub organization_id : Uuid
  pub project_id : Uuid
  pub work_item_id : Uuid
  pub title : String
  pub description : String
  pub acceptance_criteria : List String
  pub repository_connection_id : Uuid
  pub provider_configuration_id : Uuid
  pub runner_pool_id : Uuid
  pub budget : BudgetColumn
  pub approval_status : String
  pub status : String
  pub attempt_count : ℕ
  pub turn_count : ℕ
  pub duration_seconds : ℕ
  pub cost_minor : ℕ
  pub version : ℕ
  pub cancellation_requested : Bool
  pub result_reference : Option ReferenceColumn

-- `status.value`
abbrev pub status_value : ExecutionStatus → String
status_value awaiting_approval = "AWAITING_APPROVAL"
status_value queued = "QUEUED"
status_value provisioning = "PROVISIONING"
status_value planning = "PLANNING"
status_value awaiting_plan_approval = "AWAITING_PLAN_APPROVAL"
status_value building = "BUILDING"
status_value verifying = "VERIFYING"
status_value repairing = "REPAIRING"
status_value delivering = "DELIVERING"
status_value delivered = "DELIVERED"
status_value failed = "FAILED"
status_value cancelled = "CANCELLED"
status_value awaiting_human = "AWAITING_HUMAN"

-- `approval_status.value`
abbrev pub approval_value : ApprovalStatus → String
approval_value pending = "PENDING"
approval_value approved = "APPROVED"
approval_value rejected = "REJECTED"

-- `Enumeration(text)`: the member with the value, or `ValueError`
abbrev member {ℓ} : {A : Type ℓ} → (A → String) → List A → String → Result DeliveryError A
member value [] text = err value_error
member value (a ∷ l) text = if value a == text then ok a else member value l text

-- `ExecutionStatus(text)`
unfoldable pub execution_status : String → Result DeliveryError ExecutionStatus
execution_status = member status_value (
    awaiting_approval ∷ queued ∷ provisioning ∷ planning ∷ awaiting_plan_approval ∷ building
    ∷ verifying ∷ repairing ∷ delivering ∷ delivered ∷ failed ∷ cancelled ∷ awaiting_human ∷ [])

-- `ApprovalStatus(text)`
unfoldable pub approval_status : String → Result DeliveryError ApprovalStatus
approval_status = member approval_value (pending ∷ approved ∷ rejected ∷ [])

-- The dict that `_execution_row` makes of the budget
abbrev pub budget_column : ExecutionBudget → BudgetColumn
budget_column b =
    ("max_duration_seconds", number b.max_duration_seconds)
    ∷ ("max_attempts", number b.max_attempts)
    ∷ ("max_turns", number b.max_turns)
    ∷ ("max_cost_minor", number b.max_cost_minor)
    ∷ ("currency", string b.currency)
    ∷ []

-- `int(text)` and `str(number)`; `reference.model_dump()` and `ExternalReference(**column)`
pub record Conversions : Type 0 where
  pub int_of : String → Result DeliveryError ℕ
  pub str_of : ℕ → String
  pub model_dump : ExternalReference → ReferenceColumn
  pub external_reference : ReferenceColumn → Result DeliveryError ExternalReference

-- `reference.model_dump() if reference else None`
abbrev pub reference_column : Conversions → Option ExternalReference → Option ReferenceColumn
reference_column c none = none
reference_column c (some reference) = some (c.model_dump reference)

-- `_execution_row`
unfoldable pub execution_row : Conversions → Execution → ExecutionRow
execution_row c e = record {
  id = e.id;
  organization_id = e.organization_id;
  project_id = e.project_id;
  work_item_id = e.work_item_id;
  title = e.title;
  description = e.description;
  acceptance_criteria = e.acceptance_criteria;
  repository_connection_id = e.repository_connection_id;
  provider_configuration_id = e.provider_configuration_id;
  runner_pool_id = e.runner_pool_id;
  budget = budget_column e.budget;
  approval_status = approval_value e.approval_status;
  status = status_value e.status;
  attempt_count = e.attempt_count;
  turn_count = e.turn_count;
  duration_seconds = e.duration_seconds;
  cost_minor = e.cost_minor;
  version = e.version;
  cancellation_requested = e.cancellation_requested;
  result_reference = reference_column c e.result_reference;
}

-- The loop over the attributes in `update_execution`
unfoldable pub updated_row : Conversions → Execution → ExecutionRow → ExecutionRow
unfolding execution_row
updated_row c e row =
    let replacement = execution_row c e in
    record row {
      approval_status = replacement.approval_status;
      status = replacement.status;
      attempt_count = replacement.attempt_count;
      turn_count = replacement.turn_count;
      duration_seconds = replacement.duration_seconds;
      cost_minor = replacement.cost_minor;
      version = replacement.version;
      cancellation_requested = replacement.cancellation_requested;
      result_reference = replacement.result_reference;
    }

abbrev pub and_then :
    {A B : Type 0} → Result DeliveryError A → (A → Result DeliveryError B) → Result DeliveryError B
and_then (ok a) f = f a
and_then (err x) f = err x

-- `budget[key]`, and a `KeyError` where it is missing, which is a `LookupError`
abbrev item_or : Option Scalar → Result DeliveryError Scalar
item_or none = err lookup_error
item_or (some v) = ok v

-- `int(v)` and `str(v)`
abbrev int_from : Conversions → Scalar → Result DeliveryError ℕ
int_from c (number n) = ok n
int_from c (string text) = c.int_of text

abbrev str_from : Conversions → Scalar → String
str_from c (number n) = c.str_of n
str_from c (string text) = text

abbrev int_at : Conversions → BudgetColumn → String → Result DeliveryError ℕ
int_at c column key = and_then (item_or (get column key)) (int_from c)

-- `ExecutionBudget(...)` of `_execution`
unfoldable pub read_budget : Conversions → BudgetColumn → Result DeliveryError ExecutionBudget
unfolding get
read_budget c column = and_then (int_at c column "max_duration_seconds") (λ duration.
    and_then (int_at c column "max_attempts") (λ attempts.
      and_then (int_at c column "max_turns") (λ turns.
        and_then (int_at c column "max_cost_minor") (λ cost.
          and_then (item_or (get column "currency")) (λ currency. ok (record {
            max_duration_seconds = duration;
            max_attempts = attempts;
            max_turns = turns;
            max_cost_minor = cost;
            currency = str_from c currency;
          }))))))

-- `ExternalReference(**column) if column else None`; an empty dict is false.
abbrev pub read_reference :
    Conversions → Option ReferenceColumn → Result DeliveryError (Option ExternalReference)
read_reference c none = ok none
read_reference c (some []) = ok none
read_reference c (some (k ∷ column)) =
    and_then (c.external_reference (k ∷ column)) (λ reference. ok (some reference))

-- `_execution`
unfoldable pub execution : Conversions → ExecutionRow → Result DeliveryError Execution
unfolding approval_status execution_status read_budget
execution c row = and_then (read_budget c row.budget) (λ budget.
    and_then (approval_status row.approval_status) (λ approval.
      and_then (execution_status row.status) (λ status.
        and_then (read_reference c row.result_reference) (λ reference. ok (record {
          id = row.id;
          organization_id = row.organization_id;
          project_id = row.project_id;
          work_item_id = row.work_item_id;
          title = row.title;
          description = row.description;
          acceptance_criteria = row.acceptance_criteria;
          repository_connection_id = row.repository_connection_id;
          provider_configuration_id = row.provider_configuration_id;
          runner_pool_id = row.runner_pool_id;
          budget = budget;
          approval_status = approval;
          status = status;
          attempt_count = row.attempt_count;
          turn_count = row.turn_count;
          duration_seconds = row.duration_seconds;
          cost_minor = row.cost_minor;
          version = row.version;
          cancellation_requested = row.cancellation_requested;
          result_reference = reference;
        })))))
