-- ===== src/Delivery/Models.antt =====
-- domain/models.py and domain/errors.py of the delivery service: enumerations, the budget and the
-- execution. The counters are natural numbers: the HTTP models refuse negative usage and budgets.
use mvp_master.Base.{
  ℕ, String, Bool, true, false, Option, List, [], ◌∷◌, ◌++◌, ltb, nat_beq, if◌then◌else◌, ⊤,
}
use mvp_master.Exec.{Result, ok, err}
use mvp_master.Contracts.{Uuid, Time, Details, ExternalReference}

-- The exceptions that the service raises; messages are kept only where they carry data.
pub data DeliveryError : Type 0 where
  invalid_execution_transition : DeliveryError
  budget_exceeded : List String → DeliveryError
  invalid_enrollment : DeliveryError
  unsupported_provider_configuration : DeliveryError
  value_error : DeliveryError
  lookup_error : DeliveryError
  runtime_error : DeliveryError

pub data AuthenticationMode : Type 0 where
  no_authentication local_session api_key_reference enterprise_configuration : AuthenticationMode

-- `authentication_mode.value`
abbrev pub mode_value : AuthenticationMode → String
mode_value no_authentication = "NONE"
mode_value local_session = "LOCAL_SESSION"
mode_value api_key_reference = "API_KEY_REFERENCE"
mode_value enterprise_configuration = "ENTERPRISE_CONFIGURATION"

pub data ExecutionStatus : Type 0 where
  awaiting_approval queued provisioning planning awaiting_plan_approval : ExecutionStatus
  building verifying repairing delivering : ExecutionStatus
  delivered failed cancelled awaiting_human : ExecutionStatus

-- The place of a member in its enumeration, by which `is` tells members apart.
abbrev status_index : ExecutionStatus → ℕ
status_index awaiting_approval = 0
status_index queued = 1
status_index provisioning = 2
status_index planning = 3
status_index awaiting_plan_approval = 4
status_index building = 5
status_index verifying = 6
status_index repairing = 7
status_index delivering = 8
status_index delivered = 9
status_index failed = 10
status_index cancelled = 11
status_index awaiting_human = 12

infix 50 ◌is◌
abbrev pub ◌is◌ : ExecutionStatus → ExecutionStatus → Bool
s is t = nat_beq (status_index s) (status_index t)

pub data ApprovalStatus : Type 0 where
  pending approved rejected : ApprovalStatus

pub data RunnerStatus : Type 0 where
  online offline draining revoked : RunnerStatus

pub data ExecutionEventKind : Type 0 where
  decision plan tool command result error approval cost state : ExecutionEventKind

pub record ExecutionBudget : Type 0 where
  pub max_duration_seconds : ℕ
  pub max_attempts : ℕ
  pub max_turns : ℕ
  pub max_cost_minor : ℕ
  pub currency : String

-- What an execution has used.
pub record Usage : Type 0 where
  pub duration_seconds : ℕ
  pub attempts : ℕ
  pub turns : ℕ
  pub cost_minor : ℕ

abbrev over : String → ℕ → ℕ → List String
over name used limit = if ltb limit used then name ∷ [] else []

-- `exceeded` in `ExecutionBudget.ensure_within`
unfoldable pub exceeded : ExecutionBudget → Usage → List String
exceeded b u =
    over "duration" u.duration_seconds b.max_duration_seconds
    ++ over "attempts" u.attempts b.max_attempts
    ++ over "turns" u.turns b.max_turns
    ++ over "cost" u.cost_minor b.max_cost_minor

abbrev raise_exceeded : List String → Result DeliveryError ⊤
raise_exceeded [] = ok tt
raise_exceeded (x ∷ xs) = err (budget_exceeded (x ∷ xs))

unfoldable pub ensure_within : ExecutionBudget → Usage → Result DeliveryError ⊤
unfolding exceeded
ensure_within b u = raise_exceeded (exceeded b u)

pub record ExecutionEvent : Type 0 where
  pub id : Uuid
  pub execution_id : Uuid
  pub organization_id : Uuid
  pub sequence : ℕ
  pub kind : ExecutionEventKind
  pub name : String
  pub message : String
  pub occurred_at : Time
  pub metadata : Details

pub record Execution : Type 0 where
  pub id : Uuid
  pub organization_id : Uuid
  pub project_id : Uuid
  pub work_item_id : Uuid
  pub title : String
  pub description : String
  pub acceptance_criteria : List String
  pub repository_connection_id : Uuid
  pub provider_configuration_id : Uuid
  pub runner_pool_id : Uuid
  pub budget : ExecutionBudget
  pub approval_status : ApprovalStatus
  pub status : ExecutionStatus
  pub attempt_count : ℕ
  pub turn_count : ℕ
  pub duration_seconds : ℕ
  pub cost_minor : ℕ
  pub version : ℕ
  pub cancellation_requested : Bool
  pub result_reference : Option ExternalReference

pub record Runner : Type 0 where
  pub id : Uuid
  pub organization_id : Uuid
  pub pool_id : Uuid
  pub name : String
  pub capabilities : List String
  pub credential_hash : String
  pub status : RunnerStatus
  pub last_seen_at : Time

abbrev wake : RunnerStatus → RunnerStatus
wake offline = online
wake other = other

abbrev is_revoked : RunnerStatus → Bool
is_revoked revoked = true
is_revoked _ = false

-- `Runner.heartbeat` at the time `now`
unfoldable pub heartbeat : Time → List String → Runner → Result DeliveryError Runner
heartbeat now capabilities r =
    if is_revoked r.status
    then err invalid_execution_transition
    else ok (record r { capabilities = capabilities; last_seen_at = now; status = wake r.status })
