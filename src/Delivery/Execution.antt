-- ===== src/Delivery/Execution.antt =====
-- The methods of `Execution` (domain/models.py). Each raises before its first assignment or not
-- at all, so it is a function to a result.
pub mod Operations
pub mod Budget
pub mod Lifecycle
use mvp_master.Base.{◌+◌, true, some, leb, not, ◌||◌, if◌then◌else◌}
use mvp_master.Exec.{Result, ok, err}
use mvp_master.Contracts.{ExternalReference}
use mvp_master.Delivery.Models.{
  DeliveryError, invalid_execution_transition, ExecutionStatus, awaiting_approval, queued,
  provisioning, planning, building, verifying, repairing, delivering, delivered, failed, cancelled,
  awaiting_human, ◌is◌, approved, Usage, ensure_within, Execution,
}

abbrev pub Method : Type 0
Method = Execution → Result DeliveryError Execution

-- `self.status = status; self.version += 1`
abbrev move_to : ExecutionStatus → Execution → Execution
move_to status e = record e { status = status; version = e.version + 1 }

-- `Execution._transition`
unfoldable pub transition : ExecutionStatus → ExecutionStatus → Method
transition expected target e =
    if not (e.status is expected) then err invalid_execution_transition else ok (move_to target e)

unfoldable pub approve : Method
approve e =
    if not (e.status is awaiting_approval)
    then err invalid_execution_transition
    else ok (move_to queued (record e { approval_status = approved }))

unfoldable pub start_provisioning : Method
unfolding transition
start_provisioning = transition queued provisioning

unfoldable pub start_planning : Method
unfolding transition
start_planning = transition provisioning planning

unfoldable pub start_building : Method
start_building e =
    if not (e.status is planning || e.status is repairing)
    then err invalid_execution_transition
    else ok (move_to building e)

unfoldable pub start_verification : Method
unfolding transition
start_verification = transition building verifying

unfoldable pub request_repair : Method
request_repair e =
    if not (e.status is verifying)
    then err invalid_execution_transition
    else if leb e.budget.max_attempts e.attempt_count
    then ok (move_to awaiting_human e)
    else ok (move_to repairing e)

unfoldable pub start_delivery : Method
unfolding transition
start_delivery = transition verifying delivering

unfoldable pub deliver : ExternalReference → Method
deliver reference e =
    if not (e.status is delivering)
    then err invalid_execution_transition
    else ok (move_to delivered (record e { result_reference = some reference }))

-- What the execution has used, and what it would have used with `u` more.
abbrev pub used : Execution → Usage
used e = record {
  duration_seconds = e.duration_seconds;
  attempts = e.attempt_count;
  turns = e.turn_count;
  cost_minor = e.cost_minor;
}

abbrev pub add_usage : Usage → Usage → Usage
add_usage a u = record {
  duration_seconds = a.duration_seconds + u.duration_seconds;
  attempts = a.attempts + u.attempts;
  turns = a.turns + u.turns;
  cost_minor = a.cost_minor + u.cost_minor;
}

abbrev record_next : Usage → Execution → Execution
record_next next e = record e {
  attempt_count = next.attempts;
  turn_count = next.turns;
  duration_seconds = next.duration_seconds;
  cost_minor = next.cost_minor;
  version = e.version + 1;
}

unfoldable pub record_usage : Usage → Method
unfolding ensure_within
record_usage u e =
    let next = add_usage (used e) u in
    elim (ensure_within e.budget next) [ ok _ ↦ ok (record_next next e) | err x ↦ err x ]

unfoldable pub request_cancellation : Method
request_cancellation e =
    if e.status is delivered || e.status is failed || e.status is cancelled
    then err invalid_execution_transition
    else ok (record e { cancellation_requested = true; version = e.version + 1 })

unfoldable pub cancel : Method
cancel e =
    if not e.cancellation_requested
    then err invalid_execution_transition
    else ok (move_to cancelled e)

unfoldable pub fail : Method
fail e =
    if e.status is delivered || e.status is cancelled
    then err invalid_execution_transition
    else ok (move_to failed e)
