-- ===== src/Delivery/Dispatcher.antt =====
-- The workflow commands of the delivery service: the table `workflow_commands`, PostgresWorkflowGateway
-- of adapters/postgres.py, which adds to it, and entrypoints/workflow_dispatcher.py, which sends the
-- commands to Temporal. Temporal's client is an interface over a state of its own.
pub mod Batches
use mvp_master.Base.{
  ℕ, zero, suc, ◌+◌, String, Bool, true, false, Option, none, some, List, [], ◌∷◌, ◌++◌, ◌==◌,
  string_eq, length, if◌then◌else◌, ⊤,
}
use mvp_master.Exec.{Exec, Result, ok, err, pure, modify, ◌>>=◌, ◌>>◌}
use mvp_master.Contracts.{Uuid, Time}

pub record WorkflowCommandRow : Type 0 where
  pub id : ℕ
  pub organization_id : Uuid
  pub execution_id : Uuid
  pub command : String
  pub actor_subject : Option String
  pub dispatched_at : Option Time

-- The rows stand in the order of their ids, which count up.
abbrev pub Commands : Type 0
Commands = List WorkflowCommandRow

abbrev pub new_command : Commands → Uuid → Uuid → String → Option String → WorkflowCommandRow
new_command rows organization_id execution_id command actor = record {
  id = length rows + 1;
  organization_id = organization_id;
  execution_id = execution_id;
  command = command;
  actor_subject = actor;
  dispatched_at = none;
}

-- `start`
unfoldable pub start : Uuid → Uuid → Commands → Commands
start organization_id execution_id rows =
    rows ++ new_command rows organization_id execution_id "START" none ∷ []

-- `approve` and `cancel`, which differ in the command; `owner` is the organization of the execution's row,
-- and without one there is a `LookupError`.
unfoldable pub signalled : String → Option Uuid → Uuid → String → Commands → Option Commands
signalled command none execution_id actor rows = none
signalled command (some o) execution_id actor rows =
    some (rows ++ new_command rows o execution_id command (some actor) ∷ [])

-- What Temporal's client raises
pub data TemporalError : Type 0 where
  workflow_already_started : TemporalError
  rpc_error : String → TemporalError

pub record Client (T : Type 0) : Type 0 where
  pub start_workflow : (execution_id organization_id : Uuid) → Exec TemporalError T ⊤
  pub signal_approve : (execution_id : Uuid) (actor : String) → Exec TemporalError T ⊤
  pub signal_cancel : (execution_id : Uuid) (actor : String) → Exec TemporalError T ⊤

-- `with suppress(WorkflowAlreadyStartedError)`
abbrev pub suppress_started : {T : Type 0} → Exec TemporalError T ⊤ → Exec TemporalError T ⊤
suppress_started call t =
    let (r, t') = call t in
    elim r [
      | ok _ ↦ (ok tt, t')
      | err workflow_already_started ↦ (ok tt, t')
      | err (rpc_error m) ↦ (err (rpc_error m), t')
    ]

-- `command.actor_subject or "unknown"`
abbrev pub actor_or_unknown : Option String → String
actor_or_unknown none = "unknown"
actor_or_unknown (some actor) = if actor == "" then "unknown" else actor

module _ {T : Type 0} (client : Client T) where
  -- The calls for one command
  unfoldable pub send : WorkflowCommandRow → Exec TemporalError T ⊤
  send row =
      if row.command == "START"
      then suppress_started (client.start_workflow row.execution_id row.organization_id)
      else if row.command == "APPROVE"
      then client.signal_approve row.execution_id (actor_or_unknown row.actor_subject)
      else if row.command == "CANCEL"
      then client.signal_cancel row.execution_id (actor_or_unknown row.actor_subject)
      else pure tt

  abbrev pub mark : Time → WorkflowCommandRow → WorkflowCommandRow
  mark now row = record row { dispatched_at = some now }

  abbrev pub cons :
      WorkflowCommandRow → Exec TemporalError T Commands → Exec TemporalError T Commands
  cons row rest = rest >>= λ rows. pure (row ∷ rows)

  abbrev pub step :
      Option Time
      → (ℕ → Time)
      → WorkflowCommandRow
      → Exec TemporalError T Commands
      → Exec TemporalError T Commands
      → Exec TemporalError T Commands
  step none times row taken passed = send row >>= λ _. cons (mark (times row.id) row) taken
  step (some at) times row taken passed = cons row passed

  -- The loop over the first `room` rows that are not dispatched, and the rows after it
  unfoldable pub dispatch_each : (ℕ → Time) → ℕ → Commands → Exec TemporalError T Commands
  unfolding send
  dispatch_each times zero rows = pure rows
  dispatch_each times (suc room) [] = pure []
  dispatch_each times (suc room) (row ∷ rows) =
      step row.dispatched_at times row (dispatch_each times room rows)
        (dispatch_each times (suc room) rows)

  abbrev pub committed :
      Commands → Result TemporalError Commands × T → Result TemporalError ⊤ × (Commands × T)
  committed before (ok rows, t) = (ok tt, (rows, t))
  committed before (err e, t) = (err e, (before, t))

  -- One turn of the loop of `main`: a session that is committed at its end, or dropped where a call
  -- raises, which ends the process. Its restart goes on with the same table.
  unfoldable pub dispatch : (ℕ → Time) → Exec TemporalError (Commands × T) ⊤
  unfolding dispatch_each
  dispatch times (rows, t) = committed rows (dispatch_each times 50 rows t)

  -- So many turns, through restarts
  unfoldable pub turns : (ℕ → Time) → ℕ → Commands × T → Commands × T
  unfolding dispatch
  turns times zero w = w
  turns times (suc n) w = turns times n (dispatch times w).1
