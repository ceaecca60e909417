-- ===== src/Delivery/Database.antt =====
-- The rest of adapters/postgres.py that the activities use: executions, events and new jobs. Each
-- method sets the current organization first, so row level security hides all other rows.
use Prim.Native.Nat.{bit_xor, max}
use mvp_master.Base.{
  ℕ, ◌+◌, ◌&&◌, Option, none, some, List, [], ◌∷◌, ◌++◌, ◌==◌, nat_eq, if◌then◌else◌, ⊤,
}
use mvp_master.Exec.{Exec, ok, err, pure, modify, ◌>>◌}
use mvp_master.Dict.{Dict, get, put}
use mvp_master.Contracts.{Uuid}
use mvp_master.Delivery.Models.{DeliveryError, Execution, ExecutionEvent}
use mvp_master.Delivery.Configuration.{AgentProviderConfiguration}
use mvp_master.Delivery.Jobs.{Jobs, JobPayload, RunnerJob, queued, job_for_execution}

pub record Database : Type 0 where
  pub configurations : Dict Uuid AgentProviderConfiguration
  pub executions : Dict Uuid Execution
  pub events : List ExecutionEvent
  pub jobs : Jobs

abbrev pub Session : Type 0 → Type 0
Session A = Exec DeliveryError Database A

-- `async with self._sessions() as session`, left by `commit` or by an exception, which drops what
-- the session has written.
abbrev pub transaction : {A : Type 0} → Session A → Session A
transaction m db = let (r, db') = m db in elim r [ ok a ↦ (ok a, db') | err x ↦ (err x, db) ]

abbrev pub if_own {ℓ} : {A : Type ℓ} → (A → Uuid) → Uuid → Option A → Option A
if_own owner organization_id none = none
if_own owner organization_id (some a) = if owner a == organization_id then some a else none

unfoldable pub get_configuration : Database → Uuid → Uuid → Option AgentProviderConfiguration
get_configuration db organization_id k =
    if_own (λ c. c.organization_id) organization_id (get db.configurations k)

unfoldable pub get_execution : Database → Uuid → Uuid → Option Execution
get_execution db organization_id k =
    if_own (λ e. e.organization_id) organization_id (get db.executions k)

-- The attributes that `update_execution` writes to the row; the others keep their values.
abbrev pub write_row : Execution → Execution → Execution
write_row e row = record row {
  approval_status = e.approval_status;
  status = e.status;
  attempt_count = e.attempt_count;
  turn_count = e.turn_count;
  duration_seconds = e.duration_seconds;
  cost_minor = e.cost_minor;
  version = e.version;
  cancellation_requested = e.cancellation_requested;
  result_reference = e.result_reference;
}

abbrev write_found : Execution → Option Execution → Database → Database
write_found e none db = db
write_found e (some row) db = record db { executions = put db.executions e.id (write_row e row) }

unfoldable pub update_execution : Execution → Session ⊤
unfolding get_execution
update_execution e = modify (λ db. write_found e (get_execution db e.organization_id e.id) db)

-- The highest sequence number of an execution's events that the organization sees, or 0.
unfoldable pub highest : Uuid → Uuid → List ExecutionEvent → ℕ
highest organization_id x [] = 0
highest organization_id x (ev ∷ l) =
    let rest = highest organization_id x l in
    if ev.organization_id == organization_id && ev.execution_id == x
    then max ev.sequence rest
    else rest

unfoldable pub next_event_sequence : Database → Uuid → Uuid → ℕ
unfolding highest
next_event_sequence db organization_id x = highest organization_id x db.events + 1

unfoldable pub append_event : ExecutionEvent → Session ⊤
append_event ev = modify (λ db. record db { events = db.events ++ ev ∷ [] })

-- The row of a new job: its id is the execution's with the lowest bit flipped.
abbrev pub new_job : Execution → JobPayload → RunnerJob
new_job e payload = record {
  id = bit_xor e.id 1;
  organization_id = e.organization_id;
  execution_id = e.id;
  pool_id = e.runner_pool_id;
  status = queued;
  payload = payload;
  result = none;
  leased_by_runner_id = none;
  leased_at = none;
  completed_at = none;
}

abbrev create_or : Option RunnerJob → RunnerJob → Session RunnerJob
create_or (some existing) row = pure existing
create_or none row = modify (λ db. record db { jobs = put db.jobs row.id row }) >> pure row

unfoldable pub create_runner_job : Execution → JobPayload → Session RunnerJob
unfolding job_for_execution
create_runner_job e payload db =
    create_or (job_for_execution db.jobs e.organization_id e.id) (new_job e payload) db
