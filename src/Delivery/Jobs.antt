-- ===== src/Delivery/Jobs.antt =====
-- Runner jobs of the delivery service (adapters/postgres.py): the table `runner_jobs` and the
-- methods by which a runner leases, extends and completes a job. Row level security
-- (migrations/versions/0001_initial.py) hides the rows of every organization but the current one.
pub mod Tables
pub mod Leases
use mvp_master.Base.{
  ℕ, ◌+◌, String, Bool, true, false, ◌&&◌, ◌||◌, not, Option, none, some, List, [], ◌∷◌, ◌==◌,
  nat_eq, ltb, select, find, if◌then◌else◌,
}
use mvp_master.Dict.{Dict, get, put, values}
use mvp_master.Contracts.{Uuid, Time, Details, SecretReference}
use mvp_master.Delivery.Models.{Runner}

-- The texts that the column `status` takes.
pub data JobStatus : Type 0 where
  queued leased completed : JobStatus

-- What the activity puts into the column `payload`; `validation_commands` is a constant there.
pub record JobPayload : Type 0 where
  pub execution_id : Uuid
  pub organization_id : Uuid
  pub repository_connection_id : Uuid
  pub provider : String
  pub runtime : String
  pub model : String
  pub authentication_mode : String
  pub secret_reference : Option SecretReference
  pub title : String
  pub problem : String
  pub acceptance_criteria : List String
  pub max_turns : ℕ
  pub max_duration_seconds : ℕ

-- `AgentEventReport` (entrypoints/api.py)
pub record AgentEvent : Type 0 where
  pub sequence : ℕ
  pub kind : String
  pub name : String
  pub message : String
  pub metadata : Details

-- The fields of `RunnerJobComplete` (entrypoints/api.py) that the service reads.
pub record JobResult : Type 0 where
  pub commit_sha : String
  pub duration_seconds : ℕ
  pub cost_minor : ℕ
  pub agent_success : Bool
  pub agent_turns : ℕ
  pub agent_events : List AgentEvent
  pub validation_passed : Bool

pub record RunnerJob : Type 0 where
  pub id : Uuid
  pub organization_id : Uuid
  pub execution_id : Uuid
  pub pool_id : Uuid
  pub status : JobStatus
  pub payload : JobPayload
  pub result : Option JobResult
  pub leased_by_runner_id : Option Uuid
  pub leased_at : Option Time
  pub completed_at : Option Time

abbrev pub Jobs : Type 0
Jobs = Dict Uuid RunnerJob

-- The rows that the organization's session sees.
abbrev pub visible : Uuid → RunnerJob → Bool
visible organization_id row = row.organization_id == organization_id

-- `session.get(RunnerJobRow, job_id)`
abbrev if_visible : Uuid → Option RunnerJob → Option RunnerJob
if_visible organization_id none = none
if_visible organization_id (some row) = if visible organization_id row then some row else none

unfoldable pub get_job : Jobs → Uuid → Uuid → Option RunnerJob
get_job jobs organization_id job_id = if_visible organization_id (get jobs job_id)

-- `stale_before = now - 45 s`, and `leased_at < stale_before`, which is false for a null.
abbrev pub lease_duration : Time
lease_duration = 45_000_000

abbrev pub is_stale : Time → Option Time → Bool
is_stale now none = false
is_stale now (some at) = ltb (at + lease_duration) now

-- `status == "QUEUED" or (status == "LEASED" and leased_at < stale_before)`
abbrev pub is_open : Time → JobStatus → Option Time → Bool
is_open now queued at = true
is_open now leased at = is_stale now at
is_open now completed at = false

abbrev pub is_leasable : Runner → Time → RunnerJob → Bool
is_leasable runner now row =
    visible runner.organization_id row
    && (row.pool_id == runner.pool_id && is_open now row.status row.leased_at)

-- The row as it is leased to a runner.
abbrev pub lease_row : Runner → Time → RunnerJob → RunnerJob
lease_row runner now row = record row {
  status = leased;
  leased_by_runner_id = some runner.id;
  leased_at = some now;
}

-- `row.leased_by_runner_id == runner.id and row.status == "LEASED"`
abbrev is_leased : JobStatus → Bool
is_leased leased = true
is_leased _ = false

abbrev is_runner : Uuid → Option Uuid → Bool
is_runner runner_id none = false
is_runner runner_id (some id) = id == runner_id

abbrev pub holds_lease : Runner → RunnerJob → Bool
holds_lease runner row = is_runner runner.id row.leased_by_runner_id && is_leased row.status

abbrev touch : Runner → (RunnerJob → RunnerJob) → Option RunnerJob → Jobs → Option RunnerJob × Jobs
touch runner change none jobs = (none, jobs)
touch runner change (some row) jobs =
    if holds_lease runner row
    then (some (change row), put jobs row.id (change row))
    else (none, jobs)

unfoldable pub heartbeat_runner_job : Runner → Uuid → Time → Jobs → Option RunnerJob × Jobs
unfolding get_job
heartbeat_runner_job runner job_id now jobs =
    touch runner (λ row. record row { leased_at = some now })
      (get_job jobs runner.organization_id job_id) jobs

unfoldable pub complete_runner_job :
    Runner → Uuid → JobResult → Time → Jobs → Option RunnerJob × Jobs
unfolding get_job
complete_runner_job runner job_id result now jobs =
    touch runner
      (λ row. record row { result = some result; status = completed; completed_at = some now })
      (get_job jobs runner.organization_id job_id) jobs

-- `runner_job_for_execution`
unfoldable pub job_for_execution : Jobs → Uuid → Uuid → Option RunnerJob
unfolding find
job_for_execution jobs organization_id execution_id =
    find (λ row. visible organization_id row && row.execution_id == execution_id) (values jobs)

-- `SELECT … FOR UPDATE SKIP LOCKED LIMIT 1` is the database's: it picks one of the rows that fit,
-- or none (the others may be locked).
module _ (pick : List RunnerJob → Option RunnerJob) where
  abbrev grant : Runner → Time → Option RunnerJob → Jobs → Option RunnerJob × Jobs
  grant runner now none jobs = (none, jobs)
  grant runner now (some row) jobs =
      (some (lease_row runner now row), put jobs row.id (lease_row runner now row))

  -- `now` is read for the test, `at` for the new lease.
  unfoldable pub lease_runner_job : Runner → Time → Time → Jobs → Option RunnerJob × Jobs
  unfolding select
  lease_runner_job runner now at jobs =
      grant runner at (pick (select (is_leasable runner now) (values jobs))) jobs
