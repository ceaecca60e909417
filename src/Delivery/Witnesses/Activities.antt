-- ===== src/Delivery/Witnesses/Activities.antt =====
-- Runner jobs and activities at concrete inputs.
use mathlib.Core.List.{Memᴰ}
use mvp_master.Base.{
  ◌≡◌, refl, true, none, some, List, [], ◌∷◌, arith, Option, nat_eq, ◌+◌, ◌<◌, ◌+◌,
}
use mvp_master.Exec.{ok, raised}
use mvp_master.Dict.{get}
use mvp_master.Delivery.Models.{Execution, building, delivering, delivered}
use mvp_master.Delivery.Execution.{used, add_usage}
use mvp_master.Delivery.Execution.Budget.{IsWithin}
use mvp_master.Delivery.Jobs.{
  Jobs, RunnerJob, queued, leased, completed, heartbeat_runner_job, complete_runner_job,
  lease_runner_job, lease_row, job_for_execution,
}
use mvp_master.Delivery.Jobs.Leases.{
  IsPick, lease_exclusive, stale_runner_refused, completed_for_good,
}
use mvp_master.Delivery.Database.{Database, get_execution, get_configuration}
use mvp_master.Delivery.Activity.{again, poll, enqueue, finish, usage_of}
use mvp_master.Delivery.Activity.Gate.{published_only_verified, poll_decides}
use mvp_master.Delivery.Activity.Repair.{
  rebuilt, repair_progress, interrupted_delivery_stuck, cancellation_ignored,
}
use mvp_master.Delivery.Witnesses.Data.{
  reference, configuration, execution, good, bad, job, runner, database, draws,
}

-- A database that picks the first row that fits.
abbrev first : List RunnerJob → Option RunnerJob
first [] = none
first (row ∷ rows) = some row

first-IsPick : IsPick first
first-IsPick [] row p = cc
first-IsPick (x ∷ rows) row p = Memᴰ.head (ground arith)

abbrev built : Database
built = database (execution building 0) (job completed good)

abbrev failing : Database
failing = database (execution building 0) (job completed bad)

abbrev failing_again : Database
failing_again = database (execution building 1) (job completed bad)

abbrev interrupted : Database
interrupted = database (execution delivering 1) (job completed good)

published_only_verified_example :
    ((job completed good).status ≡ completed)
    × (good.agent_success ≡ true)
    × (good.validation_passed ≡ true)
    × (good.commit_sha ≡ "c0ffee")
    × ((execution building 0).status ≡ building)
    × IsWithin
        (execution building 0).budget
        (add_usage (used (execution building 0)) (usage_of good))
unfolding poll get job_for_execution get_execution
published_only_verified_example =
    published_only_verified draws 1 10 built (execution building 0) (job completed good) refl refl
      "c0ffee" refl

poll_decides_example : (poll draws 1 10 failing).0 ≡ ok again
unfolding get job_for_execution get_execution
poll_decides_example =
    poll_decides draws 1 10 failing (execution building 0) (job completed bad) refl refl refl refl
      (omega arith)

repair_progress_example :
    (0 + 1 < 2)
    × (get (poll draws 1 10 failing).1.executions 10 ≡ some (rebuilt (execution building 0) bad))
    × (get (poll draws 1 10 failing).1.jobs 11
        ≡ some (record (job completed bad) {
          status = queued;
          result = none;
          leased_by_runner_id = none;
          leased_at = none;
        }))
unfolding poll get job_for_execution get_execution
repair_progress_example =
    repair_progress draws failing (execution building 0) (job completed bad) refl refl refl refl

interrupted_delivery_stuck_example :
    let db' = (enqueue draws 1 10 interrupted).1 in
    ((enqueue draws 1 10 interrupted).0 ≡ ok tt)
    × (get db'.executions 10 ≡ some (execution delivering 1))
    × (raised (poll draws 1 10 db').0 ≡ true)
    × ((poll draws 1 10 db').1 ≡ db')
unfolding get job_for_execution get_configuration
interrupted_delivery_stuck_example =
    interrupted_delivery_stuck draws interrupted (execution delivering 1) (job completed good) refl
      refl refl draws configuration refl refl

cancellation_ignored_example :
    (e' : Execution) × (get (finish draws 1 10 reference (poll draws 1 10 built).1).1.executions 10
      ≡ some e')
    × (e'.status ≡ delivered)
    × (e'.cancellation_requested ≡ true)
unfolding get job_for_execution
cancellation_ignored_example =
    cancellation_ignored draws draws built (execution building 0) (job completed good) reference
      refl refl refl refl refl (omega arith) refl

-- Runner 20 leased job 11 at the time 1000; runner 21 asks again, before and after it is stale.
abbrev one_lease : Jobs
one_lease = (11, job leased good) ∷ []

lease_exclusive_example :
    get (lease_runner_job first (runner 21) 2_000 2_001 one_lease).1 11 ≡ some (job leased good)
unfolding get
lease_exclusive_example =
    lease_exclusive first first-IsPick (runner 21) 2_000 2_001 one_lease 11 (job leased good) 1_000
      (refl, refl, tt) refl refl refl (omega arith)

stale_runner_refused_example :
    let t = (lease_runner_job first (runner 21) 90_000_000 90_000_001 one_lease).1 in
    (heartbeat_runner_job (runner 20) 11 90_000_002 t ≡ (none, t))
    × (complete_runner_job (runner 20) 11 good 90_000_002 t ≡ (none, t))
unfolding get lease_runner_job
stale_runner_refused_example =
    stale_runner_refused first first-IsPick (runner 20) (runner 21) 90_000_000 90_000_001 90_000_002
      one_lease (lease_row (runner 21) 90_000_001 (job leased good)) good (refl, refl, tt)
      (omega arith) refl

abbrev one_result : Jobs
one_result = (11, job completed good) ∷ []

completed_for_good_example :
    (get (lease_runner_job first (runner 21) 90_000_000 90_000_001 one_result).1 11
      ≡ some (job completed good))
    × (get (heartbeat_runner_job (runner 21) 11 90_000_000 one_result).1 11
        ≡ some (job completed good))
    × (get (complete_runner_job (runner 21) 11 bad 90_000_000 one_result).1 11
        ≡ some (job completed good))
unfolding get
completed_for_good_example =
    completed_for_good first first-IsPick (runner 21) 90_000_000 90_000_001 one_result 11 11
      (job completed good) bad (refl, refl, tt) refl refl
