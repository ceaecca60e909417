-- ===== src/Delivery/Activity/Gate.antt =====
-- What a turn of `execute_delivery` (adapters/activities.py) does with a completed job.
use mvp_master.Base.{
  leb, ◌+◌, ◌≡◌, ◌≢◌, ◌⊎◌, inl, inr, String, true, some, arith, nat_eq, if◌then◌else◌,
}
use mvp_master.Exec.{raised, ok}
use mvp_master.Contracts.{Uuid}
use mvp_master.Delivery.Models.{Execution, building, verifying, awaiting_human}
use mvp_master.Delivery.Execution.{used, add_usage}
use mvp_master.Delivery.Execution.Budget.{IsWithin}
use mvp_master.Delivery.Jobs.{RunnerJob, JobResult, completed, job_for_execution}
use mvp_master.Delivery.Database.{Database, get_execution, update_execution}
use mvp_master.Delivery.Activity.{
  Draws, again, finished, publish, poll, usage_of, both_passed, result_of,
}
use mvp_master.Delivery.Activity.Logging.{agent_events-logged}

-- The execution after its usage was counted and its verification started.
abbrev pub examined : Execution → JobResult → Execution
examined e r = record e {
  attempt_count = e.attempt_count + 1;
  turn_count = e.turn_count + r.agent_turns;
  duration_seconds = e.duration_seconds + r.duration_seconds;
  cost_minor = e.cost_minor + r.cost_minor;
  version = e.version + 1 + 1;
  status = verifying;
}

module _ (draws : Draws) (o x : Uuid) (db : Database) (e : Execution) (job : RunnerJob)
    (found : get_execution db o x ≡ some e)
    (assigned : job_for_execution db.jobs o x ≡ some job) where
  -- A commit is published only if the job is completed, the agent reports success, the independent
  -- validation passed, the execution was being built, and its budget covers what was used.
  pub published_only_verified :
      (sha : String)
      → (poll draws o x db).0 ≡ ok (publish sha)
      → (job.status ≡ completed)
        × ((result_of job.result).agent_success ≡ true)
        × ((result_of job.result).validation_passed ≡ true)
        × ((result_of job.result).commit_sha ≡ sha)
        × (e.status ≡ building)
        × IsWithin e.budget (add_usage (used e) (usage_of (result_of job.result)))
  unfolding poll
  published_only_verified sha h = ground (
    arith,
    agent_events-logged draws (examined e (result_of job.result))
        (result_of job.result).agent_events
        (update_execution (examined e (result_of job.result)) db).1,
  )

  abbrev report : JobResult
  report = result_of job.result

  abbrev Affordable : Type 0
  Affordable = IsWithin e.budget (add_usage (used e) (usage_of report))

  -- While the job is not completed a turn asks for another and changes nothing.
  pub poll_waits : job.status ≢ completed → poll draws o x db ≡ (ok again, db)
  unfolding poll
  poll_waits running = ground arith

  -- The answer to a completed job of an execution that is being built, within the budget: the
  -- commit if both signals are good, and otherwise another turn while attempts are left, and the
  -- end with a human when they are not.
  pub poll_decides :
      job.status ≡ completed
      → e.status ≡ building
      → Affordable
      → (poll draws o x db).0
        ≡ ok (
            if both_passed report
            then publish report.commit_sha
            else if leb e.budget.max_attempts (e.attempt_count + 1)
            then finished awaiting_human
            else again)
  unfolding poll
  poll_decides done built fits = ground (
    arith,
    agent_events-logged draws (examined e report) report.agent_events
        (update_execution (examined e report) db).1,
  )

  -- A completed job that cannot be paid for, or whose execution is not being built, makes the turn
  -- raise, and nothing is changed.
  pub poll_refused :
      job.status ≡ completed
      → (¬ Affordable) ⊎ (e.status ≢ building)
      → (raised (poll draws o x db).0 ≡ true) × ((poll draws o x db).1 ≡ db)
  unfolding poll
  poll_refused done (inl poor) = (ground arith, ground arith)
  poll_refused done (inr other) = (ground arith, ground arith)
