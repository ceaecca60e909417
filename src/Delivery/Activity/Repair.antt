-- ===== src/Delivery/Activity/Repair.antt =====
-- What the activities (adapters/activities.py) store: repairs, deliveries, and the execution whose
-- delivery was interrupted or whose cancellation was requested.
use mvp_master.Base.{◌+◌, ◌≤◌, ◌<◌, ◌≡◌, refl, true, false, none, some, arith, nat_eq}
use mvp_master.Exec.{raised, ok}
use mvp_master.Dict.{get, put, get-put_self}
use mvp_master.Contracts.{ExternalReference}
use mvp_master.Delivery.Models.{Execution, building, delivering, delivered, awaiting_human}
use mvp_master.Delivery.Execution.{used, add_usage}
use mvp_master.Delivery.Execution.Budget.{IsWithin}
use mvp_master.Delivery.Configuration.{AgentProviderConfiguration}
use mvp_master.Delivery.Jobs.{RunnerJob, JobResult, queued, completed, job_for_execution}
use mvp_master.Delivery.Database.{Database, get_configuration, update_execution}
use mvp_master.Delivery.Activity.{
  Draws, again, poll, enqueue, finish, usage_of, both_passed, result_of,
}
use mvp_master.Delivery.Activity.Gate.{examined}
use mvp_master.Delivery.Activity.Logging.{agent_events-logged}

-- A job as it was, but for any runner to lease: with no result and no lease.
abbrev pub waiting : RunnerJob → RunnerJob
waiting job = record job {
  status = queued;
  result = none;
  leased_by_runner_id = none;
  leased_at = none;
}

-- The execution after a repair was asked for and its building started.
abbrev pub rebuilt : Execution → JobResult → Execution
rebuilt e r = record e {
  attempt_count = e.attempt_count + 1;
  turn_count = e.turn_count + r.agent_turns;
  duration_seconds = e.duration_seconds + r.duration_seconds;
  cost_minor = e.cost_minor + r.cost_minor;
  version = e.version + 1 + 1 + 1 + 1;
  status = building;
}

module _ (draws : Draws) (db : Database) (e : Execution) (job : RunnerJob)
    (found : get db.executions e.id ≡ some e)
    (assigned : job_for_execution db.jobs e.organization_id e.id ≡ some job)
    (done : job.status ≡ completed) where
  abbrev report : JobResult
  report = result_of job.result

  -- A turn on a completed job that asks for another has counted one attempt more, of which there
  -- is at least one left; the execution is being built again, and its job waits for any runner,
  -- with neither the old result nor the old lease.
  pub repair_progress :
      (poll draws e.organization_id e.id db).0 ≡ ok again
      → let db' = (poll draws e.organization_id e.id db).1 in
        (e.attempt_count + 1 < e.budget.max_attempts)
        × (get db'.executions e.id ≡ some (rebuilt e report))
        × (get db'.jobs job.id ≡ some (waiting job))
  unfolding poll
  repair_progress h = ground (
    arith,
    agent_events-logged draws (examined e report) report.agent_events
        (update_execution (examined e report) db).1,
    get-put_self db.executions e.id (examined e report),
    get-put_self (put db.executions e.id (examined e report)) e.id (rebuilt e report),
    get-put_self db.jobs job.id (waiting job),
  )

  -- With attempts used up, failed evidence ends the activity with the execution handed to a human.
  pub exhausted_to_human :
      e.status ≡ building
      → IsWithin e.budget (add_usage (used e) (usage_of report))
      → both_passed report ≡ false
      → e.budget.max_attempts ≤ e.attempt_count + 1
      → let db' = (poll draws e.organization_id e.id db).1 in
        get db'.executions e.id
        ≡ some (record e {
          attempt_count = e.attempt_count + 1;
          turn_count = e.turn_count + report.agent_turns;
          duration_seconds = e.duration_seconds + report.duration_seconds;
          cost_minor = e.cost_minor + report.cost_minor;
          version = e.version + 1 + 1 + 1;
          status = awaiting_human;
        })
  unfolding poll
  exhausted_to_human built fits bad spent = ground (
    arith,
    agent_events-logged draws (examined e report) report.agent_events
        (update_execution (examined e report) db).1,
    get-put_self db.executions e.id (examined e report),
    get-put_self (put db.executions e.id (examined e report)) e.id
        (record (examined e report) { version = e.version + 1 + 1 + 1; status = awaiting_human }),
  )

  -- Once an execution is being delivered, a retry of the activity cannot take it further: queueing
  -- finds nothing to do, and every turn on the completed job raises and changes nothing.
  pub interrupted_delivery_stuck :
      (draws' : Draws) (c : AgentProviderConfiguration)
      → e.status ≡ delivering
      → get_configuration db e.organization_id e.provider_configuration_id ≡ some c
      → let db' = (enqueue draws' e.organization_id e.id db).1 in
        ((enqueue draws' e.organization_id e.id db).0 ≡ ok tt)
        × (get db'.executions e.id ≡ some e)
        × (raised (poll draws e.organization_id e.id db').0 ≡ true)
        × ((poll draws e.organization_id e.id db').1 ≡ db')
  unfolding poll enqueue
  interrupted_delivery_stuck draws' c stuck available =
      (ground arith, ground arith, ground arith, ground arith)

-- After the pull request, an execution that is being delivered gets its reference and is
-- delivered, whether or not its cancellation was requested.
pub finish_delivers :
    (draws : Draws) (db : Database) (e : Execution) (reference : ExternalReference)
    → get db.executions e.id ≡ some e
    → e.status ≡ delivering
    → ((finish draws e.organization_id e.id reference db).0 ≡ ok delivered)
      × (get (finish draws e.organization_id e.id reference db).1.executions e.id
          ≡ some (record e {
            status = delivered;
            result_reference = some reference;
            version = e.version + 1;
          }))
unfolding finish
finish_delivers draws db e reference found d = (
  ground arith,
  ground (
    arith,
    get-put_self db.executions e.id (record e {
      status = delivered;
      result_reference = some reference;
      version = e.version + 1;
    }),
  ),
)

-- A cancellation that is requested on an execution that is being built, and whose job is completed
-- within the budget and with good evidence, does not stop it: the next turn and the publication
-- deliver the execution all the same, and the request still stands on it.
pub cancellation_ignored :
    (draws draws' : Draws) (db : Database) (e : Execution) (job : RunnerJob)
    (reference : ExternalReference)
    → get db.executions e.id ≡ some e
    → job_for_execution db.jobs e.organization_id e.id ≡ some job
    → job.status ≡ completed
    → e.status ≡ building
    → e.cancellation_requested ≡ true
    → IsWithin e.budget (add_usage (used e) (usage_of (result_of job.result)))
    → both_passed (result_of job.result) ≡ true
    → let db' = (poll draws e.organization_id e.id db).1 in
      let db'' = (finish draws' e.organization_id e.id reference db').1 in
      (e' : Execution) × (get db''.executions e.id ≡ some e')
      × (e'.status ≡ delivered)
      × (e'.cancellation_requested ≡ true)
unfolding poll
cancellation_ignored draws draws' db e job reference found assigned done built asked fits good =
    let r = result_of job.result in
    let d = record (examined e r) { status = delivering; version = e.version + 1 + 1 + 1 } in
    let stored : get (poll draws e.organization_id e.id db).1.executions e.id ≡ some d = ground (
      arith,
      agent_events-logged draws (examined e r) r.agent_events
          (update_execution (examined e r) db).1,
      get-put_self db.executions e.id (examined e r),
      get-put_self (put db.executions e.id (examined e r)) e.id d,
    ) in
    let (answer, after) =
      finish_delivers draws' (poll draws e.organization_id e.id db).1 d reference stored refl in
    (
      record d { status = delivered; result_reference = some reference; version = d.version + 1 },
      after,
      refl,
      asked,
    )
