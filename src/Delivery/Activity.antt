-- ===== src/Delivery/Activity.antt =====
-- adapters/activities.py: the activities that take an approved execution through a runner job, its
-- verification, repair and delivery. The loop of `execute_delivery` is given by its turns, since
-- runners act between them.
pub mod Logging
pub mod Gate
pub mod Repair
use mvp_master.Base.{
  ℕ, String, Bool, true, false, not, ◌&&◌, ◌||◌, Option, none, some, is_some, List, [], ◌∷◌, ◌==◌,
  string_eq, nat_eq, if◌then◌else◌, ⊤,
}
use mvp_master.Exec.{Exec, Result, ok, err, pure, raise, gets, lift, or_raise, modify, ◌>>=◌, ◌>>◌}
use mvp_master.Dict.{put}
use mvp_master.Contracts.{Uuid, Time, Details, ExternalReference}
use mvp_master.Delivery.Models.{
  runtime_error, mode_value, queued, repairing, ◌is◌, ExecutionStatus, ExecutionEventKind, plan,
  tool, command, result, error, approval, cost, state, decision, Usage, Execution,
}
use mvp_master.Delivery.Execution
use mvp_master.Delivery.Configuration.{AgentProviderConfiguration}
use mvp_master.Delivery.Jobs.{
  AgentEvent, JobPayload, JobResult, JobStatus, RunnerJob, completed, job_for_execution,
}
use mvp_master.Delivery.Jobs
use mvp_master.Delivery.Database.{
  Database, Session, transaction, get_configuration, get_execution, update_execution,
  next_event_sequence, append_event, create_runner_job,
}

-- `AGENT_EVENT_KIND_MAP.get(kind, ExecutionEventKind.TOOL)`
unfoldable pub event_kind : String → ExecutionEventKind
event_kind kind =
    if kind == "PLAN"
    then plan
    else if kind == "TOOL"
    then tool
    else if kind == "COMMAND"
    then command
    else if kind == "RESULT"
    then result
    else if kind == "ERROR"
    then error
    else if kind == "APPROVAL"
    then approval
    else if kind == "USAGE"
    then cost
    else tool

-- What `uuid4` and the clock give to the event that gets a sequence number.
pub record Draws : Type 0 where
  pub event_id : ℕ → Uuid
  pub now : ℕ → Time

-- `_event`
unfoldable pub event :
    Draws → Uuid → Uuid → ExecutionEventKind → String → String → Details → Session ⊤
unfolding append_event next_event_sequence
event draws x organization_id kind name message metadata = do
  sequence ← gets (λ db. next_event_sequence db organization_id x)
  append_event (record {
    id = draws.event_id sequence;
    execution_id = x;
    organization_id = organization_id;
    sequence = sequence;
    kind = kind;
    name = name;
    message = message;
    occurred_at = draws.now sequence;
    metadata = metadata;
  })

-- The payload of the job, without credential values.
abbrev pub payload_of : Execution → AgentProviderConfiguration → JobPayload
payload_of e c = record {
  execution_id = e.id;
  organization_id = e.organization_id;
  repository_connection_id = e.repository_connection_id;
  provider = c.provider;
  runtime = c.runtime;
  model = c.model;
  authentication_mode = mode_value c.authentication_mode;
  secret_reference = c.secret_reference;
  title = e.title;
  problem = e.description;
  acceptance_criteria = e.acceptance_criteria;
  max_turns = e.budget.max_turns;
  max_duration_seconds = e.budget.max_duration_seconds;
}

-- A queued execution is taken to `building`; any other is left as it is.
abbrev begin_building : Execution → Session Execution
begin_building e =
    if e.status is queued
    then (do
      provisioned ← lift (Execution.start_provisioning e)
      planned ← lift (Execution.start_planning provisioned)
      building ← lift (Execution.start_building planned)
      update_execution building
      pure building)
    else pure e

unfoldable pub enqueue : Draws → Uuid → Uuid → Session ⊤
unfolding get_execution get_configuration update_execution create_runner_job event
    Execution.start_provisioning Execution.start_planning Execution.start_building
enqueue draws organization_id x = transaction (do
  found ← gets (λ db. get_execution db organization_id x)
  e ← or_raise found runtime_error
  available ← gets (λ db. get_configuration db organization_id e.provider_configuration_id)
  configuration ← or_raise available runtime_error
  started ← begin_building e
  create_runner_job started (payload_of started configuration)
  event draws started.id started.organization_id state "runner.job_queued"
      "An isolated runner job was queued without credential values." [])

-- `for item in agent["events"]`
unfoldable pub agent_events : Draws → Execution → List AgentEvent → Session ⊤
unfolding event event_kind
agent_events draws e [] = pure tt
agent_events draws e (item ∷ items) = do
  event draws e.id e.organization_id (event_kind item.kind) item.name item.message item.metadata
  agent_events draws e items

-- `job.result or {}`, with the defaults of the look-ups that follow
abbrev pub result_of : Option JobResult → JobResult
result_of (some r) = r
result_of none = record {
  commit_sha = "unknown";
  duration_seconds = 0;
  cost_minor = 0;
  agent_success = false;
  agent_turns = 0;
  agent_events = [];
  validation_passed = false;
}

abbrev pub usage_of : JobResult → Usage
usage_of r = record {
  duration_seconds = r.duration_seconds;
  attempts = 1;
  turns = r.agent_turns;
  cost_minor = r.cost_minor;
}

-- Both signals: the agent's claim and the independent validation.
abbrev pub both_passed : JobResult → Bool
both_passed r = r.agent_success && r.validation_passed

-- What a turn of the loop leads to: another turn, the end with a status, or the publication of a
-- commit.
pub data Turn : Type 0 where
  again : Turn
  finished : ExecutionStatus → Turn
  publish : String → Turn

-- `job.status = "QUEUED"` and the three resets; the row is written when the session commits.
abbrev pub requeue_row : RunnerJob → RunnerJob
requeue_row job = record job {
  status = Jobs.queued;
  result = none;
  leased_by_runner_id = none;
  leased_at = none;
}

abbrev requeue : RunnerJob → Session ⊤
requeue job = modify (λ db. record db { jobs = put db.jobs job.id (requeue_row job) })

-- The branch of failed evidence.
abbrev repair : Draws → Execution → RunnerJob → Session Turn
repair draws e job = do
  asked ← lift (Execution.request_repair e)
  if asked.status is repairing
      then (do
        rebuilding ← lift (Execution.start_building asked)
        requeue job
        update_execution rebuilding
        event draws rebuilding.id rebuilding.organization_id decision "repair.queued"
            "Verification failed; a bounded repair attempt was queued." []
        pure again)
      else (do update_execution asked; pure (finished asked.status))

abbrev hand_on : Execution → JobResult → Session Turn
hand_on e r = do
  delivering ← lift (Execution.start_delivery e)
  update_execution delivering
  pure (publish r.commit_sha)

abbrev verdict : JobResult → String
verdict r =
    if both_passed r
    then "Agent completed and independent verification passed."
    else "Delivery evidence failed: the agent or independent verification did not pass."

-- A completed job: its usage, its events, and the decision on its evidence.
abbrev examine : Draws → Execution → RunnerJob → JobResult → Session Turn
examine draws e job r = do
  counted ← lift (Execution.record_usage (usage_of r) e)
  verifying ← lift (Execution.start_verification counted)
  update_execution verifying
  agent_events draws verifying r.agent_events
  event draws verifying.id verifying.organization_id result "verification.completed" (verdict r) []
  if not r.agent_success || not r.validation_passed
      then repair draws verifying job
      else hand_on verifying r

abbrev is_completed : JobStatus → Bool
is_completed completed = true
is_completed _ = false

-- One turn of `while True`, up to the next turn, the return or the pull request.
unfoldable pub poll : Draws → Uuid → Uuid → Session Turn
unfolding get_execution job_for_execution update_execution event agent_events Execution.record_usage
    Execution.start_verification Execution.request_repair Execution.start_building
    Execution.start_delivery
poll draws organization_id x = transaction (do
  found ← gets (λ db. get_execution db organization_id x)
  assigned ← gets (λ db. job_for_execution db.jobs organization_id x)
  e ← or_raise found runtime_error
  job ← or_raise assigned runtime_error
  if not (is_completed job.status) then pure again else examine draws e job (result_of job.result))

-- The session after the pull request was created.
unfoldable pub finish : Draws → Uuid → Uuid → ExternalReference → Session ExecutionStatus
unfolding get_execution update_execution event Execution.deliver
finish draws organization_id x reference = transaction (do
  found ← gets (λ db. get_execution db organization_id x)
  e ← or_raise found runtime_error
  delivered ← lift (Execution.deliver reference e)
  update_execution delivered
  event draws delivered.id delivered.organization_id result "delivery.completed"
      "Verified changes were associated with a pull request." []
  pure delivered.status)

abbrev cancel_found : Draws → Option Execution → Session ⊤
cancel_found draws none = pure tt
cancel_found draws (some e) =
    if e.cancellation_requested
    then (do
      cancelled ← lift (Execution.cancel e)
      update_execution cancelled
      event draws cancelled.id cancelled.organization_id state "execution.cancelled"
          "Execution was cancelled and cleanup was requested." [])
    else pure tt

-- The activity `cancel-and-cleanup-execution`
unfoldable pub cancel_execution : Draws → Uuid → Uuid → Session ⊤
unfolding get_execution update_execution event Execution.cancel
cancel_execution draws organization_id x =
    transaction
      (do found ← gets (λ db. get_execution db organization_id x); cancel_found draws found)
