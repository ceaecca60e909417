-- ===== src/Delivery/Service.antt =====
-- application/service.py of the delivery service: `DeliveryService` over the store. What `uuid4`,
-- `secrets.token_urlsafe` and the clock return are arguments, and so is the SHA-256 of `_hash`.
pub mod Calls
pub mod Atomicity
pub mod Effects
pub mod Histories
pub mod Acceptance
pub mod Tenancy
pub mod Enrollment
pub mod Numbering
use mvp_master.Base.{
  ℕ, ◌+◌, ◌*◌, String, Bool, true, false, Option, none, some, is_some, List, [], ◌∷◌, if◌then◌else◌,
  ⊤,
}
use mvp_master.Exec.{pure, raise, gets, lift, or_raise, raise_if, modify, ◌>>=◌, ◌>>◌}
use mvp_master.Contracts.{Uuid, Time, Value, text, uuid, int, flag, texts, Details, SecretReference}
use mvp_master.Delivery.Models.{
  invalid_enrollment, value_error, lookup_error, AuthenticationMode, mode_value, awaiting_approval,
  pending, online, ExecutionEventKind, approval, ExecutionBudget, ExecutionEvent, Execution, Runner,
}
use mvp_master.Delivery.Execution
use mvp_master.Delivery.Configuration.{AgentProviderConfiguration, construct}
use mvp_master.Delivery.Store.{
  EnrollmentTokenRecord, subject, runner_enrollment, Audit, Store, Action,
  add_provider_configuration, get_provider_configuration, add_enrollment_token,
  consume_enrollment_token, add_runner, add_execution, get_execution, get_execution_by_work_item,
  update_execution, append_event, next_event_sequence, record_audit, start_workflow,
  approve_workflow, cancel_workflow,
}

-- `configuration` carries the id that `uuid4` gave, and `enabled=True`.
unfoldable pub create_provider_configuration :
    String → AgentProviderConfiguration → Action AgentProviderConfiguration
unfolding construct add_provider_configuration record_audit
create_provider_configuration actor_subject configuration = do
  c ← lift (construct (record configuration { enabled = true }))
  add_provider_configuration c
  record_audit (record {
    organization_id = c.organization_id;
    actor = subject actor_subject;
    action = "provider_configuration.created";
    target_id = c.id;
    details =
        ("provider", text c.provider)
        ∷ ("runtime", text c.runtime)
        ∷ ("model", text c.model)
        ∷ ("authentication_mode", text (mode_value c.authentication_mode))
        ∷ ("development_substitute", flag c.is_development_substitute)
        ∷ [];
  })
  pure c

-- `timedelta(minutes=10)` in microseconds
abbrev pub ten_minutes : Time
ten_minutes = 600_000_000

module _ (hash : String → String) where
  unfoldable pub create_runner_enrollment :
      String → Uuid → Time → Uuid → String → Uuid → Action String
  unfolding add_enrollment_token record_audit
  create_runner_enrollment raw_token record_id now organization_id actor_subject pool_id = do
    add_enrollment_token (record {
      id = record_id;
      organization_id = organization_id;
      pool_id = pool_id;
      token_hash = hash raw_token;
      expires_at = now + ten_minutes;
      used_at = none;
    })
    record_audit (record {
      organization_id = organization_id;
      actor = subject actor_subject;
      action = "runner.enrollment_created";
      target_id = record_id;
      details = ("pool_id", uuid pool_id) ∷ ("expires_in_seconds", int 600) ∷ [];
    })
    pure raw_token

  -- The clock is read for the test (`now`), for `used_at` and for `last_seen_at`.
  unfoldable pub enroll_runner :
      Time → Time → Time → String → Uuid → String → String → List String → Action (Runner × String)
  unfolding consume_enrollment_token add_runner record_audit
  enroll_runner now used_at seen_at raw_credential runner_id enrollment_token name capabilities = do
    found ← consume_enrollment_token (hash enrollment_token) now used_at
    token ← or_raise found invalid_enrollment
    let runner : Runner = record {
      id = runner_id;
      organization_id = token.organization_id;
      pool_id = token.pool_id;
      name = name;
      capabilities = capabilities;
      credential_hash = hash raw_credential;
      status = online;
      last_seen_at = seen_at;
    }
    add_runner runner
    record_audit (record {
      organization_id = token.organization_id;
      actor = runner_enrollment token.id;
      action = "runner.enrolled";
      target_id = runner_id;
      details = ("pool_id", uuid token.pool_id) ∷ ("capabilities", texts capabilities) ∷ [];
    })
    pure (runner, raw_credential)

-- `_append_event`, with the id and the time of the event
unfoldable pub append :
    Uuid → Time → Execution → ExecutionEventKind → String → String → Details → Action ⊤
unfolding append_event next_event_sequence
append event_id now e kind name message metadata = do
  sequence ← gets (λ s. next_event_sequence s e.id)
  append_event (record {
    id = event_id;
    execution_id = e.id;
    organization_id = e.organization_id;
    sequence = sequence;
    kind = kind;
    name = name;
    message = message;
    occurred_at = now;
    metadata = metadata;
  })

-- The arguments of `accept_ready_work_item`.
pub record ReadyWorkItem : Type 0 where
  pub organization_id : Uuid
  pub project_id : Uuid
  pub work_item_id : Uuid
  pub title : String
  pub description : String
  pub acceptance_criteria : List String
  pub repository_connection_id : Uuid
  pub provider_configuration_id : Uuid
  pub runner_pool_id : Uuid
  pub budget : ExecutionBudget
  pub correlation_id : Uuid

-- The constructor call `Execution(...)`, with the defaults of its fields.
abbrev pub new_execution : Uuid → ReadyWorkItem → Execution
new_execution execution_id w = record {
  id = execution_id;
  organization_id = w.organization_id;
  project_id = w.project_id;
  work_item_id = w.work_item_id;
  title = w.title;
  description = w.description;
  acceptance_criteria = w.acceptance_criteria;
  repository_connection_id = w.repository_connection_id;
  provider_configuration_id = w.provider_configuration_id;
  runner_pool_id = w.runner_pool_id;
  budget = w.budget;
  approval_status = pending;
  status = awaiting_approval;
  attempt_count = 0;
  turn_count = 0;
  duration_seconds = 0;
  cost_minor = 0;
  version = 1;
  cancellation_requested = false;
  result_reference = none;
}

abbrev announce : Bool → Uuid → Time → Uuid → Execution → Action ⊤
announce false event_id now correlation_id e = pure tt
announce true event_id now correlation_id e = do
  append event_id now e approval "execution.approval_required"
      "Execution is waiting for reviewer approval." (("correlation_id", uuid correlation_id) ∷ [])
  start_workflow e

abbrev accept_new : Uuid → Uuid → Time → ReadyWorkItem → Action Execution
accept_new execution_id event_id now w = do
  configuration ←
      gets (λ s. get_provider_configuration s w.organization_id w.provider_configuration_id)
  or_raise configuration value_error
  let e = new_execution execution_id w
  added ← add_execution e
  announce added event_id now w.correlation_id e
  pure e

abbrev accept_or : Option Execution → Uuid → Uuid → Time → ReadyWorkItem → Action Execution
accept_or (some existing) execution_id event_id now w = pure existing
accept_or none execution_id event_id now w = accept_new execution_id event_id now w

unfoldable pub accept_ready_work_item : Uuid → Uuid → Time → ReadyWorkItem → Action Execution
unfolding get_execution_by_work_item get_provider_configuration add_execution append start_workflow
accept_ready_work_item execution_id event_id now w = do
  existing ← gets (λ s. get_execution_by_work_item s w.organization_id w.work_item_id)
  accept_or existing execution_id event_id now w

-- `_required_execution`
unfoldable pub required_execution : Uuid → Uuid → Action Execution
unfolding get_execution
required_execution organization_id execution_id = do
  found ← gets (λ s. get_execution s organization_id execution_id)
  or_raise found lookup_error

-- `execution.approve()` and `execution.request_cancellation()` change the object that the store
-- holds; nothing between there and `update_execution` raises.
unfoldable pub approve_execution : Uuid → Time → Uuid → Uuid → String → Action Execution
unfolding required_execution Execution.approve update_execution record_audit append approve_workflow
approve_execution event_id now organization_id execution_id actor_subject = do
  found ← required_execution organization_id execution_id
  e ← lift (Execution.approve found)
  update_execution e
  record_audit (record {
    organization_id = organization_id;
    actor = subject actor_subject;
    action = "execution.approved";
    target_id = e.id;
    details = ("version", int e.version) ∷ [];
  })
  append event_id now e approval "execution.approved" "Execution was approved and queued."
      (("actor_subject", text actor_subject) ∷ [])
  approve_workflow e.id actor_subject
  pure e

unfoldable pub cancel_execution : Uuid → Uuid → String → Action Execution
unfolding required_execution Execution.request_cancellation update_execution record_audit
    cancel_workflow
cancel_execution organization_id execution_id actor_subject = do
  found ← required_execution organization_id execution_id
  e ← lift (Execution.request_cancellation found)
  update_execution e
  record_audit (record {
    organization_id = organization_id;
    actor = subject actor_subject;
    action = "execution.cancellation_requested";
    target_id = e.id;
    details = ("version", int e.version) ∷ [];
  })
  cancel_workflow e.id actor_subject
  pure e
