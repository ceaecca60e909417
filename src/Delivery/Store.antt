-- ===== src/Delivery/Store.antt =====
-- adapters/memory.py and the records of application/ports.py of the delivery service: the
-- repository and the workflow gateway that the service runs on, one store of Python dicts.
pub mod Index
pub mod Events
use mvp_master.Base.{
  ℕ, ◌+◌, suc, String, Bool, true, false, ◌&&◌, ◌||◌, not, Option, none, some, is_some, List, [],
  ◌∷◌, ◌++◌, ◌==◌, nat_eq, string_eq, pair_eq, leb, ltb, length, select, contains, if◌then◌else◌, ⊤,
}
use mvp_master.Exec.{Exec, pure, modify, ◌>>=◌, ◌>>◌}
use mvp_master.Dict.{Dict, get, put}
use mvp_master.Contracts.{Uuid, Time, Details}
use mvp_master.Delivery.Models.{DeliveryError, Execution, ExecutionEvent, Runner}
use mvp_master.Delivery.Configuration.{AgentProviderConfiguration}

pub record EnrollmentTokenRecord : Type 0 where
  pub id : Uuid
  pub organization_id : Uuid
  pub pool_id : Uuid
  pub token_hash : String
  pub expires_at : Time
  pub used_at : Option Time

-- Who acts: a subject, or the text `runner-enrollment:{id}`.
pub data Actor : Type 0 where
  subject : String → Actor
  runner_enrollment : Uuid → Actor

pub record Audit : Type 0 where
  pub organization_id : Uuid
  pub actor : Actor
  pub action : String
  pub target_id : Uuid
  pub details : Details

-- `MemoryDeliveryRepository`, and the three lists of `MemoryWorkflowGateway`.
pub record Store : Type 0 where
  pub provider_configurations : Dict Uuid AgentProviderConfiguration
  pub enrollment_tokens : Dict String EnrollmentTokenRecord
  pub runners : Dict Uuid Runner
  pub executions : Dict Uuid Execution
  pub work_item_executions : Dict (Uuid × Uuid) Uuid
  pub events : Dict Uuid (List ExecutionEvent)
  pub audits : List Audit
  pub started : List Uuid
  pub approved : List (Uuid × String)
  pub cancelled : List (Uuid × String)

abbrev pub empty : Store
empty = record {
  provider_configurations = [];
  enrollment_tokens = [];
  runners = [];
  executions = [];
  work_item_executions = [];
  events = [];
  audits = [];
  started = [];
  approved = [];
  cancelled = [];
}

abbrev pub Action : Type 0 → Type 0
Action A = Exec DeliveryError Store A

unfoldable pub add_provider_configuration : AgentProviderConfiguration → Action ⊤
add_provider_configuration c =
    modify (λ s. record s { provider_configurations = put s.provider_configurations c.id c })

-- `x if x and x.organization_id == organization_id else None`
abbrev pub if_owned {ℓ} : {A : Type ℓ} → (A → Uuid) → Uuid → Option A → Option A
if_owned owner organization_id none = none
if_owned owner organization_id (some a) = if owner a == organization_id then some a else none

unfoldable pub get_provider_configuration : Store → Uuid → Uuid → Option AgentProviderConfiguration
get_provider_configuration s organization_id configuration_id =
    if_owned (λ c. c.organization_id) organization_id
      (get s.provider_configurations configuration_id)

unfoldable pub add_enrollment_token : EnrollmentTokenRecord → Action ⊤
add_enrollment_token r =
    modify (λ s. record s { enrollment_tokens = put s.enrollment_tokens r.token_hash r })

-- `record.used_at is not None or record.expires_at <= now`
abbrev pub is_spent : EnrollmentTokenRecord → Time → Bool
is_spent r now = is_some r.used_at || leb r.expires_at now

abbrev consume_found :
    Option EnrollmentTokenRecord → String → Time → Time → Action (Option EnrollmentTokenRecord)
consume_found none token_hash now later = pure none
consume_found (some r) token_hash now later = if is_spent r now then pure none else do
  modify (λ s. record s {
    enrollment_tokens = put s.enrollment_tokens token_hash (record r { used_at = some later });
  })
  pure (some r)

-- `later` is the second reading of the clock, which is stored as the time of use.
unfoldable pub consume_enrollment_token :
    String → Time → Time → Action (Option EnrollmentTokenRecord)
consume_enrollment_token token_hash now later s =
    consume_found (get s.enrollment_tokens token_hash) token_hash now later s

unfoldable pub add_runner : Runner → Action ⊤
add_runner r = modify (λ s. record s { runners = put s.runners r.id r })

unfoldable pub get_runner : Store → Uuid → Uuid → Option Runner
get_runner s organization_id runner_id =
    if_owned (λ r. r.organization_id) organization_id (get s.runners runner_id)

unfoldable pub add_execution : Execution → Action Bool
add_execution e s =
    let key : Uuid × Uuid = (e.organization_id, e.work_item_id) in
    if is_some (get s.work_item_executions key)
    then pure false s
    else pure true (record s {
      executions = put s.executions e.id e;
      work_item_executions = put s.work_item_executions key e.id;
    })

unfoldable pub get_execution : Store → Uuid → Uuid → Option Execution
get_execution s organization_id execution_id =
    if_owned (λ e. e.organization_id) organization_id (get s.executions execution_id)

abbrev get_if : Store → Option Uuid → Option Execution
get_if s none = none
get_if s (some execution_id) = get s.executions execution_id

unfoldable pub get_execution_by_work_item : Store → Uuid → Uuid → Option Execution
get_execution_by_work_item s organization_id work_item_id =
    get_if s (get s.work_item_executions (organization_id, work_item_id))

unfoldable pub update_execution : Execution → Action ⊤
update_execution e = modify (λ s. record s { executions = put s.executions e.id e })

-- `self.events.get(execution_id, [])`
abbrev or_empty {ℓ} : {A : Type ℓ} → Option (List A) → List A
or_empty none = []
or_empty (some l) = l

unfoldable pub events_of : Store → Uuid → List ExecutionEvent
events_of s execution_id = or_empty (get s.events execution_id)

unfoldable pub append_event : ExecutionEvent → Action ⊤
unfolding events_of
append_event ev = modify (λ s. record s {
  events = put s.events ev.execution_id (events_of s ev.execution_id ++ ev ∷ []);
})

abbrev listed : Store → Option Execution → Uuid → ℕ → List ExecutionEvent
listed s none execution_id after_sequence = []
listed s (some e) execution_id after_sequence =
    select (λ ev. ltb after_sequence ev.sequence) (events_of s execution_id)

unfoldable pub list_events : Store → Uuid → Uuid → ℕ → List ExecutionEvent
unfolding get_execution events_of
list_events s organization_id execution_id after_sequence =
    listed s (get_execution s organization_id execution_id) execution_id after_sequence

unfoldable pub next_event_sequence : Store → Uuid → ℕ
unfolding events_of
next_event_sequence s execution_id = length (events_of s execution_id) + 1

unfoldable pub record_audit : Audit → Action ⊤
record_audit a = modify (λ s. record s { audits = s.audits ++ a ∷ [] })

-- `MemoryWorkflowGateway.start`, `approve` and `cancel`
unfoldable pub start_workflow : Execution → Action ⊤
start_workflow e =
    modify
      (λ s. if contains s.started e.id then s else record s { started = s.started ++ e.id ∷ [] })

unfoldable pub approve_workflow : Uuid → String → Action ⊤
approve_workflow execution_id actor =
    modify (λ s. record s { approved = s.approved ++ (execution_id, actor) ∷ [] })

unfoldable pub cancel_workflow : Uuid → String → Action ⊤
cancel_workflow execution_id actor =
    modify (λ s. record s { cancelled = s.cancelled ++ (execution_id, actor) ∷ [] })
