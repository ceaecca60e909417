-- ===== src/Delivery/Witnesses/Events.antt =====
-- The event consumer and the rows of executions at concrete inputs.
use mvp_master.Base.{◌≡◌, refl, true, Option, some, String, [], ◌∷◌, ⊤, nat_eq, string_eq, pair_eq}
use mvp_master.Exec.{Exec, Result, ok, err, discard}
use mvp_master.Dict.{get, put}
use mvp_master.Contracts.{ExternalReference}
use mvp_master.Delivery.Models.{
  DeliveryError, runtime_error, value_error, delivered, approved, Execution,
}
use mvp_master.Delivery.Store.{Store, empty}
use mvp_master.Delivery.Service.{ReadyWorkItem, accept_ready_work_item, new_execution}
use mvp_master.Delivery.Consumer.{
  Event, Database, membership_changed, work_item_ready, process_event, consume,
}
use mvp_master.Delivery.Consumer.Redelivery.{Once, consume-Once, redelivery_harmless}
use mvp_master.Delivery.Rows.{Conversions, execution, execution_row, updated_row}
use mvp_master.Delivery.Rows.RoundTrip.{IsFaithful, execution-updated_row}
use mvp_master.Delivery.Witnesses.Data.{item, reference}

-- The service over its memory store takes the work items.
abbrev accept : ReadyWorkItem → Exec DeliveryError Store ⊤
accept w = discard (accept_ready_work_item 10 30 0 w)

abbrev owner_added : Event
owner_added = record {
  id = 1;
  organization_id = 2;
  type_name = "com.mvp.membership.changed.v1";
  correlation_id = 9;
  contents = membership_changed "ann" "OWNER" true;
}

-- There is no provider configuration, so the service raises.
abbrev work_ready : Event
work_ready = record {
  id = 3;
  organization_id = 2;
  type_name = "com.mvp.work_item.ready.v1";
  correlation_id = 9;
  contents = work_item_ready item;
}

abbrev start : Database Store
start = record { inbox = []; tables = ([], empty) }

consume-Once_example :
    Once runtime_error value_error accept
      (owner_added ∷ work_ready ∷ owner_added ∷ [])
      start
      (consume runtime_error value_error accept (owner_added ∷ work_ready ∷ owner_added ∷ []) start)
consume-Once_example =
    consume-Once runtime_error value_error accept (owner_added ∷ work_ready ∷ owner_added ∷ [])
      start

redelivery_harmless_example :
    consume runtime_error value_error accept (owner_added ∷ work_ready ∷ owner_added ∷ []) start
    ≡ consume runtime_error value_error accept (owner_added ∷ work_ready ∷ []) start
unfolding process_event get put
redelivery_harmless_example =
    redelivery_harmless runtime_error value_error accept owner_added (work_ready ∷ []) [] start refl

abbrev first : Execution
first = new_execution 10 item

abbrev later : Execution
later = record first {
  status = delivered;
  approval_status = approved;
  version = 9;
  result_reference = some reference;
}

-- Conversions that know the fields of a reference
abbrev field : Option (Option String) → Result DeliveryError String
field (some (some text)) = ok text
field _ = err value_error

abbrev built :
    Option (Option String)
    → Result DeliveryError String
    → Result DeliveryError String
    → Result DeliveryError String
    → Result DeliveryError String
    → Result DeliveryError ExternalReference
built (some r) (ok p) (ok a) (ok t) (ok x) =
    ok (record { provider = p; account_id = a; repository = r; resource_type = t; external_id = x })
built _ _ _ _ _ = err value_error

abbrev conversions : Conversions
conversions = record {
  int_of = λ text. err value_error;
  str_of = λ n. "";
  model_dump = λ r.
      ("provider", some r.provider)
      ∷ ("account_id", some r.account_id)
      ∷ ("repository", r.repository)
      ∷ ("resource_type", some r.resource_type)
      ∷ ("external_id", some r.external_id)
      ∷ [];
  external_reference = λ d.
      built (get d "repository") (field (get d "provider")) (field (get d "account_id"))
        (field (get d "resource_type")) (field (get d "external_id"));
}

conversions-IsFaithful : IsFaithful conversions
unfolding get
conversions-IsFaithful = record { rebuilt = λ r. refl; filled = λ r p. absurd (cc) }

execution-updated_row_example :
    (execution conversions (execution_row conversions first) ≡ ok first)
    × (execution conversions (updated_row conversions later (execution_row conversions first))
        ≡ ok later)
execution-updated_row_example =
    execution-updated_row conversions first later conversions-IsFaithful (record {
      id = refl;
      organization_id = refl;
      project_id = refl;
      work_item_id = refl;
      title = refl;
      description = refl;
      acceptance_criteria = refl;
      repository_connection_id = refl;
      provider_configuration_id = refl;
      runner_pool_id = refl;
      budget = refl;
    })
