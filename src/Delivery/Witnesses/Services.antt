-- ===== src/Delivery/Witnesses/Services.antt =====
-- `DeliveryService` at concrete inputs.
use mvp_master.Base.{String, ℕ, ◌≡◌, refl, some, [], nat_eq, pair_eq, string_eq}
use mvp_master.Exec.{err}
use mvp_master.Dict.{get, put}
use mvp_master.Delivery.Models.{
  online, invalid_enrollment, lookup_error, Runner, Execution, queued, approved,
}
use mvp_master.Delivery.Runtimes.{ensure_supported}
use mvp_master.Delivery.Store.{Store, empty}
use mvp_master.Delivery.Store.Events.{AllNumbered}
use mvp_master.Delivery.Service
use mvp_master.Delivery.Service.{
  new_execution, ten_minutes, accept_ready_work_item, approve_execution, cancel_execution,
  create_runner_enrollment, enroll_runner,
}
use mvp_master.Delivery.Service.Calls.{Call, serve, Served, here, next}
use mvp_master.Delivery.Service.Atomicity.{serve_error_unchanged}
use mvp_master.Delivery.Service.Histories.{one_execution_per_work_item, IsOpen, Served-IsOpen}
use mvp_master.Delivery.Service.Enrollment.{enroll_once}
use mvp_master.Delivery.Service.Numbering.{Served-AllNumbered}
use mvp_master.Delivery.Witnesses.Data.{item, configuration}

-- A stand-in for SHA-256.
abbrev plain : String → String
plain text = text

abbrev configured : Store
configured = (serve plain (Call.create_provider_configuration "ann" configuration) empty).1

abbrev accepted : Store
accepted = (serve plain (Call.accept_ready_work_item 10 30 0 item) configured).1

accepted-Served : Served plain empty accepted
unfolding serve Service.create_provider_configuration get ensure_supported
accepted-Served =
    next (next here (Call.create_provider_configuration "ann" configuration) tt)
      (Call.accept_ready_work_item 10 30 0 item) refl

accepted_stored : get accepted.executions 10 ≡ some (new_execution 10 item)
unfolding serve Service.create_provider_configuration accept_ready_work_item get ensure_supported
    put
accepted_stored = refl

serve_error_unchanged_example :
    (serve plain (Call.approve_execution 31 5 2 10 "eve") accepted).1 ≡ accepted
unfolding serve Service.create_provider_configuration accept_ready_work_item approve_execution get
    ensure_supported put
serve_error_unchanged_example =
    serve_error_unchanged plain (Call.approve_execution 31 5 2 10 "eve") accepted lookup_error refl

one_execution_per_work_item_example : ◌≡◌ {A = ℕ} 10 10
one_execution_per_work_item_example =
    one_execution_per_work_item plain 10 10 (new_execution 10 item) (new_execution 10 item)
      accepted-Served accepted_stored accepted_stored refl refl

abbrev queued_one : Store
queued_one = (serve plain (Call.approve_execution 31 5 1 10 "eve") accepted).1

abbrev queued_execution : Execution
queued_execution = record (new_execution 10 item) {
  status = queued;
  approval_status = approved;
  version = 2;
}

Served-IsOpen_example : IsOpen queued_execution
unfolding serve Service.create_provider_configuration accept_ready_work_item approve_execution get
    ensure_supported put
Served-IsOpen_example =
    Served-IsOpen plain {t = queued_one} 10 queued_execution
      (next accepted-Served (Call.approve_execution 31 5 1 10 "eve") tt) refl

abbrev enrolling : Store
enrolling = (serve plain (Call.create_runner_enrollment "token" 50 0 1 "ann" 5) empty).1

abbrev enrolled : Runner
enrolled = record {
  id = 60;
  organization_id = 1;
  pool_id = 5;
  name = "r1";
  capabilities = [];
  credential_hash = "credential";
  status = online;
  last_seen_at = 9;
}

enroll_once_example :
    let t = (enroll_runner plain 7 8 9 "credential" 60 "token" "r1" [] enrolling).1 in
    enroll_runner plain 17 18 19 "other" 61 "token" "r2" [] t ≡ (err invalid_enrollment, t)
unfolding serve create_runner_enrollment enroll_runner get put
enroll_once_example =
    enroll_once plain enrolling 7 8 9 17 18 19 "credential" "other" 60 61 "token" "r1" "r2" [] []
      (enrolled, "credential") refl

Served-AllNumbered_example : AllNumbered accepted
Served-AllNumbered_example = Served-AllNumbered plain accepted-Served
