-- ===== src/Delivery/Service/Atomicity.antt =====
-- Calls of `DeliveryService` that raise; the memory store has no transactions.
use mvp_master.Base.{String, ◌≡◌, arith}
use mvp_master.Exec.{err}
use mvp_master.Delivery.Models.{DeliveryError}
use mvp_master.Delivery.Store.{Store}
use mvp_master.Delivery.Service
use mvp_master.Delivery.Service.Calls.{Call, serve}

-- A call that raises leaves the store as it was.
pub serve_error_unchanged :
    (hash : String → String) (c : Call) (s : Store) (x : DeliveryError)
    → (serve hash c s).0 ≡ err x
    → (serve hash c s).1 ≡ s
unfolding serve Service.create_provider_configuration Service.create_runner_enrollment
    Service.enroll_runner Service.accept_ready_work_item Service.approve_execution
    Service.cancel_execution
serve_error_unchanged hash c s x h = ground arith
