-- ===== src/Delivery/Witnesses/Executions.antt =====
-- The execution, its budget and the runtime table at concrete inputs.
use mathlib.Core.List.{Sublistᴰ}
use mvp_master.Base.{◌≡◌, refl, ◌↔◌, false, some, List, [], ◌∷◌, map, arith}
use mvp_master.Exec.{ok}
use mvp_master.Delivery.Models.{Usage, Execution, delivered}
use mvp_master.Delivery.Execution.Operations.{Operation, apply, run, succeeded}
use mvp_master.Delivery.Execution.Budget.{IsThrifty, run-IsThrifty}
use mvp_master.Delivery.Execution.Lifecycle.{
  stage, approval, provisioned, planned, built, verified, delivery, handed_over,
  delivered_needs_all, IsSound, run-IsSound,
}
use mvp_master.Delivery.Runtimes.{ensure_supported}
use mvp_master.Delivery.Runtimes.Policy.{Accepted, ensure_supported-Accepted}
use mvp_master.Delivery.Service.{new_execution}
use mvp_master.Delivery.Witnesses.Data.{item, reference}

abbrev fresh : Execution
fresh = new_execution 10 item

abbrev small : Usage
small = record { duration_seconds = 60; attempts = 1; turns = 4; cost_minor = 12 }

abbrev large : Usage
large = record { duration_seconds = 60; attempts = 3; turns = 4; cost_minor = 512 }

-- One failed verification, a repair, and the delivery; the second approval raises.
abbrev history : List Operation
history =
    Operation.approve
    ∷ Operation.approve
    ∷ Operation.start_provisioning
    ∷ Operation.start_planning
    ∷ Operation.start_building
    ∷ Operation.record_usage small
    ∷ Operation.start_verification
    ∷ Operation.request_repair
    ∷ Operation.start_building
    ∷ Operation.start_verification
    ∷ Operation.start_delivery
    ∷ Operation.deliver reference
    ∷ []

run-IsThrifty_example : IsThrifty (run history fresh) × ((run history fresh).budget ≡ fresh.budget)
run-IsThrifty_example = run-IsThrifty history fresh (omega arith)

history_delivers : (run history fresh).status ≡ delivered
unfolding run apply
history_delivers = refl

delivered_needs_all_example :
    Sublistᴰ
      (approval ∷ provisioned ∷ planned ∷ built ∷ verified ∷ delivery ∷ handed_over ∷ [])
      (map stage (succeeded history fresh))
delivered_needs_all_example = delivered_needs_all history fresh refl history_delivers

run-IsSound_example : IsSound (run history fresh)
run-IsSound_example = run-IsSound history fresh (ground arith)

ensure_supported-Accepted_example :
    (ensure_supported "claude-code-cli" "zhipu-glm" "LOCAL_SESSION" false (some "glm-5.2") ≡ ok tt)
    ↔ Accepted false "claude-code-cli" "zhipu-glm" "LOCAL_SESSION" "glm-5.2"
ensure_supported-Accepted_example =
    ensure_supported-Accepted false "claude-code-cli" "zhipu-glm" "LOCAL_SESSION" "glm-5.2"
