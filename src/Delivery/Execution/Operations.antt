-- ===== src/Delivery/Execution/Operations.antt =====
-- Calls of the methods of `Execution` (domain/models.py) as data, and runs of them. A call that
-- raises leaves the execution alone, as each method raises before its first assignment.
use mvp_master.Base.{ℕ, ◌+◌, ◌≡◌, arith, suc, List, [], ◌∷◌, ◌≡◌}
use mvp_master.Exec.{Result, ok, err}
use mvp_master.Contracts.{ExternalReference}
use mvp_master.Delivery.Models.{Usage, DeliveryError, Execution}
use mvp_master.Delivery.Execution

pub data Operation : Type 0 where
  approve start_provisioning start_planning start_building start_verification : Operation
  request_repair start_delivery : Operation
  deliver : ExternalReference → Operation
  record_usage : Usage → Operation
  request_cancellation cancel fail : Operation

unfoldable pub apply : Operation → Execution → Result DeliveryError Execution
unfolding Execution.approve Execution.start_provisioning Execution.start_planning
    Execution.start_building Execution.start_verification Execution.request_repair
    Execution.start_delivery Execution.deliver Execution.record_usage Execution.request_cancellation
    Execution.cancel Execution.fail
apply approve = Execution.approve
apply start_provisioning = Execution.start_provisioning
apply start_planning = Execution.start_planning
apply start_building = Execution.start_building
apply start_verification = Execution.start_verification
apply request_repair = Execution.request_repair
apply start_delivery = Execution.start_delivery
apply (deliver r) = Execution.deliver r
apply (record_usage u) = Execution.record_usage u
apply request_cancellation = Execution.request_cancellation
apply cancel = Execution.cancel
apply fail = Execution.fail

abbrev pub settle : Execution → Result DeliveryError Execution → Execution
settle e (ok e') = e'
settle e (err x) = e

unfoldable pub run : List Operation → Execution → Execution
run [] e = e
run (op ∷ ops) e = run ops (settle e (apply op e))

-- How many calls of a run succeed.
abbrev pub one_more : {A : Type 0} → Result DeliveryError A → ℕ → ℕ
one_more (ok a) n = suc n
one_more (err x) n = n

unfoldable pub successes : List Operation → Execution → ℕ
successes [] e = 0
successes (op ∷ ops) e = one_more (apply op e) (successes ops (settle e (apply op e)))

pub one_more_lem :
    {A : Type 0} (r : Result DeliveryError A) (n : ℕ) → one_more r n ≡ n + one_more r 0
one_more_lem (ok a) n = omega arith
one_more_lem (err x) n = omega arith

-- The calls of a run that succeed, in order.
abbrev pub keep_call :
    {A : Type 0} → Operation → Result DeliveryError A → List Operation → List Operation
keep_call op (ok a) l = op ∷ l
keep_call op (err x) l = l

unfoldable pub succeeded : List Operation → Execution → List Operation
succeeded [] e = []
succeeded (op ∷ ops) e = keep_call op (apply op e) (succeeded ops (settle e (apply op e)))
