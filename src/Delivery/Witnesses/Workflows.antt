-- ===== src/Delivery/Witnesses/Workflows.antt =====
-- `DeliveryWorkflow` at concrete sequences of events.
use mvp_master.Base.{◌≡◌, refl, true, false, [], ◌∷◌}
use mvp_master.Delivery.Workflow.{started, step, run, completed, approve, cancel, resume, returned}
use mvp_master.Delivery.Workflow.Outcomes.{
  delivers, delivery_approved, cancelled_first, one_outcome, HasStarted,
}

delivery_approved_example :
    (run (completed "" ∷ approve "ann" ∷ resume ∷ []) started).approved ≡ true
unfolding run step
delivery_approved_example = delivery_approved (completed "" ∷ approve "ann" ∷ resume ∷ []) refl

cancelled_first_example :
    delivers
      (run
        (approve "ann" ∷ resume ∷ [])
        (run (completed "" ∷ cancel "bob" ∷ []) started)).activities
    ≡ false
unfolding run step
cancelled_first_example =
    cancelled_first (approve "ann" ∷ resume ∷ []) (run (completed "" ∷ cancel "bob" ∷ []) started)
      refl refl

one_outcome_example :
    HasStarted
      (returned "CANCELLED")
      (run (completed "" ∷ approve "ann" ∷ cancel "bob" ∷ resume ∷ completed "" ∷ []) started)
unfolding run step
one_outcome_example =
    one_outcome (completed "" ∷ approve "ann" ∷ cancel "bob" ∷ resume ∷ completed "" ∷ [])
