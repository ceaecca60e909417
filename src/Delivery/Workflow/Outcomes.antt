-- ===== src/Delivery/Workflow/Outcomes.antt =====
-- `DeliveryWorkflow` (adapters/temporal_workflow.py) under signals at any time.
use mvp_master.Base.{◌≡◌, refl, Bool, true, false, List, [], ◌∷◌, arith, ◌⊎◌}
use mvp_master.Delivery.Workflow.{
  Activity, execute_delivery, Phase, recording, waiting, cancelling, executing, broken, Workflow,
  started, Event, step, run, cancel_and_cleanup_execution, record_workflow_waiting, returned,
}

-- Whether the delivery has been started.
abbrev pub delivers : List Activity → Bool
delivers [] = false
delivers (execute_delivery ∷ l) = true
delivers (_ ∷ l) = delivers l

abbrev IsGated : Workflow → Type 0
IsGated w = delivers w.activities ≡ true → w.approved ≡ true

step-IsGated : (e : Event) (w : Workflow) → IsGated w → IsGated (step e w)
unfolding step
step-IsGated e w h = ground arith

run-IsGated : (es : List Event) (w : Workflow) → IsGated w → IsGated (run es w)
unfolding run
run-IsGated [] w h = h
run-IsGated (e ∷ es) w h = run-IsGated es (step e w) (step-IsGated e w h)

-- A workflow that has started the delivery has been approved.
pub delivery_approved :
    (es : List Event)
    → delivers (run es started).activities ≡ true
    → (run es started).approved ≡ true
delivery_approved es = run-IsGated es started (λ h. ground arith)

step_cancelled :
    (e : Event) (w : Workflow)
    → w.cancelled ≡ true
    → delivers w.activities ≡ false
    → ((step e w).cancelled ≡ true) × (delivers (step e w).activities ≡ false)
unfolding step
step_cancelled e w c d = ground arith

-- A workflow that is cancelled before it has started the delivery never starts it, even if it is
-- approved as well.
pub cancelled_first :
    (es : List Event) (w : Workflow)
    → w.cancelled ≡ true
    → delivers w.activities ≡ false
    → delivers (run es w).activities ≡ false
unfolding run
cancelled_first [] w c d = d
cancelled_first (e ∷ es) w c d =
    let (c', d') = step_cancelled e w c d in cancelled_first es (step e w) c' d'

-- What has been started, the latest first: the cleanup after a cancellation, or the delivery after
-- an approval.
abbrev pub CleansUp : Workflow → Type 0
CleansUp w =
    (w.activities ≡ cancel_and_cleanup_execution ∷ record_workflow_waiting ∷ [])
    × (w.cancelled ≡ true)

abbrev pub Delivers : Workflow → Type 0
Delivers w = (w.activities ≡ execute_delivery ∷ record_workflow_waiting ∷ []) × (w.approved ≡ true)

-- What has been started where `run` is at a phase
abbrev pub HasStarted : Phase → Workflow → Type 0
HasStarted recording w = w.activities ≡ record_workflow_waiting ∷ []
HasStarted waiting w = w.activities ≡ record_workflow_waiting ∷ []
HasStarted cancelling w = CleansUp w
HasStarted executing w = Delivers w
HasStarted (returned text) w = (CleansUp w × (text ≡ "CANCELLED")) ⊎ Delivers w
HasStarted broken w = (w.activities ≡ record_workflow_waiting ∷ []) ⊎ (CleansUp w ⊎ Delivers w)

step-HasStarted :
    (e : Event) (w : Workflow) → HasStarted w.phase w → HasStarted (step e w).phase (step e w)
unfolding step
step-HasStarted e w h = ground arith

run-HasStarted :
    (es : List Event) (w : Workflow) → HasStarted w.phase w → HasStarted (run es w).phase (run es w)
unfolding run
run-HasStarted [] w h = h
run-HasStarted (e ∷ es) w h = run-HasStarted es (step e w) (step-HasStarted e w h)

-- After any events, a workflow has started its first activity and at most one more, by where it
-- is: none while it records or waits; the cleanup, and it is cancelled, where it cancels; the
-- delivery, and it is approved, where it executes; one of these two where it has returned, with
-- "CANCELLED" if it is the cleanup; and none or one of these two where an activity has given up.
pub one_outcome : (es : List Event) → HasStarted (run es started).phase (run es started)
one_outcome es = run-HasStarted es started refl
