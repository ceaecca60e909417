-- ===== src/Delivery/Workflow.antt =====
-- adapters/temporal_workflow.py of the delivery service: `DeliveryWorkflow`, the long-running process
-- of an execution, between its signals and its activities. What happens to it is a sequence of
-- events in any order; `resume` is Temporal's turn to look at the condition that it waits for, and
-- signals may come before that turn.
pub mod Outcomes
use mvp_master.Base.{
  String, Bool, true, false, ◌||◌, Option, none, some, List, [], ◌∷◌, if◌then◌else◌,
}

pub data Activity : Type 0 where
  record_workflow_waiting cancel_and_cleanup_execution execute_delivery : Activity

-- Where `run` is: at one of its three activities, at its wait, or at its end.
pub data Phase : Type 0 where
  recording waiting cancelling executing broken : Phase
  returned : String → Phase

-- The three attributes, the activities started so far (the latest first), and the phase.
pub record Workflow : Type 0 where
  pub approved : Bool
  pub cancelled : Bool
  pub approval_actor : Option String
  pub activities : List Activity
  pub phase : Phase

abbrev pub started : Workflow
started = record {
  approved = false;
  cancelled = false;
  approval_actor = none;
  activities = record_workflow_waiting ∷ [];
  phase = recording;
}

-- Signals, the turn of `run`, and the end of its activity, with a result or (after the retries) not.
pub data Event : Type 0 where
  approve cancel : (actor_subject : String) → Event
  resume : Event
  completed : (result : String) → Event
  gave_up : Event

abbrev pub choose : Workflow → Workflow
choose w =
    if w.cancelled
    then record w { activities = cancel_and_cleanup_execution ∷ w.activities; phase = cancelling }
    else record w { activities = execute_delivery ∷ w.activities; phase = executing }

-- `wait_condition(lambda: self._approved or self._cancelled)` and what follows it
abbrev pub resume_at : Phase → Workflow → Workflow
resume_at waiting w = if w.approved || w.cancelled then choose w else w
resume_at _ w = w

abbrev pub after_activity : Phase → String → Phase
after_activity recording result = waiting
after_activity cancelling result = returned "CANCELLED"
after_activity executing result = returned result
after_activity p result = p

abbrev pub after_failure : Phase → Phase
after_failure waiting = waiting
after_failure (returned text) = returned text
after_failure _ = broken

unfoldable pub step : Event → Workflow → Workflow
step (approve a) w = record w { approved = true; approval_actor = some a }
step (cancel a) w = record w { cancelled = true }
step resume w = resume_at w.phase w
step (completed result) w = record w { phase = after_activity w.phase result }
step gave_up w = record w { phase = after_failure w.phase }

unfoldable pub run : List Event → Workflow → Workflow
unfolding step
run [] w = w
run (e ∷ es) w = run es (step e w)
