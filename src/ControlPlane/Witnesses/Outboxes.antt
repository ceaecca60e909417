-- ===== src/ControlPlane/Witnesses/Outboxes.antt =====
-- The outbox of the control plane at concrete inputs. The broker is a list of events.
use mvp_master.Base.{ℕ, ◌≡◌, refl, [], ◌∷◌, List, nat_eq, arith, ◌⊎◌, inl, inr, true}
use mvp_master.Exec.{ok, err}
use mvp_master.Dict.{get, put}
use mvp_master.Contracts.{Uuid, Time}
use mvp_master.ControlPlane.Store.{Event, membership, membership_changed}
use mvp_master.ControlPlane.Outbox.{Outbox, add_outbox}
use mvp_master.ControlPlane.Outbox.Deliveries.{Broker, Waits, Safe}
use mvp_master.ControlPlane.Outbox.Progress.{
  added, batch, run, run_batches, event_never_lost, events_delivered,
}

abbrev event : Uuid → Event
event k = record {
  id = k;
  time = 0;
  subject = membership 2 "ann";
  organization_id = 2;
  aggregate_version = 1;
  correlation_id = 9;
  contents = membership_changed "ann" "OWNER" true [] [];
}

-- The event is one of the list.
abbrev Holds : List Event → Event → Type 0
Holds [] e = ⊥
Holds (x ∷ l) e = (x ≡ e) ⊎ Holds l e

abbrev broker : Broker ℕ (List Event)
broker = record {
  publish = λ e l. (ok tt, e ∷ l);
  Has = Holds;
  accepted = λ e l p. inl refl;
  kept = λ e e' l h. inr h;
}

abbrev nothing : Outbox
nothing = record { rows = []; routing = [] }

abbrev times : Uuid → Time
times k = 4

event_never_lost_example : Safe broker (event 1) (
    run broker
      (batch times (err 0) ∷ added (event 2) ∷ batch times (ok tt) ∷ [])
      (add_outbox (event 1) nothing, []))
event_never_lost_example =
    event_never_lost broker (event 1)
      (batch times (err 0) ∷ added (event 2) ∷ batch times (ok tt) ∷ []) nothing []
      (tt, ((omega arith), (tt, tt))) tt

abbrev two : Outbox
two = add_outbox (event 2) (add_outbox (event 1) nothing)

events_delivered_example :
    ((run_batches broker (λ e s. refl) times 2 (two, [])).0.routing ≡ [])
    × (Waits (event 1) two → Holds (run_batches broker (λ e s. refl) times 2 (two, [])).1 (event 1))
unfolding add_outbox put get
events_delivered_example =
    events_delivered broker (λ e s. refl) (event 1) times 2 (two, []) (refl, refl, (refl, refl, tt))
      (omega arith)
