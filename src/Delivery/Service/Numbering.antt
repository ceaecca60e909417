-- ===== src/Delivery/Service/Numbering.antt =====
-- The numbers of events under histories of calls of `DeliveryService`.
use mvp_master.Base.{
  String, ◌≡◌, refl, ◌⊎◌, inl, inr, none, some, List, [], ◌∷◌, arith, nat_eq, pair_eq, Option-cases,
}
use mvp_master.Dict.{get}
use mvp_master.Contracts.{Uuid, Time, Details, uuid, text}
use mvp_master.Delivery.Models.{ExecutionEvent, approval, Execution}
use mvp_master.Delivery.Configuration.{AgentProviderConfiguration}
use mvp_master.Delivery.Store.{Store, empty, events_of, append_event, next_event_sequence}
use mvp_master.Delivery.Store.Events.{AllNumbered, append_event-AllNumbered}
use mvp_master.Delivery.Service
use mvp_master.Delivery.Service.{ReadyWorkItem}
use mvp_master.Delivery.Service.Calls.{Call, serve, Served, here, next}

-- A call appends one event with the next number, or none.
data Appends (s t : Store) : Type 0 where
  nothing : t.events ≡ s.events → Appends s t
  one :
      (ev : ExecutionEvent)
      → ev.sequence ≡ next_event_sequence s ev.execution_id
      → t.events ≡ (append_event ev s).1.events
      → Appends s t

-- The event of `_append_event` for an approval.
abbrev approval_event :
    Store → Uuid → Uuid → Time → Uuid → String → String → Details → ExecutionEvent
approval_event s event_id execution_id now organization_id name message metadata = record {
  id = event_id;
  execution_id = execution_id;
  organization_id = organization_id;
  sequence = next_event_sequence s execution_id;
  kind = approval;
  name = name;
  message = message;
  occurred_at = now;
  metadata = metadata;
}

abbrev required : Store → Uuid → Uuid → Time → ReadyWorkItem → ExecutionEvent
required s x v n w =
    approval_event s v x n w.organization_id "execution.approval_required"
      "Execution is waiting for reviewer approval." (("correlation_id", uuid w.correlation_id) ∷ [])

accept_events :
    (s : Store) (x v : Uuid) (n : Time) (w : ReadyWorkItem)
    → ((Service.accept_ready_work_item x v n w s).1.events ≡ s.events)
      ⊎ ((Service.accept_ready_work_item x v n w s).1.events
          ≡ (append_event (required s x v n w) s).1.events)
unfolding Service.accept_ready_work_item append_event next_event_sequence
accept_events s x v n w = ground arith

approve_events :
    (s : Store) (v : Uuid) (n : Time) (o x : Uuid) (a : String) (e : Execution)
    → get s.executions x ≡ some e
    → ((Service.approve_execution v n o x a s).1.events ≡ s.events)
      ⊎ ((Service.approve_execution v n o x a s).1.events
          ≡ (append_event
              (approval_event s v e.id n e.organization_id "execution.approved"
                "Execution was approved and queued."
                (("actor_subject", text a) ∷ []))
              s).1.events)
unfolding Service.approve_execution append_event next_event_sequence
approve_events s v n o x a e found = ground arith

approve_no_events :
    (s : Store) (v : Uuid) (n : Time) (o x : Uuid) (a : String)
    → get s.executions x ≡ none
    → (Service.approve_execution v n o x a s).1.events ≡ s.events
unfolding Service.approve_execution
approve_no_events s v n o x a missing = ground arith

other_events :
    (hash : String → String) (s : Store)
    → ((a : String) (c : AgentProviderConfiguration)
        → (Service.create_provider_configuration a c s).1.events ≡ s.events)
      × ((t : String) (r : Uuid) (n : Time) (o : Uuid) (a : String) (p : Uuid)
          → (Service.create_runner_enrollment hash t r n o a p s).1.events ≡ s.events)
      × ((n u l : Time) (c : String) (i : Uuid) (t m : String) (k : List String)
          → (Service.enroll_runner hash n u l c i t m k s).1.events ≡ s.events)
      × ((o x : Uuid) (a : String) → (Service.cancel_execution o x a s).1.events ≡ s.events)
unfolding Service.create_provider_configuration Service.create_runner_enrollment
    Service.enroll_runner Service.cancel_execution
other_events hash s = (
  λ a c. ground arith,
  λ t r n o a p. ground arith,
  λ n u l c i t m k. ground arith,
  λ o x a. ground arith,
)

serve-Appends : (hash : String → String) (c : Call) (s : Store) → Appends s (serve hash c s).1
unfolding serve
serve-Appends hash (Call.create_provider_configuration a c) s =
    nothing ((other_events hash s).0 a c)
serve-Appends hash (Call.create_runner_enrollment t r n o a p) s =
    nothing ((other_events hash s).1 t r n o a p)
serve-Appends hash (Call.enroll_runner n u l c i t m k) s =
    nothing ((other_events hash s).2 n u l c i t m k)
serve-Appends hash (Call.cancel_execution o x a) s = nothing ((other_events hash s).3 o x a)
serve-Appends hash (Call.accept_ready_work_item x v n w) s = elim (accept_events s x v n w) [
  | inl same ↦ nothing same
  | inr new ↦ one (required s x v n w) refl new
]
serve-Appends hash (Call.approve_execution v n o x a) s = elim (Option-cases (get s.executions x)) [
  | inl missing ↦ nothing (approve_no_events s v n o x a missing)
  | inr (e, found) ↦ elim (approve_events s v n o x a e found) [
    | inl same ↦ nothing same
    | inr new ↦
        one
          (approval_event s v e.id n e.organization_id "execution.approved"
            "Execution was approved and queued." (("actor_subject", text a) ∷ []))
          refl new
  ]
]

Appends-AllNumbered : (s t : Store) → Appends s t → AllNumbered s → AllNumbered t
unfolding events_of
Appends-AllNumbered s t (nothing same) h = rw same h
Appends-AllNumbered s t (one ev p same) h = rw same (append_event-AllNumbered s ev p h)

empty-AllNumbered : AllNumbered empty
unfolding events_of get
empty-AllNumbered k = tt

-- After any history of calls, with fresh identifiers, from the empty store, the events of every
-- execution are numbered 1, 2, 3 and so on, in the order in which they were appended.
pub Served-AllNumbered : (hash : String → String) {t : Store} → Served hash empty t → AllNumbered t
Served-AllNumbered hash here = empty-AllNumbered
Served-AllNumbered hash (next {t} r c fresh) =
    Appends-AllNumbered t (serve hash c t).1 (serve-Appends hash c t) (Served-AllNumbered hash r)
