-- ===== src/Delivery/Service/Calls.antt =====
-- The calls of `DeliveryService` as data, so that histories of calls can be spoken of. Each
-- carries what the generators and the clock return to it.
use mvp_master.Base.{String, ◌≡◌, none, List, ⊤, nat_eq}
use mvp_master.Exec.{discard}
use mvp_master.Dict.{get}
use mvp_master.Contracts.{Uuid, Time}
use mvp_master.Delivery.Configuration.{AgentProviderConfiguration}
use mvp_master.Delivery.Store.{Store, Action}
use mvp_master.Delivery.Service
use mvp_master.Delivery.Service.{ReadyWorkItem}

pub data Call : Type 0 where
  create_provider_configuration : String → AgentProviderConfiguration → Call
  create_runner_enrollment : String → Uuid → Time → Uuid → String → Uuid → Call
  enroll_runner : Time → Time → Time → String → Uuid → String → String → List String → Call
  accept_ready_work_item : Uuid → Uuid → Time → ReadyWorkItem → Call
  approve_execution : Uuid → Time → Uuid → Uuid → String → Call
  cancel_execution : Uuid → Uuid → String → Call

-- The identifiers that a call draws are not in use.
abbrev pub IsFresh : Call → Store → Type 0
IsFresh (accept_ready_work_item execution_id event_id now w) s =
    get s.executions execution_id ≡ none
IsFresh _ s = ⊤

module _ (hash : String → String) where
  -- A call for its effect: what it raised, and the store after it.
  unfoldable pub serve : Call → Action ⊤
  serve (create_provider_configuration a c) = discard (Service.create_provider_configuration a c)
  serve (create_runner_enrollment t r n o a p) =
      discard (Service.create_runner_enrollment hash t r n o a p)
  serve (enroll_runner n u l c i t m k) = discard (Service.enroll_runner hash n u l c i t m k)
  serve (accept_ready_work_item x v n w) = discard (Service.accept_ready_work_item x v n w)
  serve (approve_execution v n o x a) = discard (Service.approve_execution v n o x a)
  serve (cancel_execution o x a) = discard (Service.cancel_execution o x a)

  -- What a history of calls, with fresh identifiers, makes of a store.
  pub data Served (s : Store) : Store → Type 0 where
    here : Served s s
    next : {t : Store} → Served s t → (c : Call) → IsFresh c t → Served s (serve c t).1
