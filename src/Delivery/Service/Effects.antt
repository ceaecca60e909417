-- ===== src/Delivery/Service/Effects.antt =====
-- The effect of a call of `DeliveryService` on the executions of the store.
use mathlib.Core.Path.{subst}
use mvp_master.Base.{
  sym, String, ◌≡◌, ◌⊎◌, none, some, List, arith, nat_eq, pair_eq, inl, inr, Option-cases,
}
use mvp_master.Dict.{get}
use mvp_master.Contracts.{Uuid, Time}
use mvp_master.Delivery.Models.{Execution}
use mvp_master.Delivery.Execution.Operations.{Operation, apply, settle}
use mvp_master.Delivery.Configuration.{AgentProviderConfiguration}
use mvp_master.Delivery.Store.{Store, add_execution, update_execution}
use mvp_master.Delivery.Store.Index.{IsIndexed, add_execution-IsIndexed, update_execution-IsIndexed}
use mvp_master.Delivery.Service
use mvp_master.Delivery.Service.{ReadyWorkItem, new_execution}
use mvp_master.Delivery.Service.Calls.{Call, IsFresh, serve}

pub record Same (s t : Store) : Type 0 where
  pub executions : t.executions ≡ s.executions
  pub work_items : t.work_item_executions ≡ s.work_item_executions

-- The methods that a call of the service makes on an execution
abbrev pub OfService : Operation → Type 0
OfService Operation.approve = Unit
OfService Operation.request_cancellation = Unit
OfService _ = ⊥

pub data Effect (s t : Store) : Type 0 where
  unchanged : Same s t → Effect s t
  added :
      (k : Uuid) (w : ReadyWorkItem)
      → get s.executions k ≡ none
      → Same (add_execution (new_execution k w) s).1 t
      → Effect s t
  called :
      (op : Operation) (e : Execution)
      → OfService op
      → get s.executions e.id ≡ some e
      → Same (update_execution (settle e (apply op e)) s).1 t
      → Effect s t

approve_found :
    (s : Store) (v : Uuid) (n : Time) (o x : Uuid) (a : String) (e : Execution)
    → get s.executions x ≡ some e
    → Same s (Service.approve_execution v n o x a s).1
      ⊎ Same
          (update_execution (settle e (apply Operation.approve e)) s).1
          (Service.approve_execution v n o x a s).1
unfolding Service.approve_execution apply
approve_found s v n o x a e found = ground arith

approve_missing :
    (s : Store) (v : Uuid) (n : Time) (o x : Uuid) (a : String)
    → get s.executions x ≡ none
    → Same s (Service.approve_execution v n o x a s).1
unfolding Service.approve_execution
approve_missing s v n o x a missing = ground arith

cancel_found :
    (s : Store) (o x : Uuid) (a : String) (e : Execution)
    → get s.executions x ≡ some e
    → Same s (Service.cancel_execution o x a s).1
      ⊎ Same
          (update_execution (settle e (apply Operation.request_cancellation e)) s).1
          (Service.cancel_execution o x a s).1
unfolding Service.cancel_execution apply
cancel_found s o x a e found = ground arith

cancel_missing :
    (s : Store) (o x : Uuid) (a : String)
    → get s.executions x ≡ none
    → Same s (Service.cancel_execution o x a s).1
unfolding Service.cancel_execution
cancel_missing s o x a missing = ground arith

accept-Same :
    (s : Store) (x v : Uuid) (n : Time) (w : ReadyWorkItem)
    → Same s (Service.accept_ready_work_item x v n w s).1
      ⊎ Same (add_execution (new_execution x w) s).1 (Service.accept_ready_work_item x v n w s).1
unfolding Service.accept_ready_work_item
accept-Same s x v n w = ground arith

create_provider_configuration-Same :
    (s : Store) (a : String) (c : AgentProviderConfiguration)
    → Same s (Service.create_provider_configuration a c s).1
unfolding Service.create_provider_configuration
create_provider_configuration-Same s a c = ground arith

module _ (hash : String → String) where
  enroll_runner-Same :
      (s : Store) (n u l : Time) (c : String) (i : Uuid) (t m : String) (k : List String)
      → Same s (Service.enroll_runner hash n u l c i t m k s).1
  unfolding Service.enroll_runner
  enroll_runner-Same s n u l c i t m k = ground arith

  create_runner_enrollment-Same :
      (s : Store) (t : String) (r : Uuid) (n : Time) (o : Uuid) (a : String) (p : Uuid)
      → Same s (Service.create_runner_enrollment hash t r n o a p s).1
  unfolding Service.create_runner_enrollment
  create_runner_enrollment-Same s t r n o a p = ground arith

  -- A call whose store has fresh identifiers to give has one of the three effects.
  pub serve-Effect :
      (c : Call) (s : Store) → IsIndexed s → IsFresh c s → Effect s (serve hash c s).1
  unfolding serve
  serve-Effect (Call.create_provider_configuration a c) s h f =
      unchanged (create_provider_configuration-Same s a c)
  serve-Effect (Call.create_runner_enrollment t r n o a p) s h f =
      unchanged (create_runner_enrollment-Same s t r n o a p)
  serve-Effect (Call.enroll_runner n u l c i t m k) s h f =
      unchanged (enroll_runner-Same s n u l c i t m k)
  serve-Effect (Call.accept_ready_work_item x v n w) s h f = elim (accept-Same s x v n w) [
    | inl same ↦ unchanged same
    | inr new ↦ added x w f new
  ]
  serve-Effect (Call.approve_execution v n o x a) s h f = elim (Option-cases (get s.executions x)) [
    | inl missing ↦ unchanged (approve_missing s v n o x a missing)
    | inr (e, found) ↦ elim (approve_found s v n o x a e found) [
      | inl same ↦ unchanged same
      | inr changed ↦
          called Operation.approve e tt
            (subst (λ k. get s.executions k ≡ some e) (sym (h.keyed x e found)) found) changed
    ]
  ]
  serve-Effect (Call.cancel_execution o x a) s h f = elim (Option-cases (get s.executions x)) [
    | inl missing ↦ unchanged (cancel_missing s o x a missing)
    | inr (e, found) ↦ elim (cancel_found s o x a e found) [
      | inl same ↦ unchanged same
      | inr changed ↦
          called Operation.request_cancellation e tt
            (subst (λ k. get s.executions k ≡ some e) (sym (h.keyed x e found)) found) changed
    ]
  ]

Same-IsIndexed : (s t : Store) → Same s t → IsIndexed s → IsIndexed t
Same-IsIndexed s t same h = record {
  keyed = rw same.executions h.keyed;
  indexed = rw (same.executions, same.work_items) h.indexed;
  backed = rw (same.executions, same.work_items) h.backed;
}

-- A method changes neither the identity of its execution nor whose it is.
identity_kept :
    (op : Operation) (e : Execution)
    → ((settle e (apply op e)).id ≡ e.id)
      × ((settle e (apply op e)).organization_id ≡ e.organization_id)
      × ((settle e (apply op e)).work_item_id ≡ e.work_item_id)
unfolding apply
identity_kept op e = ground arith

pub Effect-IsIndexed : (s t : Store) → Effect s t → IsIndexed s → IsIndexed t
Effect-IsIndexed s t (unchanged same) h = Same-IsIndexed s t same h
Effect-IsIndexed s t (added k w fresh same) h =
    Same-IsIndexed (add_execution (new_execution k w) s).1 t same
      (add_execution-IsIndexed s (new_execution k w) fresh h)
Effect-IsIndexed s t (called op e asked found same) h =
    let (id, org, item) = identity_kept op e in
    Same-IsIndexed (update_execution (settle e (apply op e)) s).1 t same (
      update_execution-IsIndexed s (settle e (apply op e)) e
        (subst (λ k. get s.executions k ≡ some e) (sym id) found) org item h)
