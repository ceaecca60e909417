-- ===== src/Delivery/Service/Histories.antt =====
-- Histories of calls of `DeliveryService` (application/service.py) from the empty store.
use mathlib.Core.Path.{subst}
use mvp_master.Base.{
  String, ◌≡◌, ◌≤◌, ◌⊎◌, true, false, none, some, arith, ◌==◌, nat_eq, pair_eq, is_some, Bool-cases,
  inl, inr,
}
use mvp_master.Dict.{get, put, get-put}
use mvp_master.Contracts.{Uuid}
use mvp_master.Delivery.Models.{Execution, awaiting_approval, queued, pending, approved}
use mvp_master.Delivery.Execution.Operations.{Operation, apply, settle}
use mvp_master.Delivery.Store.{Store, empty, add_execution, update_execution}
use mvp_master.Delivery.Store.Index.{IsIndexed, empty-IsIndexed}
use mvp_master.Delivery.Service.{ReadyWorkItem, new_execution}
use mvp_master.Delivery.Service.Calls.{serve, Served, here, next}
use mvp_master.Delivery.Service.Effects.{
  OfService, Effect, unchanged, added, called, serve-Effect, Effect-IsIndexed,
}

-- The statuses that the service alone gives
abbrev pub IsWaiting : Execution → Type 0
IsWaiting e = (e.status ≡ awaiting_approval) × (e.approval_status ≡ pending)

abbrev pub IsQueued : Execution → Type 0
IsQueued e = (e.status ≡ queued) × (e.approval_status ≡ approved)

-- What every stored execution satisfies before its workflow works on it.
pub record IsOpen (e : Execution) : Type 0 where
  pub waits_or_queued : IsWaiting e ⊎ IsQueued e
  pub waiting_version :
      e.status ≡ awaiting_approval → e.cancellation_requested ≡ false → e.version ≡ 1
  pub queued_version : e.status ≡ queued → e.cancellation_requested ≡ false → e.version ≡ 2
  pub requested_version : e.cancellation_requested ≡ true → 2 ≤ e.version
  pub unused :
      (e.attempt_count ≡ 0) × (e.turn_count ≡ 0) × (e.duration_seconds ≡ 0) × (e.cost_minor ≡ 0)
  pub unreferenced : e.result_reference ≡ none

abbrev pub AllOpen : Store → Type 0
AllOpen s = (k : Uuid) (e : Execution) → get s.executions k ≡ some e → IsOpen e

new_execution-IsOpen : (k : Uuid) (w : ReadyWorkItem) → IsOpen (new_execution k w)
new_execution-IsOpen k w = ground arith

settle-IsOpen :
    (op : Operation) (e : Execution) → OfService op → IsOpen e → IsOpen (settle e (apply op e))
unfolding apply
settle-IsOpen op e asked h = ground arith

put-AllOpen :
    (s : Store) (x : Execution)
    → IsOpen x
    → AllOpen s
    → AllOpen (record s { executions = put s.executions x.id x })
put-AllOpen s x hx h k e p = elim (Bool-cases (x.id == k)) [
  | inl q ↦ subst IsOpen (ground (arith, get-put s.executions x.id x k)) hx
  | inr q ↦ h k e (ground (arith, get-put s.executions x.id x k))
]

add-AllOpen : (s : Store) (x : Execution) → IsOpen x → AllOpen s → AllOpen (add_execution x s).1
unfolding add_execution
add-AllOpen s x hx h k e p =
    elim (Bool-cases (is_some (get s.work_item_executions (x.organization_id, x.work_item_id)))) [
      | inl q ↦ h k e (ground arith)
      | inr q ↦ put-AllOpen s x hx h k e (ground arith)
    ]

Effect-AllOpen : (s t : Store) → Effect s t → AllOpen s → AllOpen t
unfolding update_execution
Effect-AllOpen s t (unchanged same) h = rw same.executions h
Effect-AllOpen s t (added k w fresh same) h =
    rw same.executions (add-AllOpen s (new_execution k w) (new_execution-IsOpen k w) h)
Effect-AllOpen s t (called op e asked found same) h =
    rw same.executions
      (put-AllOpen s (settle e (apply op e)) (settle-IsOpen op e asked (h e.id e found)) h)

module _ (hash : String → String) where
  -- After any history of calls, with fresh identifiers, from the empty store, the keys agree with
  -- the executions.
  pub Served-IsIndexed : {t : Store} → Served hash empty t → IsIndexed t
  Served-IsIndexed here = empty-IsIndexed
  Served-IsIndexed (next {t} r c fresh) =
      let h = Served-IsIndexed r in
      Effect-IsIndexed t (serve hash c t).1 (serve-Effect hash c t h fresh) h

  empty-AllOpen : AllOpen empty
  unfolding get
  empty-AllOpen k e p = cc

  Served-AllOpen : {t : Store} → Served hash empty t → AllOpen t
  Served-AllOpen here = empty-AllOpen
  Served-AllOpen (next {t} r c fresh) =
      Effect-AllOpen t (serve hash c t).1 (serve-Effect hash c t (Served-IsIndexed r) fresh)
        (Served-AllOpen r)

  -- After any history of calls, with fresh identifiers, from the empty store, each stored
  -- execution either waits for approval, which is pending, or is queued, and approved. It has used
  -- nothing and has no reference. Without a request for cancellation its version is 1 while it waits
  -- and 2 when it is queued; with one, its version is at least 2.
  pub Served-IsOpen :
      {t : Store} (k : Uuid) (e : Execution)
      → Served hash empty t
      → get t.executions k ≡ some e
      → IsOpen e
  Served-IsOpen k e r p = Served-AllOpen r k e p

  -- After any history of calls, with fresh identifiers, from the empty store, a work item has one
  -- execution at most.
  pub one_execution_per_work_item :
      {t : Store} (j k : Uuid) (d e : Execution)
      → Served hash empty t
      → get t.executions j ≡ some d
      → get t.executions k ≡ some e
      → d.organization_id ≡ e.organization_id
      → d.work_item_id ≡ e.work_item_id
      → j ≡ k
  one_execution_per_work_item j k d e r p q same_o same_w =
      let h = Served-IsIndexed r in ground (arith, h.indexed j d p, h.indexed k e q)
