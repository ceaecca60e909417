-- ===== src/Delivery/Service/Tenancy.antt =====
-- Calls of `DeliveryService` and the executions of other organizations.
use mvp_master.Base.{String, ◌≡◌, ◌≢◌, some, arith, nat_eq, pair_eq, Option-cases, inl, inr}
use mvp_master.Exec.{err}
use mvp_master.Dict.{get, get-put}
use mvp_master.Contracts.{Uuid, Time}
use mvp_master.Delivery.Models.{Execution, lookup_error}
use mvp_master.Delivery.Execution.Operations.{Operation, settle, apply}
use mvp_master.Delivery.Store.{Store}
use mvp_master.Delivery.Store.Index.{IsIndexed}
use mvp_master.Delivery.Service.{approve_execution, cancel_execution}

-- Approving and cancelling another organization's execution is answered as if it did not exist,
-- and changes nothing.
pub foreign_refused :
    (s : Store) (e : Execution) (v : Uuid) (n : Time) (o x : Uuid) (a : String)
    → get s.executions x ≡ some e
    → e.organization_id ≢ o
    → (approve_execution v n o x a s ≡ (err lookup_error, s))
      × (cancel_execution o x a s ≡ (err lookup_error, s))
unfolding approve_execution cancel_execution apply
foreign_refused s e v n o x a found foreign = ground arith

-- In a store whose keys agree with its executions, whatever execution is approved or cancelled
-- for `o`, another organization's stays as it is.
pub foreign_untouched :
    (s : Store) (v : Uuid) (n : Time) (o x : Uuid) (a : String) (k : Uuid) (e : Execution)
    → IsIndexed s
    → get s.executions k ≡ some e
    → e.organization_id ≢ o
    → (get (approve_execution v n o x a s).1.executions k ≡ some e)
      × (get (cancel_execution o x a s).1.executions k ≡ some e)
unfolding approve_execution cancel_execution apply
foreign_untouched s v n o x a k e h found foreign = elim (Option-cases (get s.executions x)) [
  | inl missing ↦ ground arith
  | inr (d, there) ↦ ground (
    arith,
    h.keyed x d there,
    get-put s.executions d.id (settle d (apply Operation.approve d)) k,
    get-put s.executions d.id (settle d (apply Operation.request_cancellation d)) k,
  )
]
