-- ===== src/Delivery/Service/Acceptance.antt =====
-- Accepting a ready work item (application/service.py).
use mvp_master.Base.{◌≡◌, none, some, arith, nat_eq, pair_eq, Option-cases, inl, inr}
use mvp_master.Exec.{ok, err}
use mvp_master.Dict.{get, get-put_self}
use mvp_master.Contracts.{Uuid, Time}
use mvp_master.Delivery.Models.{Execution, value_error}
use mvp_master.Delivery.Store.{Store, get_execution_by_work_item, get_provider_configuration}
use mvp_master.Delivery.Store.Index.{IsIndexed}
use mvp_master.Delivery.Service.{ReadyWorkItem, new_execution, accept_ready_work_item}

module _ (s : Store) (h : IsIndexed s) (x v : Uuid) (n : Time) (w : ReadyWorkItem) where
  abbrev key : Uuid × Uuid
  key = (w.organization_id, w.work_item_id)

  -- What an accepting call returns is what the store then has for the work item.
  accepted_stored :
      (e : Execution)
      → (accept_ready_work_item x v n w s).0 ≡ ok e
      → get_execution_by_work_item
          (accept_ready_work_item x v n w s).1
          w.organization_id
          w.work_item_id
        ≡ some e
  unfolding accept_ready_work_item get_execution_by_work_item
  accepted_stored e p = elim (Option-cases (get s.work_item_executions key)) [
    | inl new ↦ ground (
      arith,
      get-put_self s.executions x (new_execution x w),
      get-put_self s.work_item_executions key x,
    )
    | inr (k, old) ↦
        let (e', found, _, _) = h.backed w.organization_id w.work_item_id k old in ground arith
  ]

accept_stored :
    (s : Store) (x v : Uuid) (n : Time) (w : ReadyWorkItem) (e : Execution)
    → get_execution_by_work_item s w.organization_id w.work_item_id ≡ some e
    → accept_ready_work_item x v n w s ≡ (ok e, s)
unfolding accept_ready_work_item
accept_stored s x v n w e p = ground arith

-- In a store whose keys agree with its executions, a repeated delivery of an accepted work item,
-- with whatever identifiers and time, gets the same execution and changes nothing: no second
-- execution, event or workflow.
pub accept_twice :
    (s : Store)
    → IsIndexed s
    → (x v x' v' : Uuid) (n n' : Time) (w : ReadyWorkItem) (e : Execution)
    → (accept_ready_work_item x v n w s).0 ≡ ok e
    → accept_ready_work_item x' v' n' w (accept_ready_work_item x v n w s).1
      ≡ (ok e, (accept_ready_work_item x v n w s).1)
accept_twice s h x v x' v' n n' w e p =
    accept_stored (accept_ready_work_item x v n w s).1 x' v' n' w e
      (accepted_stored s h x v n w e p)

-- Accepting answers with what is stored, or else raises `ValueError` exactly where the provider
-- configuration is not the organization's, or else answers with a new execution that waits for
-- approval, nothing used.
pub accept_answer :
    (s : Store) (x v : Uuid) (n : Time) (w : ReadyWorkItem)
    → (accept_ready_work_item x v n w s).0
      ≡ elim (get_execution_by_work_item s w.organization_id w.work_item_id) [
        | some e ↦ ok e
        | none ↦ elim (get_provider_configuration s w.organization_id w.provider_configuration_id) [
          | none ↦ err value_error
          | some c ↦ ok (new_execution x w)
        ]
      ]
unfolding accept_ready_work_item
accept_answer s x v n w = ground arith
