-- ===== src/Delivery/Store/Index.antt =====
-- The keys of the store (adapters/memory.py): the ids of executions, and of their work items.
use mvp_master.Base.{◌≡◌, ◌⊎◌, none, some, arith, ◌==◌, nat_eq, pair_eq, Bool-cases, inl, inr}
use mvp_master.Dict.{get, get-put}
use mvp_master.Contracts.{Uuid}
use mvp_master.Delivery.Models.{Execution}
use mvp_master.Delivery.Store.{Store, empty, add_execution, update_execution}

pub record IsIndexed (s : Store) : Type 0 where
  pub keyed : (k : Uuid) (e : Execution) → get s.executions k ≡ some e → e.id ≡ k
  pub indexed :
      (k : Uuid) (e : Execution)
      → get s.executions k ≡ some e
      → get s.work_item_executions (e.organization_id, e.work_item_id) ≡ some k
  pub backed :
      (o w k : Uuid)
      → get s.work_item_executions (o, w) ≡ some k
      → (e : Execution) × (get s.executions k ≡ some e)
        × (e.organization_id ≡ o)
        × (e.work_item_id ≡ w)

pub empty-IsIndexed : IsIndexed empty
unfolding get
empty-IsIndexed = record { keyed = λ k e h. cc; indexed = λ k e h. cc; backed = λ o w k h. cc }

-- A new execution under a fresh id.
module _ (s : Store) (x : Execution) (fresh : get s.executions x.id ≡ none) (h : IsIndexed s) where
  abbrev after : Store
  after = (add_execution x s).1

  add-keyed : (k : Uuid) (e : Execution) → get after.executions k ≡ some e → e.id ≡ k
  unfolding add_execution
  add-keyed k e p = ground (arith, get-put s.executions x.id x k, h.keyed k e)

  add-indexed :
      (k : Uuid) (e : Execution)
      → get after.executions k ≡ some e
      → get after.work_item_executions (e.organization_id, e.work_item_id) ≡ some k
  unfolding add_execution
  add-indexed k e p = ground (
    arith,
    get-put s.executions x.id x k,
    h.indexed k e,
    get-put s.work_item_executions (x.organization_id, x.work_item_id) x.id
        (e.organization_id, e.work_item_id),
  )

  -- A key that was there before names the execution that it named.
  kept :
      (o w k : Uuid)
      → get s.work_item_executions (o, w) ≡ some k
      → (e : Execution) × (get after.executions k ≡ some e)
        × (e.organization_id ≡ o)
        × (e.work_item_id ≡ w)
  unfolding add_execution
  kept o w k p =
      let (e, found, same_o, same_w) = h.backed o w k p in
      (e, ground (arith, get-put s.executions x.id x k), same_o, same_w)

  new_key :
      (o w k : Uuid)
      → get after.work_item_executions (o, w) ≡ some k
      → (get s.work_item_executions (o, w) ≡ some k)
        ⊎ ((get after.executions k ≡ some x) × (x.organization_id ≡ o) × (x.work_item_id ≡ w))
  unfolding add_execution
  new_key o w k p = ground (
    arith,
    get-put s.executions x.id x k,
    get-put s.work_item_executions (x.organization_id, x.work_item_id) x.id (o, w),
  )

  pub add_execution-IsIndexed : IsIndexed after
  add_execution-IsIndexed = record {
    keyed = add-keyed;
    indexed = add-indexed;
    backed = λ o w k p. elim (new_key o w k p) [
      | inl old ↦ kept o w k old
      | inr (found, same_o, same_w) ↦ (x, found, same_o, same_w)
    ];
  }

-- A new version of an execution that is there, with the same identity.
module _ (s : Store) (x y : Execution) (there : get s.executions x.id ≡ some y)
    (same_o : x.organization_id ≡ y.organization_id) (same_w : x.work_item_id ≡ y.work_item_id)
    (h : IsIndexed s) where
  abbrev updated : Store
  updated = (update_execution x s).1

  update-keyed : (k : Uuid) (e : Execution) → get updated.executions k ≡ some e → e.id ≡ k
  unfolding update_execution
  update-keyed k e p = ground (arith, get-put s.executions x.id x k, h.keyed k e)

  update-indexed :
      (k : Uuid) (e : Execution)
      → get updated.executions k ≡ some e
      → get updated.work_item_executions (e.organization_id, e.work_item_id) ≡ some k
  unfolding update_execution
  update-indexed k e p =
      ground (arith, get-put s.executions x.id x k, h.indexed k e, h.indexed x.id y)

  backed_by :
      (o w k : Uuid) (e : Execution)
      → get s.executions k ≡ some e
      → e.organization_id ≡ o
      → e.work_item_id ≡ w
      → (e' : Execution) × (get updated.executions k ≡ some e')
        × (e'.organization_id ≡ o)
        × (e'.work_item_id ≡ w)
  unfolding update_execution
  backed_by o w k e found eo ew = elim (Bool-cases (x.id == k)) [
    | inl p ↦ (x, ground (arith, get-put s.executions x.id x k), ground arith, ground arith)
    | inr p ↦ (e, ground (arith, get-put s.executions x.id x k), eo, ew)
  ]

  pub update_execution-IsIndexed : IsIndexed updated
  unfolding update_execution
  update_execution-IsIndexed = record {
    keyed = update-keyed;
    indexed = update-indexed;
    backed = λ o w k p. let (e, found, eo, ew) = h.backed o w k p in backed_by o w k e found eo ew;
  }
