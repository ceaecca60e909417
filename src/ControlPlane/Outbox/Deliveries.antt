-- ===== src/ControlPlane/Outbox/Deliveries.antt =====
-- What `publish_batch` (entrypoints/outbox.py of the control plane) does to an event that was added.
use mathlib.Core.Path.{subst}
use mvp_master.Base.{
  take, ℕ, zero, suc, ◌+◌, ◌≡◌, false, Option, none, some, List, [], ◌∷◌, ◌==◌, nat_eq, leb, ⊤,
  arith, Each, ◌⊎◌, inl, inr, Bool-cases, eq_refl, Each-weaken,
}
use mvp_master.Exec.{◌>>=◌, pure, Exec, Result, ok, err, Result-cases, bind-holds}
use mvp_master.Dict.{get, values, get-put, get-remove}
use mvp_master.Dict.Keyed.{IsKeyed, values-stored}
use mvp_master.Contracts.{Uuid, Time}
use mvp_master.ControlPlane.Store.{Event}
use mvp_master.ControlPlane.Outbox.{
  OutboxRow, OutboxRoutingRow, Outbox, order_by_event_id, routes_of, own_row, route_found,
  publish_route, publish_each, publish_batch, insert_route, close,
}

abbrev pub route_id : OutboxRoutingRow → Uuid
route_id r = r.event_id

-- The primary key of the routing table
abbrev pub IsRouted : Outbox → Type 0
IsRouted db = IsKeyed route_id db.routing

-- The event waits in the tables to be published.
abbrev pub Waits : Event → Outbox → Type 0
Waits e db =
    (get db.routing e.id ≡ some (record { event_id = e.id; organization_id = e.organization_id }))
    × (row : OutboxRow) × (get db.rows e.id ≡ some row)
    × (row.event ≡ e)

-- What is used of the broker: it has an event after it has accepted it, and loses none.
pub record Broker (E S : Type 0) : Type 1 where
  pub publish : Event → Exec E S ⊤
  pub Has : S → Event → Type 0
  pub accepted : (e : Event) (s : S) → (publish e s).0 ≡ ok tt → Has (publish e s).1 e
  pub kept : (e e' : Event) (s : S) → Has s e → Has (publish e' s).1 e

module _ (P : OutboxRoutingRow → Type 0) where
  insert_route-Each :
      (r : OutboxRoutingRow) (l : List OutboxRoutingRow)
      → P r
      → Each P l
      → Each P (insert_route r l)
  insert_route-Each r [] p h = (p, tt)
  insert_route-Each r (q ∷ l) p h = elim (Bool-cases (leb r.event_id q.event_id)) [
    | inl before ↦ rw before (p, h)
    | inr after ↦ rw after (h.0, insert_route-Each r l p h.1)
  ]

  order_by-Each : (l : List OutboxRoutingRow) → Each P l → Each P (order_by_event_id l)
  unfolding order_by_event_id
  order_by-Each [] h = tt
  order_by-Each (r ∷ l) h = insert_route-Each r (order_by_event_id l) h.0 (order_by-Each l h.1)

  take-Each : (n : ℕ) (l : List OutboxRoutingRow) → Each P l → Each P (take n l)
  take-Each zero l h = tt
  take-Each (suc n) [] h = tt
  take-Each (suc n) (r ∷ l) h = (h.0, take-Each n l h.1)

-- The routes of a batch are rows of the table.
pub routes-stored :
    (db : Outbox) → IsRouted db → Each (λ r. get db.routing r.event_id ≡ some r) (routes_of db)
unfolding routes_of
routes-stored db h =
    let P = λ (r : OutboxRoutingRow). get db.routing r.event_id ≡ some r in
    take-Each P 100 (order_by_event_id (values db.routing)) (
      order_by-Each P (values db.routing)
        (values-stored route_id db.routing db.routing h (λ k v p. p)))

module _ {E S : Type 0} (broker : Broker E S) (e : Event) where
  -- The event waits, or has been published.
  abbrev pub Safe : Outbox × S → Type 0
  Safe w = Waits e w.0 ⊎ broker.Has w.1 e

  -- A round for another event leaves the event waiting.
  route_other :
      (now : Time) (k : Uuid) (found : Option OutboxRow) (db : Outbox) (s : S)
      → (k == e.id) ≡ false
      → Waits e db
      → Waits e (route_found broker.publish now k found (db, s)).1.0
  route_other now k none db s other (routed, row, stored, same) =
      (ground (arith, get-remove db.routing k e.id), row, stored, same)
  route_other now k (some x) db s other (routed, row, stored, same) =
      elim (Result-cases (broker.publish x.event s).0) [
        | inr (f, failed) ↦ rw (failed, route_found) (routed, row, stored, same)
        | inl (_, sent) ↦
            rw (sent, route_found)
              (
                ground (arith, get-remove db.routing k e.id),
                row,
                ground (arith, get-put db.rows k (record x { published_at = some now }) e.id),
                same,
              )
      ]

  -- A round for the event publishes it, or fails.
  route_own :
      (now : Time) (row : OutboxRow) (db : Outbox) (s : S)
      → row.event ≡ e
      → Waits e db
      → Safe (route_found broker.publish now e.id (some row) (db, s)).1
  route_own now row db s same waits = elim (Result-cases (broker.publish row.event s).0) [
    | inr (f, failed) ↦ rw (failed, route_found) (inl waits)
    | inl (done, sent) ↦
        let has : broker.Has (broker.publish row.event s).1 row.event =
          broker.accepted row.event s (sent) in
        rw (sent, route_found)
          (inr (subst (λ x. broker.Has (broker.publish row.event s).1 x) same has))
  ]

  route_kept :
      (now : Time) (k : Uuid) (found : Option OutboxRow) (w : Outbox × S)
      → broker.Has w.1 e
      → broker.Has (route_found broker.publish now k found w).1.1 e
  route_kept now k none w has = has
  route_kept now k (some x) w has = elim (Result-cases (broker.publish x.event w.1).0) [
    | inr (f, failed) ↦ rw (failed, route_found) (broker.kept e x.event w.1 has)
    | inl (_, sent) ↦ rw (sent, route_found) (broker.kept e x.event w.1 has)
  ]

  publish_route-Safe :
      (now : Time) (route : OutboxRoutingRow) (w : Outbox × S)
      → (route.event_id ≡ e.id → route.organization_id ≡ e.organization_id)
      → Safe w
      → Safe (publish_route broker.publish now route w).1
  unfolding publish_route
  publish_route-Safe now route (db, s) own (inl h) = elim (Bool-cases (route.event_id == e.id)) [
    | inr other ↦ inl (
        route_other now route.event_id (own_row route.organization_id (get db.rows route.event_id))
          db s other h)
    | inl same ↦
        let k : route.event_id ≡ e.id = ground (arith, nat_eq.beq_iff route.event_id e.id) in
        let row = h.1 in
        let o = own k in
        let mine : own_row route.organization_id (get db.rows route.event_id) ≡ some row =
          ground (arith, k, h.2, h.3, eq_refl e.organization_id) in
        rw mine (rw k (route_own now row db s h.3 h))
  ]
  publish_route-Safe now route (db, s) own (inr h) = inr (
      route_kept now route.event_id (own_row route.organization_id (get db.rows route.event_id))
        (db, s) h)

  publish_each-Safe :
      (times : Uuid → Time) (routes : List OutboxRoutingRow) (w : Outbox × S)
      → Each (λ r. r.event_id ≡ e.id → r.organization_id ≡ e.organization_id) routes
      → Safe w
      → Safe (publish_each broker.publish times routes w).1
  unfolding publish_each
  publish_each-Safe times [] w own h = h
  publish_each-Safe times (r ∷ l) w own h =
      bind-holds Safe (publish_route broker.publish (times r.event_id) r)
        (λ n. publish_each broker.publish times l >>= λ m. pure (n + m)) w
        (publish_route-Safe (times r.event_id) r w own.0 h)
        (λ n t safe.
          bind-holds Safe (publish_each broker.publish times l) (λ m. pure (n + m)) t
            (publish_each-Safe times l t own.1 safe) (λ m u safe'. safe'))

  publish_each_kept :
      (times : Uuid → Time) (routes : List OutboxRoutingRow) (w : Outbox × S)
      → broker.Has w.1 e
      → broker.Has (publish_each broker.publish times routes w).1.1 e
  unfolding publish_each publish_route
  publish_each_kept times [] w h = h
  publish_each_kept times (r ∷ l) w h =
      bind-holds (λ t. broker.Has t.1 e) (publish_route broker.publish (times r.event_id) r)
        (λ n. publish_each broker.publish times l >>= λ m. pure (n + m)) w
        (route_kept (times r.event_id) r.event_id
          (own_row r.organization_id (get w.0.rows r.event_id)) w h)
        (λ n t has.
          bind-holds (λ u. broker.Has u.1 e) (publish_each broker.publish times l)
            (λ m. pure (n + m)) t (publish_each_kept times l t has) (λ m u has'. has'))

  routes-own :
      (db : Outbox)
      → IsRouted db
      → Waits e db
      → Each (λ r. r.event_id ≡ e.id → r.organization_id ≡ e.organization_id) (routes_of db)
  routes-own db h waits =
      Each-weaken (λ r. get db.routing r.event_id ≡ some r)
        (λ r. r.event_id ≡ e.id → r.organization_id ≡ e.organization_id) (routes_of db)
        (λ r there same. ground (arith, waits.0)) (routes-stored db h)

  close-Safe :
      (db : Outbox) (r : Result E ℕ) (commit : Result E ⊤) (w : Outbox × S)
      → Safe w
      → Safe (db, w.1)
      → Safe (close broker.publish db r commit w).1
  close-Safe db (err f) commit w after before = before
  close-Safe db (ok n) (err f) w after before = before
  close-Safe db (ok n) (ok _) w after before = after

  -- A batch, whatever fails in it, leaves an event waiting or has published it.
  pub publish_batch-Safe :
      (times : Uuid → Time) (commit : Result E ⊤) (w : Outbox × S)
      → IsRouted w.0
      → Safe w
      → Safe (publish_batch broker.publish times commit w).1
  unfolding publish_batch
  publish_batch-Safe times commit (db, s) h (inl waits) =
      let (r, w) = publish_each broker.publish times (routes_of db) (db, s) in
      close-Safe db r commit w
        (publish_each-Safe times (routes_of db) (db, s) (routes-own db h waits) (inl waits))
        (inl waits)
  publish_batch-Safe times commit (db, s) h (inr has) =
      let (r, w) = publish_each broker.publish times (routes_of db) (db, s) in
      let kept = publish_each_kept times (routes_of db) (db, s) has in
      close-Safe db r commit w (inr kept) (inr kept)
