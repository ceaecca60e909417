-- ===== src/ControlPlane/Outbox/Progress.antt =====
-- The publisher's loop (`main` of entrypoints/outbox.py of the control plane) beside the service that
-- adds events: what no history of theirs loses, and when the outbox is empty.
use mathlib.Core.Path.{subst, ap}
use mvp_master.Base.{
  take, ◌∙◌, ◌-◌, ℕ, zero, suc, ◌+◌, ◌≤◌, ◌≡◌, ◌≢◌, refl, Option, none, some, List, [], ◌∷◌, nat_eq,
  ⊤, arith, Each, length, ◌⊎◌, inl, inr, Bool-cases, leb,
}
use mvp_master.Exec.{◌>>=◌, pure, bind-holds, Result, ok, err, Result-cases, bind-ok}
use mvp_master.Dict.{Dict, get, remove, values, get-put}
use mvp_master.Dict.Keyed.{put-IsKeyed, remove-IsKeyed, length-remove, length-remove_le}
use mvp_master.Contracts.{Uuid, Time}
use mvp_master.ControlPlane.Store.{Event}
use mvp_master.ControlPlane.Outbox.{
  OutboxRow, OutboxRoutingRow, Outbox, add_outbox, routes_of, own_row, route_found, publish_route,
  publish_each, publish_batch, close, insert_route, order_by_event_id, unroute, take,
  mark_published,
}
use mvp_master.ControlPlane.Outbox.Deliveries.{
  route_id, IsRouted, Waits, Broker, Safe, publish_batch-Safe, routes-stored,
}

-- A call of the service that adds an event, or a batch of the publisher, with what the database
-- answers to its commit.
pub data Step (E : Type 0) : Type 0 where
  added : Event → Step E
  batch : (Uuid → Time) → Result E ⊤ → Step E

-- A step that adds an event adds another one.
abbrev pub Avoids : {E : Type 0} → Event → Step E → Type 0
Avoids e (added e') = e'.id ≢ e.id
Avoids e (batch times commit) = Unit

module _ {E S : Type 0} (broker : Broker E S) where
  abbrev pub step : Step E → Outbox × S → Outbox × S
  step (added e) (db, s) = (add_outbox e db, s)
  step (batch times commit) w = (publish_batch broker.publish times commit w).1

  abbrev pub run : List (Step E) → Outbox × S → Outbox × S
  run [] w = w
  run (x ∷ l) w = run l (step x w)

  route_found-IsRouted :
      (now : Time) (k : Uuid) (found : Option OutboxRow) (w : Outbox × S)
      → IsRouted w.0
      → IsRouted (route_found broker.publish now k found w).1.0
  route_found-IsRouted now k none w h = remove-IsKeyed route_id w.0.routing k h
  route_found-IsRouted now k (some x) w h = elim (Result-cases (broker.publish x.event w.1).0) [
    | inr (f, failed) ↦ rw (failed, route_found) h
    | inl (_, sent) ↦ rw (sent, route_found) (remove-IsKeyed route_id w.0.routing k h)
  ]

  publish_each-IsRouted :
      (times : Uuid → Time) (routes : List OutboxRoutingRow) (w : Outbox × S)
      → IsRouted w.0
      → IsRouted (publish_each broker.publish times routes w).1.0
  unfolding publish_each publish_route
  publish_each-IsRouted times [] w h = h
  publish_each-IsRouted times (r ∷ l) w h =
      bind-holds (λ t. IsRouted t.0) (publish_route broker.publish (times r.event_id) r)
        (λ n. publish_each broker.publish times l >>= λ m. pure (n + m)) w
        (route_found-IsRouted (times r.event_id) r.event_id
          (own_row r.organization_id (get w.0.rows r.event_id)) w h)
        (λ n t routed.
          bind-holds (λ u. IsRouted u.0) (publish_each broker.publish times l) (λ m. pure (n + m)) t
            (publish_each-IsRouted times l t routed) (λ m u routed'. routed'))

  close-IsRouted :
      (db : Outbox) (r : Result E ℕ) (commit : Result E ⊤) (w : Outbox × S)
      → IsRouted db
      → IsRouted w.0
      → IsRouted (close broker.publish db r commit w).1.0
  close-IsRouted db (err f) commit w before after = before
  close-IsRouted db (ok n) (err f) w before after = before
  close-IsRouted db (ok n) (ok _) w before after = after

  step-IsRouted : (x : Step E) (w : Outbox × S) → IsRouted w.0 → IsRouted (step x w).0
  unfolding publish_batch add_outbox
  step-IsRouted (added e) w h =
      put-IsKeyed route_id w.0.routing
        (record { event_id = e.id; organization_id = e.organization_id }) h
  step-IsRouted (batch times commit) (db, s) h =
      let (r, w) = publish_each broker.publish times (routes_of db) (db, s) in
      close-IsRouted db r commit w h (publish_each-IsRouted times (routes_of db) (db, s) h)

  step-Safe :
      (e : Event) (x : Step E) (w : Outbox × S)
      → Avoids e x
      → IsRouted w.0
      → Safe broker e w
      → Safe broker e (step x w)
  unfolding add_outbox
  step-Safe e (added e') w other h (inl (routed, row, stored, same)) = inl (
    ground (
      arith,
      other,
      get-put w.0.routing e'.id (record { event_id = e'.id; organization_id = e'.organization_id })
          e.id,
      nat_eq.beq_iff e'.id e.id,
    ),
    row,
    ground (
      arith,
      other,
      get-put w.0.rows e'.id (record { event = e'; published_at = none }) e.id,
      nat_eq.beq_iff e'.id e.id,
    ),
    same,
  )
  step-Safe e (added e') w other h (inr has) = inr has
  step-Safe e (batch times commit) w other h safe =
      publish_batch-Safe broker e times commit w h safe

  run-Safe :
      (e : Event) (steps : List (Step E)) (w : Outbox × S)
      → Each (Avoids e) steps
      → IsRouted w.0
      → Safe broker e w
      → Safe broker e (run steps w)
  run-Safe e [] w other h safe = safe
  run-Safe e (x ∷ l) w other h safe =
      run-Safe e l (step x w) other.1 (step-IsRouted x w h) (step-Safe e x w other.0 h safe)

  -- Let the broker keep what it has accepted, and let the routing table have one row for a key. When an
  -- event has been added, and whatever batches run afterwards and fail in any way, at the broker or
  -- at the commit, while events with other ids are added: the event waits in the outbox, or the
  -- broker has it.
  pub event_never_lost :
      (e : Event) (steps : List (Step E)) (db : Outbox) (s : S)
      → Each (Avoids e) steps
      → IsRouted db
      → Safe broker e (run steps (add_outbox e db, s))
  unfolding add_outbox
  event_never_lost e steps db s other h =
      run-Safe e steps (add_outbox e db, s) other (step-IsRouted (added e) (db, s) h)
        (inl (
          ground (
            arith,
            get-put db.routing e.id
                (record { event_id = e.id; organization_id = e.organization_id }) e.id,
            nat_eq.beq_iff e.id e.id,
          ),
          record { event = e; published_at = none },
          ground (
            arith,
            get-put db.rows e.id (record { event = e; published_at = none }) e.id,
            nat_eq.beq_iff e.id e.id,
          ),
          refl,
        ))

insert_route_cons :
    (r : OutboxRoutingRow) (l : List OutboxRoutingRow)
    → (x : OutboxRoutingRow) × (l' : List OutboxRoutingRow) × (insert_route r l ≡ x ∷ l')
insert_route_cons r [] = (r, [], refl)
insert_route_cons r (q ∷ l) = elim (Bool-cases (leb r.event_id q.event_id)) [
  | inl before ↦ (r, q ∷ l, rw before refl)
  | inr after ↦ (q, insert_route r l, rw after refl)
]

length-none : (d : Dict Uuid OutboxRoutingRow) → length d ≡ 0 → d ≡ []
length-none [] p = refl
length-none (x ∷ d) p = absurd (omega (arith, p))

none_waits :
    (d : Dict Uuid OutboxRoutingRow)
    → d ≡ []
    → (k : Uuid) {r : OutboxRoutingRow} → get d k ≡ some r
    → ⊥
unfolding get
none_waits d empty k found = cc

-- Where a route waits, a batch has a first one.
routes_cons :
    (db : Outbox)
    → (length db.routing ≡ 0)
      ⊎ ((x : OutboxRoutingRow) × (l : List OutboxRoutingRow) × (routes_of db ≡ x ∷ l))
unfolding routes_of order_by_event_id
routes_cons db =
    elim db.routing
      as (λ d.
        (length d ≡ 0)
        ⊎ ((x : OutboxRoutingRow) × (l : List OutboxRoutingRow) × (take 100
                (order_by_event_id (values d))
              ≡ x ∷ l))) [
                | [] ↦ inl refl
                | (k, r) ∷ d ↦
                    let (x, l, e) = insert_route_cons r (order_by_event_id (values d)) in
                    inr (x, take 99 l, ap (take 100) e)
              ]

module _ {E S : Type 0} (broker : Broker E S)
    (works : (e : Event) (s : S) → (broker.publish e s).0 ≡ ok tt) where
  -- The publisher's state after so many batches
  abbrev pub run_batches : (Uuid → Time) → ℕ → Outbox × S → Outbox × S
  run_batches times zero w = w
  run_batches times (suc n) w = run_batches times n (publish_batch broker.publish times (ok tt) w).1

  route_runs :
      (now : Time) (k : Uuid) (found : Option OutboxRow) (w : Outbox × S)
      → (n : ℕ) × (w' : Outbox × S) × (route_found broker.publish now k found w ≡ (ok n, w'))
        × (w'.0.routing ≡ remove w.0.routing k)
  route_runs now k none w = (0, (unroute k w.0, w.1), refl, refl)
  route_runs now k (some x) w = (
    1,
    (mark_published now k x w.0, (broker.publish x.event w.1).1),
    rw (works x.event w.1, route_found) refl,
    refl,
  )

  -- The loop over some routes succeeds, and leaves at most so many.
  abbrev Runs : (Uuid → Time) → List OutboxRoutingRow → Outbox × S → ℕ → Type 0
  Runs times routes w most =
      (n : ℕ) × (w' : Outbox × S) × (publish_each broker.publish times routes w ≡ (ok n, w'))
      × (length w'.0.routing ≤ most)

  cons-Runs :
      (times : Uuid → Time) (r : OutboxRoutingRow) (l : List OutboxRoutingRow) (w : Outbox × S)
      → ((t : Outbox × S) → Runs times l t (length t.0.routing))
      → Runs times (r ∷ l) w (length (remove w.0.routing r.event_id))
  unfolding publish_each publish_route
  cons-Runs times r l w later =
      let (n, t, first, left) =
        route_runs (times r.event_id) r.event_id
          (own_row r.organization_id (get w.0.rows r.event_id)) w in
      let (m, u, rest, le) = later t in
      (
        n + m,
        u,
        bind-ok (publish_route broker.publish (times r.event_id) r)
              (λ a. publish_each broker.publish times l >>= λ b. pure (a + b)) w n t first
            ∙ bind-ok (publish_each broker.publish times l) (λ b. pure (n + b)) t m u rest,
        omega (arith, le, ap length left),
      )

  each-Runs :
      (times : Uuid → Time) (routes : List OutboxRoutingRow) (w : Outbox × S)
      → Runs times routes w (length w.0.routing)
  unfolding publish_each
  each-Runs times [] w = (0, w, refl, omega arith)
  each-Runs times (r ∷ l) w =
      let (n, t, done, le) = cons-Runs times r l w (each-Runs times l) in
      (n, t, done, omega (arith, le, length-remove_le w.0.routing r.event_id))

  -- A batch that succeeds makes the routing table shorter, unless it is empty.
  batch_runs :
      (times : Uuid → Time) (w : Outbox × S)
      → IsRouted w.0
      → length (publish_batch broker.publish times (ok tt) w).1.0.routing ≤ length w.0.routing - 1
  unfolding publish_batch
  batch_runs times (db, s) h = elim (routes_cons db) [
    | inl empty ↦
        let (n, t, done, le) = each-Runs times (routes_of db) (db, s) in
        rw done (omega (arith, le, empty))
    | inr (x, l, e) ↦
        let there =
          (subst (Each (λ r. get db.routing r.event_id ≡ some r)) e (routes-stored db h)).0 in
        let (n, t, done, le) = cons-Runs times x l (db, s) (each-Runs times l) in
        rw (e, done) (omega (arith, le, length-remove route_id db.routing x.event_id x h there))
  ]

  batches-IsRouted :
      (times : Uuid → Time) (n : ℕ) (w : Outbox × S)
      → IsRouted w.0
      → IsRouted (run_batches times n w).0
  batches-IsRouted times zero w h = h
  batches-IsRouted times (suc n) w h =
      batches-IsRouted times n (publish_batch broker.publish times (ok tt) w).1
        (step-IsRouted broker (batch times (ok tt)) w h)

  batches_empty :
      (times : Uuid → Time) (n : ℕ) (w : Outbox × S)
      → IsRouted w.0
      → length w.0.routing ≤ n
      → length (run_batches times n w).0.routing ≡ 0
  batches_empty times zero w h le = omega (arith, le)
  batches_empty times (suc n) w h le =
      batches_empty times n (publish_batch broker.publish times (ok tt) w).1
        (step-IsRouted broker (batch times (ok tt)) w h) (omega (arith, batch_runs times w h, le))

  batches-Safe :
      (e : Event) (times : Uuid → Time) (n : ℕ) (w : Outbox × S)
      → IsRouted w.0
      → Safe broker e w
      → Safe broker e (run_batches times n w)
  batches-Safe e times zero w h safe = safe
  batches-Safe e times (suc n) w h safe =
      batches-Safe e times n (publish_batch broker.publish times (ok tt) w).1
        (step-IsRouted broker (batch times (ok tt)) w h)
        (publish_batch-Safe broker e times (ok tt) w h safe)

  -- When the broker accepts every event and keeps it, the commits succeed, and the routing table has
  -- one row for a key, then after at least as many batches as routes wait the routing table is
  -- empty, and the broker has every event that waited.
  pub events_delivered :
      (e : Event) (times : Uuid → Time) (n : ℕ) (w : Outbox × S)
      → IsRouted w.0
      → length w.0.routing ≤ n
      → ((run_batches times n w).0.routing ≡ [])
        × (Waits e w.0 → broker.Has (run_batches times n w).1 e)
  unfolding get
  events_delivered e times n w h le =
      let empty = length-none (run_batches times n w).0.routing (batches_empty times n w h le) in
      (
        empty,
        λ waits. elim (batches-Safe e times n w h (inl waits)) [
          | inl waiting ↦ absurd (none_waits (run_batches times n w).0.routing empty e.id waiting.0)
          | inr has ↦ has
        ],
      )
