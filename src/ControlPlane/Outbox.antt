-- ===== src/ControlPlane/Outbox.antt =====
-- The outbox of the control plane: the tables `event_outbox` and `event_outbox_routing` of
-- adapters/postgres.py, and `publish_batch` of entrypoints/outbox.py. The message broker is a
-- parameter: its state, and what `jetstream.publish` does to it.
pub mod Deliveries
pub mod Progress
use mvp_master.Base.{
  take, ℕ, zero, suc, ◌+◌, Bool, true, false, Option, none, some, List, [], ◌∷◌, ◌==◌, nat_eq, leb,
  if◌then◌else◌, ⊤,
}
use mvp_master.Exec.{Exec, Result, ok, err, pure, gets, modify, ◌>>=◌, ◌>>◌}
use mvp_master.Dict.{Dict, get, put, remove, values}
use mvp_master.Contracts.{Uuid, Time}
use mvp_master.ControlPlane.Store.{Event}

-- A row's `id`, `organization_id`, `event_type` and `payload` are the event's.
pub record OutboxRow : Type 0 where
  pub event : Event
  pub published_at : Option Time

pub record OutboxRoutingRow : Type 0 where
  pub event_id : Uuid
  pub organization_id : Uuid

pub record Outbox : Type 0 where
  pub rows : Dict Uuid OutboxRow
  pub routing : Dict Uuid OutboxRoutingRow

-- The `add_outbox` of PostgresControlPlaneRepository
unfoldable pub add_outbox : Event → Outbox → Outbox
add_outbox e db = record {
  rows = put db.rows e.id (record { event = e; published_at = none });
  routing = put db.routing e.id (record { event_id = e.id; organization_id = e.organization_id });
}

abbrev insert_route : OutboxRoutingRow → List OutboxRoutingRow → List OutboxRoutingRow
insert_route r [] = r ∷ []
insert_route r (q ∷ l) =
    let rest = insert_route r l in if leb r.event_id q.event_id then r ∷ q ∷ l else q ∷ rest

-- `order_by(OutboxRoutingRow.event_id)`
unfoldable pub order_by_event_id : List OutboxRoutingRow → List OutboxRoutingRow
order_by_event_id [] = []
order_by_event_id (r ∷ l) = insert_route r (order_by_event_id l)

-- `order_by` and `limit(100)`
unfoldable pub routes_of : Outbox → List OutboxRoutingRow
unfolding order_by_event_id
routes_of db = take 100 (order_by_event_id (values db.routing))

-- `session.get(OutboxRow, event_id)`, of which row level security hides other organizations' rows
abbrev pub own_row : Uuid → Option OutboxRow → Option OutboxRow
own_row o none = none
own_row o (some row) = if row.event.organization_id == o then some row else none

abbrev pub unroute : Uuid → Outbox → Outbox
unroute k db = record db { routing = remove db.routing k }

abbrev pub mark_published : Time → Uuid → OutboxRow → Outbox → Outbox
mark_published now k row db = record db {
  rows = put db.rows k (record row { published_at = some now });
  routing = remove db.routing k;
}

module _ {E S : Type 0} (publish : Event → Exec E S ⊤) where
  abbrev pub Session : Type 0 → Type 0
  Session A = Exec E (Outbox × S) A

  -- One round of the loop: how many events it has published.
  abbrev pub route_found : Time → Uuid → Option OutboxRow → Session ℕ
  route_found now k none (db, s) = (ok 0, (unroute k db, s))
  route_found now k (some row) (db, s) =
      let (r, s') = publish row.event s in
      elim r [ ok _ ↦ (ok 1, (mark_published now k row db, s')) | err e ↦ (err e, (db, s')) ]

  unfoldable pub publish_route : Time → OutboxRoutingRow → Session ℕ
  publish_route now route w =
      route_found now route.event_id (own_row route.organization_id (get w.0.rows route.event_id)) w

  -- The loop over `routes`; each round takes the time anew.
  unfoldable pub publish_each : (Uuid → Time) → List OutboxRoutingRow → Session ℕ
  unfolding publish_route
  publish_each times [] = pure 0
  publish_each times (route ∷ routes) = do
    n ← publish_route (times route.event_id) route
    m ← publish_each times routes
    pure (n + m)

  -- The end of the session: where the loop or the commit raised, the tables stay as they were, and
  -- the broker keeps what it got.
  abbrev pub close : Outbox → Result E ℕ → Result E ⊤ → Session ℕ
  close db (err e) commit (db', s) = (err e, (db, s))
  close db (ok n) (err e) (db', s) = (err e, (db, s))
  close db (ok n) (ok _) (db', s) = (ok n, (db', s))

  -- `commit` is what the database answers to the commit.
  unfoldable pub publish_batch : (Uuid → Time) → Result E ⊤ → Session ℕ
  unfolding publish_each routes_of
  publish_batch times commit (db, s) =
      let (r, w) = publish_each times (routes_of db) (db, s) in close db r commit w
