-- ===== src/Delivery/Activity/Logging.antt =====
-- The events of an agent, as `execute_delivery` (adapters/activities.py) logs them.
use mvp_master.Base.{◌≡◌, refl, List, [], ◌∷◌}
use mvp_master.Exec.{ok}
use mvp_master.Delivery.Models.{Execution, ExecutionEvent}
use mvp_master.Delivery.Jobs.{AgentEvent}
use mvp_master.Delivery.Database.{Database}
use mvp_master.Delivery.Activity.{Draws, event, event_kind, agent_events}

-- The table of events after the events of an agent.
unfoldable pub logged : Draws → Execution → List AgentEvent → Database → List ExecutionEvent
logged draws e [] db = db.events
logged draws e (item ∷ items) db =
    logged draws e items
      (event draws e.id e.organization_id (event_kind item.kind) item.name item.message
        item.metadata db).1

pub agent_events-logged :
    (draws : Draws) (e : Execution) (items : List AgentEvent) (db : Database)
    → agent_events draws e items db ≡ (ok tt, record db { events = logged draws e items db })
unfolding agent_events logged
agent_events-logged draws e [] db = refl
agent_events-logged draws e (item ∷ items) db =
    agent_events-logged draws e items
      (event draws e.id e.organization_id (event_kind item.kind) item.name item.message
        item.metadata db).1
