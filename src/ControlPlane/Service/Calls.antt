-- ===== src/ControlPlane/Service/Calls.antt =====
-- The calls of `ControlPlaneService` as data, and the histories of calls from the empty store. Each
-- call carries what `uuid4` and the clock return to it.
use mvp_master.Base.{String, Option, none, ◌≡◌, ⊤, nat_eq}
use mvp_master.Exec.{discard}
use mvp_master.Dict.{get}
use mvp_master.Contracts.{Uuid, Time}
use mvp_master.ControlPlane.Models.Transitions.{Readiness}
use mvp_master.ControlPlane.Store.{Store, Action, empty}
use mvp_master.ControlPlane.Service
use mvp_master.ControlPlane.Service.{Request, IntakeForm}
use mvp_master.ControlPlane.Service.Specifications
use mvp_master.ControlPlane.Service.WorkItems

pub data Call : Type 0 where
  create_organization : Uuid → Time → Time → String → Call
  dashboard : Call
  create_project : Uuid → Time → String → String → Call
  submit_intake : Uuid → Time → IntakeForm → Call
  draft_specification : Uuid → Uuid → Time → Uuid → String → Call
  submit_specification : Uuid → Call
  approve_specification : Uuid → Uuid → Time → Uuid → Option String → Call
  review_work_item : Uuid → Call
  ready_work_item : Uuid → Time → Uuid → Readiness → Call

-- The identifiers that a call draws are not in use.
abbrev pub IsFresh : Call → Store → Type 0
IsFresh (submit_intake i n f) s = get s.intakes i ≡ none
IsFresh (draft_specification p v n i t) s =
    (get s.specifications p ≡ none) × (get s.specification_versions v ≡ none)
IsFresh (approve_specification a w n p r) s =
    (get s.approvals a ≡ none) × (get s.work_items w ≡ none)
IsFresh _ s = ⊤

-- A call for its effect: what it raised, and the store after it.
unfoldable pub serve : Request → Call → Action ⊤
serve q (create_organization v n m a) = discard (Service.create_organization q v n m a)
serve q dashboard = discard (Service.dashboard q)
serve q (create_project p n a d) = discard (Service.create_project q p n a d)
serve q (submit_intake i n f) = discard (Service.submit_intake q i n f)
serve q (draft_specification p v n i t) = discard (Specifications.draft_specification q p v n i t)
serve q (submit_specification p) = discard (Specifications.submit_specification q p)
serve q (approve_specification a w n p r) =
    discard (Specifications.approve_specification q a w n p r)
serve q (review_work_item w) = discard (WorkItems.review_work_item q w)
serve q (ready_work_item v n w r) = discard (WorkItems.ready_work_item q v n w r)

-- The stores that a history of calls, with fresh identifiers, leads to.
pub data Served : Store → Type 0 where
  here : Served empty
  next : {t : Store} → Served t → (q : Request) (c : Call) → IsFresh c t → Served (serve q c t).1
