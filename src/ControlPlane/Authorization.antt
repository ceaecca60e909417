-- ===== src/ControlPlane/Authorization.antt =====
-- Who may do what (domain/permissions.py), and for which organization.
use mvp_master.Base.{
  ◌≡◌, ◌≢◌, String, Bool, true, false, none, some, Option, nat_eq, pair_eq, string_eq, arith,
}
use mvp_master.Exec.{err, raised}
use mvp_master.Dict.{get}
use mvp_master.Contracts.{Uuid, Time}
use mvp_master.ControlPlane.Models.{Role, permission_denied, IntakeRequest, Specification, WorkItem}
use mvp_master.ControlPlane.Models.Transitions.{Readiness}
use mvp_master.ControlPlane.Store.{Store}
use mvp_master.ControlPlane.Service
use mvp_master.ControlPlane.Service.{Request, authorize}
use mvp_master.ControlPlane.Service.Specifications
use mvp_master.ControlPlane.Service.Specifications.{drafters}
use mvp_master.ControlPlane.Service.WorkItems
use mvp_master.ControlPlane.Service.Calls.{Call, serve}

-- The roles that a call is for; anyone may create an organization.
abbrev pub may : Call → Option Role → Bool
may (Call.create_organization v n m a) r = true
may Call.dashboard none = false
may Call.dashboard (some Role.client) = false
may Call.dashboard (some _) = true
may (Call.create_project p n a d) (some Role.owner) = true
may (Call.create_project p n a d) (some Role.admin) = true
may (Call.create_project p n a d) (some Role.developer) = true
may (Call.create_project p n a d) _ = false
may (Call.submit_intake i n f) none = false
may (Call.submit_intake i n f) (some Role.reviewer) = false
may (Call.submit_intake i n f) (some _) = true
may (Call.draft_specification p v n k t) none = false
may (Call.draft_specification p v n k t) (some Role.client) = false
may (Call.draft_specification p v n k t) (some _) = true
may (Call.submit_specification k) none = false
may (Call.submit_specification k) (some Role.client) = false
may (Call.submit_specification k) (some _) = true
may (Call.approve_specification a w n k r) (some Role.owner) = true
may (Call.approve_specification a w n k r) (some Role.admin) = true
may (Call.approve_specification a w n k r) (some Role.reviewer) = true
may (Call.approve_specification a w n k r) _ = false
may (Call.review_work_item w) (some Role.owner) = true
may (Call.review_work_item w) (some Role.admin) = true
may (Call.review_work_item w) (some Role.reviewer) = true
may (Call.review_work_item w) _ = false
may (Call.ready_work_item v n w r) none = false
may (Call.ready_work_item v n w r) (some Role.client) = false
may (Call.ready_work_item v n w r) (some _) = true

-- A call by an actor whose role in the organization is not one that the call is for raises
-- `PermissionDenied` and changes nothing.
pub denied :
    (q : Request) (c : Call) (s : Store)
    → may c (get s.memberships (q.organization_id, q.actor_subject)) ≡ false
    → serve q c s ≡ (err permission_denied, s)
unfolding serve Service.create_project Service.dashboard Service.submit_intake
    Specifications.draft_specification Specifications.submit_specification
    Specifications.approve_specification WorkItems.review_work_item WorkItems.ready_work_item
denied q c s h = ground arith

abbrev pub Refuses : Request → Store → Call → Type 0
Refuses q s c = (raised (serve q c s).0 ≡ true) × ((serve q c s).1 ≡ s)

-- A call on another organization's intake, specification or work item raises, and changes nothing.
pub foreign_raises :
    (q : Request) (s : Store) (i : IntakeRequest) (p : Specification) (w : WorkItem) (x y z : Uuid)
    → (a b : Uuid) (n : Time) (t : String) (o : Option String) (r : Readiness)
    → get s.intakes x ≡ some i
    → get s.specifications y ≡ some p
    → get s.work_items z ≡ some w
    → i.organization_id ≢ q.organization_id
    → p.organization_id ≢ q.organization_id
    → w.organization_id ≢ q.organization_id
    → Refuses q s (Call.draft_specification a b n x t)
      × Refuses q s (Call.submit_specification y)
      × Refuses q s (Call.approve_specification a b n y o)
      × Refuses q s (Call.review_work_item z)
      × Refuses q s (Call.ready_work_item a n z r)
unfolding serve Specifications.draft_specification Specifications.submit_specification
    Specifications.approve_specification WorkItems.review_work_item WorkItems.ready_work_item
foreign_raises q s i p w x y z a b n t o r xi yp zw i_foreign p_foreign w_foreign = ground arith
