-- ===== src/ControlPlane/Publication.antt =====
-- The event `com.mvp.work_item.ready.v1` in the outbox (`ready_work_item` of
-- application/service.py): counting its occurrences.
pub mod Effects
use mvp_master.Base.{
  ℕ, suc, ◌+◌, String, ◌≡◌, refl, ap, ◌⊎◌, Bool, true, false, Option, none, some, List, [], ◌∷◌,
  ◌++◌, ◌==◌, inl, inr, arith, nat_eq, nat_beq, Option-cases, if◌then◌else◌, strip,
}
use mvp_master.Exec.{ok, err}
use mvp_master.Dict.{get, put, put-put, get-put}
use mvp_master.Contracts.{Uuid, Time}
use mvp_master.ControlPlane.Models.{
  WorkItemStatus, ready, reviewed, Specification, SpecificationVersion, WorkItem,
}
use mvp_master.ControlPlane.Models.Transitions.{mark_reviewed, mark_ready, Readiness}
use mvp_master.ControlPlane.Store.{Store, Event, Subject, work_item, membership, empty}
use mvp_master.ControlPlane.Service
use mvp_master.ControlPlane.Service.{Request, membership_event, IntakeForm}
use mvp_master.ControlPlane.Service.Specifications
use mvp_master.ControlPlane.Service.Specifications.{new_work_item}
use mvp_master.ControlPlane.Service.WorkItems
use mvp_master.ControlPlane.Service.WorkItems.{ready_event}
use mvp_master.ControlPlane.Service.Calls.{Call, IsFresh, serve, Served, here, next}

abbrev announces : Uuid → Subject → Bool
announces k (membership o a) = false
announces k (work_item j) = j == k

-- How often the outbox holds the event that a work item is ready.
abbrev pub publications : Uuid → List Event → ℕ
publications k [] = 0
publications k (e ∷ l) = if announces k e.subject then suc (publications k l) else publications k l

publications-append :
    (k : Uuid) (l : List Event) (e : Event)
    → publications k (l ++ e ∷ []) ≡ publications k l + (if announces k e.subject then 1 else 0)
publications-append k [] e = ground arith
publications-append k (x ∷ l) e = ground (arith, publications-append k l e)

abbrev pub is_ready : WorkItemStatus → Bool
is_ready ready = true
is_ready _ = false

abbrev pub due : Option WorkItem → ℕ
due none = 0
due (some w) = if is_ready w.status then 1 else 0

pub record IsPublished (s : Store) : Type 0 where
  pub keyed : (k : Uuid) (w : WorkItem) → get s.work_items k ≡ some w → w.id ≡ k
  pub counted : (k : Uuid) → publications k s.outbox ≡ due (get s.work_items k)

-- What a call does to the work items and the outbox: nothing that matters here, one work item
-- written that is not ready, or one made ready and its event added.
pub data Change (s t : Store) : Type 0 where
  none_written :
      t.work_items ≡ s.work_items
      → ((k : Uuid) → publications k t.outbox ≡ publications k s.outbox)
      → Change s t
  held_back :
      (w : WorkItem)
      → due (get s.work_items w.id) ≡ 0
      → is_ready w.status ≡ false
      → t.work_items ≡ put s.work_items w.id w
      → t.outbox ≡ s.outbox
      → Change s t
  published :
      (w : WorkItem) (e : Event)
      → due (get s.work_items w.id) ≡ 0
      → is_ready w.status ≡ true
      → e.subject ≡ work_item w.id
      → t.work_items ≡ put s.work_items w.id w
      → t.outbox ≡ s.outbox ++ e ∷ []
      → Change s t

pub Change-IsPublished : (s t : Store) → Change s t → IsPublished s → IsPublished t
Change-IsPublished s t (none_written items events) h = record {
  keyed = rw items h.keyed;
  counted = λ k. ground (arith, items, events k, h.counted k);
}
Change-IsPublished s t (held_back w before after items events) h = record {
  keyed = λ k x p. ground (arith, items, p, get-put s.work_items w.id w k, h.keyed k x);
  counted = λ k. ground (arith, items, events, h.counted k, get-put s.work_items w.id w k);
}
Change-IsPublished s t (published w e before after subject items events) h = record {
  keyed = λ k x p. ground (arith, items, p, get-put s.work_items w.id w k, h.keyed k x);
  counted = λ k. ground (
    arith,
    items,
    events,
    subject,
    h.counted k,
    publications-append k s.outbox e,
    get-put s.work_items w.id w k,
  );
}
