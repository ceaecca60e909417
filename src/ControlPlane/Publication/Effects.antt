-- ===== src/ControlPlane/Publication/Effects.antt =====
-- What the calls of `ControlPlaneService` change in the work items and the outbox.
use mvp_master.Base.{
  ◌+◌, String, ◌≡◌, refl, ap, ◌⊎◌, false, Option, none, some, [], ◌∷◌, ◌++◌, inl, inr, arith,
  nat_eq, Option-cases,
}
use mvp_master.Dict.{get, put, put-put}
use mvp_master.Contracts.{Uuid, Time}
use mvp_master.ControlPlane.Models.{ready, reviewed, Specification, SpecificationVersion, WorkItem}
use mvp_master.ControlPlane.Models.Transitions.{Readiness}
use mvp_master.ControlPlane.Store.{Store, empty}
use mvp_master.ControlPlane.Service
use mvp_master.ControlPlane.Service.{Request, membership_event, IntakeForm}
use mvp_master.ControlPlane.Service.Specifications
use mvp_master.ControlPlane.Service.Specifications.{new_work_item}
use mvp_master.ControlPlane.Service.WorkItems
use mvp_master.ControlPlane.Service.WorkItems.{ready_event}
use mvp_master.ControlPlane.Service.Calls.{Call, IsFresh, serve, Served, here, next}
use mvp_master.ControlPlane.Publication.{
  publications, publications-append, is_ready, due, IsPublished, Change, none_written, held_back,
  published, Change-IsPublished,
}

module _ (q : Request) (s : Store) where
  create-Change :
      (v : Uuid) (n m : Time) (a : String) → Change s (Service.create_organization q v n m a s).1
  unfolding Service.create_organization
  create-Change v n m a =
      none_written refl
        (λ k. ground (arith, publications-append k s.outbox (membership_event q v m)))

  approve_found :
      (a w : Uuid) (n : Time) (k : Uuid) (r : Option String) (p : Specification)
      (v : SpecificationVersion)
      → get s.specifications k ≡ some p
      → get s.specification_versions p.current_version_id ≡ some v
      → let t = (Specifications.approve_specification q a w n k r s).1 in
        (t.outbox ≡ s.outbox)
        × ((t.work_items ≡ s.work_items)
            ⊎ (t.work_items ≡ put s.work_items w (new_work_item q w p v)))
  unfolding Specifications.approve_specification
  approve_found a w n k r p v found current = ground arith

  approve_missing :
      (a w : Uuid) (n : Time) (k : Uuid) (r : Option String)
      → get s.specifications k ≡ none
      → let t = (Specifications.approve_specification q a w n k r s).1 in
        (t.outbox ≡ s.outbox) × (t.work_items ≡ s.work_items)
  unfolding Specifications.approve_specification
  approve_missing a w n k r missing = ground arith

  approve_unversioned :
      (a w : Uuid) (n : Time) (k : Uuid) (r : Option String) (p : Specification)
      → get s.specifications k ≡ some p
      → get s.specification_versions p.current_version_id ≡ none
      → let t = (Specifications.approve_specification q a w n k r s).1 in
        (t.outbox ≡ s.outbox) × (t.work_items ≡ s.work_items)
  unfolding Specifications.approve_specification
  approve_unversioned a w n k r p found missing = ground arith

  nothing_written : (t : Store) → (t.outbox ≡ s.outbox) × (t.work_items ≡ s.work_items) → Change s t
  nothing_written t (events, items) = none_written items (λ k. ap (publications k) events)

  approve-Change :
      (a w : Uuid) (n : Time) (k : Uuid) (r : Option String)
      → get s.work_items w ≡ none
      → Change s (Specifications.approve_specification q a w n k r s).1
  approve-Change a w n k r fresh =
      let t = (Specifications.approve_specification q a w n k r s).1 in
      elim (Option-cases (get s.specifications k)) [
        | inl missing ↦ nothing_written t (approve_missing a w n k r missing)
        | inr (p, found) ↦ elim (Option-cases (get s.specification_versions p.current_version_id)) [
          | inl missing ↦ nothing_written t (approve_unversioned a w n k r p found missing)
          | inr (v, current) ↦
              let (events, items) = approve_found a w n k r p v found current in
              elim items [
                | inl same ↦ nothing_written t (events, same)
                | inr new ↦ held_back (new_work_item q w p v) (ap due fresh) refl new events
              ]
        ]
      ]

  review_missing :
      (k : Uuid)
      → get s.work_items k ≡ none
      → let t = (WorkItems.review_work_item q k s).1 in
        (t.outbox ≡ s.outbox) × (t.work_items ≡ s.work_items)
  unfolding WorkItems.review_work_item
  review_missing k missing = ground arith

  review_found :
      (k : Uuid) (w : WorkItem)
      → get s.work_items k ≡ some w
      → let t = (WorkItems.review_work_item q k s).1 in
        (t.outbox ≡ s.outbox)
        × ((t.work_items ≡ s.work_items)
            ⊎ (is_ready w.status ≡ false)
              × (t.work_items
                  ≡ put s.work_items w.id
                      (record w { status = reviewed; version = w.version + 1 })))
  unfolding WorkItems.review_work_item
  review_found k w found =
      let w' : WorkItem = record w { status = reviewed; version = w.version + 1 } in
      ground (arith, put-put s.work_items w.id w' w')

  ready_missing :
      (e : Uuid) (n : Time) (k : Uuid) (r : Readiness)
      → get s.work_items k ≡ none
      → let t = (WorkItems.ready_work_item q e n k r s).1 in
        (t.outbox ≡ s.outbox) × (t.work_items ≡ s.work_items)
  unfolding WorkItems.ready_work_item
  ready_missing e n k r missing = ground arith

  abbrev readied : Readiness → WorkItem → WorkItem
  readied r w = record w {
    repository_connection_id = some r.repository_connection_id;
    provider_configuration_id = some r.provider_configuration_id;
    runner_pool_id = some r.runner_pool_id;
    budget = some r.budget;
    status = ready;
    version = w.version + 1;
  }

  ready_found :
      (e : Uuid) (n : Time) (k : Uuid) (r : Readiness) (w : WorkItem)
      → get s.work_items k ≡ some w
      → let t = (WorkItems.ready_work_item q e n k r s).1 in
        (t.outbox ≡ s.outbox) × (t.work_items ≡ s.work_items)
        ⊎ (is_ready w.status ≡ false)
          × (t.work_items ≡ put s.work_items w.id (readied r w))
          × (t.outbox ≡ s.outbox ++ ready_event q e n r (readied r w) ∷ [])
  unfolding WorkItems.ready_work_item
  ready_found e n k r w found =
      ground (arith, put-put s.work_items w.id (readied r w) (readied r w))

  dashboard_untouched :
      ((Service.dashboard q s).1.outbox ≡ s.outbox)
      × ((Service.dashboard q s).1.work_items ≡ s.work_items)
  unfolding Service.dashboard
  dashboard_untouched = ground arith

  create_project_untouched :
      (i : Uuid) (n : Time) (a d : String)
      → let t = (Service.create_project q i n a d s).1 in
        (t.outbox ≡ s.outbox) × (t.work_items ≡ s.work_items)
  unfolding Service.create_project
  create_project_untouched i n a d = ground arith

  submit_intake_untouched :
      (i : Uuid) (n : Time) (f : IntakeForm)
      → let t = (Service.submit_intake q i n f s).1 in
        (t.outbox ≡ s.outbox) × (t.work_items ≡ s.work_items)
  unfolding Service.submit_intake
  submit_intake_untouched i n f = ground arith

  draft_untouched :
      (p v : Uuid) (n : Time) (k : Uuid) (a : String)
      → let t = (Specifications.draft_specification q p v n k a s).1 in
        (t.outbox ≡ s.outbox) × (t.work_items ≡ s.work_items)
  unfolding Specifications.draft_specification
  draft_untouched p v n k a = ground arith

  submit_untouched :
      (k : Uuid)
      → let t = (Specifications.submit_specification q k s).1 in
        (t.outbox ≡ s.outbox) × (t.work_items ≡ s.work_items)
  unfolding Specifications.submit_specification
  submit_untouched k = ground arith

  review-Change : (k : Uuid) → IsPublished s → Change s (WorkItems.review_work_item q k s).1
  review-Change k h =
      let t = (WorkItems.review_work_item q k s).1 in
      elim (Option-cases (get s.work_items k)) [
        | inl missing ↦ nothing_written t (review_missing k missing)
        | inr (w, found) ↦
            let (events, items) = review_found k w found in
            elim items [
              | inl same ↦ nothing_written t (events, same)
              | inr (early, new) ↦
                  held_back (record w { status = reviewed; version = w.version + 1 })
                    (ground (arith, found, early, h.keyed k w found)) refl new events
            ]
      ]

  ready-Change :
      (e : Uuid) (n : Time) (k : Uuid) (r : Readiness)
      → IsPublished s
      → Change s (WorkItems.ready_work_item q e n k r s).1
  ready-Change e n k r h =
      let t = (WorkItems.ready_work_item q e n k r s).1 in
      elim (Option-cases (get s.work_items k)) [
        | inl missing ↦ nothing_written t (ready_missing e n k r missing)
        | inr (w, found) ↦ elim (ready_found e n k r w found) [
          | inl same ↦ nothing_written t same
          | inr (early, new, event) ↦
              published (readied r w) (ready_event q e n r (readied r w))
                (ground (arith, found, early, h.keyed k w found)) refl refl new event
        ]
      ]

  serve-Change : (c : Call) → IsPublished s → IsFresh c s → Change s (serve q c s).1
  unfolding serve
  serve-Change (Call.create_organization v n m a) h f = create-Change v n m a
  serve-Change Call.dashboard h f = nothing_written (Service.dashboard q s).1 dashboard_untouched
  serve-Change (Call.create_project i n a d) h f =
      nothing_written (Service.create_project q i n a d s).1 (create_project_untouched i n a d)
  serve-Change (Call.submit_intake i n f) h fresh =
      nothing_written (Service.submit_intake q i n f s).1 (submit_intake_untouched i n f)
  serve-Change (Call.draft_specification p v n k a) h f =
      nothing_written (Specifications.draft_specification q p v n k a s).1
        (draft_untouched p v n k a)
  serve-Change (Call.submit_specification k) h f =
      nothing_written (Specifications.submit_specification q k s).1 (submit_untouched k)
  serve-Change (Call.approve_specification a w n k r) h f = approve-Change a w n k r f.1
  serve-Change (Call.review_work_item k) h f = review-Change k h
  serve-Change (Call.ready_work_item e n k r) h f = ready-Change e n k r h

empty-IsPublished : IsPublished empty
unfolding get
empty-IsPublished = record { keyed = λ k w p. cc; counted = λ k. refl }

pub Served-IsPublished : {t : Store} → Served t → IsPublished t
Served-IsPublished here = empty-IsPublished
Served-IsPublished (next {t} r q c f) =
    let h = Served-IsPublished r in Change-IsPublished t (serve q c t).1 (serve-Change q t c h f) h

-- After any history of calls, with fresh identifiers, from the empty store, the outbox holds the
-- event that a work item is ready once for each work item that is ready, and for no other
-- identifier.
pub ready_published_once :
    {t : Store} (k : Uuid) → Served t → publications k t.outbox ≡ due (get t.work_items k)
ready_published_once k r = (Served-IsPublished r).counted k
