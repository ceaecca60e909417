-- ===== src/ControlPlane/Approvals/Effects.antt =====
-- What the calls of `ControlPlaneService` change in the approvals and the work items.
use mvp_master.Base.{
  String, ◌+◌, ◌≡◌, refl, ◌⊎◌, inl, inr, Option, none, some, arith, nat_eq, Option-cases,
}
use mvp_master.Dict.{get, put, put-put, get-put_self}
use mvp_master.Contracts.{Uuid, Time}
use mvp_master.ControlPlane.Models.{
  Specification, SpecificationVersion, WorkItem, approved, reviewed, ready,
}
use mvp_master.ControlPlane.Models.Transitions.{Readiness}
use mvp_master.ControlPlane.Store.{Store, empty}
use mvp_master.ControlPlane.Coherence.{IsCoherent}
use mvp_master.ControlPlane.Coherence.Steps.{Step-approved}
use mvp_master.ControlPlane.Coherence.Effects.{serve-Step}
use mvp_master.ControlPlane.Histories.{Served-IsCoherent}
use mvp_master.ControlPlane.Publication.Effects.{Served-IsPublished}
use mvp_master.ControlPlane.Approvals.{
  IsApproved, AllApproved, Change, kept, rewritten, approving, Change-AllApproved,
}
use mvp_master.ControlPlane.Service
use mvp_master.ControlPlane.Service.{Request, IntakeForm}
use mvp_master.ControlPlane.Service.Specifications
use mvp_master.ControlPlane.Service.Specifications.{new_approval, new_work_item}
use mvp_master.ControlPlane.Service.WorkItems
use mvp_master.ControlPlane.Service.Calls.{Call, IsFresh, serve, Served, here, next}

-- The approvals and the work items are the same.
abbrev Keeps : Store → Store → Type 0
Keeps s t = (t.approvals ≡ s.approvals) × (t.work_items ≡ s.work_items)

module _ (q : Request) (s : Store) where
  submit-Keeps : (k : Uuid) → Keeps s (Specifications.submit_specification q k s).1
  unfolding Specifications.submit_specification
  submit-Keeps k = ground arith

  draft-Keeps :
      (p v : Uuid) (n : Time) (k : Uuid) (a : String)
      → Keeps s (Specifications.draft_specification q p v n k a s).1
  unfolding Specifications.draft_specification
  draft-Keeps p v n k a = ground arith

  submit_intake-Keeps :
      (i : Uuid) (n : Time) (f : IntakeForm) → Keeps s (Service.submit_intake q i n f s).1
  unfolding Service.submit_intake
  submit_intake-Keeps i n f = ground arith

  others-Keeps :
      (i v : Uuid) (n m : Time) (a d : String)
      → Keeps s (Service.create_organization q v n m a s).1
        × Keeps s (Service.create_project q i n a d s).1
        × Keeps s (Service.dashboard q s).1
  unfolding Service.create_organization Service.create_project Service.dashboard
  others-Keeps i v n m a d = ground arith

  approve_missing :
      (a w : Uuid) (n : Time) (k : Uuid) (r : Option String)
      → get s.specifications k ≡ none
      → Keeps s (Specifications.approve_specification q a w n k r s).1
  unfolding Specifications.approve_specification
  approve_missing a w n k r missing = ground arith

  approve_found :
      (a w : Uuid) (n : Time) (k : Uuid) (r : Option String) (p : Specification)
      (v : SpecificationVersion)
      → get s.specifications k ≡ some p
      → get s.specification_versions p.current_version_id ≡ some v
      → let t = (Specifications.approve_specification q a w n k r s).1 in
        let p' = record p { status = approved } in
        Keeps s t
        ⊎ (t.approvals ≡ put s.approvals a (new_approval q a n r p'))
          × (t.work_items ≡ put s.work_items w (new_work_item q w p' v))
          × (t.specifications ≡ put s.specifications p.id p')
          × (q.organization_id ≡ p.organization_id)
  unfolding Specifications.approve_specification
  approve_found a w n k r p v found current =
      let p' : Specification = record p { status = approved } in
      ground (arith, put-put s.specifications p.id p' p')

  approve-Change :
      (a w : Uuid) (n : Time) (k : Uuid) (r : Option String)
      → IsCoherent s
      → get s.approvals a ≡ none
      → Change s (Specifications.approve_specification q a w n k r s).1
  approve-Change a w n k r h fresh = elim (Option-cases (get s.specifications k)) [
    | inl missing ↦ let (x, y) = approve_missing a w n k r missing in kept x y
    | inr (p, found) ↦
        let b = h.backed k p found in
        elim (approve_found a w n k r p b.version found b.version_found) [
          | inl (x, y) ↦ kept x y
          | inr (x, y, z, own) ↦
              let p' : Specification = record p { status = approved } in
              approving p' (new_approval q a n r p') (new_work_item q w p' b.version)
                (ground (arith, z, get-put_self s.specifications p.id p')) refl fresh refl refl
                (h.versions_keyed p.current_version_id b.version b.version_found) own x y
        ]
  ]

  review_missing :
      (k : Uuid) → get s.work_items k ≡ none → Keeps s (WorkItems.review_work_item q k s).1
  unfolding WorkItems.review_work_item
  review_missing k missing = ground arith

  ready_missing :
      (e : Uuid) (n : Time) (k : Uuid) (r : Readiness)
      → get s.work_items k ≡ none
      → Keeps s (WorkItems.ready_work_item q e n k r s).1
  unfolding WorkItems.ready_work_item
  ready_missing e n k r missing = ground arith

  review_found :
      (k : Uuid) (w : WorkItem)
      → get s.work_items k ≡ some w
      → let t = (WorkItems.review_work_item q k s).1 in
        Keeps s t
        ⊎ (t.approvals ≡ s.approvals)
          × (t.work_items
              ≡ put s.work_items w.id (record w { status = reviewed; version = w.version + 1 }))
  unfolding WorkItems.review_work_item
  review_found k w found =
      let w' : WorkItem = record w { status = reviewed; version = w.version + 1 } in
      ground (arith, put-put s.work_items w.id w' w')

  abbrev readied : Readiness → WorkItem → WorkItem
  readied r w = record w {
    repository_connection_id = some r.repository_connection_id;
    provider_configuration_id = some r.provider_configuration_id;
    runner_pool_id = some r.runner_pool_id;
    budget = some r.budget;
    status = ready;
    version = w.version + 1;
  }

  ready_found :
      (e : Uuid) (n : Time) (k : Uuid) (r : Readiness) (w : WorkItem)
      → get s.work_items k ≡ some w
      → let t = (WorkItems.ready_work_item q e n k r s).1 in
        Keeps s t
        ⊎ (t.approvals ≡ s.approvals) × (t.work_items ≡ put s.work_items w.id (readied r w))
  unfolding WorkItems.ready_work_item
  ready_found e n k r w found =
      ground (arith, put-put s.work_items w.id (readied r w) (readied r w))

  module _ (keyed : (k : Uuid) (w : WorkItem) → get s.work_items k ≡ some w → w.id ≡ k) where
    review-Change : (k : Uuid) → Change s (WorkItems.review_work_item q k s).1
    review-Change k = elim (Option-cases (get s.work_items k)) [
      | inl missing ↦ let (x, y) = review_missing k missing in kept x y
      | inr (w, found) ↦ elim (review_found k w found) [
        | inl (x, y) ↦ kept x y
        | inr (x, y) ↦
            rewritten w (record w { status = reviewed; version = w.version + 1 })
              (ground (arith, found, keyed k w found)) refl refl refl x y
      ]
    ]

    ready-Change :
        (e : Uuid) (n : Time) (k : Uuid) (r : Readiness)
        → Change s (WorkItems.ready_work_item q e n k r s).1
    ready-Change e n k r = elim (Option-cases (get s.work_items k)) [
      | inl missing ↦ let (x, y) = ready_missing e n k r missing in kept x y
      | inr (w, found) ↦ elim (ready_found e n k r w found) [
        | inl (x, y) ↦ kept x y
        | inr (x, y) ↦
            rewritten w (readied r w) (ground (arith, found, keyed k w found)) refl refl refl x y
      ]
    ]

    serve-Change : (c : Call) → IsCoherent s → IsFresh c s → Change s (serve q c s).1
    unfolding serve
    serve-Change (Call.create_organization v n m a) h f =
        let ((x, y), _, _) = others-Keeps v v n m a a in kept x y
    serve-Change Call.dashboard h f = let (_, _, (x, y)) = others-Keeps 0 0 0 0 "" "" in kept x y
    serve-Change (Call.create_project i n a d) h f =
        let (_, (x, y), _) = others-Keeps i i n n a d in kept x y
    serve-Change (Call.submit_intake i n g) h f = let (x, y) = submit_intake-Keeps i n g in kept x y
    serve-Change (Call.draft_specification p v n k a) h f =
        let (x, y) = draft-Keeps p v n k a in kept x y
    serve-Change (Call.submit_specification k) h f = let (x, y) = submit-Keeps k in kept x y
    serve-Change (Call.approve_specification a w n k r) h f = approve-Change a w n k r h f.0
    serve-Change (Call.review_work_item k) h f = review-Change k
    serve-Change (Call.ready_work_item e n k r) h f = ready-Change e n k r

empty-AllApproved : AllApproved empty
unfolding get
empty-AllApproved k w p = ground arith

Served-AllApproved : {t : Store} → Served t → AllApproved t
Served-AllApproved here = empty-AllApproved
Served-AllApproved (next {t} r q c f) =
    let h = Served-IsCoherent r in
    Change-AllApproved t (serve q c t).1
      (λ k p found done. Step-approved t (serve q c t).1 k p (serve-Step q t c h f) h found done)
      (serve-Change q t (Served-IsPublished r).keyed c h f) (Served-AllApproved r)

-- After any history of calls, with fresh identifiers, from the empty store, the specification
-- whose version a stored work item was made from is stored and approved, belongs to the same
-- organization, and has a recorded approval.
pub work_item-IsApproved :
    {t : Store} (k : Uuid) (w : WorkItem) → Served t → get t.work_items k ≡ some w → IsApproved t w
work_item-IsApproved k w r found = Served-AllApproved r k w found
