-- ===== src/ControlPlane/Coherence/Effects.antt =====
-- What the calls of `ControlPlaneService` change in intakes, specifications and versions.
use mvp_master.Base.{
  String, Option, ◌≡◌, refl, true, none, some, inl, inr, ◌⊎◌, strip, arith, nat_eq, Option-cases,
  sym, false,
}
use mvp_master.Exec.{ok}
use mvp_master.Dict.{get, put-put}
use mvp_master.Contracts.{Uuid, Time}
use mvp_master.ControlPlane.Models.{
  IntakeStatus, SpecificationStatus, specification_drafted, specification_approved, approved,
  IntakeRequest, Specification,
}
use mvp_master.ControlPlane.Models.Transitions.{mark_specification_drafted, Readiness}
use mvp_master.ControlPlane.Store.{Store}
use mvp_master.ControlPlane.Coherence.{IsBacked, IsCoherent, matches, is_approved}
use mvp_master.ControlPlane.Coherence.Steps.{
  Same, Step, unchanged, submitted, drafted, moved, Move, submit, move, add,
}
use mvp_master.ControlPlane.Service
use mvp_master.ControlPlane.Service.{Request, IntakeForm, new_intake}
use mvp_master.ControlPlane.Service.Specifications
use mvp_master.ControlPlane.Service.Specifications.{new_version, new_specification}
use mvp_master.ControlPlane.Service.WorkItems
use mvp_master.ControlPlane.Service.Calls.{Call, IsFresh, serve}

module _ (q : Request) (s : Store) where
  review-Same : (w : Uuid) → Same s (WorkItems.review_work_item q w s).1
  unfolding WorkItems.review_work_item
  review-Same w = ground arith

  ready-Same :
      (v : Uuid) (n : Time) (w : Uuid) (r : Readiness)
      → Same s (WorkItems.ready_work_item q v n w r s).1
  unfolding WorkItems.ready_work_item
  ready-Same v n w r = ground arith

  submit_intake-Same :
      (i : Uuid) (n : Time) (f : IntakeForm)
      → Same s (Service.submit_intake q i n f s).1
        ⊎ Same (submit (new_intake q i n f) s) (Service.submit_intake q i n f s).1
  unfolding Service.submit_intake
  submit_intake-Same i n f = ground arith

  draft_missing :
      (p v : Uuid) (n : Time) (k : Uuid) (t : String)
      → get s.intakes k ≡ none
      → Same s (Specifications.draft_specification q p v n k t s).1
  unfolding Specifications.draft_specification
  draft_missing p v n k t missing = ground arith

  submit_missing :
      (k : Uuid)
      → get s.specifications k ≡ none
      → Same s (Specifications.submit_specification q k s).1
  unfolding Specifications.submit_specification
  submit_missing k missing = ground arith

  approve_missing :
      (a w : Uuid) (n : Time) (k : Uuid) (r : Option String)
      → get s.specifications k ≡ none
      → Same s (Specifications.approve_specification q a w n k r s).1
  unfolding Specifications.approve_specification
  approve_missing a w n k r missing = ground arith

  draft_found :
      (h : IsCoherent s) (p v : Uuid) (n : Time) (k : Uuid) (t : String) (i : IntakeRequest)
      → get s.intakes k ≡ some i
      → let j = record i { status = specification_drafted } in
        let u = new_version q p v n (strip t) j in
        Same s (Specifications.draft_specification q p v n k t s).1
        ⊎ (q.organization_id ≡ i.organization_id)
          × (mark_specification_drafted i ≡ ok j)
          × Same
              (add j (new_specification q u j) u s)
              (Specifications.draft_specification q p v n k t s).1
  unfolding Specifications.draft_specification
  draft_found h p v n k t i found =
      let j : IntakeRequest = record i { status = specification_drafted } in
      ground (arith, put-put s.intakes i.id j j)

  module _ (h : IsCoherent s) (k : Uuid) (p : Specification)
      (found : get s.specifications k ≡ some p) where
    abbrev backing : IsBacked s p
    backing = h.backed k p found

    submit_found :
        Same s (Specifications.submit_specification q k s).1
        ⊎ (is_approved p.status ≡ false)
          × Same
              (move
                (record p { status = SpecificationStatus.awaiting_approval })
                (record backing.intake { status = IntakeStatus.awaiting_approval })
                s)
              (Specifications.submit_specification q k s).1
    unfolding Specifications.submit_specification
    submit_found =
        let p' : Specification = record p { status = SpecificationStatus.awaiting_approval } in
        let i' : IntakeRequest = record backing.intake {
          status = IntakeStatus.awaiting_approval;
        } in
        ground (
          arith,
          found,
          backing.intake_found,
          backing.in_step,
          put-put s.intakes i'.id i' i',
          put-put s.specifications p'.id p' p',
        )

    approve_found :
        (a w : Uuid) (n : Time) (r : Option String)
        → Same s (Specifications.approve_specification q a w n k r s).1
          ⊎ (is_approved p.status ≡ false)
            × Same
                (move
                  (record p { status = approved })
                  (record backing.intake { status = specification_approved })
                  s)
                (Specifications.approve_specification q a w n k r s).1
    unfolding Specifications.approve_specification
    approve_found a w n r =
        let p' : Specification = record p { status = approved } in
        let i' : IntakeRequest = record backing.intake { status = specification_approved } in
        ground (
          arith,
          found,
          backing.intake_found,
          backing.in_step,
          put-put s.intakes i'.id i' i',
          put-put s.specifications p'.id p' p',
        )

    -- The two statuses change together.
    together :
        (x : SpecificationStatus) (y : IntakeStatus)
        → is_approved p.status ≡ false
        → matches x y ≡ true
        → Move s p (record p { status = x }) backing.intake (record backing.intake { status = y })
    together x y early m = record {
      open_yet = early;
      found = ground (arith, found, h.specifications_keyed k p found);
      intake_found = backing.intake_found;
      same_id = refl;
      same_owner = refl;
      same_intake = refl;
      same_version = refl;
      same_intake_id = refl;
      same_intake_owner = refl;
      in_step = m;
    }

  others-Same :
      (o v : Uuid) (n m : Time) (a d : String)
      → Same s (Service.create_organization q v n m a s).1
        × Same s (Service.create_project q o n a d s).1
        × Same s (Service.dashboard q s).1
  unfolding Service.create_organization Service.create_project Service.dashboard
  others-Same o v n m a d = ground arith

  draft-Step :
      (h : IsCoherent s) (p v : Uuid) (n : Time) (k : Uuid) (t : String)
      → get s.specifications p ≡ none
      → get s.specification_versions v ≡ none
      → Step s (Specifications.draft_specification q p v n k t s).1
  draft-Step h p v n k t fresh version_fresh = elim (Option-cases (get s.intakes k)) [
    | inl missing ↦ unchanged (draft_missing p v n k t missing)
    | inr (i, found) ↦ elim (draft_found h p v n k t i found) [
      | inl same ↦ unchanged same
      | inr (own, method, same) ↦
          let j : IntakeRequest = record i { status = specification_drafted } in
          let u = new_version q p v n (strip t) j in
          drafted i j (new_specification q u j) u
            (record {
              intake_found = ground (arith, found, h.intakes_keyed k i found);
              method = method;
              fresh = fresh;
              version_fresh = version_fresh;
              same_intake = refl;
              same_owner = sym own;
              version = refl;
              version_owned = refl;
              in_step = refl;
            })
            same
    ]
  ]

  submit-Step : (h : IsCoherent s) (k : Uuid) → Step s (Specifications.submit_specification q k s).1
  submit-Step h k = elim (Option-cases (get s.specifications k)) [
    | inl missing ↦ unchanged (submit_missing k missing)
    | inr (p, found) ↦ elim (submit_found h k p found) [
      | inl same ↦ unchanged same
      | inr (early, same) ↦
          let i = (h.backed k p found).intake in
          moved p (record p { status = SpecificationStatus.awaiting_approval }) i
            (record i { status = IntakeStatus.awaiting_approval })
            (together h k p found SpecificationStatus.awaiting_approval
              IntakeStatus.awaiting_approval early refl)
            same
    ]
  ]

  approve-Step :
      (h : IsCoherent s) (a w : Uuid) (n : Time) (k : Uuid) (r : Option String)
      → Step s (Specifications.approve_specification q a w n k r s).1
  approve-Step h a w n k r = elim (Option-cases (get s.specifications k)) [
    | inl missing ↦ unchanged (approve_missing a w n k r missing)
    | inr (p, found) ↦ elim (approve_found h k p found a w n r) [
      | inl same ↦ unchanged same
      | inr (early, same) ↦
          let i = (h.backed k p found).intake in
          moved p (record p { status = approved }) i (record i { status = specification_approved })
            (together h k p found approved specification_approved early refl) same
    ]
  ]

  pub serve-Step : (c : Call) → IsCoherent s → IsFresh c s → Step s (serve q c s).1
  unfolding serve new_intake
  serve-Step (Call.create_organization v n m a) h f = unchanged (others-Same v v n m a a).0
  serve-Step Call.dashboard h f = unchanged (others-Same 0 0 0 0 "" "").2
  serve-Step (Call.create_project p n a d) h f = unchanged (others-Same p p n n a d).1
  serve-Step (Call.submit_intake i n f) h fresh = elim (submit_intake-Same i n f) [
    | inl same ↦ unchanged same
    | inr same ↦ submitted (new_intake q i n f) fresh same
  ]
  serve-Step (Call.draft_specification p v n k t) h f = draft-Step h p v n k t f.0 f.1
  serve-Step (Call.submit_specification k) h f = submit-Step h k
  serve-Step (Call.approve_specification a w n k r) h f = approve-Step h a w n k r
  serve-Step (Call.review_work_item w) h f = unchanged (review-Same w)
  serve-Step (Call.ready_work_item v n w r) h f = unchanged (ready-Same v n w r)
