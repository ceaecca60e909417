-- ===== src/ControlPlane/Histories.antt =====
-- Histories of calls of `ControlPlaneService` (application/service.py) from the empty store.
use mvp_master.Base.{Option, String, ◌≡◌, inl, inr, arith, nat_eq, Option-cases}
use mvp_master.Exec.{err}
use mvp_master.Dict.{get}
use mvp_master.Contracts.{Uuid, Time}
use mvp_master.ControlPlane.Models.{DomainError}
use mvp_master.ControlPlane.Store.{Store, empty}
use mvp_master.ControlPlane.Coherence.{IsCoherent}
use mvp_master.ControlPlane.Coherence.Steps.{Step-IsCoherent}
use mvp_master.ControlPlane.Coherence.Effects.{serve-Step}
use mvp_master.ControlPlane.Service
use mvp_master.ControlPlane.Service.{Request}
use mvp_master.ControlPlane.Service.Specifications
use mvp_master.ControlPlane.Service.WorkItems
use mvp_master.ControlPlane.Service.Calls.{Call, serve, Served, here, next}

empty-IsCoherent : IsCoherent empty
unfolding get
empty-IsCoherent = record {
  intakes_keyed = λ k i p. cc;
  specifications_keyed = λ k i p. cc;
  versions_keyed = λ k i p. cc;
  backed = λ k p found. ground arith;
  one_each = λ j k p q x y same. cc;
}

-- After any history of calls, with fresh identifiers, from the empty store, each specification
-- has its intake, of the same organization and at the corresponding status, and its current
-- version; and no two specifications have the same intake.
pub Served-IsCoherent : {t : Store} → Served t → IsCoherent t
Served-IsCoherent here = empty-IsCoherent
Served-IsCoherent (next {t} r q c f) =
    let h = Served-IsCoherent r in Step-IsCoherent t (serve q c t).1 (serve-Step q t c h f) h

submit_error_unchanged :
    (q : Request) (s : Store) (h : IsCoherent s) (k : Uuid) (x : DomainError)
    → (Specifications.submit_specification q k s).0 ≡ err x
    → (Specifications.submit_specification q k s).1 ≡ s
unfolding Specifications.submit_specification
submit_error_unchanged q s h k x p = elim (Option-cases (get s.specifications k)) [
  | inl missing ↦ ground arith
  | inr (d, found) ↦ let b = h.backed k d found in ground (arith, b.intake_found, b.in_step)
]

approve_error_unchanged :
    (q : Request) (s : Store) (h : IsCoherent s) (a w : Uuid) (n : Time) (k : Uuid)
    (r : Option String) (x : DomainError)
    → (Specifications.approve_specification q a w n k r s).0 ≡ err x
    → (Specifications.approve_specification q a w n k r s).1 ≡ s
unfolding Specifications.approve_specification
approve_error_unchanged q s h a w n k r x p = elim (Option-cases (get s.specifications k)) [
  | inl missing ↦ ground arith
  | inr (d, found) ↦ let b = h.backed k d found in ground (arith, b.intake_found, b.in_step)
]

draft_error_unchanged :
    (q : Request) (s : Store) (p v : Uuid) (n : Time) (k : Uuid) (t : String) (x : DomainError)
    → (Specifications.draft_specification q p v n k t s).0 ≡ err x
    → (Specifications.draft_specification q p v n k t s).1 ≡ s
unfolding Specifications.draft_specification
draft_error_unchanged q s p v n k t x e = ground arith

coherent_error_unchanged :
    (q : Request) (c : Call) (s : Store) (x : DomainError)
    → IsCoherent s
    → (serve q c s).0 ≡ err x
    → (serve q c s).1 ≡ s
unfolding serve Service.create_organization Service.create_project Service.dashboard
    Service.submit_intake WorkItems.review_work_item WorkItems.ready_work_item
coherent_error_unchanged q (Call.create_organization v n m a) s x h p = ground arith
coherent_error_unchanged q Call.dashboard s x h p = ground arith
coherent_error_unchanged q (Call.create_project i n a d) s x h p = ground arith
coherent_error_unchanged q (Call.submit_intake i n f) s x h p = ground arith
coherent_error_unchanged q (Call.draft_specification i v n k t) s x h p =
    draft_error_unchanged q s i v n k t x (ground arith)
coherent_error_unchanged q (Call.submit_specification k) s x h p =
    submit_error_unchanged q s h k x (ground arith)
coherent_error_unchanged q (Call.approve_specification a w n k r) s x h p =
    approve_error_unchanged q s h a w n k r x (ground arith)
coherent_error_unchanged q (Call.review_work_item w) s x h p = ground arith
coherent_error_unchanged q (Call.ready_work_item v n w r) s x h p = ground arith

-- After any history of calls, with fresh identifiers, from the empty store, a call that raises
-- leaves the store as it was, although methods change the stored objects before the call's last
-- check and nothing rolls back.
pub Served-error_unchanged :
    {t : Store} (q : Request) (c : Call) (x : DomainError)
    → Served t
    → (serve q c t).0 ≡ err x
    → (serve q c t).1 ≡ t
Served-error_unchanged {t} q c x r p = coherent_error_unchanged q c t x (Served-IsCoherent r) p
