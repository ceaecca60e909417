-- ===== src/ControlPlane/Coherence/Steps.antt =====
-- The changes that calls of `ControlPlaneService` make to the intakes, specifications and versions,
-- in normal form, and the invariant under each of them.
use mathlib.Core.Path.{subst}
use mvp_master.Base.{◌≡◌, ◌≢◌, true, none, some, nat_eq, arith, ◌==◌, Bool-cases, inl, inr, false}
use mvp_master.Exec.{ok}
use mvp_master.Dict.{get, put, get-put, get-put_self}
use mvp_master.Contracts.{Uuid}
use mvp_master.ControlPlane.Models.{IntakeRequest, SpecificationVersion, Specification}
use mvp_master.ControlPlane.Models.Transitions.{mark_specification_drafted}
use mvp_master.ControlPlane.Store.{Store}
use mvp_master.ControlPlane.Coherence.{matches, is_approved, IsBacked, IsCoherent}

-- The three tables are the same.
pub record Same (s t : Store) : Type 0 where
  pub intakes : t.intakes ≡ s.intakes
  pub specifications : t.specifications ≡ s.specifications
  pub versions : t.specification_versions ≡ s.specification_versions

-- A specification and its intake, and what a call makes of the two.
pub record Move (s : Store) (p p' : Specification) (i i' : IntakeRequest) : Type 0 where
  pub found : get s.specifications p.id ≡ some p
  pub intake_found : get s.intakes p.intake_id ≡ some i
  pub open_yet : is_approved p.status ≡ false
  pub same_id : p'.id ≡ p.id
  pub same_owner : p'.organization_id ≡ p.organization_id
  pub same_intake : p'.intake_id ≡ p.intake_id
  pub same_version : p'.current_version_id ≡ p.current_version_id
  pub same_intake_id : i'.id ≡ i.id
  pub same_intake_owner : i'.organization_id ≡ i.organization_id
  pub in_step : matches p'.status i'.status ≡ true

-- A new specification of an intake that had none yet, with its version.
pub record Draft (s : Store) (i i' : IntakeRequest) (p : Specification) (v : SpecificationVersion)
    : Type 0 where
  pub intake_found : get s.intakes p.intake_id ≡ some i
  pub method : mark_specification_drafted i ≡ ok i'
  pub fresh : get s.specifications p.id ≡ none
  pub version_fresh : get s.specification_versions v.id ≡ none
  pub same_intake : i'.id ≡ p.intake_id
  pub same_owner : i'.organization_id ≡ p.organization_id
  pub version : p.current_version_id ≡ v.id
  pub version_owned : v.specification_id ≡ p.id
  pub in_step : matches p.status i'.status ≡ true

abbrev pub submit : IntakeRequest → Store → Store
submit i s = record s { intakes = put s.intakes i.id i }

abbrev pub move : Specification → IntakeRequest → Store → Store
move p i s = record s {
  intakes = put s.intakes i.id i;
  specifications = put s.specifications p.id p;
}

abbrev pub add : IntakeRequest → Specification → SpecificationVersion → Store → Store
add i p v s = record s {
  intakes = put s.intakes i.id i;
  specifications = put s.specifications p.id p;
  specification_versions = put s.specification_versions v.id v;
}

pub data Step (s t : Store) : Type 0 where
  unchanged : Same s t → Step s t
  submitted : (i : IntakeRequest) → get s.intakes i.id ≡ none → Same (submit i s) t → Step s t
  drafted :
      (i i' : IntakeRequest) (p : Specification) (v : SpecificationVersion)
      → Draft s i i' p v
      → Same (add i' p v s) t
      → Step s t
  moved :
      (p p' : Specification) (i i' : IntakeRequest)
      → Move s p p' i i'
      → Same (move p' i' s) t
      → Step s t

submit-IsBacked :
    (s : Store) (i : IntakeRequest) (p : Specification)
    → get s.intakes i.id ≡ none
    → IsBacked s p
    → IsBacked (submit i s) p
submit-IsBacked s i p fresh b = record {
  intake = b.intake;
  intake_found = ground (arith, b.intake_found, get-put s.intakes i.id i p.intake_id);
  intake_owned = b.intake_owned;
  in_step = b.in_step;
  version = b.version;
  version_found = b.version_found;
  version_owned = b.version_owned;
}

submit-IsCoherent :
    (s : Store) (i : IntakeRequest)
    → get s.intakes i.id ≡ none
    → IsCoherent s
    → IsCoherent (submit i s)
submit-IsCoherent s i fresh h = record {
  intakes_keyed = λ k x p. ground (arith, get-put s.intakes i.id i k, h.intakes_keyed k x);
  specifications_keyed = h.specifications_keyed;
  versions_keyed = h.versions_keyed;
  backed = λ k p found. submit-IsBacked s i p fresh (h.backed k p found);
  one_each = h.one_each;
}

module _ (s : Store) (p p' : Specification) (i i' : IntakeRequest) (h : IsCoherent s)
    (m : Move s p p' i i') where
  moved-IsBacked : IsBacked (move p' i' s) p'
  moved-IsBacked =
      let b = h.backed p.id p m.found in
      record {
        intake = i';
        intake_found = ground (
          arith,
          m.intake_found,
          m.same_intake_id,
          m.same_intake,
          h.intakes_keyed p.intake_id i m.intake_found,
          get-put_self s.intakes i'.id i',
        );
        intake_owned = ground (
          arith, m.intake_found, m.same_owner, m.same_intake_owner, b.intake_owned, b.intake_found,
        );
        in_step = m.in_step;
        version = b.version;
        version_found = ground (arith, m.same_version, b.version_found);
        version_owned = ground (arith, m.same_id, b.version_owned);
      }

  move-IsBacked :
      (k : Uuid) (q : Specification)
      → get s.specifications k ≡ some q
      → k ≢ p.id
      → IsBacked (move p' i' s) q
  move-IsBacked k q found other =
      let b = h.backed k q found in
      record {
        intake = b.intake;
        intake_found = ground (
          arith,
          b.intake_found,
          m.intake_found,
          m.same_intake_id,
          h.intakes_keyed p.intake_id i m.intake_found,
          h.one_each k p.id q p found m.found,
          get-put s.intakes i'.id i' q.intake_id,
        );
        intake_owned = b.intake_owned;
        in_step = b.in_step;
        version = b.version;
        version_found = b.version_found;
        version_owned = b.version_owned;
      }

  move-IsCoherent : IsCoherent (move p' i' s)
  move-IsCoherent = record {
    intakes_keyed = λ k x q. ground (arith, get-put s.intakes i'.id i' k, h.intakes_keyed k x);
    specifications_keyed =
        λ k x q. ground (arith, get-put s.specifications p'.id p' k, h.specifications_keyed k x);
    versions_keyed = h.versions_keyed;
    backed = λ k q found. elim (Bool-cases (p'.id == k)) [
      | inl same ↦
          subst (IsBacked (move p' i' s)) (ground (arith, get-put s.specifications p'.id p' k))
            moved-IsBacked
      | inr other ↦
          move-IsBacked k q (ground (arith, get-put s.specifications p'.id p' k))
            (ground (arith, m.same_id))
    ];
    one_each = λ j k x y xs ys same. ground (
      arith,
      m.found,
      m.same_id,
      m.same_intake,
      get-put s.specifications p'.id p' j,
      get-put s.specifications p'.id p' k,
      h.one_each j k x y,
      h.one_each p.id k p y m.found,
      h.one_each j p.id x p,
    );
  }

module _ (s : Store) (i i' : IntakeRequest) (p : Specification) (v : SpecificationVersion)
    (h : IsCoherent s) (m : Draft s i i' p v) where
  -- An intake from which a specification can be drafted has none.
  no_other :
      (k : Uuid) (q : Specification) → get s.specifications k ≡ some q → q.intake_id ≢ p.intake_id
  unfolding mark_specification_drafted
  no_other k q found =
      let b = h.backed k q found in
      λ same. ground (arith, same, m.method, m.intake_found, b.intake_found, b.in_step)

  added-IsBacked : IsBacked (add i' p v s) p
  added-IsBacked = record {
    intake = i';
    intake_found = ground (arith, m.same_intake, get-put_self s.intakes i'.id i');
    intake_owned = m.same_owner;
    in_step = m.in_step;
    version = v;
    version_found = ground (arith, m.version, get-put_self s.specification_versions v.id v);
    version_owned = m.version_owned;
  }

  add-IsBacked :
      (k : Uuid) (q : Specification) → get s.specifications k ≡ some q → IsBacked (add i' p v s) q
  add-IsBacked k q found =
      let b = h.backed k q found in
      record {
        intake = b.intake;
        intake_found = ground (
          arith,
          b.intake_found,
          m.same_intake,
          no_other k q found,
          get-put s.intakes i'.id i' q.intake_id,
        );
        intake_owned = b.intake_owned;
        in_step = b.in_step;
        version = b.version;
        version_found = ground (
          arith,
          b.version_found,
          m.version_fresh,
          get-put s.specification_versions v.id v q.current_version_id,
        );
        version_owned = b.version_owned;
      }

  add-IsCoherent : IsCoherent (add i' p v s)
  add-IsCoherent = record {
    intakes_keyed = λ k x q. ground (arith, get-put s.intakes i'.id i' k, h.intakes_keyed k x);
    specifications_keyed =
        λ k x q. ground (arith, get-put s.specifications p.id p k, h.specifications_keyed k x);
    versions_keyed =
        λ k x q. ground (arith, get-put s.specification_versions v.id v k, h.versions_keyed k x);
    backed = λ k q found. elim (Bool-cases (p.id == k)) [
      | inl same ↦
          subst (IsBacked (add i' p v s)) (ground (arith, get-put s.specifications p.id p k))
            added-IsBacked
      | inr other ↦ add-IsBacked k q (ground (arith, get-put s.specifications p.id p k))
    ];
    one_each = λ j k x y xs ys same. ground (
      arith,
      get-put s.specifications p.id p j,
      get-put s.specifications p.id p k,
      h.one_each j k x y,
      no_other j x,
      no_other k y,
    );
  }

Same-IsBacked : (s t : Store) (p : Specification) → Same s t → IsBacked s p → IsBacked t p
Same-IsBacked s t p same b = record {
  intake = b.intake;
  intake_found = rw same.intakes b.intake_found;
  intake_owned = b.intake_owned;
  in_step = b.in_step;
  version = b.version;
  version_found = rw same.versions b.version_found;
  version_owned = b.version_owned;
}

Same-IsCoherent : (s t : Store) → Same s t → IsCoherent s → IsCoherent t
Same-IsCoherent s t same h = record {
  intakes_keyed = rw same.intakes h.intakes_keyed;
  specifications_keyed = rw same.specifications h.specifications_keyed;
  versions_keyed = rw same.versions h.versions_keyed;
  backed = λ k p found.
      Same-IsBacked s t p same (h.backed k p (ground (arith, same.specifications, found)));
  one_each = rw same.specifications h.one_each;
}

-- Each of the changes keeps a store coherent.
pub Step-IsCoherent : (s t : Store) → Step s t → IsCoherent s → IsCoherent t
Step-IsCoherent s t (unchanged same) h = Same-IsCoherent s t same h
Step-IsCoherent s t (submitted i fresh same) h =
    Same-IsCoherent (submit i s) t same (submit-IsCoherent s i fresh h)
Step-IsCoherent s t (drafted i i' p v m same) h =
    Same-IsCoherent (add i' p v s) t same (add-IsCoherent s i i' p v h m)
Step-IsCoherent s t (moved p p' i i' m same) h =
    Same-IsCoherent (move p' i' s) t same (move-IsCoherent s p p' i i' h m)

-- None of the changes touches an approved specification.
pub Step-approved :
    (s t : Store) (k : Uuid) (p : Specification)
    → Step s t
    → IsCoherent s
    → get s.specifications k ≡ some p
    → is_approved p.status ≡ true
    → get t.specifications k ≡ some p
Step-approved s t k p (unchanged same) h found done = rw same.specifications found
Step-approved s t k p (submitted i fresh same) h found done = rw same.specifications found
Step-approved s t k p (drafted i i' d v m same) h found done =
    rw same.specifications (ground (arith, found, m.fresh, get-put s.specifications d.id d k))
Step-approved s t k p (moved d d' i i' m same) h found done =
    rw same.specifications
      (ground (arith, found, m.found, m.open_yet, m.same_id, get-put s.specifications d'.id d' k))
