-- ===== src/Dict/Keyed.antt =====
-- Dictionaries of objects that stand under a key of their own, such as their id.
use mvp_master.Base.{
  ◌≤◌, Each, length, suc, ◌≡◌, refl, Bool, true, false, none, some, [], ◌∷◌, arith, Eq, find,
}
use mvp_master.Dict.{Dict, get, put, remove, values, get-put, get-remove}

module _ {ℓ κ} {K : Type ℓ} {V : Type κ} ⦃e : Eq K⦄ (key : V → K) where
  -- Each object stands under its key, once.
  abbrev pub IsKeyed : Dict K V → Type (ℓ ⊔ κ)
  IsKeyed [] = Unit
  IsKeyed ((k, v) ∷ d) = (key v ≡ k) × (get d k ≡ none) × IsKeyed d

  pub put-IsKeyed : (d : Dict K V) (v : V) → IsKeyed d → IsKeyed (put d (key v) v)
  unfolding put get
  put-IsKeyed [] v h = (refl, refl, tt)
  put-IsKeyed ((k, x) ∷ d) v h =
      ground (
        arith,
        e.beq_iff k (key v),
        e.beq_iff (key v) k,
        put-IsKeyed d v h.2,
        get-put d (key v) v k,
      )

  pub remove-IsKeyed : (d : Dict K V) (k : K) → IsKeyed d → IsKeyed (remove d k)
  unfolding remove get
  remove-IsKeyed [] k h = tt
  remove-IsKeyed ((j, x) ∷ d) k h =
      ground (arith, e.beq_iff j k, remove-IsKeyed d k h.2, get-remove d k j)

  pub get-keyed : (d : Dict K V) (k : K) (v : V) → IsKeyed d → get d k ≡ some v → key v ≡ k
  unfolding get
  get-keyed [] k v h p = cc
  get-keyed ((j, x) ∷ d) k v h p = ground (arith, e.beq_iff j k, get-keyed d k v h.2)

  -- What a search through the values finds is stored, and fits.
  pub find-get :
      (p : V → Bool) (d : Dict K V) (v : V)
      → IsKeyed d
      → find p (values d) ≡ some v
      → (get d (key v) ≡ some v) × (p v ≡ true)
  unfolding get find
  find-get p [] v h q = cc
  find-get p ((j, x) ∷ d) v h q =
      ground (arith, e.beq_iff j (key v), e.beq_iff j (key x), find-get p d v h.2)

  -- What a search does not find is not stored.
  pub find-none :
      (p : V → Bool) (d : Dict K V) (k : K) (v : V)
      → find p (values d) ≡ none
      → get d k ≡ some v
      → p v ≡ false
  unfolding get find
  find-none p [] k v q r = cc
  find-none p ((j, x) ∷ d) k v q r = ground (arith, e.beq_iff j k, find-none p d k v)

  pub values-stored :
      (all d : Dict K V)
      → IsKeyed d
      → ((k : K) (v : V) → get d k ≡ some v → get all k ≡ some v)
      → Each (λ v. get all (key v) ≡ some v) (values d)
  unfolding get
  values-stored all [] h within = tt
  values-stored all ((j, x) ∷ d) h within =
      let rest =
        values-stored all d h.2 (λ k y p. within k y (ground (arith, e.beq_iff j k, h.1))) in
      (ground (arith, within (key x) x, e.beq_iff j (key x), h.0), rest)

  remove-missing : (d : Dict K V) (k : K) → get d k ≡ none → remove d k ≡ d
  unfolding get remove
  remove-missing [] k p = refl
  remove-missing ((j, x) ∷ d) k p = ground (arith, remove-missing d k)

  -- One object less
  pub length-remove :
      (d : Dict K V) (k : K) (v : V)
      → IsKeyed d
      → get d k ≡ some v
      → length d ≡ suc (length (remove d k))
  unfolding get remove
  length-remove [] k v h p = absurd (cc)
  length-remove ((j, x) ∷ d) k v h p =
      ground (arith, e.beq_iff j k, remove-missing d k, length-remove d k v h.2)

module _ {ℓ κ} {K : Type ℓ} {V : Type κ} ⦃e : Eq K⦄ where
  pub length-remove_le : (d : Dict K V) (k : K) → length (remove d k) ≤ length d
  unfolding remove
  length-remove_le [] k = omega arith
  length-remove_le ((j, x) ∷ d) k = ground (arith, length-remove_le d k)
