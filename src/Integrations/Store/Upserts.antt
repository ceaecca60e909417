-- ===== src/Integrations/Store/Upserts.antt =====
-- The rows of `repositories` (adapters/memory.py of the integrations service) under
-- `upsert_repository` and `revoke_repositories_except`.
use mvp_master.Base.{
  String, ◌≡◌, ◌≢◌, true, false, none, some, List, [], ◌∷◌, nat_eq, string_eq, arith, find,
  Option-cases, inl, inr, ◌⊎◌,
}
use mvp_master.Dict.{Dict, get, put, remove, values, get-put, get-remove}
use mvp_master.Dict.Keyed.{IsKeyed, put-IsKeyed, remove-IsKeyed, find-get, find-none}
use mvp_master.Contracts.{Uuid, Time}
use mvp_master.Integrations.Models.{RepositoryConnection}
use mvp_master.Integrations.Store.{same_repository, without, revoke_row, revoke_rows}

abbrev pub Rows : Type 0
Rows = Dict Uuid RepositoryConnection

abbrev pub row_id : RepositoryConnection → Uuid
row_id r = r.id

-- Rows stand under their ids, and no two of them are the same repository of one installation.
pub record IsUnique (d : Rows) : Type 0 where
  pub keyed : IsKeyed row_id d
  pub one_each :
      (j k : Uuid) (x y : RepositoryConnection)
      → get d j ≡ some x
      → get d k ≡ some y
      → same_repository x y ≡ true
      → j ≡ k

-- The id of a row that is written is free, or that of a row for the same repository.
abbrev pub Fits : Rows → RepositoryConnection → Type 0
Fits d r = (x : RepositoryConnection) → get d r.id ≡ some x → same_repository r x ≡ true

abbrev pub upserted : RepositoryConnection → Rows → Rows
upserted r d = put (without (find (same_repository r) (values d)) d) r.id r

-- Rows for one repository are for the same one.
pub same_repository_join :
    (r x y : RepositoryConnection)
    → same_repository r x ≡ true
    → same_repository r y ≡ true
    → same_repository x y ≡ true
same_repository_join r x y p q = ground (
  arith,
  string_eq.beq_iff x.external_repository_id r.external_repository_id,
  string_eq.beq_iff y.external_repository_id r.external_repository_id,
  string_eq.beq_iff y.external_repository_id x.external_repository_id,
)

pub same_repository_sym : (x y : RepositoryConnection) → same_repository x y ≡ same_repository y x
same_repository_sym x y = ground (
  arith,
  string_eq.beq_iff x.external_repository_id y.external_repository_id,
  string_eq.beq_iff y.external_repository_id x.external_repository_id,
)

module _ (r : RepositoryConnection) (d : Rows) (h : IsUnique d) where
  -- What is stored after an upsert: the row, and rows for other repositories.
  pub get-upserted :
      (k : Uuid) (x : RepositoryConnection)
      → get (upserted r d) k ≡ some x
      → (r.id ≡ k) × (x ≡ r) ⊎ (r.id ≢ k) × (get d k ≡ some x) × (same_repository r x ≡ false)
  get-upserted k x p = elim (Option-cases (find (same_repository r) (values d))) [
    | inl nothing ↦
        ground (arith, get-put d r.id r k, find-none row_id (same_repository r) d k x nothing)
    | inr (y, found) ↦
        let (there, fits) = find-get row_id (same_repository r) d y h.keyed found in
        ground (
          arith,
          get-put (remove d y.id) r.id r k,
          get-remove d y.id k,
          h.one_each y.id k y x there,
          same_repository_join r y x fits,
        )
  ]

  -- The rows for other repositories stay.
  pub upserted_others :
      Fits d r
      → (k : Uuid) (x : RepositoryConnection) → get d k ≡ some x
      → same_repository r x ≡ false
      → get (upserted r d) k ≡ some x
  upserted_others fits k x found other = elim (Option-cases (find (same_repository r) (values d))) [
    | inl nothing ↦ ground (arith, get-put d r.id r k, fits x)
    | inr (y, there) ↦
        let (at, same) = find-get row_id (same_repository r) d y h.keyed there in
        ground (arith, get-put (remove d y.id) r.id r k, get-remove d y.id k, fits x)
  ]

  upserted-IsKeyed : IsKeyed row_id (upserted r d)
  upserted-IsKeyed = elim (Option-cases (find (same_repository r) (values d))) [
    | inl nothing ↦ rw nothing (put-IsKeyed row_id d r h.keyed)
    | inr (y, there) ↦
        rw there (put-IsKeyed row_id (remove d y.id) r (remove-IsKeyed row_id d y.id h.keyed))
  ]

  pub upserted-IsUnique : IsUnique (upserted r d)
  upserted-IsUnique = record {
    keyed = upserted-IsKeyed;
    one_each = λ j k x y p q same. ground (
      arith,
      get-upserted j x p,
      get-upserted k y q,
      h.one_each j k x y,
      same_repository_sym x y,
    );
  }

-- Revoking changes rows where they stand.
pub get-revoke_rows :
    (o i : Uuid) (ids : List String) (at : Time) (d : Rows) (k : Uuid) (x : RepositoryConnection)
    → get d k ≡ some x
    → get (revoke_rows o i ids at d) k ≡ some (revoke_row o i ids at x)
unfolding revoke_rows get
get-revoke_rows o i ids at [] k x p = cc
get-revoke_rows o i ids at ((j, r) ∷ d) k x p = ground (arith, get-revoke_rows o i ids at d k x)

pub get-revoke_rows-none :
    (o i : Uuid) (ids : List String) (at : Time) (d : Rows) (k : Uuid)
    → get d k ≡ none
    → get (revoke_rows o i ids at d) k ≡ none
unfolding revoke_rows get
get-revoke_rows-none o i ids at [] k p = p
get-revoke_rows-none o i ids at ((j, r) ∷ d) k p =
    ground (arith, get-revoke_rows-none o i ids at d k)

revoke_rows-IsKeyed :
    (o i : Uuid) (ids : List String) (at : Time) (d : Rows)
    → IsKeyed row_id d
    → IsKeyed row_id (revoke_rows o i ids at d)
unfolding revoke_rows
revoke_rows-IsKeyed o i ids at [] h = h
revoke_rows-IsKeyed o i ids at ((j, r) ∷ d) h = (
  ground (arith, h.0),
  get-revoke_rows-none o i ids at d j h.1,
  revoke_rows-IsKeyed o i ids at d h.2,
)

-- What is stored after revoking was stored before.
pub revoke_rows_from :
    (o i : Uuid) (ids : List String) (at : Time) (d : Rows) (k : Uuid) (x : RepositoryConnection)
    → get (revoke_rows o i ids at d) k ≡ some x
    → (y : RepositoryConnection) × (get d k ≡ some y) × (x ≡ revoke_row o i ids at y)
revoke_rows_from o i ids at d k x p = elim (Option-cases (get d k)) [
  | inl nothing ↦ absurd (ground (arith, get-revoke_rows-none o i ids at d k nothing))
  | inr (y, found) ↦ (y, found, ground (arith, get-revoke_rows o i ids at d k y found))
]

pub revoke_rows-IsUnique :
    (o i : Uuid) (ids : List String) (at : Time) (d : Rows)
    → IsUnique d
    → IsUnique (revoke_rows o i ids at d)
revoke_rows-IsUnique o i ids at d h = record {
  keyed = revoke_rows-IsKeyed o i ids at d h.keyed;
  one_each = λ j k x y p q same.
      let (x', there, e) = revoke_rows_from o i ids at d j x p in
      let (y', there', e') = revoke_rows_from o i ids at d k y q in
      ground (arith, h.one_each j k x' y' there there');
}
