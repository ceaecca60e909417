-- ===== src/Integrations/Service/Rows.antt =====
-- The loop of `reconcile` (application/service.py of the integrations service) over the rows of the
-- memory store, and the dict `existing` that it looks repositories up in.
use mvp_master.Base.{
  ℕ, suc, ◌≤◌, String, ◌≡◌, Bool, true, false, ◌&&◌, none, some, List, [], ◌∷◌, ◌==◌, nat_eq,
  string_eq, arith, find, select, contains, Option-cases, Bool-cases, inl, inr, ◌⊎◌, if◌then◌else◌,
  eq_refl,
}
use mvp_master.Dict.{Dict, get, put, values, get-put, get-put_self}
use mvp_master.Dict.Keyed.{IsKeyed}
use mvp_master.Contracts.{Uuid, Time}
use mvp_master.Integrations.Models.{
  ConnectorInstallation, RepositoryConnection, RepositoryAccessStatus, RepositoryDescriptor,
}
use mvp_master.Integrations.Store.{same_repository, without}
use mvp_master.Integrations.Store.Upserts.{
  Rows, row_id, IsUnique, Fits, upserted, get-upserted, upserted_others, upserted-IsUnique,
}
use mvp_master.Integrations.Service.{seen_repository, external_ids, by_external_id}

-- Whether a row belongs to the installation.
abbrev pub of_installation : ConnectorInstallation → RepositoryConnection → Bool
of_installation i x = x.organization_id == i.organization_id && x.installation_id == i.id

-- Whether a row belongs to the installation and has one of the external ids.
abbrev pub listed : ConnectorInstallation → List String → RepositoryConnection → Bool
listed i ids x = of_installation i x && contains ids x.external_repository_id

-- Each row of the list is stored, and belongs to the organization.
abbrev Stored : Rows → Uuid → List RepositoryConnection → Type 0
Stored d o [] = Unit
Stored d o (x ∷ l) = (get d x.id ≡ some x) × ((x.organization_id == o) ≡ true) × Stored d o l

select-Stored :
    (all d : Rows) (o : Uuid)
    → IsKeyed row_id d
    → ((k : Uuid) (x : RepositoryConnection) → get d k ≡ some x → get all k ≡ some x)
    → Stored all o (select (λ x. x.organization_id == o) (values d))
unfolding select get
select-Stored all [] o h within = tt
select-Stored all ((j, x) ∷ d) o h within =
    let rest =
      select-Stored all d o h.2 (λ k y p. within k y (ground (arith, nat_eq.beq_iff j k, h.1))) in
    ground (arith, within x.id x, nat_eq.beq_iff j x.id, h.0)

-- What the dict `existing` gives for an external id is a stored row of the installation with it.
abbrev pub Remembers : Rows → ConnectorInstallation → Dict String RepositoryConnection → Type 0
Remembers d i existing =
    (name : String) (x : RepositoryConnection)
    → get existing name ≡ some x
    → (get d x.id ≡ some x) × (of_installation i x ≡ true) × (x.external_repository_id ≡ name)

by_external_id-Remembers :
    (d : Rows) (i : ConnectorInstallation) (l : List RepositoryConnection)
    (existing : Dict String RepositoryConnection)
    → Stored d i.organization_id l
    → Remembers d i existing
    → Remembers d i (by_external_id i.id l existing)
unfolding by_external_id
by_external_id-Remembers d i [] existing h past = past
by_external_id-Remembers d i (r ∷ l) existing h past =
    by_external_id-Remembers d i l
      (if r.installation_id == i.id then put existing r.external_repository_id r else existing) h.2
      (λ name x p. ground (
        arith,
        get-put existing r.external_repository_id r name,
        past name x,
        h.0,
        h.1,
        string_eq.beq_iff r.external_repository_id name,
      ))

pub existing-Remembers :
    (d : Rows) (i : ConnectorInstallation)
    → IsKeyed row_id d
    → Remembers d i
        (by_external_id i.id (select (λ x. x.organization_id == i.organization_id) (values d)) [])
unfolding get
existing-Remembers d i h =
    by_external_id-Remembers d i (select (λ x. x.organization_id == i.organization_id) (values d))
      [] (select-Stored d d i.organization_id h (λ k x p. p)) (λ name x p. absurd (cc))

-- The new ids are distinct, and none is a row's.
pub record Fresh (ids : ℕ → Uuid) (d : Rows) : Type 0 where
  pub distinct : (j k : ℕ) → ids j ≡ ids k → j ≡ k
  pub unused : (j : ℕ) → get d (ids j) ≡ none

-- What the loop over the descriptors makes of the rows
pub record Seen (i : ConnectorInstallation) (ds : List RepositoryDescriptor) (rows rows' : Rows)
    : Type 0 where
  pub unique : IsUnique rows'
  pub active :
      (k : Uuid) (x : RepositoryConnection)
      → get rows' k ≡ some x
      → listed i (external_ids ds) x ≡ true
      → x.access_status ≡ RepositoryAccessStatus.active
  pub kept :
      (k : Uuid) (x : RepositoryConnection)
      → listed i (external_ids ds) x ≡ false
      → get rows k ≡ some x
      → get rows' k ≡ some x
  pub came :
      (k : Uuid) (x : RepositoryConnection)
      → listed i (external_ids ds) x ≡ false
      → get rows' k ≡ some x
      → get rows k ≡ some x
  pub present :
      (name : String)
      → contains (external_ids ds) name ≡ true
      → (k : Uuid) × (x : RepositoryConnection) × (get rows' k ≡ some x)
        × (of_installation i x ≡ true)
        × (x.external_repository_id ≡ name)

-- The loop's invariant before its `n`-th round
pub record Invariant (ids : ℕ → Uuid) (before : Rows) (n : ℕ) (rows : Rows) : Type 0 where
  pub unique : IsUnique rows
  pub ahead : (j : ℕ) → n ≤ j → get rows (ids j) ≡ none
  pub same :
      (k : Uuid) (x y : RepositoryConnection)
      → get before k ≡ some x
      → get rows k ≡ some y
      → same_repository x y ≡ true

pub initial-Invariant :
    (ids : ℕ → Uuid) (rows : Rows) → IsUnique rows → Fresh ids rows → Invariant ids rows 0 rows
initial-Invariant ids rows unique fresh = record {
  unique = unique;
  ahead = λ j le. fresh.unused j;
  same = λ k x y p q. ground (
    arith,
    eq_refl x.organization_id,
    eq_refl x.installation_id,
    eq_refl x.external_repository_id,
  );
}

module _ (ids : ℕ → Uuid) (substitute : Bool) (now : Time) (i : ConnectorInstallation)
    (existing : Dict String RepositoryConnection) where
  abbrev pub row_at : ℕ → RepositoryDescriptor → RepositoryConnection
  row_at n d = seen_repository substitute (ids n) now i (get existing d.external_id) d

  -- The rows after the loop
  unfoldable pub seen_rows : ℕ → List RepositoryDescriptor → Rows → Rows
  seen_rows n [] rows = rows
  seen_rows n (d ∷ ds) rows = seen_rows (suc n) ds (upserted (row_at n d) rows)

  module _ (before : Rows) (fresh : Fresh ids before) (past : Remembers before i existing) where
    row_at-Fits :
        (n : ℕ) (d : RepositoryDescriptor) (rows : Rows)
        → Invariant ids before n rows
        → Fits rows (row_at n d)
    row_at-Fits n d rows h x p = elim (Option-cases (get existing d.external_id)) [
      | inl nothing ↦ ground (arith, h.ahead n (omega arith))
      | inr (y, found) ↦
          let (there, ours, named) = past d.external_id y found in
          ground (
            arith,
            h.same y.id y x there,
            string_eq.beq_iff y.external_repository_id d.external_id,
            string_eq.beq_iff x.external_repository_id y.external_repository_id,
            string_eq.beq_iff x.external_repository_id d.external_id,
          )
    ]

    row_at_id :
        (n : ℕ) (d : RepositoryDescriptor) (k : Uuid)
        → (row_at n d).id ≡ k
        → (get existing d.external_id ≡ none) × (ids n ≡ k)
          ⊎ ((y : RepositoryConnection) × (get before k ≡ some y)
              × (same_repository y (row_at n d) ≡ true))
    row_at_id n d k p = elim (Option-cases (get existing d.external_id)) [
      | inl nothing ↦ inl (nothing, ground arith)
      | inr (y, found) ↦
          let (there, ours, named) = past d.external_id y found in
          inr (
            y,
            ground arith,
            ground (
              arith,
              string_eq.beq_iff y.external_repository_id d.external_id,
              string_eq.beq_iff d.external_id y.external_repository_id,
            ),
          )
    ]

    round_ahead :
        (n : ℕ) (d : RepositoryDescriptor) (rows : Rows)
        → Invariant ids before n rows
        → (j : ℕ) → suc n ≤ j
        → get (upserted (row_at n d) rows) (ids j) ≡ none
    round_ahead n d rows h j le = elim (Option-cases (get (upserted (row_at n d) rows) (ids j))) [
      | inl nothing ↦ nothing
      | inr (x, found) ↦ elim (get-upserted (row_at n d) rows h.unique (ids j) x found) [
        | inl (e, _) ↦ elim (row_at_id n d (ids j) e) [
          | inl (_, q) ↦ absurd (omega (arith, fresh.distinct n j q))
          | inr (y, q, _) ↦ absurd (cc (fresh.unused j))
        ]
        | inr (_, q, _) ↦ absurd (cc (h.ahead j (omega arith)))
      ]
    ]

    round_same :
        (n : ℕ) (d : RepositoryDescriptor) (rows : Rows)
        → Invariant ids before n rows
        → (k : Uuid) (x y : RepositoryConnection) → get before k ≡ some x
        → get (upserted (row_at n d) rows) k ≡ some y
        → same_repository x y ≡ true
    round_same n d rows h k x y p q = elim (get-upserted (row_at n d) rows h.unique k y q) [
      | inl (e, at) ↦ elim (row_at_id n d k e) [
        | inl (_, e') ↦ absurd (cc (fresh.unused n))
        | inr (z, there, fits) ↦
            let e1 : some x ≡ some z = cc in let e2 : x ≡ z = cc in rw (e2, at) fits
      ]
      | inr (_, there, _) ↦ h.same k x y p there
    ]

    round-Invariant :
        (n : ℕ) (d : RepositoryDescriptor) (rows : Rows)
        → Invariant ids before n rows
        → Invariant ids before (suc n) (upserted (row_at n d) rows)
    round-Invariant n d rows h = record {
      unique = upserted-IsUnique (row_at n d) rows h.unique;
      ahead = round_ahead n d rows h;
      same = round_same n d rows h;
    }

    pub seen_rows-Seen :
        (n : ℕ) (ds : List RepositoryDescriptor) (rows : Rows)
        → Invariant ids before n rows
        → Seen i ds rows (seen_rows n ds rows)
    unfolding seen_rows
    seen_rows-Seen n [] rows h = record {
      unique = h.unique;
      active = λ k x p q. ground arith;
      kept = λ k x p q. q;
      came = λ k x p q. q;
      present = λ name p. absurd (cc);
    }
    seen_rows-Seen n (d ∷ ds) rows h =
        let r = row_at n d in
        let rows1 = upserted r rows in
        let later : Seen i ds rows1 (seen_rows (suc n) ds rows1) =
          seen_rows-Seen (suc n) ds rows1 (round-Invariant n d rows h) in
        record {
          unique = later.unique;
          active = λ k x p q. ground (
            arith,
            later.active k x p,
            later.came k x,
            get-upserted r rows h.unique k x,
            string_eq.beq_iff x.external_repository_id d.external_id,
          );
          kept = λ k x p q.
              ground (
                arith,
                later.kept k x,
                upserted_others r rows h.unique (row_at-Fits n d rows h) k x,
              );
          came = λ k x p q.
              ground
                (arith, later.came k x, get-upserted r rows h.unique k x, eq_refl d.external_id);
          present = λ name p. elim (Bool-cases (contains (external_ids ds) name)) [
            | inl t ↦ later.present name t
            | inr f ↦
                let e : d.external_id ≡ name =
                  ground (arith, string_eq.beq_iff name d.external_id) in
                (
                  r.id,
                  r,
                  later.kept r.id r (ground arith)
                      (get-put_self (without (find (same_repository r) (values rows)) rows) r.id r),
                  ground arith,
                  e,
                )
          ];
        }
