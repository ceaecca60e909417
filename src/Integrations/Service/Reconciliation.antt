-- ===== src/Integrations/Service/Reconciliation.antt =====
-- `reconcile` (application/service.py of the integrations service) as a whole: its rows, and what it
-- writes beside them.
use mvp_master.Base.{
  ℕ, suc, String, ◌≡◌, refl, Bool, true, false, some, List, [], ◌∷◌, ◌==◌, nat_eq, string_eq, arith,
  select, contains, length, if◌then◌else◌, ◌↔◌, ◌++◌, ap, ◌∙◌,
}
use mvp_master.Exec.{◌>>=◌, ok, bind-ok, pure}
use mvp_master.Dict.{Dict, get, put, values, get-put_self}
use mvp_master.Contracts.{Uuid, Time, int}
use mvp_master.Integrations.Models.{
  ConnectorInstallation, RepositoryConnection, RepositoryAccessStatus, RepositoryDescriptor,
}
use mvp_master.Integrations.Providers.{Provider}
use mvp_master.Integrations.Store.{
  Store, revoke_rows, revoke_row, update_installation, record_audit, upsert_repository,
  list_repositories, revoke_repositories_except,
}
use mvp_master.Integrations.Store.Upserts.{
  Rows, IsUnique, get-revoke_rows, revoke_rows_from, revoke_rows-IsUnique, upserted,
}
use mvp_master.Integrations.Service.{
  reconcile, reconcile_each, by_external_id, external_ids, remote, settle,
}
use mvp_master.Integrations.Service.Rows.{
  of_installation, Fresh, Seen, seen_rows, seen_rows-Seen, existing-Remembers, row_at,
  initial-Invariant,
}

-- The rows of an installation after its account has been listed, at a time: a row is active exactly
-- where the listing has its external id, each listed id has a row, the rows of other installations
-- are as they were, and no repository has two rows.
pub record Mirrors (i : ConnectorInstallation) (ids : List String) (now : Time)
    (before after : Rows) : Type 0 where
  pub unique : IsUnique after
  pub exact :
      (k : Uuid) (x : RepositoryConnection)
      → get after k ≡ some x
      → of_installation i x ≡ true
      → x.access_status ≡ (
          if contains ids x.external_repository_id
          then RepositoryAccessStatus.active
          else RepositoryAccessStatus.revoked)
  pub complete :
      (name : String)
      → contains ids name ≡ true
      → (k : Uuid) × (x : RepositoryConnection) × (get after k ≡ some x)
        × (of_installation i x ≡ true)
        × (x.external_repository_id ≡ name)
  pub others :
      (k : Uuid) (x : RepositoryConnection)
      → of_installation i x ≡ false
      → (get before k ≡ some x) ↔ (get after k ≡ some x)

module _ (i : ConnectorInstallation) (ds : List RepositoryDescriptor) (now : Time)
    (before rows : Rows) where
  abbrev after : Rows
  after = revoke_rows i.organization_id i.id (external_ids ds) now rows

  -- After the loop, revoking leaves the rows as listed.
  revoked-Mirrors : Seen i ds before rows → Mirrors i (external_ids ds) now before after
  revoked-Mirrors h = record {
    unique = revoke_rows-IsUnique i.organization_id i.id (external_ids ds) now rows h.unique;
    exact = λ k x p ours.
        let (y, there, e) =
          revoke_rows_from i.organization_id i.id (external_ids ds) now rows k x p in
        ground (arith, h.active k y there);
    complete = λ name p.
        let (k, x, there, ours, named) = h.present name p in
        (
          k,
          revoke_row i.organization_id i.id (external_ids ds) now x,
          get-revoke_rows i.organization_id i.id (external_ids ds) now rows k x there,
          ground arith,
          ground arith,
        );
    others = λ k x ours. (
      λ p. ground (
        arith,
        get-revoke_rows i.organization_id i.id (external_ids ds) now rows k x,
        h.kept k x,
      ),
      λ p.
          let (y, there, e) =
            revoke_rows_from i.organization_id i.id (external_ids ds) now rows k x p in
          ground (arith, h.came k y),
    );
  }

module _ (ids : ℕ → Uuid) (substitute : Bool) (now : Time) (i : ConnectorInstallation)
    (existing : Dict String RepositoryConnection) where
  -- The rows that the loop returns
  seen : ℕ → List RepositoryDescriptor → List RepositoryConnection
  seen n [] = []
  seen n (d ∷ ds) = row_at ids substitute now i existing n d ∷ seen (suc n) ds

  length-seen : (n : ℕ) (ds : List RepositoryDescriptor) → length (seen n ds) ≡ length ds
  unfolding seen
  length-seen n [] = refl
  length-seen n (d ∷ ds) = cc (length-seen (suc n) ds)

  -- The loop writes rows only, and never raises.
  reconcile_each_lem :
      {P : Type 0} (providers : Dict String (Provider P)) (n : ℕ) (ds : List RepositoryDescriptor)
      (s : Store) (p : P)
      → reconcile_each providers ids substitute now i existing n ds (s, p) ≡ (
        ok (seen n ds),
        (
          record s { repositories = seen_rows ids substitute now i existing n ds s.repositories },
          p,
        ),
      )
  unfolding reconcile_each seen seen_rows upsert_repository
  reconcile_each_lem providers n [] s p = refl
  reconcile_each_lem providers n (d ∷ ds) s p =
      let repository = row_at ids substitute now i existing n d in
      let s1 : Store = record s { repositories = upserted repository s.repositories } in
      bind-ok (reconcile_each providers ids substitute now i existing (suc n) ds)
        (λ rest. pure (repository ∷ rest)) (s1, p) (seen (suc n) ds)
        (
          record s1 {
            repositories = seen_rows ids substitute now i existing (suc n) ds s1.repositories;
          },
          p,
        )
        (reconcile_each_lem providers (suc n) ds s1 p)

-- When the provider lists an installation's account, `reconcile` returns one row for each repository of the
-- listing and notes the time on the installation. If before the call no repository had two rows and
-- the new ids were distinct and free, then after it a row of the installation is active exactly
-- where the listing has its external id and is revoked otherwise, each listed id has a row, the rows
-- of other installations are as they were, and no repository has two rows.
pub reconcile-Mirrors :
    {P : Type 0} (providers : Dict String (Provider P)) (adapter : Provider P) (ids : ℕ → Uuid)
    (now : Time) (actor : String) (i : ConnectorInstallation) (ds : List RepositoryDescriptor)
    (s : Store) (p q : P)
    → get providers i.provider ≡ some adapter
    → adapter.repositories i.external_account_id p ≡ (ok ds, q)
    → IsUnique s.repositories
    → Fresh ids s.repositories
    → (connected : List RepositoryConnection) × (s' : Store) × (reconcile providers ids now actor i
          (s, p)
        ≡ (ok connected, (s', q)))
      × (length connected ≡ length ds)
      × (get s'.installations i.id ≡ some (record i { last_reconciled_at = some now }))
      × Mirrors i (external_ids ds) now s.repositories s'.repositories
unfolding reconcile list_repositories revoke_repositories_except update_installation record_audit
reconcile-Mirrors providers adapter ids now actor i ds s p q known listing unique fresh =
    let substitute = adapter.is_development_substitute in
    let existing =
      by_external_id i.id
        (select (λ (x : RepositoryConnection). x.organization_id == i.organization_id)
          (values s.repositories))
        [] in
    let past = existing-Remembers s.repositories i unique.keyed in
    let rows = seen_rows ids substitute now i existing 0 ds s.repositories in
    (
      seen ids substitute now i existing 0 ds,
      record s {
        repositories = revoke_rows i.organization_id i.id (external_ids ds) now rows;
        installations = put s.installations i.id (record i { last_reconciled_at = some now });
        audits =
            s.audits
            ++ (record {
              organization_id = i.organization_id;
              actor_subject = actor;
              action = "connector.reconciled";
              target_type = "connector_installation";
              target_id = i.id;
              details =
                  ("repository_count", int (length (seen ids substitute now i existing 0 ds))) ∷ [];
            })
              ∷ [];
      },
      rw known (
          bind-ok (remote providers (adapter.repositories i.external_account_id))
            (λ l.
              reconcile_each providers ids substitute now i existing 0 l
              >>= settle providers now actor i l)
            (s, p) ds (s, q) (ap (λ t. (t.0, (s, t.1))) listing)
          ∙ bind-ok (reconcile_each providers ids substitute now i existing 0 ds)
              (settle providers now actor i ds) (s, q) (seen ids substitute now i existing 0 ds)
              (record s { repositories = rows }, q)
              (reconcile_each_lem ids substitute now i existing providers 0 ds s q)),
      length-seen ids substitute now i existing 0 ds,
      get-put_self s.installations i.id (record i { last_reconciled_at = some now }),
      revoked-Mirrors i ds now s.repositories rows (
          seen_rows-Seen ids substitute now i existing s.repositories fresh past 0 ds s.repositories
            (initial-Invariant ids s.repositories unique fresh)),
    )
