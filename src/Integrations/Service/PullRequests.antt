-- ===== src/Integrations/Service/PullRequests.antt =====
-- `create_pull_request` (application/service.py of the integrations service): who may, what it
-- writes, and what a retry does at the development substitute.
use mvp_master.Base.{
  String, ◌≡◌, refl, sym, true, Option, none, some, [], ◌∷◌, ◌++◌, nat_eq, string_eq, arith,
  is_some, Option-cases, inl, inr, ⊤, ◌⊎◌, Bool-cases, ap, ◌∙◌,
}
use mvp_master.Exec.{◌>>◌, Result, ok, err, bind-step, pure, bind-ok}
use mvp_master.Dict.{Dict, get, put, get-put_self}
use mvp_master.Contracts.{Uuid, text, flag}
use mvp_master.Integrations.Models.{
  IntegrationError, repository_access_denied, ConnectorInstallation, RepositoryConnection,
  PullRequestResult, full_name,
}
use mvp_master.Integrations.Providers.{Provider, PullRequest, CheckRun}
use mvp_master.Integrations.Providers.Local.{
  LocalSourceControl, local_source_control, new_pull_request, create_check_run,
  create_pull_request as local_create, Check,
}
use mvp_master.Integrations.Store.{Store, Audit, get_repository, get_installation, record_audit}
use mvp_master.Integrations.Service.Permits.{
  Permits, get_repository_lem, get_installation_lem, is_active_lem, Permits-looked_up,
}
use mvp_master.Integrations.Service.{
  PullRequestForm, create_pull_request, is_active, request_of, check, present, check_of, published,
  stored, remote,
}

-- The store after the call, by its result: one more audit entry, for the organization and the
-- repository, where it succeeded, and nothing where it raised.
abbrev pub Recorded :
    Uuid
    → String
    → RepositoryConnection
    → Store
    → Result IntegrationError PullRequestResult
    → Store
    → Type 0
Recorded o actor r s (err e) s' = s' ≡ s
Recorded o actor r s (ok result) s' =
    (a : Audit) × (s' ≡ record s { audits = s.audits ++ a ∷ [] })
    × (a.organization_id ≡ o)
    × (a.actor_subject ≡ actor)
    × (a.action ≡ "pull_request.created")
    × (a.target_id ≡ r.id)

-- A call that nothing permits is denied, and changes nothing.
abbrev pub Denied :
    {P : Type 0}
    → Uuid
    → PullRequestForm
    → Store × P
    → Result IntegrationError PullRequestResult × (Store × P)
    → Type 0
Denied o f w out =
    ¬ ((r : RepositoryConnection) × (i : ConnectorInstallation) × Permits w.0 o f r i)
    × (out ≡ (err repository_access_denied, w))

abbrev pub Allowed :
    {P : Type 0}
    → Uuid
    → String
    → PullRequestForm
    → Store × P
    → Result IntegrationError PullRequestResult × (Store × P)
    → Type 0
Allowed o actor f w out =
    (r : RepositoryConnection) × (i : ConnectorInstallation) × Permits w.0 o f r i
    × Recorded o actor r w.0 out.0 out.1.0

module _ {P : Type 0} (providers : Dict String (Provider P)) (o : Uuid) (actor : String)
    (f : PullRequestForm) where
  -- The entry that a call writes
  abbrev entry : RepositoryConnection → PullRequestResult → Audit
  entry r result = record {
    organization_id = o;
    actor_subject = actor;
    action = "pull_request.created";
    target_type = "repository_connection";
    target_id = r.id;
    details =
        ("external_id", text result.reference.external_id)
        ∷ ("development_substitute", flag result.is_development_substitute)
        ∷ [];
  }

  abbrev At :
      RepositoryConnection
      → Store
      → Result IntegrationError PullRequestResult × (Store × P)
      → Type 0
  At r s out = Recorded o actor r s out.0 out.1.0

  check-store :
      (a : Provider P) (sha : Option String) (i : ConnectorInstallation) (r : RepositoryConnection)
      (w : Store × P)
      → (check providers a sha f i r w).1.0 ≡ w.0
  check-store a none i r w = refl
  check-store a (some sha) i r w = refl

  published-Recorded :
      (r : RepositoryConnection) (i : ConnectorInstallation) (a : Provider P)
      (result : PullRequestResult) (s : Store) (w : Store × P)
      → w.0 ≡ s
      → At r s (published providers o actor f r i a result w)
  unfolding record_audit
  published-Recorded r i a result s w same =
      bind-step (At r s) (λ _. stored providers (record_audit (entry r result)) >> pure result) w
        (check providers a (present f.head_sha) f i r)
        (λ e t p. cc (
          ap (λ (y : Result IntegrationError ⊤ × (Store × P)). y.1.0) p,
          check-store a (present f.head_sha) i r w,
        ))
        (λ x t p.
          let e : t.0 ≡ s = cc (
            ap (λ (y : Result IntegrationError ⊤ × (Store × P)). y.1.0) p,
            check-store a (present f.head_sha) i r w,
          ) in
          (entry r result, ap (record_audit (entry r result)) e, refl, refl, refl, refl))

  allowed-Recorded :
      (r : RepositoryConnection) (i : ConnectorInstallation) (w : Store × P)
      → get_repository w.0 o f.repository_id ≡ some r
      → get_installation w.0 o r.installation_id ≡ some i
      → is_active i.status ≡ true
      → At r w.0 (create_pull_request providers o actor f w)
  unfolding create_pull_request record_audit
  allowed-Recorded r i (s, p) found there active = elim (Option-cases (get providers i.provider)) [
    | inl nothing ↦ rw (found, there, active, nothing) refl
    | inr (a, known) ↦
        rw (found, there, active, known)
          (bind-step (At r s) (published providers o actor f r i a) (s, p)
            (remote providers (a.create_pull_request (request_of f i r)))
            (λ e t q. sym (ap (λ x. x.1.0) q))
            (λ result t q. published-Recorded r i a result s t (sym (ap (λ x. x.1.0) q))))
  ]

  -- Either nothing permits the call, and then it is denied and neither the store nor the provider's
  -- state changes; or the repository of the form is in the table as the organization's, with an
  -- active installation that is in the table as the organization's too, and then the store gets one
  -- audit entry, on this repository, if the call succeeds, and is as before if it raises.
  pub create_pull_request-Guarded :
      (w : Store × P)
      → Denied o f w (create_pull_request providers o actor f w)
        ⊎ Allowed o actor f w (create_pull_request providers o actor f w)
  unfolding create_pull_request record_audit
  create_pull_request-Guarded (s, p) = elim (Option-cases (get_repository s o f.repository_id)) [
    | inl nothing ↦
        inl (λ (r, i, h). absurd (cc (nothing, (Permits-looked_up s o f r i h).0)), rw nothing refl)
    | inr (r, found) ↦ elim (Option-cases (get_installation s o r.installation_id)) [
      | inl nothing ↦ inl (
        λ (r', i, h).
            let (same, there, _) = Permits-looked_up s o f r' i h in
            absurd (cc (found, nothing, same, there)),
        rw (found, nothing) refl,
      )
      | inr (i, there) ↦ elim (Bool-cases (is_active i.status)) [
        | inr inactive ↦ inl (
          λ (r', i', h).
              let (same, also, active) = Permits-looked_up s o f r' i' h in
              absurd (cc (found, there, inactive, same, also, active)),
          rw (found, there, inactive) refl,
        )
        | inl active ↦
            let (named, owned) = get_repository_lem s o f r found in
            let (installed, connected) = get_installation_lem s o f r.installation_id i there in
            inr (
              r,
              i,
              record {
                named = named;
                owned = owned;
                installed = installed;
                connected = connected;
                active = is_active_lem s o f i.status active;
              },
              allowed-Recorded r i (s, p) found there active,
            )
      ]
    ]
  ]

-- The substitute opens a pull request for a key, and keeps it.
opened_lem :
    (p : PullRequest) (l : LocalSourceControl)
    → (result : PullRequestResult) × (l1 : LocalSourceControl) × (local_create p l
        ≡ (ok result, l1))
      × (get l1.pull_requests p.idempotency_key ≡ some result)
unfolding local_create
opened_lem p l = elim (Option-cases (get l.pull_requests p.idempotency_key)) [
  | inr (x, found) ↦ (x, l, rw found refl, found)
  | inl nothing ↦ (
    new_pull_request l p,
    record l { pull_requests = put l.pull_requests p.idempotency_key (new_pull_request l p) },
    rw nothing refl,
    get-put_self l.pull_requests p.idempotency_key (new_pull_request l p),
  )
]

reopened_lem :
    (p : PullRequest) (l : LocalSourceControl) (result : PullRequestResult)
    → get l.pull_requests p.idempotency_key ≡ some result
    → local_create p l ≡ (ok result, l)
unfolding local_create
reopened_lem p l result found = rw found refl

checked_lem :
    (c : CheckRun) (l : LocalSourceControl)
    → (l1 : LocalSourceControl) × (create_check_run c l ≡ (ok tt, l1))
      × (create_check_run c l1 ≡ (ok tt, l1))
      × (l1.pull_requests ≡ l.pull_requests)
unfolding create_check_run
checked_lem c l =
    let made : Check = record {
      repository = full_name c.repository;
      head_sha = c.head_sha;
      name = c.name;
      summary = c.summary;
    } in
    elim (Bool-cases (is_some (get l.check_runs c.idempotency_key))) [
      | inl there ↦ (l, rw there refl, rw there refl, refl)
      | inr free ↦ (
        record l { check_runs = put l.check_runs c.idempotency_key made },
        rw free refl,
        rw (get-put_self l.check_runs c.idempotency_key made) refl,
        refl,
      )
    ]

-- The two calls of a publication: what a retry finds.
module _ (name : String) (o : Uuid) (actor : String) (f : PullRequestForm)
    (i : ConnectorInstallation) (r : RepositoryConnection) where
  abbrev providers1 : Dict String (Provider LocalSourceControl)
  providers1 = (name, local_source_control) ∷ []

  abbrev recorded : PullRequestResult → Store → Store
  recorded result s = record_audit (entry providers1 o actor f r result) s

  published_lem :
      (sha : Option String) (result : PullRequestResult) (l : LocalSourceControl)
      → present f.head_sha ≡ sha
      → (l1 : LocalSourceControl) × (l1.pull_requests ≡ l.pull_requests)
        × ((s : Store)
            → published providers1 o actor f r i local_source_control result (s, l)
              ≡ (ok result, (recorded result s, l1)))
        × ((s : Store)
            → published providers1 o actor f r i local_source_control result (s, l1)
              ≡ (ok result, (recorded result s, l1)))
  unfolding record_audit
  published_lem none result l p = (l, refl, λ s. rw p refl, λ s. rw p refl)
  published_lem (some sha) result l p =
      let (l1, first, second, same) = checked_lem (check_of f i r sha) l in
      let later =
        λ (s : Store) (a b : LocalSourceControl)
            (q : create_check_run (check_of f i r sha) a ≡ (ok tt, b)).
          bind-ok (remote providers1 (create_check_run (check_of f i r sha)))
            (λ _.
              stored providers1 (record_audit (entry providers1 o actor f r result)) >> pure result)
            (s, a) tt (s, b) (ap (λ t. (t.0, (s, t.1))) q) in
      (l1, same, λ s. rw p (later s l l1 first), λ s. rw p (later s l1 l1 second))

  known_lem : i.provider ≡ name → get providers1 i.provider ≡ some local_source_control
  unfolding get
  known_lem named = ground (arith, string_eq.beq_iff name i.provider)

  created_lem :
      (s : Store) (l l' : LocalSourceControl) (result : PullRequestResult)
      (out : Result IntegrationError PullRequestResult × (Store × LocalSourceControl))
      → get_repository s o f.repository_id ≡ some r
      → get_installation s o r.installation_id ≡ some i
      → is_active i.status ≡ true
      → i.provider ≡ name
      → local_create (request_of f i r) l ≡ (ok result, l')
      → published providers1 o actor f r i local_source_control result (s, l') ≡ out
      → create_pull_request providers1 o actor f (s, l) ≡ out
  unfolding create_pull_request
  created_lem s l l' result out found there active named opened later =
      rw (found, there, active, known_lem named)
        (bind-ok (remote providers1 (local_create (request_of f i r)))
            (published providers1 o actor f r i local_source_control) (s, l) result (s, l')
            (ap (λ t. (t.0, (s, t.1))) opened)
          ∙ later)

  -- Where the organization has the repository by an active installation of the development
  -- substitute, the call succeeds; and the same call again returns the same result and leaves the
  -- substitute's pull requests and check runs as they are.
  pub pull_request_retried :
      (s : Store) (l : LocalSourceControl)
      → get_repository s o f.repository_id ≡ some r
      → get_installation s o r.installation_id ≡ some i
      → is_active i.status ≡ true
      → i.provider ≡ name
      → (result : PullRequestResult) × (s1 s2 : Store) × (l1 : LocalSourceControl)
        × (create_pull_request providers1 o actor f (s, l) ≡ (ok result, (s1, l1)))
        × (create_pull_request providers1 o actor f (s1, l1) ≡ (ok result, (s2, l1)))
        × (get l1.pull_requests f.idempotency_key ≡ some result)
  unfolding record_audit get_repository get_installation
  pull_request_retried s l found there active named =
      let (result, l', opened, kept) = opened_lem (request_of f i r) l in
      let (l1, same, first, second) = published_lem (present f.head_sha) result l' refl in
      let held : get l1.pull_requests f.idempotency_key ≡ some result = cc in
      let s1 = recorded result s in
      (
        result,
        s1,
        recorded result s1,
        l1,
        created_lem s l l' result (ok result, (s1, l1)) found there active named opened (first s),
        created_lem s1 l1 l1 result (ok result, (recorded result s1, l1)) found there active named
            (reopened_lem (request_of f i r) l1 result held) (second s1),
        held,
      )
