-- ===== src/Delivery/Jobs/Leases.antt =====
-- Leases of runner jobs (adapters/postgres.py): who may extend and complete a job, and when it may
-- be leased again.
use mathlib.Core.List.{Memᴰ}
use mvp_master.Base.{
  ◌+◌, ◌≤◌, ◌⊎◌, false, ◌≡◌, true, none, some, Option, List, arith, nat_eq, Option-cases, inl, inr,
  select, ◌≢◌,
}
use mvp_master.Dict.{get, put, values, get-put, get-put_self}
use mvp_master.Contracts.{Uuid, Time}
use mvp_master.Delivery.Models.{Runner}
use mvp_master.Delivery.Jobs.{
  RunnerJob, Jobs, JobResult, leased, completed, lease_duration, is_open, is_leasable, lease_row,
  heartbeat_runner_job, complete_runner_job, lease_runner_job,
}
use mvp_master.Delivery.Jobs.Tables.{IsTable, mem-get, mem-select, get-keyed}

-- The database picks one of the rows that it is offered.
abbrev pub IsPick : (List RunnerJob → Option RunnerJob) → Type 0
IsPick pick = (rows : List RunnerJob) (row : RunnerJob) → pick rows ≡ some row → Memᴰ row rows

module _ (pick : List RunnerJob → Option RunnerJob) (picks : IsPick pick) where
  -- The row that a lease was given: one of the table's, in the runner's organization and pool, and
  -- open at the time.
  pub lease_given :
      (runner : Runner) (now at : Time) (jobs : Jobs) (r : RunnerJob)
      → IsTable jobs
      → (lease_runner_job pick runner now at jobs).0 ≡ some r
      → (row : RunnerJob) × (get jobs row.id ≡ some row)
        × (row.organization_id ≡ runner.organization_id)
        × (row.pool_id ≡ runner.pool_id)
        × (is_open now row.status row.leased_at ≡ true)
        × (r ≡ lease_row runner at row)
        × ((lease_runner_job pick runner now at jobs).1 ≡ put jobs row.id r)
  unfolding lease_runner_job
  lease_given runner now at jobs r table h =
      elim (Option-cases (pick (select (is_leasable runner now) (values jobs)))) [
        | inl nothing ↦ absurd (ground arith)
        | inr (row, given) ↦
            let (member, fits) =
              mem-select (is_leasable runner now) (values jobs) row
                (picks (select (is_leasable runner now) (values jobs)) row given) in
            (
              row,
              mem-get jobs row table member,
              ground arith,
              ground arith,
              ground arith,
              ground arith,
              ground arith,
            )
      ]

  -- A row that is not open is left alone by every lease.
  closed_untouched :
      (runner : Runner) (now at : Time) (jobs : Jobs) (k : Uuid) (row : RunnerJob)
      → IsTable jobs
      → get jobs k ≡ some row
      → is_open now row.status row.leased_at ≡ false
      → get (lease_runner_job pick runner now at jobs).1 k ≡ some row
  closed_untouched runner now at jobs k row table found closed =
      elim (Option-cases (lease_runner_job pick runner now at jobs).0) [
        | inl nothing ↦ unfold lease_runner_job in ground arith
        | inr (r, given) ↦
            let (x, there, _, _, open_x, same, after) =
              lease_given runner now at jobs r table given in
            rw after (ground (arith, get-put jobs x.id r k))
      ]

  -- While a lease is younger than 45 seconds no other lease is granted on its job, which stays as
  -- it is whichever runner asks.
  pub lease_exclusive :
      (runner : Runner) (now at : Time) (jobs : Jobs) (k : Uuid) (row : RunnerJob) (since : Time)
      → IsTable jobs
      → get jobs k ≡ some row
      → row.status ≡ leased
      → row.leased_at ≡ some since
      → now ≤ since + lease_duration
      → get (lease_runner_job pick runner now at jobs).1 k ≡ some row
  lease_exclusive runner now at jobs k row since table found held from young =
      closed_untouched runner now at jobs k row table found (ground arith)

  -- Once a job has been leased to another runner, the one that held it before can neither extend
  -- nor complete it: it gets nothing, and the table stays as it is.
  pub stale_runner_refused :
      (a b : Runner) (now at later : Time) (jobs : Jobs) (r : RunnerJob) (result : JobResult)
      → IsTable jobs
      → a.id ≢ b.id
      → (lease_runner_job pick b now at jobs).0 ≡ some r
      → let t = (lease_runner_job pick b now at jobs).1 in
        (heartbeat_runner_job a r.id later t ≡ (none, t))
        × (complete_runner_job a r.id result later t ≡ (none, t))
  unfolding heartbeat_runner_job complete_runner_job
  stale_runner_refused a b now at later jobs r result table other given =
      let (x, there, _, _, _, same, after) = lease_given b now at jobs r table given in
      (ground (arith, get-put_self jobs x.id r), ground (arith, get-put_self jobs x.id r))

-- A heartbeat and a completion are for the runner that holds the lease alone: any other, also one
-- of another organization, gets nothing and changes nothing.
pub holder_only :
    (runner : Runner) (k : Uuid) (now : Time) (result : JobResult) (jobs : Jobs) (row : RunnerJob)
    → get jobs k ≡ some row
    → (row.organization_id ≢ runner.organization_id)
      ⊎ (row.leased_by_runner_id ≢ some runner.id)
      ⊎ (row.status ≢ leased)
    → (heartbeat_runner_job runner k now jobs ≡ (none, jobs))
      × (complete_runner_job runner k result now jobs ≡ (none, jobs))
unfolding heartbeat_runner_job complete_runner_job
holder_only runner k now result jobs row found foreign = (ground arith, ground arith)

-- A completed job keeps its result: no lease, heartbeat or completion of any runner changes it.
pub completed_for_good :
    (pick : List RunnerJob → Option RunnerJob)
    → IsPick pick
    → (runner : Runner) (now at : Time) (jobs : Jobs) (j k : Uuid) (row : RunnerJob)
      (result : JobResult)
    → IsTable jobs
    → get jobs k ≡ some row
    → row.status ≡ completed
    → (get (lease_runner_job pick runner now at jobs).1 k ≡ some row)
      × (get (heartbeat_runner_job runner j now jobs).1 k ≡ some row)
      × (get (complete_runner_job runner j result now jobs).1 k ≡ some row)
unfolding heartbeat_runner_job complete_runner_job
completed_for_good pick picks runner now at jobs j k row result table found done = (
  closed_untouched pick picks runner now at jobs k row table found (ground arith),
  elim (Option-cases (get jobs j)) [
    | inl missing ↦ ground arith
    | inr (x, there) ↦ ground (
      arith,
      get-keyed jobs j x table there,
      get-put jobs x.id (record x { leased_at = some now }) k,
    )
  ],
  elim (Option-cases (get jobs j)) [
    | inl missing ↦ ground arith
    | inr (x, there) ↦ ground (
      arith,
      get-keyed jobs j x table there,
      get-put jobs x.id
          (record x { result = some result; status = completed; completed_at = some now }) k,
    )
  ],
)

-- A runner that was granted a job may complete it: the result is stored with the status.
pub lease_then_complete :
    (pick : List RunnerJob → Option RunnerJob)
    → IsPick pick
    → (runner : Runner) (now at later : Time) (jobs : Jobs) (r : RunnerJob) (result : JobResult)
    → IsTable jobs
    → (lease_runner_job pick runner now at jobs).0 ≡ some r
    → (complete_runner_job runner r.id result later (lease_runner_job pick runner now at jobs).1).0
      ≡ some (record r { result = some result; status = completed; completed_at = some later })
unfolding complete_runner_job
lease_then_complete pick picks runner now at later jobs r result table given =
    let (x, there, own, _, _, same, after) =
      lease_given pick picks runner now at jobs r table given in
    ground (arith, get-put_self jobs x.id r)
