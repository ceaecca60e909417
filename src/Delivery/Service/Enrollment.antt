-- ===== src/Delivery/Service/Enrollment.antt =====
-- Enrolment of runners (application/service.py): the use of a token.
use mvp_master.Base.{
  ◌+◌, String, ◌≡◌, none, some, List, arith, string_eq, nat_eq, Option-cases, inl, inr, ltb,
  if◌then◌else◌,
}
use mvp_master.Exec.{ok, err}
use mvp_master.Dict.{get, get-put_self}
use mvp_master.Contracts.{Uuid, Time}
use mvp_master.Delivery.Models.{Runner, online, invalid_enrollment}
use mvp_master.Delivery.Store.{Store, EnrollmentTokenRecord}
use mvp_master.Delivery.Service.{ten_minutes, create_runner_enrollment, enroll_runner}

module _ (hash : String → String) where
  -- A token that has been used is refused for good, and the refusal changes nothing.
  used_refused :
      (s : Store) (n u l : Time) (c : String) (i : Uuid) (token m : String) (k : List String)
      (r : EnrollmentTokenRecord) (at : Time)
      → get s.enrollment_tokens (hash token) ≡ some r
      → r.used_at ≡ some at
      → enroll_runner hash n u l c i token m k s ≡ (err invalid_enrollment, s)
  unfolding enroll_runner
  used_refused s n u l c i token m k r at found used = ground arith

  -- After a runner has enrolled with a token, every later use of the token is refused, whatever
  -- the times, the name and the capabilities, and changes nothing.
  pub enroll_once :
      (s : Store) (n u l n' u' l' : Time) (c c' : String) (i i' : Uuid) (token m m' : String)
      (k k' : List String) (answer : Runner × String)
      → (enroll_runner hash n u l c i token m k s).0 ≡ ok answer
      → let t = (enroll_runner hash n u l c i token m k s).1 in
        enroll_runner hash n' u' l' c' i' token m' k' t ≡ (err invalid_enrollment, t)
  unfolding enroll_runner
  enroll_once s n u l n' u' l' c c' i i' token m m' k k' answer h =
      elim (Option-cases (get s.enrollment_tokens (hash token))) [
        | inl missing ↦ ground arith
        | inr (r, found) ↦
            ground
              (arith, get-put_self s.enrollment_tokens (hash token) (record r { used_at = some u }))
      ]

  -- A token that was just created enrols a runner into its own organization and pool before ten
  -- minutes have passed, and is refused from then on.
  pub enroll_in_time :
      (s : Store) (raw : String) (id : Uuid) (start : Time) (o : Uuid) (a : String) (p : Uuid)
      (n u l : Time) (c : String) (i : Uuid) (m : String) (k : List String)
      → let t = (create_runner_enrollment hash raw id start o a p s).1 in
        (enroll_runner hash n u l c i raw m k t).0 ≡ (
          if ltb n (start + ten_minutes)
          then ok (
            record {
              id = i;
              organization_id = o;
              pool_id = p;
              name = m;
              capabilities = k;
              credential_hash = hash c;
              status = online;
              last_seen_at = l;
            },
            c,
          )
          else err invalid_enrollment)
  unfolding enroll_runner create_runner_enrollment
  enroll_in_time s raw id start o a p n u l c i m k = ground (
    arith,
    get-put_self s.enrollment_tokens (hash raw) (record {
      id = id;
      organization_id = o;
      pool_id = p;
      token_hash = hash raw;
      expires_at = start + ten_minutes;
      used_at = none;
    }),
  )
