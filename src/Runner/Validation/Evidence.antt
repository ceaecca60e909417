-- ===== src/Runner/Validation/Evidence.antt =====
-- The evidence that a validation gives (adapters/validator.py of the runner).
use mathlib.Core.Path.{subst}
use mvp_master.Base.{
  ℕ, String, ◌≡◌, refl, Bool, true, false, ◌&&◌, List, [], ◌∷◌, length, arith, ap, Bool-cases, inl,
  inr, ◌↔◌, zero, none, some, sym, ◌∙◌,
}
use mvp_master.Exec.{Exec, Result, ok, pure, bind-ok}
use mvp_master.Runner.Models.{
  ExitCode, exited, RunnerError, ValidationCommand, ValidationEvidence, ValidationResult,
}
use mvp_master.Runner.Validation.{
  Ending, is_success, evidence_of, validate_each, validate, after, finished, timed_out,
}

-- Whether a process exited with 0; the number of one that ran out of time counts as well.
abbrev pub exited_zero : Ending → Bool
exited_zero (finished (some (exited zero)) stdout stderr) = true
exited_zero (timed_out (some (exited zero))) = true
exited_zero _ = false

-- The number that stands for how a process ended; 124 where it has none
abbrev pub exit_code_of : Ending → ExitCode
exit_code_of (finished (some code) stdout stderr) = code
exit_code_of (finished none stdout stderr) = exited 124
exit_code_of (timed_out (some code)) = code
exit_code_of (timed_out none) = exited 124

abbrev pub stdout_of : Ending → String
stdout_of (finished code stdout stderr) = stdout
stdout_of (timed_out code) = ""

abbrev pub stderr_of : Ending → String
stderr_of (finished code stdout stderr) = stderr
stderr_of (timed_out code) = "validator command timed out"

-- How processes ended, and the time each took
abbrev pub Endings : Type 0
Endings = List (Ending × ℕ)

abbrev pub all_zero : Endings → Bool
all_zero [] = true
all_zero (e ∷ es) = exited_zero e.0 && all_zero es

-- All but the last
abbrev pub before_last : Endings → Endings
before_last [] = []
before_last (e ∷ []) = []
before_last (e ∷ f ∷ es) = e ∷ before_last (f ∷ es)

-- The evidence of a command and of how its process ended
pub record Records (capture : String → String) (c : ValidationCommand) (e : Ending × ℕ)
    (v : ValidationEvidence) : Type 0 where
  pub executable : v.executable ≡ c.executable
  pub arguments : v.arguments ≡ c.arguments
  pub exit_code : v.exit_code ≡ exit_code_of e.0
  pub stdout : v.stdout ≡ capture (stdout_of e.0)
  pub stderr : v.stderr ≡ capture (stderr_of e.0)
  pub duration_ms : v.duration_ms ≡ e.1

-- There is one piece of evidence for each ending, in their order, of the first commands.
abbrev pub AllRecorded :
    (String → String) → List ValidationCommand → Endings → List ValidationEvidence → Type 0
AllRecorded capture cs [] [] = Unit
AllRecorded capture (c ∷ cs) (e ∷ es) (v ∷ vs) =
    Records capture c e v × AllRecorded capture cs es vs
AllRecorded capture cs es vs = ⊥

-- A verdict on commands, by how the processes of those that ran ended
pub record Judged (capture : String → String) (commands : List ValidationCommand)
    (endings : Endings) (passed : Bool) (evidence : List ValidationEvidence) : Type 0 where
  pub recorded : AllRecorded capture commands endings evidence
  pub verdict : passed ≡ all_zero endings
  pub stopped : all_zero (before_last endings) ≡ true
  pub complete : passed ≡ true → length endings ≡ length commands
  pub some_ending : (endings ≡ []) ↔ (commands ≡ [])

module _ {W : Type 0} (run : ValidationCommand → Exec RunnerError W (Ending × ℕ))
    (capture : String → String) where
  -- The first commands, run one after the other, ended in these ways.
  abbrev pub RanAs : List ValidationCommand → W → Endings → Type 0
  RanAs cs w [] = Unit
  RanAs [] w (e ∷ es) = ⊥
  RanAs (c ∷ cs) w (e ∷ es) = ((run c w).0 ≡ ok e) × RanAs cs (run c w).1 es

  -- The state after the first commands, as many as there are endings
  abbrev pub state_after : List ValidationCommand → W → Endings → W
  state_after cs w [] = w
  state_after [] w (e ∷ es) = w
  state_after (c ∷ cs) w (e ∷ es) = state_after cs (run c w).1 es

  evidence_of-Records :
      (c : ValidationCommand) (e : Ending × ℕ) → Records capture c e (evidence_of run capture c e)
  evidence_of-Records c (finished none stdout stderr, d) = record {
    executable = refl;
    arguments = refl;
    exit_code = refl;
    stdout = refl;
    stderr = refl;
    duration_ms = refl;
  }
  evidence_of-Records c (finished (some code) stdout stderr, d) = record {
    executable = refl;
    arguments = refl;
    exit_code = refl;
    stdout = refl;
    stderr = refl;
    duration_ms = refl;
  }
  evidence_of-Records c (timed_out none, d) = record {
    executable = refl;
    arguments = refl;
    exit_code = refl;
    stdout = refl;
    stderr = refl;
    duration_ms = refl;
  }
  evidence_of-Records c (timed_out (some code), d) = record {
    executable = refl;
    arguments = refl;
    exit_code = refl;
    stdout = refl;
    stderr = refl;
    duration_ms = refl;
  }

  is_success-evidence_of :
      (c : ValidationCommand) (e : Ending × ℕ)
      → is_success (evidence_of run capture c e).exit_code ≡ exited_zero e.0
  is_success-evidence_of c (finished code stdout stderr, d) = ground arith
  is_success-evidence_of c (timed_out code, d) = ground arith

  cons-Judged :
      (c : ValidationCommand) (cs : List ValidationCommand) (e : Ending × ℕ)
      (v : ValidationEvidence) (es : Endings) (passed : Bool) (vs : List ValidationEvidence)
      → Records capture c e v
      → exited_zero e.0 ≡ true
      → Judged capture cs es passed vs
      → Judged capture (c ∷ cs) (e ∷ es) passed (v ∷ vs)
  cons-Judged c cs e v [] passed vs r success h = record {
    recorded = (r, h.recorded);
    verdict = ground (arith, h.verdict);
    stopped = refl;
    complete = λ p. cc (h.complete p);
    some_ending = (λ p. absurd (cc), λ p. absurd (cc));
  }
  cons-Judged c cs e v (f ∷ es) passed vs r success h = record {
    recorded = (r, h.recorded);
    verdict = ground (arith, h.verdict);
    stopped = ground (arith, h.stopped);
    complete = λ p. cc (h.complete p);
    some_ending = (λ p. absurd (cc), λ p. absurd (cc));
  }

  failed-Judged :
      (c : ValidationCommand) (cs : List ValidationCommand) (e : Ending × ℕ)
      (v : ValidationEvidence)
      → Records capture c e v
      → exited_zero e.0 ≡ false
      → Judged capture (c ∷ cs) (e ∷ []) false (v ∷ [])
  failed-Judged c cs e v r failure = record {
    recorded = (r, tt);
    verdict = ground arith;
    stopped = refl;
    complete = λ p. absurd (cc);
    some_ending = (λ p. absurd (cc), λ p. absurd (cc));
  }

  -- The loop has answered, with a verdict on its commands.
  abbrev Answered :
      List ValidationCommand → W → Result RunnerError (Bool × List ValidationEvidence) × W → Type 0
  Answered cs w out =
      (x : Bool × List ValidationEvidence) × (es : Endings) × (out ≡ (ok x, state_after cs w es))
      × RanAs cs w es
      × Judged capture cs es x.0 x.1

  module _
      (starts : (c : ValidationCommand) (w : W)
        → (ending : Ending × ℕ) × ((run c w).0 ≡ ok ending)) where
    after-Answered :
        (c : ValidationCommand) (cs : List ValidationCommand) (w : W) (e : Ending × ℕ)
        (rest : Exec RunnerError W (Bool × List ValidationEvidence))
        → (run c w).0 ≡ ok e
        → Answered cs (run c w).1 (rest (run c w).1)
        → Answered (c ∷ cs) w (after run capture (evidence_of run capture c e) rest (run c w).1)
    after-Answered c cs w e rest ran (x, es, done, later, judged) =
        let v = evidence_of run capture c e in
        let u = (run c w).1 in
        let r = evidence_of-Records c e in
        let same = is_success-evidence_of c e in
        elim (Bool-cases (exited_zero e.0)) [
          | inl zeroed ↦ (
            (x.0, v ∷ x.1),
            e ∷ es,
            rw (same ∙ zeroed, after)
                (bind-ok rest (λ later. pure (later.0, v ∷ later.1)) u x (state_after cs u es)
                  done),
            (ran, later),
            cons-Judged c cs e v es x.0 x.1 r zeroed judged,
          )
          | inr failed ↦ (
            (false, v ∷ []),
            e ∷ [],
            rw (same ∙ failed, after) refl,
            (ran, tt),
            failed-Judged c cs e v r failed,
          )
        ]

    validate_each-Answered :
        (cs : List ValidationCommand) (w : W) → Answered cs w (validate_each run capture cs w)
    unfolding validate_each
    validate_each-Answered [] w = (
      (true, []),
      [],
      refl,
      tt,
      record {
        recorded = tt;
        verdict = refl;
        stopped = refl;
        complete = λ p. refl;
        some_ending = (λ p. refl, λ p. refl);
      },
    )
    validate_each-Answered (c ∷ cs) w =
        let (e, ran) = starts c w in
        let rest = validate_each run capture cs in
        subst (Answered (c ∷ cs) w)
          (sym (
            bind-ok (run c) (λ e. after run capture (evidence_of run capture c e) rest) w e
              (run c w).1 (ap (λ r. (r, (run c w).1)) ran)))
          (after-Answered c cs w e rest ran (validate_each-Answered cs (run c w).1))

    -- When each command can be started and waited for, a validation answers. It has run the first
    -- commands in their order, up to the first whose process did not exit with 0 and no further;
    -- it passes exactly when the processes of all that ran exited with 0, and then it has run all
    -- of them; it has run none only where there are no commands. Its evidence has for each that
    -- ran the number it exited with, 124 where there is none, what was captured of its output, and
    -- its time.
    pub validate-Judged :
        (image : String) (commands : List ValidationCommand) (w : W)
        → (result : ValidationResult) × (endings : Endings) × (validate run capture image commands w
            ≡ (ok result, state_after commands w endings))
          × RanAs commands w endings
          × Judged capture commands endings result.passed result.evidence
    unfolding validate
    validate-Judged image commands w =
        let (x, endings, done, ran, judged) = validate_each-Answered commands w in
        (
          record { passed = x.0; validator_image = image; evidence = x.1 },
          endings,
          bind-ok (validate_each run capture commands)
              (λ checks.
                pure (record { passed = checks.0; validator_image = image; evidence = checks.1 }))
              w x (state_after commands w endings) done,
          ran,
          judged,
        )
