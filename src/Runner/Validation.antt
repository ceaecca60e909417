-- ===== src/Runner/Validation.antt =====
-- adapters/validator.py of the runner: `SubprocessValidator`.
pub mod Evidence
use mvp_master.Base.{
  ℕ, zero, suc, String, ◌≡◌, refl, Bool, true, false, ◌&&◌, Option, none, some, List, [], ◌∷◌,
  length, if◌then◌else◌, arith,
}
use mvp_master.Exec.{Exec, pure, ok, err, ◌>>=◌, ◌>>◌, bind-step}
use mvp_master.Runner.Models.{
  RunnerError, ValidationCommand, ValidationEvidence, ValidationResult, ExitCode, exited, signalled,
}

-- How a process ended: with its output, or killed after the time limit. The number is
-- `process.returncode`, which may be missing.
pub data Ending : Type 0 where
  finished : (returncode : Option ExitCode) (stdout stderr : String) → Ending
  timed_out : (returncode : Option ExitCode) → Ending

-- `process.returncode if process.returncode is not None else 124`
abbrev pub code_or_124 : Option ExitCode → ExitCode
code_or_124 none = exited 124
code_or_124 (some code) = code

-- `exit_code != 0` is false for 0 only; a signal gives a negative number.
abbrev pub is_success : ExitCode → Bool
is_success (exited zero) = true
is_success _ = false

module _ {W : Type 0} (run : ValidationCommand → Exec RunnerError W (Ending × ℕ))
    (capture : String → String) where
  -- `run` starts a command and waits for it, and gives the time it took; `capture` keeps the last
  -- bytes of an output and decodes them.
  abbrev pub evidence_of : ValidationCommand → Ending × ℕ → ValidationEvidence
  evidence_of c (finished code stdout stderr, duration) = record {
    executable = c.executable;
    arguments = c.arguments;
    exit_code = code_or_124 code;
    stdout = capture stdout;
    stderr = capture stderr;
    duration_ms = duration;
  }
  evidence_of c (timed_out code, duration) = record {
    executable = c.executable;
    arguments = c.arguments;
    exit_code = code_or_124 code;
    stdout = capture "";
    stderr = capture "validator command timed out";
    duration_ms = duration;
  }

  abbrev pub Checks : Type 0
  Checks = Exec RunnerError W (Bool × List ValidationEvidence)

  abbrev pub after : ValidationEvidence → Checks → Checks
  after evidence rest w = elim (is_success evidence.exit_code) [
    | true ↦ (rest >>= λ later. pure (later.0, evidence ∷ later.1)) w
    | false ↦ (ok (false, evidence ∷ []), w)
  ]

  -- The loop over the commands, which a failing command ends
  unfoldable pub validate_each : List ValidationCommand → Checks
  validate_each [] = pure (true, [])
  validate_each (c ∷ cs) = do ending ← run c; after (evidence_of c ending) (validate_each cs)

  unfoldable pub validate : String → List ValidationCommand → Exec RunnerError W ValidationResult
  unfolding validate_each
  validate image commands = do
    checks ← validate_each commands
    pure (record { passed = checks.0; validator_image = image; evidence = checks.1 })
