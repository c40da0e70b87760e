-- ===== src/TestRunner/Runner.antt =====
-- runtime_lab/test_runner/redaction.py, and the part of runner.py that decides, runs and bounds the output.
-- The regular expressions, the process that is run and the environment of the machine are parameters.
pub mod Laws
use runtime_lab_core.Prelude.{
  ℕ, ℤ, pos, pos_part, ◌-◌, min, String, Bool, true, false, ◌&&◌, ◌||◌, not, Option, none, some,
  List, [], ◌∷◌, ◌++◌, map, lookup, contains, sorted, take, length, ltb, ◌==◌, if◌then◌else◌,
}
use runtime_lab_core.TestRunner.Models.{
  TestRunnerPolicy, TestRunRequest, TestCommandSpec, CompletedTestProcess,
}
use runtime_lab_core.TestRunner.Policy.{
  Folders, Verdict, rejected, accepted, validate_test_run_request,
}

-- `SECRET_KEY_RE.search` and `SECRET_VALUE_RE.search`.
pub record Patterns : Type 0 where
  pub secret_key : String → Bool
  pub secret_value : String → Bool

abbrev pub Env : Type 0
Env = List (String × String)

abbrev pub mark : String
mark = "<REDACTED>"

module _ (re : Patterns) where
  unfoldable pub contains_secret_like_value : Env → Bool
  contains_secret_like_value [] = false
  contains_secret_like_value ((key, value) ∷ env) =
      let rest = contains_secret_like_value env in
      if value == mark
      then rest
      else if re.secret_key key
      then true
      else if re.secret_value value
      then true
      else rest

  -- What the loop makes of a key: none if it is dropped, and whether its value is masked.
  abbrev pub redact_key : List String → List String → String → Option Bool
  redact_key allowed redacted key =
      if not (contains allowed key) then none else some (contains redacted key || re.secret_key key)

  -- The loop of `redact_environment` over the sorted keys.
  unfoldable pub redact_keys : Env → List String → List String → List String → Env
  redact_keys env allowed redacted [] = []
  redact_keys env allowed redacted (key ∷ keys) =
      let rest = redact_keys env allowed redacted keys in
      elim (lookup key env) [
        | none ↦ rest
        | some value ↦ elim (redact_key allowed redacted key) [
          | none ↦ rest
          | some true ↦ (key, mark) ∷ rest
          | some false ↦ (key, value) ∷ rest
        ]
      ]

  -- `safe_env`
  unfoldable pub redact_environment : Env → List String → List String → Env
  unfolding redact_keys sorted
  redact_environment env allowed redacted =
      redact_keys env allowed redacted (sorted (map (λ e. e.0) env))

-- Of both streams, what is recorded and whether something was cut off. The limits are positive.
unfoldable pub truncate_outputs : List ℕ → List ℕ → ℕ → ℕ → ℕ → List ℕ × List ℕ × Bool × Bool
truncate_outputs stdout stderr max_stdout max_stderr max_total =
    let recorded_stdout = take (min max_stdout max_total) stdout in
    let remaining = max_total - length recorded_stdout in
    let recorded_stderr = take (min max_stderr remaining) stderr in
    (
      recorded_stdout,
      recorded_stderr,
      ltb (length recorded_stdout) (length stdout),
      ltb (length recorded_stderr) (length stderr),
    )

pub record Invocation : Type 0 where
  pub argv : List String
  pub cwd : String
  pub env : Env
  pub timeout_seconds : Option ℤ

-- What the process does: it ends, or the time is over.
pub data Outcome : Type 0 where
  completed : CompletedTestProcess → Outcome
  timeout : Outcome

pub record TestRun : Type 0 where
  pub invocation : Invocation
  pub result : String
  pub exit_code : Option ℤ
  pub stdout : String
  pub stderr : String
  pub stdout_truncated : Bool
  pub stderr_truncated : Bool

-- The returned `dict`: a rejection, or a run with its recorded output.
pub data RunResult : Type 0 where
  refused : List String → RunResult
  ran : TestRun → RunResult

-- The entries of the machine's environment that `_base_env` takes and that `update` leaves in place.
inherited : TestRunRequest → Env → Env
inherited request [] = []
inherited request ((key, value) ∷ rest) =
    let more = inherited request rest in
    if contains request.allowed_env_keys key && not (contains (map (λ e. e.0) request.env) key)
    then (key, value) ∷ more
    else more

-- `_base_env`: of the machine's environment the allowed keys, then the request's own entries.
unfoldable pub base_env : Env → TestRunRequest → Env
unfolding inherited
base_env environ request = request.env ++ inherited request environ

-- `int(limit)`, of a limit that was validated
abbrev pub limit : Option ℤ → ℕ
limit none = 0
limit (some n) = pos_part n

abbrev pub exit_code_of : Outcome → Option ℤ
exit_code_of (completed p) = some p.exit_code
exit_code_of timeout = none

abbrev pub stdout_of : Outcome → List ℕ
stdout_of (completed p) = p.stdout
stdout_of timeout = []

abbrev pub stderr_of : Outcome → List ℕ
stderr_of (completed p) = p.stderr
stderr_of timeout = []

abbrev pub result_of : Option ℤ → String
result_of none = "TIMEOUT"
result_of (some (ℤ.pos ℕ.zero)) = "SUCCESS"
result_of (some _) = "FAILED_EXIT_CODE"

-- From the invocation on: run, bound the output. `decode` is `bytes.decode("utf-8", errors="replace")`.
unfoldable pub run_invocation : (List ℕ → String) → TestRunRequest → Invocation → Outcome → TestRun
unfolding truncate_outputs
run_invocation decode request invocation outcome =
    let (out, err, out_cut, err_cut) =
      truncate_outputs (stdout_of outcome) (stderr_of outcome) (limit request.max_stdout_bytes)
        (limit request.max_stderr_bytes) (limit request.max_total_output_bytes) in
    record {
      invocation = invocation;
      result = result_of (exit_code_of outcome);
      exit_code = exit_code_of outcome;
      stdout = decode out;
      stderr = decode err;
      stdout_truncated = out_cut;
      stderr_truncated = err_cut;
    }

module _ (folders : Folders) (re : Patterns) (environ : Env) (executor : Invocation → Outcome)
    (decode : List ℕ → String) where
  unfoldable pub run_allowlisted_test :
      TestRunRequest
      → Option (List (String × TestCommandSpec))
      → Option TestRunnerPolicy
      → RunResult
  unfolding base_env redact_environment contains_secret_like_value run_invocation
  run_allowlisted_test request allowlist policy =
      elim (validate_test_run_request folders request allowlist policy) [
        | rejected _ codes ↦ refused codes
        | accepted _ spec cwd ↦
            let env =
              redact_environment re (base_env environ request) request.allowed_env_keys
                request.redacted_env_keys in
            let invocation : Invocation = record {
              argv = spec.argv;
              cwd = cwd;
              env = env;
              timeout_seconds = request.timeout_seconds;
            } in
            if contains_secret_like_value re env
            then refused ("UNREDACTED_SECRET_ENV_REJECTED" ∷ [])
            else ran (run_invocation decode request invocation (executor invocation))
      ]
