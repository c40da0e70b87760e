-- ===== src/Tests/TestRunner.antt =====
-- The test runner at a concrete request.
use runtime_lab_core.Prelude.{
  ℕ, String, List, ◌<>◌, ◌==◌, pos, ◌≡◌, refl, true, false, none, some, [], ◌∷◌, length, ◌≤◌, ◌+◌,
}
use runtime_lab_core.PosixPath
use runtime_lab_core.TestRunner.Models.{
  TestRunRequest, TestCommandSpec, command_spec, default_policy, default_allowed_env_keys,
  default_redacted_env_keys,
}
use runtime_lab_core.TestRunner.Policy.{Folders, accepted, validate_test_run_request}
use runtime_lab_core.TestRunner.Policy.Laws.{Passed, validate_test_run_request-Passed}
use runtime_lab_core.TestRunner.Runner.{
  Patterns, Invocation, Outcome, completed, TestRun, ran, truncate_outputs, run_allowlisted_test,
}
use runtime_lab_core.TestRunner.Runner.Laws.{
  Records, truncate_outputs_bounds, IsSafeRun, run_allowlisted_test-IsSafeRun,
}

abbrev folders : Folders
folders = record { resolve = λ path. PosixPath.to_str (PosixPath.parse path); is_dir = λ _. true }

abbrev no_secrets : Patterns
no_secrets = record { secret_key = λ _. false; secret_value = λ _. false }

abbrev request : TestRunRequest
request = record {
  command_id = "test_runner";
  workspace_root = "/ws";
  cwd_relative = ".";
  timeout_seconds = some (pos 60);
  max_stdout_bytes = some (pos 3);
  max_stderr_bytes = some (pos 3);
  max_total_output_bytes = some (pos 4);
  allowed_env_keys = default_allowed_env_keys;
  redacted_env_keys = default_redacted_env_keys;
  env = ("PATH", "/bin") ∷ [];
  raw_command = none;
  argv = none;
  shell = false;
  network_allowed = false;
  llm_invocation_requested = false;
  model_driven_executor_dispatch_requested = false;
  allow_live_deepseek = false;
}

-- A process that writes five bytes to each stream.
abbrev executor : Invocation → Outcome
executor _ = completed (record {
  exit_code = pos 0;
  stdout = 1 ∷ 2 ∷ 3 ∷ 4 ∷ 5 ∷ [];
  stderr = 6 ∷ 7 ∷ 8 ∷ 9 ∷ 10 ∷ [];
})

-- One letter for each byte.
abbrev decode : List ℕ → String
decode [] = ""
decode (_ ∷ bytes) = "x" <> decode bytes

truncate_outputs_bounds_example :
    let (out, err, out_cut, err_cut) =
      truncate_outputs (1 ∷ 2 ∷ 3 ∷ 4 ∷ []) (5 ∷ 6 ∷ 7 ∷ []) 3 3 4 in
    Records out (1 ∷ 2 ∷ 3 ∷ 4 ∷ []) out_cut
    × Records err (5 ∷ 6 ∷ 7 ∷ []) err_cut
    × (length out ≤ 3)
    × (length err ≤ 3)
    × (length out + length err ≤ 4)
truncate_outputs_bounds_example =
    truncate_outputs_bounds (1 ∷ 2 ∷ 3 ∷ 4 ∷ []) (5 ∷ 6 ∷ 7 ∷ []) 3 3 4

abbrev spec : TestCommandSpec
spec = command_spec "test_runner" ("python" ∷ "-m" ∷ "pytest" ∷ "tests/test_runner" ∷ [])

request-accepted :
    validate_test_run_request folders request none none ≡ accepted "test_runner" spec "/ws"
unfolding validate_test_run_request PosixPath.to_str PosixPath.parse ◌==◌
request-accepted = refl

validate_test_run_request-Passed_example : Passed folders request none default_policy spec "/ws"
validate_test_run_request-Passed_example =
    validate_test_run_request-Passed folders request none none "test_runner" spec "/ws"
      request-accepted

-- The run: of both streams what the limits leave.
abbrev test_run : TestRun
test_run = record {
  invocation = record {
    argv = spec.argv;
    cwd = "/ws";
    env = ("PATH", "/bin") ∷ [];
    timeout_seconds = some (pos 60);
  };
  result = "SUCCESS";
  exit_code = some (pos 0);
  stdout = "xxx";
  stderr = "x";
  stdout_truncated = true;
  stderr_truncated = true;
}

request-runs :
    run_allowlisted_test folders no_secrets [] executor decode request none none ≡ ran test_run
unfolding run_allowlisted_test validate_test_run_request PosixPath.to_str PosixPath.parse ◌==◌
request-runs = refl

run_allowlisted_test-IsSafeRun_example :
    IsSafeRun folders no_secrets [] executor decode request none default_policy test_run
run_allowlisted_test-IsSafeRun_example =
    run_allowlisted_test-IsSafeRun folders no_secrets [] executor decode request none none test_run
      request-runs
