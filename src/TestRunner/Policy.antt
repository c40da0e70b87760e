-- ===== src/TestRunner/Policy.antt =====
-- runtime_lab/test_runner/policy.py. What the file system answers is a parameter.
pub mod Laws
use runtime_lab_core.Prelude.{
  ℕ, ℤ, pos, ltb_ℤ, leb_ℤ, String, Bool, true, false, ◌&&◌, ◌||◌, not, Option, none, some, List, [],
  ◌∷◌, Result, ok, raise, ◌>>=◌, ◌>>◌, require, if◌then◌else◌,
}
use runtime_lab_core.PosixPath
use runtime_lab_core.TestRunner.Models.{
  TestRunnerPolicy, default_policy, TestRunRequest, TestCommandSpec,
}
use runtime_lab_core.TestRunner.Allowlist.{resolve_command_spec}

-- `Path.resolve` and `path.exists() and path.is_dir()`.
pub record Folders : Type 0 where
  pub resolve : String → String
  pub is_dir : String → Bool

-- The `dict` of a rejection, and of an acceptance. The five `..._started` entries are false in both.
pub data Verdict : Type 0 where
  rejected : String → List String → Verdict
  accepted : String → TestCommandSpec → String → Verdict

abbrev is_some {ℓ} : {A : Type ℓ} → Option A → Bool
is_some none = false
is_some (some _) = true

unfoldable pub policy_rejection : TestRunnerPolicy → Option String
policy_rejection policy =
    if not policy.receipt_required
    then some "RECEIPT_CONTRACT_REQUIRED"
    else if not policy.ledger_event_required
    then some "LEDGER_EVENT_REQUIRED"
    else if policy.shell_allowed
    then some "SHELL_POLICY_REJECTED"
    else if policy.network_allowed
    then some "NETWORK_POLICY_REJECTED"
    else if policy.llm_invocation_allowed
    then some "LLM_POLICY_REJECTED"
    else if policy.allow_live_deepseek
    then some "LIVE_DEEPSEEK_POLICY_REJECTED"
    else if policy.model_driven_executor_dispatch_allowed
    then some "MODEL_DRIVEN_EXECUTOR_DISPATCH_POLICY_REJECTED"
    else none

-- `limit is None or limit <= 0`
abbrev is_missing : Option ℤ → Bool
is_missing none = true
is_missing (some n) = leb_ℤ n (pos 0)

-- `limit > bound`, of a limit that is given
abbrev exceeds : Option ℤ → ℤ → Bool
exceeds none bound = false
exceeds (some n) bound = ltb_ℤ bound n

-- `total < max(a, b)`
abbrev is_below_max : Option ℤ → Option ℤ → Option ℤ → Bool
is_below_max (some total) (some a) (some b) = ltb_ℤ total a || ltb_ℤ total b
is_below_max _ _ _ = false

-- The tests on the limits, the second half of `_request_rejection`.
unfoldable pub limits_rejection : TestRunRequest → TestRunnerPolicy → Option String
limits_rejection request policy =
    if is_missing request.timeout_seconds
    then some "TIMEOUT_REQUIRED"
    else if exceeds request.timeout_seconds policy.timeout_seconds
    then some "TIMEOUT_LIMIT_EXCEEDED"
    else if is_missing request.max_stdout_bytes
    then some "STDOUT_LIMIT_REQUIRED"
    else if is_missing request.max_stderr_bytes
    then some "STDERR_LIMIT_REQUIRED"
    else if is_missing request.max_total_output_bytes
    then some "TOTAL_OUTPUT_LIMIT_REQUIRED"
    else if exceeds request.max_stdout_bytes policy.max_stdout_bytes
    then some "STDOUT_LIMIT_EXCEEDED"
    else if exceeds request.max_stderr_bytes policy.max_stderr_bytes
    then some "STDERR_LIMIT_EXCEEDED"
    else if exceeds request.max_total_output_bytes policy.max_total_output_bytes
    then some "TOTAL_OUTPUT_LIMIT_EXCEEDED"
    else if is_below_max request.max_total_output_bytes request.max_stdout_bytes
        request.max_stderr_bytes
    then some "TOTAL_OUTPUT_LIMIT_TOO_SMALL"
    else none

unfoldable pub request_rejection : TestRunRequest → TestRunnerPolicy → Option String
unfolding limits_rejection
request_rejection request policy =
    if is_some request.raw_command
    then some "RAW_COMMAND_REJECTED"
    else if is_some request.argv
    then some "ARGV_OVERRIDE_REJECTED"
    else if request.shell
    then some "SHELL_TRUE_REJECTED"
    else if request.network_allowed
    then some "NETWORK_EXECUTION_REQUEST_REJECTED"
    else if request.llm_invocation_requested
    then some "LLM_INVOCATION_REQUEST_REJECTED"
    else if request.model_driven_executor_dispatch_requested
    then some "MODEL_DRIVEN_EXECUTOR_DISPATCH_REJECTED"
    else if request.allow_live_deepseek
    then some "LIVE_DEEPSEEK_REJECTED"
    else limits_rejection request policy

-- `policy or TestRunnerPolicy()`
abbrev pub policy_or_default : Option TestRunnerPolicy → TestRunnerPolicy
policy_or_default none = default_policy
policy_or_default (some policy) = policy

module _ (folders : Folders) where
  unfoldable pub resolve_cwd : TestRunRequest → Result String
  unfolding PosixPath.join PosixPath.is_relative_to
  resolve_cwd request =
      let root = folders.resolve request.workspace_root in
      let cwd = folders.resolve (PosixPath.join root request.cwd_relative) in
      do
        require (PosixPath.is_relative_to cwd root) "CWD_PATH_TRAVERSAL_REJECTED"
        require (folders.is_dir root) "WORKSPACE_ROOT_NOT_FOUND"
        require (folders.is_dir cwd) "CWD_NOT_FOUND"
        ok cwd

  -- The `try` block: the specification and the folder.
  unfoldable pub resolve_request :
      TestRunRequest → Option (List (String × TestCommandSpec)) → Result (TestCommandSpec × String)
  unfolding resolve_cwd resolve_command_spec
  resolve_request request allowlist = do
    spec ← resolve_command_spec request.command_id allowlist
    cwd ← resolve_cwd request
    ok (spec, cwd)

  unfoldable pub validate_test_run_request :
      TestRunRequest → Option (List (String × TestCommandSpec)) → Option TestRunnerPolicy → Verdict
  unfolding policy_rejection request_rejection resolve_request
  validate_test_run_request request allowlist given =
      let policy = policy_or_default given in
      elim (policy_rejection policy) [
        | some code ↦ rejected request.command_id (code ∷ [])
        | none ↦ elim (request_rejection request policy) [
          | some code ↦ rejected request.command_id (code ∷ [])
          | none ↦ elim (resolve_request request allowlist) [
            | raise code ↦ rejected request.command_id (code ∷ [])
            | ok (spec, cwd) ↦ accepted request.command_id spec cwd
          ]
        ]
      ]
