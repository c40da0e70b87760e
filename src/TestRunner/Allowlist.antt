-- ===== src/TestRunner/Allowlist.antt =====
-- runtime_lab/test_runner/allowlist.py. `TestRunnerPolicyError(code)` is `raise code`.
pub mod Laws
use runtime_lab_core.Prelude.{
  ℕ, suc, String, Bool, true, false, ◌&&◌, ◌||◌, not, Option, none, some, List, [], ◌∷◌, Result, ok,
  raise, ◌>>◌, require, lookup, ◌==◌, contains, starts_with, has_infix, strip, drop, is_empty,
  if◌then◌else◌,
}
use runtime_lab_core.PosixPath
use runtime_lab_core.TestRunner.Models.{TestCommandSpec, command_spec}

abbrev pub default_allowlist : List (String × TestCommandSpec)
default_allowlist =
    (
      "kernel_descriptors",
      command_spec "kernel_descriptors"
          ("python" ∷ "-m" ∷ "pytest" ∷ "tests/kernel20" ∷ "tests/descriptors" ∷ []),
    )
    ∷ (
      "llm_provider_offline",
      command_spec "llm_provider_offline"
          ("python" ∷ "-m" ∷ "pytest" ∷ "tests/llm_provider" ∷ "-m" ∷ "not live_deepseek" ∷ []),
    )
    ∷ (
      "repo_context",
      command_spec "repo_context" ("python" ∷ "-m" ∷ "pytest" ∷ "tests/repo_context" ∷ []),
    )
    ∷ (
      "patch_proposal",
      command_spec "patch_proposal" ("python" ∷ "-m" ∷ "pytest" ∷ "tests/patch_proposal" ∷ []),
    )
    ∷ (
      "patch_apply",
      command_spec "patch_apply" ("python" ∷ "-m" ∷ "pytest" ∷ "tests/patch_apply" ∷ []),
    )
    ∷ (
      "test_runner",
      command_spec "test_runner" ("python" ∷ "-m" ∷ "pytest" ∷ "tests/test_runner" ∷ []),
    )
    ∷ []

abbrev pub disallowed_commands : List String
disallowed_commands =
    "bash" ∷ "sh" ∷ "zsh" ∷ "curl" ∷ "git" ∷ "make" ∷ "npm" ∷ "node" ∷ "nc" ∷ "ssh" ∷ []

unfoldable pub command_name : String → String
unfolding PosixPath.name PosixPath.parse
command_name first_argv = PosixPath.name (PosixPath.parse first_argv)

-- `none` for an empty `argv`, where the source raises an IndexError; its caller has tested for that.
unfoldable pub pytest_index : List String → Option ℕ
unfolding command_name
pytest_index [] = none
pytest_index (first ∷ (second ∷ (third ∷ rest))) =
    if command_name first == "pytest"
    then some 0
    else if starts_with (command_name first) "python" && second == "-m" && third == "pytest"
    then some 2
    else none
pytest_index (first ∷ rest) = if command_name first == "pytest" then some 0 else none

abbrev options_with_value : List String
options_with_value = "-m" ∷ "--maxfail" ∷ "--tb" ∷ "--disable-warnings" ∷ "-o" ∷ []

-- The loop of `_has_pytest_target` over what is left of `argv`.
unfoldable pub has_target : List String → Bool
has_target [] = false
has_target (token ∷ []) = not (contains options_with_value token) && not (starts_with token "-")
has_target (token ∷ (next ∷ rest)) =
    let skip_two = has_target rest in
    let skip_one = has_target (next ∷ rest) in
    if contains options_with_value token
    then skip_two
    else if starts_with token "-"
    then skip_one
    else true

unfoldable pub has_pytest_target : List String → ℕ → Bool
unfolding has_target
has_pytest_target argv index = has_target (drop (suc index) argv)

abbrev pub any_live : List String → Bool
any_live [] = false
any_live (part ∷ parts) =
    (has_infix part "live_deepseek" && not (strip part == "not live_deepseek")) || any_live parts

-- The tests on a command line, of the program `command`.
unfoldable pub validate_argv : String → TestCommandSpec → Result TestCommandSpec
unfolding pytest_index has_pytest_target
validate_argv command spec = do
  require (not (contains disallowed_commands command)) "DISALLOWED_COMMAND_FAMILY"
  require (not (starts_with command "python" && contains spec.argv "-c")) "PYTHON_C_REJECTED"
  elim (pytest_index spec.argv) [
    | none ↦ raise "PYTEST_COMMAND_REQUIRED"
    | some index ↦ do
      require (not (contains spec.argv "-k")) "PYTEST_K_EXPRESSION_REJECTED"
      require (not (any_live spec.argv)) "LIVE_DEEPSEEK_REJECTED"
      require (has_pytest_target spec.argv index) "PYTEST_TARGET_REQUIRED"
      ok spec
  ]

unfoldable pub validate_command_spec : TestCommandSpec → Result TestCommandSpec
unfolding validate_argv command_name
validate_command_spec spec = do
  require (not spec.shell_allowed) "SHELL_SPEC_REJECTED"
  require (not spec.network_allowed) "NETWORK_SPEC_REJECTED"
  require (not spec.llm_invocation_allowed) "LLM_SPEC_REJECTED"
  require (not spec.model_driven_executor_dispatch_allowed)
      "MODEL_DRIVEN_EXECUTOR_DISPATCH_SPEC_REJECTED"
  require (not spec.allow_live_deepseek) "LIVE_DEEPSEEK_REJECTED"
  elim spec.argv [
    | [] ↦ raise "ARGV_REQUIRED"
    | first ∷ _ ↦ validate_argv (command_name first) spec
  ]

-- An `allowlist` that is `None` or empty gives way to the default one.
abbrev pub candidates_of :
    Option (List (String × TestCommandSpec)) → List (String × TestCommandSpec)
candidates_of none = default_allowlist
candidates_of (some table) = if is_empty table then default_allowlist else table

unfoldable pub resolve_command_spec :
    String → Option (List (String × TestCommandSpec)) → Result TestCommandSpec
unfolding validate_command_spec
resolve_command_spec command_id allowlist = elim (lookup command_id (candidates_of allowlist)) [
  | none ↦ raise "UNKNOWN_COMMAND_ID"
  | some spec ↦ validate_command_spec spec
]
