-- ===== src/TestRunner/Models.antt =====
-- runtime_lab/test_runner/models.py. The coercions of `__post_init__` are the types; a path is its text.
use runtime_lab_core.Prelude.{ℕ, ℤ, pos, String, Bool, true, false, Option, List, [], ◌∷◌}

abbrev pub default_allowed_env_keys : List String
default_allowed_env_keys =
    "PATH" ∷ "PYTHONPATH" ∷ "PYTEST_DISABLE_PLUGIN_AUTOLOAD" ∷ "CONDA_PREFIX" ∷ "VIRTUAL_ENV"
    ∷ "HOME" ∷ "LANG" ∷ "LC_ALL" ∷ []

abbrev pub default_redacted_env_keys : List String
default_redacted_env_keys =
    "DEEPSEEK_API_KEY" ∷ "OPENAI_API_KEY" ∷ "ANTHROPIC_API_KEY" ∷ "Authorization" ∷ "AUTHORIZATION"
    ∷ "Bearer" ∷ []

pub record TestRunnerPolicy : Type 0 where
  pub shell_allowed : Bool
  pub network_allowed : Bool
  pub llm_invocation_allowed : Bool
  pub allow_live_deepseek : Bool
  pub model_driven_executor_dispatch_allowed : Bool
  pub timeout_seconds : ℤ
  pub max_stdout_bytes : ℤ
  pub max_stderr_bytes : ℤ
  pub max_total_output_bytes : ℤ
  pub allowed_env_keys : List String
  pub redacted_env_keys : List String
  pub receipt_required : Bool
  pub ledger_event_required : Bool
  pub default_decision : String

-- `TestRunnerPolicy()`
abbrev pub default_policy : TestRunnerPolicy
default_policy = record {
  shell_allowed = false;
  network_allowed = false;
  llm_invocation_allowed = false;
  allow_live_deepseek = false;
  model_driven_executor_dispatch_allowed = false;
  timeout_seconds = pos 120;
  max_stdout_bytes = pos 200_000;
  max_stderr_bytes = pos 200_000;
  max_total_output_bytes = pos 400_000;
  allowed_env_keys = default_allowed_env_keys;
  redacted_env_keys = default_redacted_env_keys;
  receipt_required = true;
  ledger_event_required = true;
  default_decision = "REJECT_FAIL_CLOSED";
}

pub record TestCommandSpec : Type 0 where
  pub command_id : String
  pub argv : List String
  pub cwd_relative : String
  pub timeout_seconds : ℤ
  pub max_stdout_bytes : ℤ
  pub max_stderr_bytes : ℤ
  pub max_total_output_bytes : ℤ
  pub allowed_env_keys : List String
  pub redacted_env_keys : List String
  pub receipt_required : Bool
  pub ledger_event_required : Bool
  pub shell_allowed : Bool
  pub network_allowed : Bool
  pub llm_invocation_allowed : Bool
  pub allow_live_deepseek : Bool
  pub model_driven_executor_dispatch_allowed : Bool

-- `TestCommandSpec(command_id=..., argv=...)`
abbrev pub command_spec : String → List String → TestCommandSpec
command_spec command_id argv = record {
  command_id = command_id;
  argv = argv;
  cwd_relative = ".";
  timeout_seconds = pos 120;
  max_stdout_bytes = pos 200_000;
  max_stderr_bytes = pos 200_000;
  max_total_output_bytes = pos 400_000;
  allowed_env_keys = default_allowed_env_keys;
  redacted_env_keys = default_redacted_env_keys;
  receipt_required = true;
  ledger_event_required = true;
  shell_allowed = false;
  network_allowed = false;
  llm_invocation_allowed = false;
  allow_live_deepseek = false;
  model_driven_executor_dispatch_allowed = false;
}

pub record TestRunRequest : Type 0 where
  pub command_id : String
  pub workspace_root : String
  pub cwd_relative : String
  pub timeout_seconds : Option ℤ
  pub max_stdout_bytes : Option ℤ
  pub max_stderr_bytes : Option ℤ
  pub max_total_output_bytes : Option ℤ
  pub allowed_env_keys : List String
  pub redacted_env_keys : List String
  pub env : List (String × String)
  pub raw_command : Option String
  pub argv : Option (List String)
  pub shell : Bool
  pub network_allowed : Bool
  pub llm_invocation_requested : Bool
  pub model_driven_executor_dispatch_requested : Bool
  pub allow_live_deepseek : Bool

-- A byte is a number below 256.
pub record CompletedTestProcess : Type 0 where
  pub exit_code : ℤ
  pub stdout : List ℕ
  pub stderr : List ℕ
