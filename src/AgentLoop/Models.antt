-- ===== src/AgentLoop/Models.antt =====
-- runtime_lab/agent_loop/models.py. The coercions of `__post_init__` are the types; a path is its text. Of
-- a request, the executor that is handed through to the test runner is not a field here.
use runtime_lab_core.Prelude.{ℤ, pos, String, Bool, true, false, Option, none, List, [], ◌∷◌}
use runtime_lab_core.Json.{Fields, dict, bool}

pub data AgentLoopMode : Type 0 where
  dry_run supervised_apply : AgentLoopMode

-- `mode.value`
abbrev pub mode_value : AgentLoopMode → String
mode_value dry_run = "DRY_RUN"
mode_value supervised_apply = "SUPERVISED_APPLY"

abbrev pub default_non_claims : Fields
default_non_claims = dict (
    ("autonomous_agent", bool false)
    ∷ ("general_coding_agent", bool false)
    ∷ ("codex_equivalent", bool false)
    ∷ ("claude_code_equivalent", bool false)
    ∷ ("autonomous_operation", bool false)
    ∷ ("arbitrary_shell", bool false)
    ∷ ("arbitrary_command_execution", bool false)
    ∷ ("network_execution", bool false)
    ∷ ("live_llm_provider", bool false)
    ∷ ("model_driven_executor_dispatch", bool false)
    ∷ ("codex_equivalence", bool false)
    ∷ ("claude_code_equivalence", bool false)
    ∷ ("remote_sealed_pass", bool false)
    ∷ ("production_readiness", bool false)
    ∷ ("team_or_org_runtime", bool false)
    ∷ [])

pub record AgentLoopPolicy : Type 0 where
  pub max_iterations : ℤ
  pub max_context_reads : ℤ
  pub max_patch_proposals : ℤ
  pub max_patch_apply_transactions : ℤ
  pub max_test_runs : ℤ
  pub allow_live_llm_provider : Bool
  pub allow_patch_apply : Bool
  pub allow_test_runner : Bool
  pub require_human_approval_for_apply : Bool
  pub require_receipts : Bool
  pub require_ledger_events : Bool
  pub require_replay_bundle : Bool
  pub require_final_report : Bool
  pub default_decision : String
  pub non_claims : Fields

-- `AgentLoopPolicy()`
abbrev pub default_policy : AgentLoopPolicy
default_policy = record {
  max_iterations = pos 3;
  max_context_reads = pos 20;
  max_patch_proposals = pos 1;
  max_patch_apply_transactions = pos 1;
  max_test_runs = pos 2;
  allow_live_llm_provider = false;
  allow_patch_apply = true;
  allow_test_runner = true;
  require_human_approval_for_apply = true;
  require_receipts = true;
  require_ledger_events = true;
  require_replay_bundle = true;
  require_final_report = true;
  default_decision = "REJECT_FAIL_CLOSED";
  non_claims = default_non_claims;
}

pub record AgentLoopAuthority : Type 0 where
  pub task_id : String
  pub actor_id : String
  pub allowed_modes : List AgentLoopMode
  pub supervision_required : Bool
  pub allow_autonomous_mode : Bool
  pub allow_model_driven_executor_dispatch : Bool
  pub allow_patch_apply : Bool
  pub allow_test_runner : Bool

-- `AgentLoopAuthority(task_id=..., actor_id=...)`
abbrev pub authority_for : String → String → AgentLoopAuthority
authority_for task_id actor_id = record {
  task_id = task_id;
  actor_id = actor_id;
  allowed_modes = dry_run ∷ supervised_apply ∷ [];
  supervision_required = true;
  allow_autonomous_mode = false;
  allow_model_driven_executor_dispatch = false;
  allow_patch_apply = true;
  allow_test_runner = true;
}

pub record AgentLoopRequest : Type 0 where
  pub task_id : String
  pub run_id : String
  pub mode : AgentLoopMode
  pub base_commit : String
  pub workspace_root : String
  pub run_artifact_dir : String
  pub task_text : String
  pub target_files : List String
  pub context_requests : List Fields
  pub patch_proposal_request : Option Fields
  pub approval_packet : Option Fields
  pub test_command_id : Option String
  pub planner_output : Option Fields
  pub allow_live_llm_provider : Bool
  pub requested_initial_state : Option String
  pub requested_transition : Option String
  pub requested_iterations : ℤ
  pub patch_proposal_count : ℤ
  pub patch_apply_transaction_count : ℤ
  pub test_run_count : ℤ
  pub workspace_mutation_requested : Bool
  pub test_run_result : Option Fields
  pub model_driven_executor_dispatch_requested : Bool
  pub raw_command : Option String
  pub force_missing_receipt : Bool
  pub force_missing_ledger : Bool
  pub force_missing_replay_manifest : Bool
  pub force_ledger_hash_mismatch : Bool
  pub force_replay_hash_mismatch : Bool
  pub force_rollback_required : Bool
  pub metadata : Fields

-- A request with the defaults of the source.
abbrev pub request_for : String → String → AgentLoopMode → String → AgentLoopRequest
request_for task_id run_id mode task_text = record {
  task_id = task_id;
  run_id = run_id;
  mode = mode;
  base_commit = "";
  workspace_root = "";
  run_artifact_dir = "";
  task_text = task_text;
  target_files = [];
  context_requests = [];
  patch_proposal_request = none;
  approval_packet = none;
  test_command_id = none;
  planner_output = none;
  allow_live_llm_provider = false;
  requested_initial_state = none;
  requested_transition = none;
  requested_iterations = pos 1;
  patch_proposal_count = pos 1;
  patch_apply_transaction_count = pos 1;
  test_run_count = pos 1;
  workspace_mutation_requested = false;
  test_run_result = none;
  model_driven_executor_dispatch_requested = false;
  raw_command = none;
  force_missing_receipt = false;
  force_missing_ledger = false;
  force_missing_replay_manifest = false;
  force_ledger_hash_mismatch = false;
  force_replay_hash_mismatch = false;
  force_rollback_required = false;
  metadata = dict [];
}
