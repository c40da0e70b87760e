-- ===== src/AgentLoop/Supervisor/Documents.antt =====
-- runtime_lab/agent_loop/supervisor.py and plan.py: the plan, what the calls return, and what a run writes of it.
use runtime_lab_core.Prelude.{
  pos, String, Bool, true, false, Option, none, some, List, [], ◌∷◌, ◌++◌, map, length,
  if◌then◌else◌,
}
use runtime_lab_core.Json.{
  null, str, bool, num, arr, nil, obj, Fields, end, field, dict, strings, get, set, array,
}
use runtime_lab_core.Hash.{Host, canonical_hash}
use runtime_lab_core.AgentLoop.Models.{
  dry_run, supervised_apply, mode_value, AgentLoopPolicy, AgentLoopRequest,
}
use runtime_lab_core.AgentLoop.Authority.{given_text}
use runtime_lab_core.AgentLoop.Receipts.{ReceiptArguments}
use runtime_lab_core.AgentLoop.Replay.{ManifestArguments}

-- The last event of a log, `none` for an empty one.
abbrev pub last_event : List Fields → Option Fields
last_event [] = none
last_event (e ∷ []) = some e
last_event (_ ∷ (e ∷ r)) = last_event (e ∷ r)

-- `log[-1]["transition_hash"]`, and for the ledger `events[-1]["event_hash"] if events else "GENESIS"`.
abbrev pub last_hash : Host → String → List Fields → String
last_hash h key events = elim (last_event events) [
  | none ↦ "GENESIS"
  | some e ↦ h.to_str (get key e)
]

unfoldable pub create_deterministic_plan : Host → AgentLoopRequest → Fields
create_deterministic_plan h request =
    let plan = dict (
      ("plan_version", str "agent_loop_plan.v0")
      ∷ ("task_id", str request.task_id)
      ∷ ("run_id", str request.run_id)
      ∷ ("mode", str (mode_value request.mode))
      ∷ ("target_files", arr (strings request.target_files))
      ∷ ("context_request_count", num (pos (length request.context_requests)))
      ∷ (
        "patch_proposal_requested",
        elim request.patch_proposal_request [ none ↦ bool false | some _ ↦ bool true ],
      )
      ∷ ("test_command_id", elim request.test_command_id [ none ↦ null | some id ↦ str id ])
      ∷ ("tool_calls", arr nil)
      ∷ ("model_generated", bool false)
      ∷ ("planner_kind", str "deterministic_local_policy")
      ∷ []) in
    set "plan_hash" (str (canonical_hash h (obj plan))) plan

-- `request.planner_output or create_deterministic_plan(request)`
unfoldable pub plan_of : Host → AgentLoopRequest → Fields
unfolding create_deterministic_plan
plan_of h request = elim request.planner_output [
  | none ↦ create_deterministic_plan h request
  | some end ↦ create_deterministic_plan h request
  | some (field k v r) ↦ field k v r
]

-- What the loop reads of the result of a call: `accepted`, `rejection_codes` if it is there, the receipt's
-- hash, the artifact's hash, and whether something was performed.
pub record StepResult : Type 0 where
  pub accepted : Bool
  pub rejection_codes : Option (List String)
  pub receipt_hash : String
  pub artifact_hash : String
  pub artifact_path : String
  pub performed : Bool

-- What a run does beyond its own data: the directory, the calls into other packages, the files.
pub data Effect : Type 0 where
  made_directory read_context created_proposal applied_patch ran_tests : Effect
  wrote_replay wrote_report wrote_receipt : Effect

-- The results of the calls, in case they are made and return, the exception that one raises if it does, the
-- clock, and the hashes of the resolved workspace root and of the policy.
pub record Calls : Type 0 where
  pub context : List StepResult
  pub proposal : StepResult
  pub patch_apply : StepResult
  pub test : StepResult
  pub raises : Effect → Option String
  pub utc_now : String
  pub workspace_root_hash : String
  pub policy_hash : String

-- The hashes of the receipts of the test runs, in a list of one or none.
abbrev pub test_hashes : AgentLoopRequest → Calls → List String
test_hashes request calls = elim request.mode [
  | dry_run ↦ []
  | supervised_apply ↦
      if given_text request.test_command_id then calls.test.receipt_hash ∷ [] else []
]

-- The hashes of the receipts of the calls that were made, in their order.
abbrev pub executor_hashes : AgentLoopRequest → Calls → List String
executor_hashes request calls =
    map (λ (r : StepResult). r.receipt_hash) calls.context
    ++ (calls.proposal.receipt_hash ∷ elim request.mode [
      | dry_run ↦ []
      | supervised_apply ↦
          calls.patch_apply.receipt_hash
          ∷ (if given_text request.test_command_id then calls.test.receipt_hash ∷ [] else [])
    ])

module _ (h : Host) where
  -- The arguments of `build_replay_manifest`.
  unfoldable pub manifest_arguments :
      AgentLoopRequest → Calls → String → List Fields → ManifestArguments
  manifest_arguments request calls state_hash events = record {
    run_id = request.run_id;
    base_commit = request.base_commit;
    inputs = dict (
        ("task_id", str request.task_id)
        ∷ ("mode", str (mode_value request.mode))
        ∷ ("target_files", arr (strings request.target_files))
        ∷ ("context_request_count", num (pos (length request.context_requests)))
        ∷ ("patch_proposal_artifact_path", str calls.proposal.artifact_path)
        ∷ []);
    state_transition_hash = some state_hash;
    ledger_tail_hash = some (last_hash h "event_hash" events);
    artifact_hashes = ("patch_proposal", calls.proposal.artifact_hash) ∷ [];
    receipt_hashes = executor_hashes request calls;
    ledger_hash = none;
  }

  -- The arguments of `build_agent_loop_receipt`.
  unfoldable pub receipt_arguments :
      AgentLoopRequest
      → AgentLoopPolicy
      → String
      → Calls
      → String
      → Fields
      → Fields
      → ReceiptArguments
  receipt_arguments request policy authority_hash calls state_hash manifest report = record {
    task_id = request.task_id;
    run_id = request.run_id;
    base_commit = some request.base_commit;
    workspace_root_hash = some calls.workspace_root_hash;
    mode = mode_value request.mode;
    policy_hash = calls.policy_hash;
    authority_decision_hash = some authority_hash;
    state_transition_hash_chain = state_hash;
    executor_receipt_hashes = executor_hashes request calls;
    artifact_hashes =
        ("patch_proposal", calls.proposal.artifact_hash)
        ∷ ("replay_manifest", canonical_hash h (obj manifest))
        ∷ ("final_report", canonical_hash h (obj report))
        ∷ [];
    final_result = "SUCCESS";
    non_claims = policy.non_claims;
    rejection_codes = [];
    created_at_utc = calls.utc_now;
  }

  -- The final report. Its time is that of the clock.
  unfoldable pub final_report :
      AgentLoopRequest → AgentLoopPolicy → Calls → List Fields → List Fields → Fields → Fields
  unfolding plan_of
  final_report request policy calls log events manifest = dict (
      ("schema_version", str "1.0")
      ∷ ("report_version", str "agent_loop_final_report.v0")
      ∷ ("milestone", str "R128_SUPERVISED_LOCAL_AGENT_LOOP_V0_LOCAL_VALIDATION")
      ∷ ("task_id", str request.task_id)
      ∷ ("run_id", str request.run_id)
      ∷ ("mode", str (mode_value request.mode))
      ∷ ("base_commit", str request.base_commit)
      ∷ ("final_result", str "SUCCESS")
      ∷ ("created_at_utc", str calls.utc_now)
      ∷ ("plan", obj (plan_of h request))
      ∷ ("transition_log", arr (array (map obj log)))
      ∷ (
        "context_receipt_hashes",
        arr (strings (map (λ (r : StepResult). r.receipt_hash) calls.context)),
      )
      ∷ ("patch_proposal_receipt_hash", str calls.proposal.receipt_hash)
      ∷ (
        "patch_apply_receipt_hash",
        elim request.mode [
          | dry_run ↦ null
          | supervised_apply ↦ str calls.patch_apply.receipt_hash
        ],
      )
      ∷ ("test_runner_receipt_hashes", arr (strings (test_hashes request calls)))
      ∷ ("ledger_hash", str (last_hash h "event_hash" events))
      ∷ ("replay_hash", get "replay_manifest_hash" manifest)
      ∷ ("non_claims", obj policy.non_claims)
      ∷ [])
