-- ===== src/AgentLoop/Policy.antt =====
-- runtime_lab/agent_loop/policy.py. The regular expressions are parameters.
pub mod Laws
use runtime_lab_core.Prelude.{
  ℕ, ℤ, pos, ltb_ℤ, leb_ℤ, String, Bool, true, false, ◌&&◌, ◌||◌, not, Option, none, some, List, [],
  ◌∷◌, ◌++◌, map, length, lookup, contains, dedupe, is_empty, ◌<>◌, is_nonempty, if◌then◌else◌,
  Result, ok, raise,
}
use runtime_lab_core.Json.{Value, Fields, field, end, get, has, truthy}
use runtime_lab_core.Hash.{Host}
use runtime_lab_core.AgentLoop.Models.{
  AgentLoopMode, dry_run, supervised_apply, AgentLoopPolicy, AgentLoopAuthority, AgentLoopRequest,
}
use runtime_lab_core.AgentLoop.Authority.{Decision, evaluate_authority, given_text}
use runtime_lab_core.AgentLoop.StateMachine.{transitions, next_state}
use runtime_lab_core.TestRunner.Allowlist.{default_allowlist}

-- `RE.search(text)` for each regular expression of the file.
pub record Patterns : Type 0 where
  pub secret_like : String → Bool
  pub unbounded : String → Bool
  pub scope_escalation : String → Bool
  pub model_tool_call : String → Bool

pub record Validation : Type 0 where
  pub accepted : Bool
  pub rejection_codes : List String
  pub authority_decision_hash : String

-- `if test: codes.append(code)`
abbrev pub code_if : Bool → String → List String
code_if true code = code ∷ []
code_if false code = []

-- `" ".join(str(value) for value in d.values())`
abbrev pub values_text : Host → Fields → String
values_text h end = ""
values_text h (field _ v end) = h.to_str v
values_text h (field _ v (field k w r)) = h.to_str v <> (" " <> values_text h (field k w r))

unfoldable pub planner_codes : Host → Patterns → Option Fields → List String
planner_codes h re none = []
planner_codes h re (some end) = []
planner_codes h re (some (field k v r)) =
    if truthy (get "tool_calls" (field k v r))
    then "REJECTED_MODEL_TOOL_CALL" ∷ []
    else code_if (re.model_tool_call (values_text h (field k v r))) "REJECTED_MODEL_TOOL_CALL"

-- `state in TRANSITIONS`
abbrev is_state : String → Bool
is_state s = elim (lookup s transitions) [ none ↦ false | some _ ↦ true ]

-- The codes of the limits and of the flags of the request.
unfoldable pub limit_codes : AgentLoopRequest → AgentLoopPolicy → List String
limit_codes request policy =
    code_if (not policy.require_receipts || request.force_missing_receipt)
      "REJECTED_MISSING_RECEIPT"
    ++ (code_if (not policy.require_ledger_events || request.force_missing_ledger)
          "REJECTED_MISSING_LEDGER"
        ++ (code_if (not policy.require_replay_bundle || request.force_missing_replay_manifest)
              "REJECTED_MISSING_REPLAY_MANIFEST"
            ++ (code_if (not policy.require_final_report) "REJECTED_MISSING_FINAL_REPORT"
                ++ (code_if
                      (leb_ℤ policy.max_iterations (pos 0)
                        || ltb_ℤ policy.max_iterations request.requested_iterations)
                      "REJECTED_ITERATION_LIMIT"
                    ++ (code_if
                          (ltb_ℤ policy.max_context_reads (pos (length request.context_requests)))
                          "REJECTED_CONTEXT_READ_LIMIT"
                        ++ (code_if (ltb_ℤ policy.max_patch_proposals request.patch_proposal_count)
                              "REJECTED_PATCH_PROPOSAL_LIMIT"
                            ++ (code_if
                                  (ltb_ℤ policy.max_patch_apply_transactions
                                    request.patch_apply_transaction_count)
                                  "REJECTED_UNAPPROVED_MUTATION"
                                ++ code_if (ltb_ℤ policy.max_test_runs request.test_run_count)
                                    "REJECTED_TEST_RUNNER_BYPASS")))))))

unfoldable pub flag_codes : AgentLoopRequest → AgentLoopPolicy → List String
flag_codes request policy =
    code_if (request.allow_live_llm_provider && not policy.allow_live_llm_provider)
      "REJECTED_LIVE_LLM_PROVIDER_BY_DEFAULT"
    ++ (code_if (given_text request.raw_command) "REJECTED_ARBITRARY_COMMAND"
        ++ (code_if request.workspace_mutation_requested "REJECTED_UNAPPROVED_MUTATION"
            ++ (code_if request.model_driven_executor_dispatch_requested "REJECTED_MODEL_TOOL_CALL"
                ++ (code_if request.force_ledger_hash_mismatch "REJECTED_LEDGER_HASH_MISMATCH"
                    ++ (code_if request.force_replay_hash_mismatch "REJECTED_REPLAY_HASH_MISMATCH"
                        ++ code_if request.force_rollback_required "ROLLBACK_REQUIRED")))))

-- `request.requested_initial_state or "TASK_RECEIVED"`
abbrev initial_state : Option String → String
initial_state none = "TASK_RECEIVED"
initial_state (some s) = if is_nonempty s then s else "TASK_RECEIVED"

-- The codes of the task's text and of a requested state or transition.
unfoldable pub task_codes : Patterns → AgentLoopRequest → List String
unfolding next_state
task_codes re request =
    code_if (re.secret_like request.task_text) "REJECTED_SECRET_RISK"
    ++ (code_if (re.unbounded request.task_text) "REJECTED_UNBOUNDED_TASK"
        ++ (code_if (re.scope_escalation request.task_text) "REJECTED_SCOPE_ESCALATION"
            ++ (elim request.requested_initial_state [
              | none ↦ []
              | some s ↦ code_if (not (is_state s)) "REJECTED_UNKNOWN_STATE"
            ]
                ++ elim request.requested_transition [
                  | none ↦ []
                  | some t ↦ elim (next_state (initial_state request.requested_initial_state) t) [
                    | raise code ↦ code ∷ []
                    | ok _ ↦ []
                  ]
                ])))

-- `approval_packet and "approval_id" in approval_packet`
abbrev pub has_approval : Option Fields → Bool
has_approval none = false
has_approval (some packet) = has "approval_id" packet

unfoldable pub mode_codes : AgentLoopRequest → AgentLoopPolicy → List String
mode_codes request policy = elim request.mode [
  | dry_run ↦ []
  | supervised_apply ↦
      code_if (not policy.allow_patch_apply) "REJECTED_UNAPPROVED_MUTATION"
      ++ code_if
          (policy.require_human_approval_for_apply && not (has_approval request.approval_packet))
          "REJECTED_MISSING_HUMAN_APPROVAL"
]

abbrev pub is_listed : String → Bool
is_listed id = elim (lookup id default_allowlist) [ none ↦ false | some _ ↦ true ]

unfoldable pub test_codes : AgentLoopRequest → AgentLoopPolicy → List String
test_codes request policy =
    elim request.test_command_id [
      | none ↦ []
      | some id ↦
          if not (is_nonempty id)
          then []
          else if not policy.allow_test_runner
          then "REJECTED_TEST_RUNNER_BYPASS" ∷ []
          else code_if (not (is_listed id)) "REJECTED_DISALLOWED_TEST_COMMAND"
    ]
    ++ elim request.test_run_result [
      | none ↦ []
      | some result ↦ code_if (not (truthy (get "receipt" result))) "REJECTED_TEST_RUNNER_RECEIPT"
    ]

module _ (h : Host) (re : Patterns) where
  -- All codes, in the order in which the source appends them.
  unfoldable pub request_codes :
      AgentLoopRequest → Option AgentLoopAuthority → AgentLoopPolicy → List String
  unfolding evaluate_authority limit_codes flag_codes planner_codes task_codes mode_codes test_codes
  request_codes request authority policy =
      (evaluate_authority h request authority policy).rejection_codes
      ++ (limit_codes request policy
          ++ (flag_codes request policy
              ++ (planner_codes h re request.planner_output
                  ++ (task_codes re request
                      ++ (mode_codes request policy ++ test_codes request policy)))))

  unfoldable pub validate_agent_loop_request :
      AgentLoopRequest → Option AgentLoopAuthority → AgentLoopPolicy → Validation
  unfolding request_codes
  validate_agent_loop_request request authority policy =
      let codes = dedupe (request_codes request authority policy) in
      record {
        accepted = is_empty codes;
        rejection_codes = codes;
        authority_decision_hash =
            (evaluate_authority h request authority policy).authority_decision_hash;
      }
