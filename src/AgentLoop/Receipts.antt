-- ===== src/AgentLoop/Receipts.antt =====
-- runtime_lab/agent_loop/receipts.py: the final receipt. `_utc_now()` is an argument.
use runtime_lab_core.Prelude.{
  String, ◌≡◌, refl, Bool, true, false, ◌&&◌, Option, none, some, List, [], ◌∷◌, ◌==◌, dedupe,
  arith, eq_refl,
}
use runtime_lab_core.Json.{
  Value, null, str, bool, arr, obj, Fields, end, field, dict, strings, sorted_entries, get, has,
  pop, set, is_str,
}
use runtime_lab_core.Hash.{Host, canonical_hash}

-- The arguments of `build_agent_loop_receipt`; the executor receipts are given as a list.
pub record ReceiptArguments : Type 0 where
  pub task_id : String
  pub run_id : String
  pub base_commit : Option String
  pub workspace_root_hash : Option String
  pub mode : String
  pub policy_hash : String
  pub authority_decision_hash : Option String
  pub state_transition_hash_chain : String
  pub executor_receipt_hashes : List String
  pub artifact_hashes : List (String × String)
  pub final_result : String
  pub non_claims : Fields
  pub rejection_codes : List String
  pub created_at_utc : String

abbrev pub optional_text : Option String → Value
optional_text none = null
optional_text (some s) = str s

abbrev default_boundary : Fields
default_boundary = dict (
    ("autonomous_operation", bool false)
    ∷ ("arbitrary_shell", bool false)
    ∷ ("arbitrary_command_execution", bool false)
    ∷ ("network_execution", bool false)
    ∷ ("live_llm_provider", bool false)
    ∷ ("model_driven_executor_dispatch", bool false)
    ∷ ("codex_equivalence", bool false)
    ∷ ("claude_code_equivalence", bool false)
    ∷ ("production_readiness", bool false)
    ∷ ("remote_sealed_pass", bool false)
    ∷ [])

-- `non_claims or {...}`
abbrev boundary : Fields → Fields
boundary end = default_boundary
boundary (field k v r) = field k v r

-- The `dict` before its hash is set.
unfoldable pub receipt_body : ReceiptArguments → Fields
receipt_body a = dict (
    ("schema_version", str "1.0")
    ∷ ("receipt_version", str "agent_loop.v0")
    ∷ ("milestone", str "R128_SUPERVISED_LOCAL_AGENT_LOOP_V0_LOCAL_VALIDATION")
    ∷ ("task_id", str a.task_id)
    ∷ ("run_id", str a.run_id)
    ∷ ("base_commit", optional_text a.base_commit)
    ∷ ("workspace_root_hash", optional_text a.workspace_root_hash)
    ∷ ("mode", str a.mode)
    ∷ ("policy_hash", str a.policy_hash)
    ∷ ("authority_decision_hash", optional_text a.authority_decision_hash)
    ∷ ("state_transition_hash_chain", str a.state_transition_hash_chain)
    ∷ ("executor_receipt_hashes", arr (strings a.executor_receipt_hashes))
    ∷ ("artifact_hashes", obj (sorted_entries a.artifact_hashes))
    ∷ ("final_result", str a.final_result)
    ∷ ("rejection_codes", arr (strings (dedupe a.rejection_codes)))
    ∷ ("created_at_utc", str a.created_at_utc)
    ∷ ("non_claim_boundary", obj (boundary a.non_claims))
    ∷ [])

module _ (h : Host) where
  unfoldable pub build_agent_loop_receipt : ReceiptArguments → Fields
  unfolding receipt_body
  build_agent_loop_receipt a =
      set "receipt_hash" (str (canonical_hash h (obj (receipt_body a)))) (receipt_body a)

  unfoldable pub verify_agent_loop_receipt : Fields → Bool
  verify_agent_loop_receipt receipt =
      has "receipt_hash" receipt
      && is_str (get "receipt_hash" receipt) (canonical_hash h (obj (pop "receipt_hash" receipt)))
      && is_str (get "receipt_version" receipt) "agent_loop.v0"

  -- A built receipt verifies, and the hash that it stores is that of the receipt without it.
  pub build_agent_loop_receipt-verify :
      (a : ReceiptArguments)
      → (verify_agent_loop_receipt (build_agent_loop_receipt a) ≡ true)
        × (get "receipt_hash" (build_agent_loop_receipt a)
            ≡ str (canonical_hash h (obj (receipt_body a))))
  unfolding verify_agent_loop_receipt build_agent_loop_receipt has get pop set ◌==◌
  build_agent_loop_receipt-verify a =
      (ground (arith, eq_refl (canonical_hash h (obj (receipt_body a)))), refl)
