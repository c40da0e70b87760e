-- ===== src/PatchApply/Receipts.antt =====
-- runtime_lab/patch_apply/receipts.py: the receipt of a transaction and the sealed rollback artifact.
use runtime_lab_core.Prelude.{String, ◌≡◌, Bool, true, false, List, [], ◌∷◌, ◌∙◌}
use runtime_lab_core.Json.{
  Value, str, bool, arr, obj, Fields, dict, strings, text_fields, pop, set, pop-set,
}
use runtime_lab_core.Hash.{Host}
use runtime_lab_core.Hash.Seal.{seal, is_sealed, seal-is_sealed}

abbrev pub milestone : String
milestone = "R126_HUMAN_APPROVED_PATCH_APPLY_TRANSACTION_LOCAL_VALIDATION"

-- The arguments of `build_patch_apply_receipt`.
pub record ReceiptArguments : Type 0 where
  pub transaction_id : String
  pub proposal_id : String
  pub proposal_hash : String
  pub approval_id : String
  pub approval_hash : String
  pub base_commit : String
  pub workspace_root_hash : String
  pub target_files : List String
  pub preimage_hashes : List (String × String)
  pub postimage_hashes : List (String × String)
  pub unified_diff_hash : String
  pub rollback_artifact_path : String
  pub rollback_artifact_hash : String
  pub result : String

-- The `dict` before its hash is set.
unfoldable pub receipt_body : ReceiptArguments → Fields
receipt_body a = dict (
    ("schema_version", str "1.0")
    ∷ ("receipt_type", str "HUMAN_APPROVED_PATCH_APPLY_TRANSACTION_RECEIPT")
    ∷ ("milestone", str milestone)
    ∷ ("transaction_id", str a.transaction_id)
    ∷ ("proposal_id", str a.proposal_id)
    ∷ ("proposal_hash", str a.proposal_hash)
    ∷ ("approval_id", str a.approval_id)
    ∷ ("approval_hash", str a.approval_hash)
    ∷ ("base_commit", str a.base_commit)
    ∷ ("workspace_root_hash", str a.workspace_root_hash)
    ∷ ("target_files", arr (strings a.target_files))
    ∷ ("preimage_hashes", obj (text_fields a.preimage_hashes))
    ∷ ("postimage_hashes", obj (text_fields a.postimage_hashes))
    ∷ ("unified_diff_hash", str a.unified_diff_hash)
    ∷ ("rollback_artifact_path", str a.rollback_artifact_path)
    ∷ ("rollback_artifact_hash", str a.rollback_artifact_hash)
    ∷ ("apply_performed", bool true)
    ∷ ("workspace_mutation_performed", bool true)
    ∷ ("human_approval_required", bool true)
    ∷ ("human_approval_verified", bool true)
    ∷ ("tests_run", bool false)
    ∷ ("llm_invocation_performed", bool false)
    ∷ ("executor_dispatch_performed", bool false)
    ∷ ("shell_execution_performed", bool false)
    ∷ ("network_execution_performed", bool false)
    ∷ ("result", str a.result)
    ∷ (
      "non_claims",
      obj (
          dict (
            ("autonomous_patching", bool false)
            ∷ ("test_execution", bool false)
            ∷ ("llm_runtime", bool false)
            ∷ ("agent_loop", bool false)
            ∷ ("production_ready", bool false)
            ∷ ("remote_sealed_pass", bool false)
            ∷ [])),
    )
    ∷ ("receipt_hash", str "")
    ∷ [])

module _ (h : Host) where
  unfoldable pub build_patch_apply_receipt : ReceiptArguments → Fields
  unfolding receipt_body
  build_patch_apply_receipt a = seal h "receipt_hash" (receipt_body a)

  unfoldable pub verify_patch_apply_receipt : Value → Bool
  verify_patch_apply_receipt (obj receipt) = is_sealed h "receipt_hash" receipt
  verify_patch_apply_receipt _ = false

  unfoldable pub seal_rollback_artifact : Fields → Fields
  seal_rollback_artifact artifact =
      seal h "rollback_artifact_hash" (set "rollback_artifact_hash" (str "") artifact)

  unfoldable pub verify_rollback_artifact : Value → Bool
  verify_rollback_artifact (obj artifact) = is_sealed h "rollback_artifact_hash" artifact
  verify_rollback_artifact _ = false

  -- A built receipt verifies, and its payload is what was built.
  pub build_patch_apply_receipt-verify :
      (a : ReceiptArguments)
      → (verify_patch_apply_receipt (obj (build_patch_apply_receipt a)) ≡ true)
        × (pop "receipt_hash" (build_patch_apply_receipt a) ≡ pop "receipt_hash" (receipt_body a))
  unfolding verify_patch_apply_receipt build_patch_apply_receipt
  build_patch_apply_receipt-verify a = seal-is_sealed h "receipt_hash" (receipt_body a)

  -- A sealed rollback artifact verifies, and besides its hash it holds what was sealed.
  pub seal_rollback_artifact-verify :
      (artifact : Fields)
      → (verify_rollback_artifact (obj (seal_rollback_artifact artifact)) ≡ true)
        × (pop "rollback_artifact_hash" (seal_rollback_artifact artifact)
            ≡ pop "rollback_artifact_hash" artifact)
  unfolding verify_rollback_artifact seal_rollback_artifact
  seal_rollback_artifact-verify artifact =
      let (sealed, same) =
        seal-is_sealed h "rollback_artifact_hash"
          (set "rollback_artifact_hash" (str "") artifact) in
      (sealed, same ∙ pop-set "rollback_artifact_hash" (str "") artifact)
