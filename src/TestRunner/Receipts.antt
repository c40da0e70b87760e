-- ===== src/TestRunner/Receipts.antt =====
-- runtime_lab/test_runner/receipts.py: the receipt of a test run. The SHA-256 of bytes is a parameter.
use runtime_lab_core.Prelude.{
  ℕ, ℤ, String, ◌≡◌, Bool, true, false, Option, none, some, List, [], ◌∷◌, ◌<>◌,
}
use runtime_lab_core.Json.{Value, null, num, str, bool, arr, obj, Fields, dict, strings, pop}
use runtime_lab_core.Hash.{Host, canonical_hash}
use runtime_lab_core.Hash.Seal.{seal, is_sealed, seal-is_sealed}

-- The arguments of `build_test_run_receipt`.
pub record ReceiptArguments : Type 0 where
  pub command_id : String
  pub argv : List String
  pub cwd_relative : String
  pub workspace_root : String
  pub timeout_seconds : ℤ
  pub started_at_utc : String
  pub ended_at_utc : String
  pub elapsed_ms : ℤ
  pub exit_code : Option ℤ
  pub stdout : List ℕ
  pub stderr : List ℕ
  pub stdout_truncated : Bool
  pub stderr_truncated : Bool
  pub result : String

-- `sha256_hex_bytes` is `hashlib.sha256(value).hexdigest()` of bytes.
module _ (h : Host) (sha256_hex_bytes : List ℕ → String) where
  -- The `dict` before its hash is set. All of both streams is hashed, not the part that is recorded.
  unfoldable pub receipt_body : ReceiptArguments → Fields
  receipt_body a = dict (
      ("schema_version", str "1.0")
      ∷ ("receipt_type", str "ALLOWLISTED_TEST_RUNNER_RECEIPT")
      ∷ ("milestone", str "R127_ALLOWLISTED_TEST_RUNNER_LOCAL_VALIDATION")
      ∷ ("command_id", str a.command_id)
      ∷ ("argv", arr (strings a.argv))
      ∷ ("argv_hash", str (canonical_hash h (arr (strings a.argv))))
      ∷ ("cwd_relative", str a.cwd_relative)
      ∷ ("workspace_root_hash", str ("sha256:" <> h.sha256_hex a.workspace_root))
      ∷ ("timeout_seconds", num a.timeout_seconds)
      ∷ ("started_at_utc", str a.started_at_utc)
      ∷ ("ended_at_utc", str a.ended_at_utc)
      ∷ ("elapsed_ms", num a.elapsed_ms)
      ∷ ("exit_code", elim a.exit_code [ none ↦ null | some n ↦ num n ])
      ∷ ("stdout_recorded", bool false)
      ∷ ("stderr_recorded", bool false)
      ∷ ("stdout_hash", str ("sha256:" <> sha256_hex_bytes a.stdout))
      ∷ ("stderr_hash", str ("sha256:" <> sha256_hex_bytes a.stderr))
      ∷ ("stdout_truncated", bool a.stdout_truncated)
      ∷ ("stderr_truncated", bool a.stderr_truncated)
      ∷ ("shell_used", bool false)
      ∷ ("network_allowed", bool false)
      ∷ ("llm_invocation_allowed", bool false)
      ∷ ("result", str a.result)
      ∷ (
        "non_claims",
        obj (
            dict (
              ("arbitrary_shell", bool false)
              ∷ ("arbitrary_command_execution", bool false)
              ∷ ("network_execution", bool false)
              ∷ ("llm_invocation", bool false)
              ∷ ("agent_loop", bool false)
              ∷ ("remote_sealed_pass", bool false)
              ∷ [])),
      )
      ∷ ("receipt_hash", str "")
      ∷ [])

  unfoldable pub build_test_run_receipt : ReceiptArguments → Fields
  unfolding receipt_body
  build_test_run_receipt a = seal h "receipt_hash" (receipt_body a)

  unfoldable pub verify_test_run_receipt : Value → Bool
  verify_test_run_receipt (obj receipt) = is_sealed h "receipt_hash" receipt
  verify_test_run_receipt _ = false

  -- A built receipt of a test run verifies, and its payload is what was built.
  pub build_test_run_receipt-verify :
      (a : ReceiptArguments)
      → (verify_test_run_receipt (obj (build_test_run_receipt a)) ≡ true)
        × (pop "receipt_hash" (build_test_run_receipt a) ≡ pop "receipt_hash" (receipt_body a))
  unfolding verify_test_run_receipt build_test_run_receipt
  build_test_run_receipt-verify a = seal-is_sealed h "receipt_hash" (receipt_body a)
