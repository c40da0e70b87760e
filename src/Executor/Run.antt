-- ===== src/Executor/Run.antt =====
-- `execute_write_text_artifact` and its receipts. The writes are listed; that the operating system carries
-- them out is not modelled.
use runtime_lab_core.Prelude.{
  String, Bool, true, false, Option, none, some, List, [], ◌∷◌, dedupe, Result, ok, ◌>>=◌,
}
use runtime_lab_core.Json.{Value, str, bool, obj, Fields, dict, get}
use runtime_lab_core.Json.Access.{get_in, text_or_empty}
use runtime_lab_core.Hash.{Host}
use runtime_lab_core.Hash.Seal.{seal, is_sealed}
use runtime_lab_core.Descriptors.Validator.{TextTools}
use runtime_lab_core.Executor.Checks.{checks, target_of}

-- `target.parent.mkdir(parents=True, exist_ok=True)` and `target.write_text(content)`
pub data Effect : Type 0 where
  make_parents : String → Effect
  write_text : String → String → Effect

-- What `_base_result` returns, without the entries that are always `False`, and the effects of the call.
pub record ExecutionResult : Type 0 where
  pub accepted : Bool
  pub status : String
  pub rejection_codes : List String
  pub receipt : Option Fields
  pub artifact_write_performed : Bool
  pub effects : List Effect

abbrev pub reject : List String → ExecutionResult
reject codes = record {
  accepted = false;
  status = "rejected";
  rejection_codes = dedupe codes;
  receipt = none;
  artifact_write_performed = false;
  effects = [];
}

-- The `receipt` of `_executor_receipt`, before its hash is set.
unfoldable pub receipt_body : Fields → Fields
receipt_body request = dict (
    ("schema_version", str "executor_receipt.v1")
    ∷ ("executor", str "write_text_artifact_v0")
    ∷ ("action", str "write_text_artifact")
    ∷ ("task_id", get "task_id" request)
    ∷ ("descriptor_hash", get "descriptor_hash" request)
    ∷ ("authority_packet_id", get_in "packet_id" (get "authority_packet" request))
    ∷ (
      "authority_receipt_hash",
      get_in "authority_receipt_hash" (get "workspace_transaction_receipt" request),
    )
    ∷ (
      "workspace_transaction_receipt_hash",
      get_in "transaction_hash" (get "workspace_transaction_receipt" request),
    )
    ∷ ("artifact_receipt_hash", get_in "receipt_hash" (get "artifact_receipt" request))
    ∷ ("output_path", get "output_path" request)
    ∷ ("content_hash", get "expected_content_hash" request)
    ∷ ("artifact_write_performed", bool true)
    ∷ ("tool_invocation_performed", bool false)
    ∷ ("llm_invocation_performed", bool false)
    ∷ ("network_access_performed", bool false)
    ∷ ("replay_engine_performed", bool false)
    ∷ ("receipt_hash", str "")
    ∷ [])

module _ (h : Host) where
  unfoldable pub executor_receipt : Fields → Fields
  executor_receipt request = seal h "receipt_hash" (receipt_body request)

  unfoldable pub verify_executor_receipt : Value → Bool
  verify_executor_receipt (obj receipt) = is_sealed h "receipt_hash" receipt
  verify_executor_receipt _ = false

  -- The end of the execution, after the checks.
  abbrev pub finish : Fields → Option (List String) → ExecutionResult
  finish request (some codes) = reject codes
  finish request none = record {
    accepted = true;
    status = "executed";
    rejection_codes = [];
    receipt = some (executor_receipt request);
    artifact_write_performed = true;
    effects =
        make_parents (target_of request)
        ∷ write_text (target_of request) (text_or_empty (get "content" request))
        ∷ [];
  }

module _ (h : Host) (tools : TextTools) (resolve : String → String) where
  unfoldable pub execute_write_text_artifact : Value → Result ExecutionResult
  execute_write_text_artifact (obj request) = do
    verdict ← checks h tools resolve request
    ok (finish h request verdict)
  execute_write_text_artifact _ = ok (reject ("EXECUTOR_REQUEST_MALFORMED" ∷ []))
