-- ===== src/ArtifactStore/Store.antt =====
-- `store_artifact` and its receipts.
use runtime_lab_core.Prelude.{
  ℕ, pos, String, Bool, true, false, Option, none, some, List, [], ◌∷◌, sorted, text_take,
  removeprefix, ◌<>◌,
}
use runtime_lab_core.Json.{Value, bool, num, str, arr, obj, Fields, dict, strings, get}
use runtime_lab_core.Json.Access.{text_or_empty}
use runtime_lab_core.Hash.{Host, canonical_hash}
use runtime_lab_core.Hash.Seal.{seal, is_sealed}
use runtime_lab_core.ArtifactStore.Policy.{StorePolicy, validate_policy}
use runtime_lab_core.ArtifactStore.Checks.{byte_length, content_hash, request_code}

-- `_artifact_id`
abbrev artifact_id : String → String
artifact_id hash = "artifact_" <> text_take 16 (removeprefix hash "sha256:")

-- The `manifest` of `_accepted_receipt`.
unfoldable pub receipt_manifest : Fields → String → ℕ → Fields
receipt_manifest request hash size = dict (
    ("schema_version", str "artifact_manifest.v1")
    ∷ ("artifact_name", get "artifact_name" request)
    ∷ ("artifact_type", get "artifact_type" request)
    ∷ ("media_type", get "media_type" request)
    ∷ ("content_hash", str hash)
    ∷ ("size_bytes", num (pos size))
    ∷ [])

abbrev receipt_metadata : Fields → ℕ → Fields
receipt_metadata request size = dict (
    ("artifact_name", get "artifact_name" request)
    ∷ ("artifact_type", get "artifact_type" request)
    ∷ ("media_type", get "media_type" request)
    ∷ ("size_bytes", num (pos size))
    ∷ ("task_id", get "task_id" request)
    ∷ ("descriptor_hash", get "descriptor_hash" request)
    ∷ [])

-- What `policy_hash` is taken of.
unfoldable pub policy_payload : StorePolicy → Fields
policy_payload policy = dict (
    ("task_id", str policy.task_id)
    ∷ ("descriptor_hash", str policy.descriptor_hash)
    ∷ ("authority_receipt_hash", str policy.authority_receipt_hash)
    ∷ ("workspace_transaction_receipt_hash", str policy.workspace_transaction_receipt_hash)
    ∷ ("allowed_artifact_types", arr (strings (sorted policy.allowed_artifact_types)))
    ∷ ("allowed_media_types", arr (strings (sorted policy.allowed_media_types)))
    ∷ ("max_size_bytes", policy.given_size)
    ∷ [])

-- What `_base_result` returns, without the entries that are always `False`.
pub record StoreResult : Type 0 where
  pub accepted : Bool
  pub status : String
  pub rejection_codes : List String
  pub receipt : Option Fields

abbrev pub reject : String → StoreResult
reject error = record {
  accepted = false;
  status = "rejected";
  rejection_codes = error ∷ [];
  receipt = none;
}

module _ (h : Host) where
  -- The `receipt` of `_accepted_receipt`, before its hash is set.
  unfoldable pub receipt_body : Fields → StorePolicy → String → ℕ → Fields
  receipt_body request policy hash size = dict (
      ("schema_version", str "artifact_receipt.v1")
      ∷ ("artifact_id", str (artifact_id hash))
      ∷ ("artifact_name", get "artifact_name" request)
      ∷ ("artifact_type", get "artifact_type" request)
      ∷ ("media_type", get "media_type" request)
      ∷ ("size_bytes", num (pos size))
      ∷ ("content_hash", str hash)
      ∷ ("metadata_hash", str (canonical_hash h (obj (receipt_metadata request size))))
      ∷ ("manifest_hash", str (canonical_hash h (obj (receipt_manifest request hash size))))
      ∷ ("manifest", obj (receipt_manifest request hash size))
      ∷ ("task_id", get "task_id" request)
      ∷ ("descriptor_hash", get "descriptor_hash" request)
      ∷ ("authority_receipt_hash", get "authority_receipt_hash" request)
      ∷ ("workspace_transaction_receipt_hash", get "workspace_transaction_receipt_hash" request)
      ∷ ("policy_hash", str (canonical_hash h (obj (policy_payload policy))))
      ∷ ("executor_dispatch_performed", bool false)
      ∷ ("tool_invocation_performed", bool false)
      ∷ ("llm_invocation_performed", bool false)
      ∷ ("replay_engine_performed", bool false)
      ∷ ("receipt_hash", str "")
      ∷ [])

  unfoldable pub accepted_receipt : Fields → StorePolicy → String → ℕ → Fields
  accepted_receipt request policy hash size =
      seal h "receipt_hash" (receipt_body request policy hash size)

  unfoldable pub verify_artifact_receipt : Value → Bool
  verify_artifact_receipt (obj receipt) = is_sealed h "receipt_hash" receipt
  verify_artifact_receipt _ = false

  -- The end of `store_artifact`, after the tests.
  unfoldable pub store_tested : Fields → StorePolicy → Option String → StoreResult
  store_tested request policy (some error) = reject error
  store_tested request policy none =
      let content = text_or_empty (get "content" request) in
      record {
        accepted = true;
        status = "stored";
        rejection_codes = [];
        receipt =
            some (accepted_receipt request policy (content_hash h content) (byte_length content));
      }

  abbrev store_under : Fields → Option StorePolicy → StoreResult
  store_under request none = reject "ARTIFACT_POLICY_MALFORMED"
  store_under request (some policy) = store_tested request policy (request_code h request policy)

  unfoldable pub store_artifact : Value → Value → StoreResult
  store_artifact (obj request) policy = store_under request (validate_policy policy)
  store_artifact _ policy = reject "ARTIFACT_REQUEST_MALFORMED"
