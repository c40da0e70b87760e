-- ===== src/Executor/Checks.antt =====
-- The checks of `execute_write_text_artifact`, in their order. Each returns the codes of a rejection, or
-- none; the hash of an invalid descriptor raises. `Path.resolve` is a parameter.
use runtime_lab_core.Prelude.{
  String, Bool, true, false, ◌&&◌, not, Option, none, some, List, [], ◌∷◌, is_empty, Result, ok,
  ◌>>=◌, ◌then_check◌, if◌then◌else◌,
}
use runtime_lab_core.Json.{obj, Fields, get, is_str, is_text}
use runtime_lab_core.Json.Access.{has_any, is_mapping, get_in, text_or_empty, fields_of}
use runtime_lab_core.Json.Equality.{same_value}
use runtime_lab_core.PosixPath
use runtime_lab_core.Hash.{Host}
use runtime_lab_core.Descriptors.Validator.{TextTools}
use runtime_lab_core.Authority.Bindings.{task_id_of, compute_descriptor_payload_hash}
use runtime_lab_core.Authority.Verify.{Verification, verify_authority_packet}
use runtime_lab_core.Workspace.{verify_workspace_transaction_receipt}
use runtime_lab_core.ArtifactStore.Checks.{content_hash}
use runtime_lab_core.ArtifactStore.Store.{verify_artifact_receipt}
use runtime_lab_core.Executor.Paths.{output_path_error}

-- The outcome of a check: none, or the codes of the rejection.
abbrev pub Check : Type 0
Check = Result (Option (List String))

-- `if not test: return _reject(code)`
abbrev pub demand : Bool → String → Check
demand true code = ok none
demand false code = ok (some (code ∷ []))

abbrev forbidden_request_fields : List String
forbidden_request_fields =
    "shell_command" ∷ "subprocess" ∷ "command" ∷ "tool_call" ∷ "tool_invocation" ∷ "llm_call"
    ∷ "llm_invocation" ∷ "network_endpoint" ∷ "http_request" ∷ "socket" ∷ "replay_engine"
    ∷ "arbitrary_action" ∷ []

abbrev pub fields_at : String → Fields → Fields
fields_at k request = fields_of (get k request)

-- The code of an error, as a rejection.
abbrev pub reject_with : Option String → Option (List String)
reject_with none = none
reject_with (some code) = some (code ∷ [])

-- The tests on the request itself.
unfoldable pub request_check : Fields → Check
request_check request =
    demand (not (has_any forbidden_request_fields request)) "EXECUTOR_FORBIDDEN_FIELD"
    then_check demand (is_str (get "action" request) "write_text_artifact")
        "EXECUTOR_ACTION_NOT_ALLOWED"
    then_check demand (is_mapping (get "descriptor_payload" request)) "EXECUTOR_REQUEST_MALFORMED"

-- The codes of an authority packet that was rejected.
abbrev pub packet_rejection : Verification → Option (List String)
packet_rejection outcome =
    if outcome.accepted
    then none
    else if is_empty outcome.rejection_codes
    then some ("EXECUTOR_AUTHORITY_PACKET_REQUIRED" ∷ [])
    else some outcome.rejection_codes

module _ (h : Host) (tools : TextTools) where
  -- The tests on the descriptor and on its authority.
  unfoldable pub descriptor_check : Fields → Check
  descriptor_check request =
      let payload = fields_at "descriptor_payload" request in
      do
        hash ← compute_descriptor_payload_hash h tools payload
        demand (is_str (get "descriptor_hash" request) hash) "EXECUTOR_DESCRIPTOR_HASH_MISMATCH"
            then_check demand (is_str (get "task_id" request) (task_id_of payload))
                "EXECUTOR_REQUEST_MALFORMED"
            then_check demand (is_mapping (get "authority_packet" request))
                "EXECUTOR_AUTHORITY_PACKET_REQUIRED"

  unfoldable pub packet_check : Fields → Check
  packet_check request = do
    outcome ←
        verify_authority_packet h tools (obj (fields_at "authority_packet" request))
          (fields_at "descriptor_payload" request)
    ok (packet_rejection outcome)

module _ (h : Host) where
  -- The tests on the receipt of the workspace transaction, with `_workspace_receipt_mismatch`.
  unfoldable pub workspace_check : Fields → Check
  workspace_check request =
      let given = get "workspace_transaction_receipt" request in
      demand (is_mapping given) "EXECUTOR_WORKSPACE_TRANSACTION_RECEIPT_REQUIRED"
      then_check demand (verify_workspace_transaction_receipt h given)
          "EXECUTOR_WORKSPACE_TRANSACTION_RECEIPT_INVALID"
      then_check demand (same_value (get "task_id" request) (get_in "task_id" given))
          "EXECUTOR_WORKSPACE_TRANSACTION_RECEIPT_MISMATCH"
      then_check demand
          (same_value (get "descriptor_hash" request) (get_in "descriptor_hash" given))
          "EXECUTOR_WORKSPACE_TRANSACTION_RECEIPT_MISMATCH"
      then_check demand
          (same_value (get_in "authority_receipt_hash" given)
            (get_in "payload_hash" (get "authority_packet" request)))
          "EXECUTOR_WORKSPACE_TRANSACTION_RECEIPT_MISMATCH"

-- The three texts that a request needs, and where it may write.
unfoldable pub output_check : Fields → Check
output_check request =
    demand
      (is_text (get "output_path" request)
        && is_text (get "content" request)
        && is_text (get "workspace_root" request))
      "EXECUTOR_REQUEST_MALFORMED"
    then_check do
      error ←
          output_path_error (text_or_empty (get "output_path" request))
            (fields_at "workspace_transaction_receipt" request)
      ok (reject_with error)

-- `_artifact_receipt_mismatch`, of the two receipts
unfoldable pub artifact_receipt_matches : Fields → Fields → Fields → Bool
artifact_receipt_matches request artifact workspace =
    same_value (get "task_id" request) (get "task_id" artifact)
    && same_value (get "descriptor_hash" request) (get "descriptor_hash" artifact)
    && same_value (get "output_path" request) (get "artifact_name" artifact)
    && same_value (get "expected_content_hash" request) (get "content_hash" artifact)
    && same_value (get "workspace_transaction_receipt_hash" artifact)
        (get "transaction_hash" workspace)
    && same_value (get "authority_receipt_hash" artifact) (get "authority_receipt_hash" workspace)
    && is_str (get "artifact_type" artifact) "text_artifact"
    && is_str (get "media_type" artifact) "text/plain"

module _ (h : Host) where
  -- The tests on the receipt of the artifact.
  unfoldable pub artifact_check : Fields → Check
  artifact_check request =
      let given = get "artifact_receipt" request in
      demand (is_mapping given) "EXECUTOR_ARTIFACT_RECEIPT_REQUIRED"
      then_check demand (verify_artifact_receipt h given) "EXECUTOR_ARTIFACT_RECEIPT_INVALID"
      then_check demand
          (artifact_receipt_matches request (fields_at "artifact_receipt" request)
            (fields_at "workspace_transaction_receipt" request))
          "EXECUTOR_ARTIFACT_RECEIPT_MISMATCH"

  -- The test on the content.
  unfoldable pub content_check : Fields → Check
  content_check request =
      demand
        (is_text (get "expected_content_hash" request)
          && is_str (get "expected_content_hash" request)
              (content_hash h (text_or_empty (get "content" request))))
        "EXECUTOR_CONTENT_HASH_MISMATCH"

-- The `target` of the write.
abbrev pub target_of : Fields → String
target_of request =
    PosixPath.join (text_or_empty (get "workspace_root" request))
      (text_or_empty (get "output_path" request))

module _ (resolve : String → String) where
  -- The target lies below the root after links are followed.
  unfoldable pub place_check : Fields → Check
  place_check request =
      demand
        (PosixPath.is_relative_to (resolve (target_of request))
          (resolve (text_or_empty (get "workspace_root" request))))
        "EXECUTOR_OUTPUT_PATH_OUTSIDE_WORKSPACE"

module _ (h : Host) (tools : TextTools) (resolve : String → String) where
  -- All checks of a request.
  unfoldable pub checks : Fields → Check
  checks request =
      request_check request
      then_check descriptor_check h tools request
      then_check packet_check h tools request
      then_check workspace_check h request
      then_check output_check request
      then_check artifact_check h request
      then_check content_check h request
      then_check place_check resolve request
