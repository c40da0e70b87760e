-- ===== src/ArtifactStore/Checks.antt =====
-- The tests of `store_artifact`, in their order, and `_manifest_error`.
use runtime_lab_core.Prelude.{
  ℕ, String, Char, code, Bool, false, ◌&&◌, not, Option, none, some, List, [], ◌∷◌, ◌++◌, contains,
  ltb, if◌then◌else◌, ◌<>◌, ◌+◌, first_code,
}
use runtime_lab_core.Json.{Value, str, obj, Fields, get, is_str, is_text}
use runtime_lab_core.Json.Access.{has_any, has_only, all_texts, text_or_empty}
use runtime_lab_core.Hash.{Host}
use runtime_lab_core.PosixPath
use runtime_lab_core.ArtifactStore.Policy.{StorePolicy}

abbrev manifest_required_fields : List String
manifest_required_fields = "schema_version" ∷ "artifact_name" ∷ "artifact_type" ∷ "media_type" ∷ []

abbrev manifest_forbidden_fields : List String
manifest_forbidden_fields =
    "shell_command" ∷ "tool_call" ∷ "tool_invocation" ∷ "llm_invocation" ∷ "network_endpoint"
    ∷ "secret_material" ∷ "executable_blob" ∷ "mutable_handle" ∷ "replay_engine" ∷ []

unfoldable pub manifest_error : Value → Option String
manifest_error (obj manifest) =
    if has_any manifest_forbidden_fields manifest
    then some "ARTIFACT_MANIFEST_FORBIDDEN_FIELD"
    else if not (has_only (manifest_required_fields ++ "content_hash" ∷ "size_bytes" ∷ []) manifest)
    then some "ARTIFACT_MANIFEST_FORBIDDEN_FIELD"
    else if not (all_texts manifest_required_fields manifest)
    then some "ARTIFACT_MANIFEST_MISSING_REQUIRED_FIELD"
    else none
manifest_error _ = some "ARTIFACT_MANIFEST_MISSING_REQUIRED_FIELD"

-- The length of `c.encode("utf-8")`.
abbrev char_bytes : Char → ℕ
char_bytes c =
    if ltb (code c) 128
    then 1
    else if ltb (code c) 2048
    then 2
    else if ltb (code c) 65536
    then 3
    else 4

-- `len(s.encode("utf-8"))`
unfoldable pub byte_length : String → ℕ
byte_length String.[] = 0
byte_length (String.◌∷◌ c s) = char_bytes c + byte_length s

unfoldable pub has_traversal : String → Bool
has_traversal path = contains (PosixPath.parts (PosixPath.parse path)) ".."

-- The tests that bind the request to the policy.
unfoldable pub binding_code : Fields → StorePolicy → Option String
binding_code request policy =
    if not (is_text (get "task_id" request))
    then some "ARTIFACT_TASK_BINDING_REQUIRED"
    else if not (is_str (get "task_id" request) policy.task_id)
    then some "ARTIFACT_TASK_BINDING_MISMATCH"
    else if not (is_str (get "descriptor_hash" request) policy.descriptor_hash)
    then some "ARTIFACT_DESCRIPTOR_HASH_MISMATCH"
    else if not (is_str (get "authority_receipt_hash" request) policy.authority_receipt_hash)
    then some "ARTIFACT_AUTHORITY_RECEIPT_MISMATCH"
    else if not (is_text (get "workspace_transaction_receipt_hash" request))
    then some "ARTIFACT_WORKSPACE_TRANSACTION_RECEIPT_REQUIRED"
    else if not (
        is_str (get "workspace_transaction_receipt_hash" request)
          policy.workspace_transaction_receipt_hash)
    then some "ARTIFACT_WORKSPACE_TRANSACTION_RECEIPT_MISMATCH"
    else none

-- The tests on the name of the artifact.
unfoldable pub name_code : Fields → Option String
name_code request =
    let path = text_or_empty (get "artifact_name" request) in
    if not (all_texts ("artifact_name" ∷ "artifact_type" ∷ "media_type" ∷ []) request)
    then some "ARTIFACT_REQUEST_MALFORMED"
    else if PosixPath.is_absolute (PosixPath.parse path)
    then some "ARTIFACT_NAME_ABSOLUTE_PATH_REJECTED"
    else if has_traversal path
    then some "ARTIFACT_NAME_PATH_TRAVERSAL_REJECTED"
    else none

-- `manifest[field] == request_map[field]` for the three fields, which are texts in both
abbrev pub agrees_at : String → Fields → Fields → Bool
agrees_at k manifest request = is_str (get k manifest) (text_or_empty (get k request))

abbrev pub manifest_matches : Value → Fields → Bool
manifest_matches (obj manifest) request =
    agrees_at "artifact_name" manifest request
    && agrees_at "artifact_type" manifest request
    && agrees_at "media_type" manifest request
manifest_matches _ request = false

-- The tests on the manifest and on the allowed types.
unfoldable pub manifest_code : Fields → StorePolicy → Option String
manifest_code request policy = elim (manifest_error (get "manifest" request)) [
  | some error ↦ some error
  | none ↦
      if not (manifest_matches (get "manifest" request) request)
      then some "ARTIFACT_MANIFEST_MISSING_REQUIRED_FIELD"
      else if not
          (contains policy.allowed_artifact_types (text_or_empty (get "artifact_type" request)))
      then some "ARTIFACT_TYPE_NOT_ALLOWED"
      else if not (contains policy.allowed_media_types (text_or_empty (get "media_type" request)))
      then some "ARTIFACT_MEDIA_TYPE_NOT_ALLOWED"
      else none
]

module _ (h : Host) where
  -- `_sha256_bytes(_content_bytes(content))` of a text
  unfoldable pub content_hash : String → String
  content_hash content = "sha256:" <> h.sha256_hex content

  -- The tests on the content.
  unfoldable pub content_code : Fields → StorePolicy → Value → Option String
  content_code request policy (str content) =
      if ltb policy.max_size_bytes (byte_length content)
      then some "ARTIFACT_SIZE_LIMIT_EXCEEDED"
      else if not (is_str (get "expected_content_hash" request) (content_hash content))
      then some "ARTIFACT_CONTENT_HASH_MISMATCH"
      else none
  content_code request policy _ = some "ARTIFACT_REQUEST_MALFORMED"

  -- All tests of `store_artifact` on a request under a valid policy: none, or the code of the first that fails.
  unfoldable pub request_code : Fields → StorePolicy → Option String
  request_code request policy = first_code (binding_code request policy) (
      first_code (name_code request) (
        first_code (manifest_code request policy)
          (content_code request policy (get "content" request))))
