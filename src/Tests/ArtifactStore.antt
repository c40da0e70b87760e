-- ===== src/Tests/ArtifactStore.antt =====
-- An artifact stored for the prepared transaction.
use runtime_lab_core.Prelude.{String, ◌≡◌, refl, true, some, [], ◌∷◌, ◌==◌, pos}
use runtime_lab_core.Json.{str, num, arr, obj, Fields, dict, strings, get, has}
use runtime_lab_core.Json.Access.{strict_string_list, has_only}
use runtime_lab_core.PosixPath
use runtime_lab_core.ArtifactStore.Policy.{StorePolicy, validate_policy}
use runtime_lab_core.ArtifactStore.Checks
use runtime_lab_core.ArtifactStore.Store
use runtime_lab_core.ArtifactStore.Store.{store_artifact, accepted_receipt}
use runtime_lab_core.ArtifactStore.Laws.{IsBacked, store_artifact-IsBacked}
use runtime_lab_core.Tests.Fixtures.{host}
use runtime_lab_core.Tests.Authority.{hash}

abbrev pub long_hash : String
long_hash = "sha256:0123456789abcdef0123456789abcdef0123456789abcdef0123456789abcdef"

abbrev policy : Fields
policy = dict (
    ("task_id", str "task-1")
    ∷ ("descriptor_hash", str hash)
    ∷ ("authority_receipt_hash", str long_hash)
    ∷ ("workspace_transaction_receipt_hash", str long_hash)
    ∷ ("allowed_artifact_types", arr (strings ("text_artifact" ∷ [])))
    ∷ ("allowed_media_types", arr (strings ("text/plain" ∷ [])))
    ∷ ("max_size_bytes", num (pos 10))
    ∷ [])

abbrev manifest : Fields
manifest = dict (
    ("schema_version", str "artifact_manifest.v1")
    ∷ ("artifact_name", str "out/a.txt")
    ∷ ("artifact_type", str "text_artifact")
    ∷ ("media_type", str "text/plain")
    ∷ [])

abbrev store_request : Fields
store_request = dict (
    ("task_id", str "task-1")
    ∷ ("descriptor_hash", str hash)
    ∷ ("authority_receipt_hash", str long_hash)
    ∷ ("workspace_transaction_receipt_hash", str long_hash)
    ∷ ("artifact_name", str "out/a.txt")
    ∷ ("artifact_type", str "text_artifact")
    ∷ ("media_type", str "text/plain")
    ∷ ("manifest", obj manifest)
    ∷ ("content", str "hello")
    ∷ ("expected_content_hash", str long_hash)
    ∷ [])

stored-accepted : (store_artifact host (obj store_request) (obj policy)).accepted ≡ true
unfolding store_artifact Store.store_tested validate_policy strict_string_list Checks.request_code
    Checks.binding_code Checks.name_code Checks.manifest_code Checks.manifest_error
    Checks.content_code Checks.byte_length Checks.content_hash Checks.has_traversal has_only get has
    PosixPath.parse PosixPath.parts PosixPath.is_absolute ◌==◌
stored-accepted = refl

store_artifact-IsBacked_example :
    (valid : StorePolicy) × (validate_policy (obj policy) ≡ some valid)
    × IsBacked host store_request valid (store_artifact host (obj store_request) (obj policy))
store_artifact-IsBacked_example =
    store_artifact-IsBacked host store_request (obj policy) stored-accepted

-- The policy that the request is stored under.
abbrev store_policy : StorePolicy
store_policy = record {
  task_id = "task-1";
  descriptor_hash = hash;
  authority_receipt_hash = long_hash;
  workspace_transaction_receipt_hash = long_hash;
  allowed_artifact_types = "text_artifact" ∷ [];
  allowed_media_types = "text/plain" ∷ [];
  max_size_bytes = 10;
  given_size = num (pos 10);
}

abbrev pub artifact_receipt : Fields
artifact_receipt = accepted_receipt host store_request store_policy long_hash 5
