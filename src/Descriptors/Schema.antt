-- ===== src/Descriptors/Schema.antt =====
-- runtime_lab/descriptors/schema.py: the fields of a descriptor and their shape. Where the source loops over
-- a `set`, every member gives the same code, so that the order makes no difference.
use runtime_lab_core.Prelude.{
  String, Bool, true, false, ◌&&◌, ◌||◌, not, List, [], ◌∷◌, ◌++◌, Result, ok, raise, require, ◌>>◌,
  ◌>>=◌, contains, if◌then◌else◌,
}
use runtime_lab_core.Json.{Value, str, arr, obj, Items, nil, cons, Fields, end, get, has, is_str}
use runtime_lab_core.Json.Access.{
  checked_get, is_nonblank, all_nonblank, is_texts, has_any, has_all, has_only, nonblank_at,
  text_or_empty,
}
use runtime_lab_core.PosixPath

-- The keys of `FIELD_SPECS` of the class "required".
abbrev pub required_fields : List String
required_fields =
    "descriptor_version" ∷ "task_ref" ∷ "state_ref" ∷ "transition_intent" ∷ "authority_binding"
    ∷ "identity_binding" ∷ "capability_boundary" ∷ "workspace_boundary" ∷ "artifact_expectation"
    ∷ "validation_requirements" ∷ "governance_requirements" ∷ "replay_binding" ∷ "audit_binding"
    ∷ "non_claims" ∷ "logical_clock" ∷ "action_type" ∷ "determinism_level" ∷ []

abbrev pub forbidden_fields : List String
forbidden_fields =
    "created_at" ∷ "unknown_fields" ∷ "network_endpoint" ∷ "shell_command" ∷ "tool_call"
    ∷ "secret_material" ∷ "executable_blob" ∷ "mutable_handle" ∷ []

abbrev optional_text_list_fields : List String
optional_text_list_fields = "preconditions" ∷ "postconditions" ∷ "compatibility_refs" ∷ "notes" ∷ []

-- The keys of `FIELD_SPECS` and the forbidden fields.
abbrev pub allowed_fields : List String
allowed_fields =
    required_fields
    ++ "descriptor_id" ∷ "canonical_hash" ∷ "descriptor_hash" ∷ "executor_eligibility" ∷ []
    ++ optional_text_list_fields
    ++ forbidden_fields

abbrev pub artifact_fields : List String
artifact_fields = "artifact_class" ∷ "format" ∷ "logical_path" ∷ "binding_method" ∷ []

-- `_validate_required_string_fields`
unfoldable pub validate_required_string_fields : Fields → Result (Unit {0})
validate_required_string_fields payload = do
  require
      (nonblank_at
        ("descriptor_version" ∷ "action_type" ∷ "determinism_level" ∷ "logical_clock" ∷ []) payload)
      "B1_DESCRIPTOR_MISSING_REQUIRED_FIELD"
  require (is_str (get "descriptor_version" payload) "stage_b1.v1")
      "B1_DESCRIPTOR_MISSING_REQUIRED_FIELD"
  require (is_str (get "action_type" payload) "write_text_artifact")
      "B1_DESCRIPTOR_MISSING_REQUIRED_FIELD"

-- `_is_non_empty_string_list`
abbrev pub is_nonblank_list : Value → Bool
is_nonblank_list (arr nil) = false
is_nonblank_list (arr (cons v vs)) = all_nonblank (cons v vs)
is_nonblank_list _ = false

abbrev optional_lists : List String → Fields → Bool
optional_lists [] payload = true
optional_lists (k ∷ ks) payload =
    (not (has k payload) || is_nonblank_list (get k payload)) && optional_lists ks payload

-- `_validate_text_list_fields`
unfoldable pub validate_text_list_fields : Fields → Result (Unit {0})
validate_text_list_fields payload = do
  require (is_nonblank_list (get "non_claims" payload)) "B1_DESCRIPTOR_MISSING_REQUIRED_FIELD"
  require (optional_lists optional_text_list_fields payload) "B1_DESCRIPTOR_INVALID_FIELD_TYPE"

-- One round of the first loop of `_validate_nested_fields`.
abbrev nested_strings : String → List String → Fields → Result (Unit {0})
nested_strings k required payload = elim (get k payload) [
  | obj d ↦ require (nonblank_at required d) "B1_DESCRIPTOR_MISSING_REQUIRED_FIELD"
  | _ ↦ raise "B1_DESCRIPTOR_INVALID_FIELD_TYPE"
]

-- One round of the second loop.
abbrev nested_list : String → String → Fields → Result (Unit {0})
nested_list k required payload = elim (get k payload) [
  | obj d ↦ require (is_nonblank_list (get required d)) "B1_DESCRIPTOR_MISSING_REQUIRED_FIELD"
  | _ ↦ raise "B1_DESCRIPTOR_INVALID_FIELD_TYPE"
]

-- `_validate_nested_fields`
unfoldable pub validate_nested_fields : Fields → Result (Unit {0})
validate_nested_fields payload = do
  nested_strings "task_ref" ("task_id" ∷ []) payload
  nested_strings "state_ref" ("state_id" ∷ []) payload
  nested_strings "transition_intent" ("target" ∷ "type" ∷ []) payload
  nested_strings "audit_binding" ("evidence_status" ∷ []) payload
  nested_strings "replay_binding" ("mode" ∷ []) payload
  nested_list "identity_binding" "identity_fields" payload
  nested_list "audit_binding" "required_audit_trail" payload
  nested_list "replay_binding" "replay_signature_fields" payload
  signature ← checked_get "replay_signature_fields" (get "replay_binding" payload)
  require (is_texts signature ("canonical_hash" ∷ "logical_clock" ∷ []))
      "B1_DESCRIPTOR_MISSING_REQUIRED_FIELD"

-- The tests of `_artifact_path_within_workspace_boundary` on the paths.
unfoldable pub is_path_below : String → String → Bool
is_path_below path root =
    not (PosixPath.is_absolute (PosixPath.parse path))
    && not (contains (PosixPath.parts (PosixPath.parse path)) "..")
    && not (contains (PosixPath.parts (PosixPath.parse root)) "..")
    && not (PosixPath.is_absolute (PosixPath.parse root))
    && PosixPath.is_relative_to path root

-- `_artifact_path_within_workspace_boundary`, of the allowed roots
unfoldable pub is_artifact_path : String → Value → Bool
is_artifact_path path (arr (cons root nil)) =
    is_nonblank root && is_path_below path (text_or_empty root)
is_artifact_path path _ = false

-- The loop of `_validate_artifact_expectation`.
unfoldable pub validate_artifacts : Value → Items → Result (Unit {0})
validate_artifacts boundary nil = ok tt
validate_artifacts boundary (cons (obj item) rest) =
    let others = validate_artifacts boundary rest in
    do
      require (has_only artifact_fields item) "B1_DESCRIPTOR_UNKNOWN_FIELD"
      require (nonblank_at artifact_fields item) "B1_DESCRIPTOR_MISSING_REQUIRED_FIELD"
      roots ← checked_get "allowed_roots" boundary
      require (is_artifact_path (text_or_empty (get "logical_path" item)) roots)
          "B1_DESCRIPTOR_MISSING_REQUIRED_FIELD"
      others
validate_artifacts boundary (cons _ rest) = raise "B1_DESCRIPTOR_INVALID_FIELD_TYPE"

-- `payload.get("workspace_boundary", {})`
abbrev pub get_or_empty : String → Fields → Value
get_or_empty k payload = if has k payload then get k payload else obj end

-- `_validate_artifact_expectation`
unfoldable pub validate_artifact_expectation : Fields → Result (Unit {0})
validate_artifact_expectation payload = elim (get "artifact_expectation" payload) [
  | arr items ↦ validate_artifacts (get_or_empty "workspace_boundary" payload) items
  | _ ↦ raise "B1_DESCRIPTOR_INVALID_FIELD_TYPE"
]

-- `executor_class not in ALLOWED_EXECUTOR_CLASSES`, which raises on what has no hash
abbrev executor_class_allowed : Value → Result (Unit {0})
executor_class_allowed (arr _) = raise "TypeError"
executor_class_allowed (obj _) = raise "TypeError"
executor_class_allowed (str s) =
    require (contains ("descriptor_only" ∷ "validator_only" ∷ []) s) "B1_DESCRIPTOR_UNKNOWN_FIELD"
executor_class_allowed _ = raise "B1_DESCRIPTOR_UNKNOWN_FIELD"

abbrev executor_eligible : Value → Result (Unit {0})
executor_eligible (obj d) = executor_class_allowed (get "executor_class" d)
executor_eligible _ = ok tt

-- `validate_schema_shape` of a mapping; its first and only error is raised, as its caller does
unfoldable pub validate_schema_shape : Fields → Result (Unit {0})
validate_schema_shape payload = do
  require (not (has_any forbidden_fields payload)) "B1_DESCRIPTOR_FORBIDDEN_FIELD"
  require (has_only allowed_fields payload) "B1_DESCRIPTOR_UNKNOWN_FIELD"
  require (has_all required_fields payload) "B1_DESCRIPTOR_MISSING_REQUIRED_FIELD"
  validate_required_string_fields payload
  validate_text_list_fields payload
  validate_nested_fields payload
  validate_artifact_expectation payload
  executor_eligible (get "executor_eligibility" payload)
