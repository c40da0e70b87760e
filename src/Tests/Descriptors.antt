-- ===== src/Tests/Descriptors.antt =====
-- A descriptor that is valid, its packet, and a workspace transaction over both.
use runtime_lab_core.Prelude.{
  String, ◌≡◌, refl, true, false, [], ◌∷◌, Result, ok, raise, ◌==◌, strip,
}
use runtime_lab_core.Json.{Value, str, bool, arr, obj, Fields, end, dict, array, strings, get, has}
use runtime_lab_core.Json.Access.{checked_get, has_only, is_member}
use runtime_lab_core.PosixPath
use runtime_lab_core.Descriptors.Canonical.{canonical_hash, descriptor_id}
use runtime_lab_core.Descriptors.Schema
use runtime_lab_core.Descriptors.Validator
use runtime_lab_core.Descriptors.Validator.{TextTools, validate_descriptor}
use runtime_lab_core.Descriptors.Validator.Laws.{validate_descriptor-hash}
use runtime_lab_core.Descriptors.Validator.Bounded.{IsBounded, validate_descriptor-IsBounded}
use runtime_lab_core.Tests.Fixtures.{host}

-- No text is negated, and letters are small already.
abbrev pub tools : TextTools
tools = record { lower = λ s. s; is_negated = λ _ _. false }

abbrev artifact : Fields
artifact = dict (
    ("artifact_class", str "text_artifact")
    ∷ ("format", str "text/plain")
    ∷ ("logical_path", str "out/a.txt")
    ∷ ("binding_method", str "hash")
    ∷ [])

abbrev one : String → String → Value
one k s = arr (strings (s ∷ []))

abbrev pub descriptor : Fields
descriptor = dict (
    ("descriptor_version", str "stage_b1.v1")
    ∷ ("task_ref", obj (dict (("task_id", str "task-1") ∷ [])))
    ∷ ("state_ref", obj (dict (("state_id", str "s-1") ∷ [])))
    ∷ ("transition_intent", obj (dict (("target", str "t") ∷ ("type", str "write") ∷ [])))
    ∷ (
      "authority_binding",
      obj (dict (("required_grants", arr (strings ("null_descriptor_scope" ∷ []))) ∷ [])),
    )
    ∷ ("identity_binding", obj (dict (("identity_fields", arr (strings ("id" ∷ []))) ∷ [])))
    ∷ (
      "capability_boundary",
      obj (dict (("allowed_actions", arr (strings ("write_text_artifact" ∷ []))) ∷ [])),
    )
    ∷ (
      "workspace_boundary",
      obj (dict (("mode", str "single_root") ∷ ("allowed_roots", arr (strings ("out" ∷ []))) ∷ [])),
    )
    ∷ ("artifact_expectation", arr (array (obj artifact ∷ [])))
    ∷ (
      "validation_requirements",
      obj (
          dict (
            ("required_validators", arr (strings ("schema" ∷ [])))
            ∷ ("fail_closed", bool true)
            ∷ [])),
    )
    ∷ (
      "governance_requirements",
      obj (dict (("required_predicates", arr (strings ("p" ∷ []))) ∷ [])),
    )
    ∷ (
      "replay_binding",
      obj (
          dict (
            ("mode", str "hash")
            ∷ ("replay_signature_fields", arr (strings ("canonical_hash" ∷ "logical_clock" ∷ [])))
            ∷ [])),
    )
    ∷ (
      "audit_binding",
      obj (
          dict (
            ("evidence_status", str "local")
            ∷ ("required_audit_trail", arr (strings ("log" ∷ [])))
            ∷ [])),
    )
    ∷ ("non_claims", arr (strings ("nothing is proven" ∷ [])))
    ∷ ("logical_clock", str "0")
    ∷ ("action_type", str "write_text_artifact")
    ∷ ("determinism_level", str "STRICT")
    ∷ [])

abbrev fields_or_end : Result Fields → Fields
fields_or_end (ok d) = d
fields_or_end (raise _) = end

abbrev pub valid : Fields
valid = fields_or_end (validate_descriptor host tools (obj descriptor))

pub validated : validate_descriptor host tools (obj descriptor) ≡ ok valid
unfolding validate_descriptor Validator.presence Validator.requirements Validator.boundary
    Validator.capabilities Validator.claims Validator.contains_forbidden_claim
    Validator.is_single_root Schema.validate_schema_shape Schema.validate_required_string_fields
    Schema.validate_text_list_fields Schema.validate_nested_fields
    Schema.validate_artifact_expectation Schema.validate_artifacts Schema.is_artifact_path
    Schema.is_path_below checked_get has_only is_member get has strip ◌==◌ PosixPath.parse
    PosixPath.parts PosixPath.is_absolute PosixPath.is_relative_to PosixPath.begins
validated = refl

validate_descriptor-hash_example :
    (get "canonical_hash" valid ≡ str (canonical_hash host valid))
    × (get "descriptor_hash" valid ≡ str (canonical_hash host valid))
    × (get "descriptor_id" valid ≡ str (descriptor_id host valid))
    × (canonical_hash host valid ≡ canonical_hash host descriptor)
validate_descriptor-hash_example = validate_descriptor-hash host tools descriptor valid validated

validate_descriptor-IsBounded_example : IsBounded tools descriptor
validate_descriptor-IsBounded_example =
    validate_descriptor-IsBounded host tools descriptor valid validated
