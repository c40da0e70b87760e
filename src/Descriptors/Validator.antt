-- ===== src/Descriptors/Validator.antt =====
-- runtime_lab/descriptors/validator.py: which descriptors are valid, and the derived fields that are added.
-- The regular expressions and `str.lower` are parameters.
pub mod Laws
pub mod Parts
pub mod Bounded
use runtime_lab_core.Prelude.{
  String, Bool, true, false, ◌&&◌, ◌||◌, not, List, [], ◌∷◌, Result, ok, raise, require, ◌>>◌,
  ◌>>=◌, contains, starts_with, has_infix, strip, if◌then◌else◌,
}
use runtime_lab_core.Json.{
  Value, null, bool, str, num, arr, obj, Items, nil, cons, Fields, end, get, has, set, is_str,
  truthy,
}
use runtime_lab_core.Json.Access.{is_mapping, checked_get, is_texts, is_member, has_any}
use runtime_lab_core.Hash.{Host}
use runtime_lab_core.Descriptors.Canonical.{canonical_hash, descriptor_id, derived_fields}
use runtime_lab_core.Descriptors.Schema.{validate_schema_shape, get_or_empty}

-- What the validation takes from Python: `s.lower()`, and whether one of the patterns for a negated claim
-- that are built of a token is found in a text.
pub record TextTools : Type 0 where
  pub lower : String → String
  pub is_negated : String → String → Bool

abbrev forbidden_claim_tokens : List String
forbidden_claim_tokens =
    "runtime_capability_proven" ∷ "runtime capability proven" ∷ "organization_runtime_proven"
    ∷ "organization runtime proven" ∷ "artificial_civilization_seed_proven"
    ∷ "artificial civilization seed proven" ∷ "r105_r110_unified_runtime_spine_pass"
    ∷ "r105-r110 full convergence" ∷ "r105-r110 fully implemented" ∷ "r105-r110 implemented"
    ∷ "r105-r110 converged" ∷ "main-canonical" ∷ "main canonical" ∷ "merged to main"
    ∷ "executor implemented" ∷ "governance enforced" ∷ "replay proven" ∷ []

module _ (tools : TextTools) where
  abbrev pub has_claim : List String → String → Bool
  has_claim [] text = false
  has_claim (token ∷ tokens) text =
      (has_infix text token && not (tools.is_negated token text)) || has_claim tokens text

  -- `_contains_forbidden_claim`
  unfoldable pub contains_forbidden_claim : String → Bool
  contains_forbidden_claim value = has_claim forbidden_claim_tokens (tools.lower (strip value))

  abbrev pub item_claims : Items → Result (Unit {0})
  item_claims nil = ok tt
  item_claims (cons (str s) rest) =
      let others = item_claims rest in
      if contains_forbidden_claim s then raise "B1_DESCRIPTOR_FORBIDDEN_CLAIM" else others
  item_claims (cons _ rest) = raise "AttributeError"

  -- The inner loop over `payload.get(field, [])`.
  abbrev pub field_claims : String → Fields → Result (Unit {0})
  field_claims k payload =
      if has k payload
      then elim (get k payload) [ arr items ↦ item_claims items | _ ↦ raise "TypeError" ]
      else ok tt

  -- The loop over the fields of text.
  unfoldable pub claims : Fields → Result (Unit {0})
  claims payload = do
    field_claims "preconditions" payload
    field_claims "postconditions" payload
    field_claims "compatibility_refs" payload
    field_claims "notes" payload
    field_claims "non_claims" payload

-- The tests before the schema.
unfoldable pub presence : Fields → Result (Unit {0})
presence payload = do
  require (has "authority_binding" payload) "B1_DESCRIPTOR_MISSING_AUTHORITY_BINDING"
  require (has "governance_requirements" payload) "B1_DESCRIPTOR_MISSING_GOVERNANCE_REQUIREMENT"
  require (has "replay_binding" payload) "B1_DESCRIPTOR_MISSING_REPLAY_BINDING"
  require (has "non_claims" payload && truthy (get "non_claims" payload))
      "B1_DESCRIPTOR_EMPTY_NON_CLAIMS"
  require (not (has_any derived_fields payload)) "B1_DESCRIPTOR_PROPOSER_SUPPLIED_DERIVED_FIELD"

-- `isinstance(v, list) and v`
abbrev is_nonempty_list : Value → Bool
is_nonempty_list (arr nil) = false
is_nonempty_list (arr (cons _ _)) = true
is_nonempty_list _ = false

-- `v is True`
abbrev is_true : Value → Bool
is_true (bool b) = b
is_true _ = false

-- The tests from `determinism_level` to `replay_binding`.
unfoldable pub requirements : Fields → Result (Unit {0})
requirements payload = do
  require (is_str (get "determinism_level" payload) "STRICT") "B1_DESCRIPTOR_INVALID_FIELD_TYPE"
  predicates ← checked_get "required_predicates" (get_or_empty "governance_requirements" payload)
  require (is_nonempty_list predicates) "B1_DESCRIPTOR_MISSING_GOVERNANCE_REQUIREMENT"
  validators ← checked_get "required_validators" (get_or_empty "validation_requirements" payload)
  require (is_nonempty_list validators) "B1_DESCRIPTOR_MISSING_REQUIRED_FIELD"
  fail_closed ← checked_get "fail_closed" (get "validation_requirements" payload)
  require (is_true fail_closed) "B1_DESCRIPTOR_MISSING_REQUIRED_FIELD"
  require (is_mapping (get "replay_binding" payload)) "B1_DESCRIPTOR_MISSING_REPLAY_BINDING"
  mode ← checked_get "mode" (get "replay_binding" payload)
  require (truthy mode) "B1_DESCRIPTOR_MISSING_REPLAY_BINDING"

-- What `_workspace_invalid` asks of the allowed roots: one relative root without `..`.
unfoldable pub is_single_root : Value → Bool
is_single_root (arr (cons (str root) nil)) = not (starts_with root "/") && not (has_infix root "..")
is_single_root _ = false

unfoldable pub boundary : Fields → Result (Unit {0})
boundary payload = do
  roots ← checked_get "allowed_roots" (get_or_empty "workspace_boundary" payload)
  mode ← checked_get "mode" (get_or_empty "workspace_boundary" payload)
  require (is_str mode "single_root" && is_single_root roots)
      "B1_DESCRIPTOR_AMBIGUOUS_WORKSPACE_BOUNDARY"
  require
      (not (is_str (get "action_type" payload) "write_text_artifact")
        || truthy (get "artifact_expectation" payload))
      "B1_DESCRIPTOR_UNDECLARED_ARTIFACT_OUTPUT"

-- `name in d.get(k, [])`
abbrev denies : String → String → Value → Result Bool
denies name k (obj d) = if has k d then is_member name (get k d) else ok false
denies name k _ = raise "AttributeError"

-- The tests that bind the grants to the actions.
unfoldable pub capabilities : Fields → Result (Unit {0})
capabilities payload = do
  grants ← checked_get "required_grants" (get_or_empty "authority_binding" payload)
  actions ← checked_get "allowed_actions" (get_or_empty "capability_boundary" payload)
  require
      (is_texts grants ("null_descriptor_scope" ∷ [])
        && is_texts actions ("write_text_artifact" ∷ []))
      "B1_DESCRIPTOR_AUTHORITY_CAPABILITY_MISMATCH"
  require (is_str (get "action_type" payload) "write_text_artifact")
      "B1_DESCRIPTOR_AUTHORITY_CAPABILITY_MISMATCH"
  grant_denied ←
      denies "null_descriptor_scope" "denied_grants" (get_or_empty "authority_binding" payload)
  require (not grant_denied) "B1_DESCRIPTOR_AUTHORITY_CAPABILITY_MISMATCH"
  action_denied ←
      denies "write_text_artifact" "denied_actions" (get_or_empty "capability_boundary" payload)
  require (not action_denied) "B1_DESCRIPTOR_AUTHORITY_CAPABILITY_MISMATCH"

module _ (h : Host) where
  -- `payload | {...}`
  unfoldable pub with_derived : Fields → Fields
  with_derived payload =
      let hash = canonical_hash h payload in
      set "descriptor_id" (str (descriptor_id h payload))
        (set "descriptor_hash" (str hash) (set "canonical_hash" (str hash) payload))

module _ (h : Host) (tools : TextTools) where
  unfoldable pub validate_descriptor : Value → Result Fields
  validate_descriptor (obj payload) = do
    presence payload
    validate_schema_shape payload
    requirements payload
    boundary payload
    capabilities payload
    claims tools payload
    ok (with_derived h payload)
  validate_descriptor _ = raise "B1_DESCRIPTOR_INVALID_FIELD_TYPE"
