-- ===== src/Authority/Verify.antt =====
-- runtime_lab/authority/verify.py: `verify_authority_packet`, with every test in its order.
pub mod Laws
use runtime_lab_core.Prelude.{
  String, Bool, true, false, ◌&&◌, ◌||◌, not, Option, none, some, List, [], ◌∷◌, dedupe, same_texts,
  Result, ok, raise, ◌>>=◌, if◌then◌else◌,
}
use runtime_lab_core.Json.{Value, null, str, arr, obj, Items, nil, cons, Fields, get, is_str}
use runtime_lab_core.Json.Access.{is_mapping, get_in, has_only, has_all}
use runtime_lab_core.Hash.{Host}
use runtime_lab_core.Descriptors.Validator.{TextTools}
use runtime_lab_core.Authority.Bindings.{
  task_id_of, payload_roots, packet_roots, payload_artifacts, packet_artifacts, same_artifacts,
  compute_descriptor_payload_hash, packet_hash, packet_id,
}

-- What `_accepted` and `_rejected` return.
pub record Verification : Type 0 where
  pub accepted : Bool
  pub rejection_codes : List String
  pub authority_packet_id : Value
  pub authority_packet_hash : Value

abbrev pub rejected : Fields → List String → Verification
rejected packet codes = record {
  accepted = false;
  rejection_codes = dedupe codes;
  authority_packet_id = get "packet_id" packet;
  authority_packet_hash = get "payload_hash" packet;
}

abbrev pub accepted_packet : Fields → Verification
accepted_packet packet = record {
  accepted = true;
  rejection_codes = [];
  authority_packet_id = get "packet_id" packet;
  authority_packet_hash = get "payload_hash" packet;
}

-- Of what is no mapping at all.
abbrev pub malformed : Verification
malformed = record {
  accepted = false;
  rejection_codes = "AUTHORITY_PACKET_MALFORMED" ∷ [];
  authority_packet_id = null;
  authority_packet_hash = null;
}

abbrev pub required_fields : List String
required_fields =
    "schema_version" ∷ "packet_id" ∷ "issuer" ∷ "subject" ∷ "task_binding" ∷ "governance_binding"
    ∷ "workspace_binding" ∷ "artifact_binding" ∷ "capability_grants" ∷ "payload_hash" ∷ []

-- `grant == ALLOWED_CAPABILITY`
unfoldable pub is_allowed_capability : Fields → Bool
is_allowed_capability grant =
    is_str (get "capability" grant) "admission.evaluate"
    && is_str (get "scope" grant) "descriptor_intake_only"
    && has_only ("capability" ∷ "scope" ∷ []) grant

-- `ALLOWED_CAPABILITY in normalized`
abbrev pub grants_allowed : Items → Bool
grants_allowed nil = false
grants_allowed (cons (obj grant) vs) = is_allowed_capability grant || grants_allowed vs
grants_allowed (cons _ vs) = grants_allowed vs

-- `not any(grant != ALLOWED_CAPABILITY for grant in normalized)`
abbrev pub grants_only_allowed : Items → Bool
grants_only_allowed nil = true
grants_only_allowed (cons (obj grant) vs) = is_allowed_capability grant && grants_only_allowed vs
grants_only_allowed (cons _ vs) = grants_only_allowed vs

-- `_capability_codes`
unfoldable pub capability_codes : Value → List String
capability_codes (arr grants) =
    if not (grants_allowed grants)
    then "AUTHORITY_PACKET_CAPABILITY_NOT_GRANTED" ∷ []
    else if not (grants_only_allowed grants)
    then "AUTHORITY_PACKET_CAPABILITY_ESCALATION" ∷ []
    else []
capability_codes _ = "AUTHORITY_PACKET_CAPABILITY_NOT_GRANTED" ∷ []

-- `value in (None, R114_CURRENT_EPOCH)`
abbrev pub is_current : Value → Bool
is_current null = true
is_current v = is_str v "r114-local-epoch"

-- The tests on the issuer, the subject, the epoch and the task binding.
unfoldable pub party_code : Fields → Option String
party_code packet =
    if not (is_mapping (get "issuer" packet) && is_mapping (get "subject" packet))
    then some "AUTHORITY_PACKET_MALFORMED"
    else if not (
        is_str (get_in "identity_id" (get "issuer" packet)) "governance:runtime_lab"
        && is_str (get_in "role" (get "issuer" packet)) "governance_authority")
    then some "AUTHORITY_PACKET_FORGED_IDENTITY"
    else if not (
        is_str (get_in "actor_id" (get "subject" packet)) "actor:local_runtime"
        && is_str (get_in "actor_type" (get "subject" packet)) "runtime_actor")
    then some "AUTHORITY_PACKET_FORGED_IDENTITY"
    else if not (is_current (get "not_before" packet))
    then some "AUTHORITY_PACKET_STALE_OR_NOT_YET_VALID"
    else if not (is_current (get "expires_at" packet))
    then some "AUTHORITY_PACKET_STALE_OR_NOT_YET_VALID"
    else if not (is_mapping (get "task_binding" packet))
    then some "AUTHORITY_PACKET_MALFORMED"
    else none

module _ (h : Host) where
  abbrev pub is_self_hashed : Fields → Bool
  is_self_hashed packet =
      is_str (get "payload_hash" packet) (packet_hash h packet)
      && is_str (get "packet_id" packet) (packet_id h packet)

  -- The tests up to the descriptor's hash, which is taken after them.
  unfoldable pub identity_code : Fields → Option String
  identity_code packet =
      if not (has_all required_fields packet)
      then some "AUTHORITY_PACKET_MALFORMED"
      else if not (is_self_hashed packet)
      then some "AUTHORITY_PACKET_HASH_MISMATCH"
      else party_code packet

-- The tests against the descriptor, whose hash is given.
unfoldable pub binding_codes : Fields → Fields → String → List String
binding_codes packet payload hash =
    if not (is_str (get_in "descriptor_hash" (get "task_binding" packet)) hash)
    then "AUTHORITY_PACKET_DESCRIPTOR_HASH_MISMATCH" ∷ []
    else if not (is_str (get_in "task_id" (get "task_binding" packet)) (task_id_of payload))
    then "AUTHORITY_PACKET_TASK_BINDING_MISMATCH" ∷ []
    else elim (capability_codes (get "capability_grants" packet)) [
      | code ∷ codes ↦ code ∷ codes
      | [] ↦
          if not (same_texts (packet_roots packet) (payload_roots payload))
          then "AUTHORITY_PACKET_WORKSPACE_SCOPE_MISMATCH" ∷ []
          else if not (same_artifacts (packet_artifacts packet) (payload_artifacts payload))
          then "AUTHORITY_PACKET_ARTIFACT_SCOPE_MISMATCH" ∷ []
          else []
    ]

abbrev pub verification : Fields → List String → Verification
verification packet [] = accepted_packet packet
verification packet (code ∷ codes) = rejected packet (code ∷ codes)

module _ (h : Host) where
  -- The whole verification, of a descriptor with the given hash.
  unfoldable pub verify_bound : Fields → Fields → String → Verification
  verify_bound packet payload hash = elim (identity_code h packet) [
    | some code ↦ rejected packet (code ∷ [])
    | none ↦ verification packet (binding_codes packet payload hash)
  ]

module _ (h : Host) (tools : TextTools) where
  unfoldable pub verify_authority_packet : Value → Fields → Result Verification
  verify_authority_packet (obj packet) payload = elim (identity_code h packet) [
    | some code ↦ ok (rejected packet (code ∷ []))
    | none ↦ do
      hash ← compute_descriptor_payload_hash h tools payload
      ok (verification packet (binding_codes packet payload hash))
  ]
  verify_authority_packet _ payload = ok malformed
