-- ===== src/Authority/Packet/Laws.antt =====
-- A packet that is built for a descriptor verifies for it.
use mathlib.Core.Bool.{false≢true}
use mathlib.Core.Path.{subst}
use runtime_lab_core.Prelude.{
  String, ◌≡◌, ◌≢◌, refl, ◌∙◌, ap, true, none, List, [], ◌∷◌, ok, >>=-eq-ok, ◌==◌, ==_iff, ==_refl,
  arith, same_texts_refl, sorted,
}
use runtime_lab_core.Json.{
  str, obj, Fields, get, pop, set, has, strings, get-set, pop-set, pop-set_ne,
}
use runtime_lab_core.Json.Access.{get_in, texts_of, has_all, has_only}
use runtime_lab_core.Hash.{Host, canonical_hash}
use runtime_lab_core.Descriptors.Validator.{TextTools}
use runtime_lab_core.Authority.Bindings.{
  Artifact, artifacts_of, artifact_items, task_id_of, workspace_roots, payload_roots, packet_roots,
  payload_artifacts, packet_artifacts, same_artifacts, compute_descriptor_payload_hash, packet_hash,
  packet_hash_payload, packet_id,
}
use runtime_lab_core.Authority.Verify.{
  accepted_packet, capability_codes, is_allowed_capability, party_code, required_fields,
  is_self_hashed, identity_code, binding_codes, verify_authority_packet,
}
use runtime_lab_core.Authority.Verify.Laws.{ok_injective}
use runtime_lab_core.Authority.Packet.{
  default_options, objects, all_artifact_fields, artifact_expectations, packet_body,
  complete_packet_hash, build_authority_packet,
}

texts_of-strings : (ss : List String) → texts_of (strings ss) ≡ ss
texts_of-strings [] = refl
texts_of-strings (s ∷ ss) = ap (◌∷◌ s) (texts_of-strings ss)

artifact_items-objects :
    (xs : List Artifact) → artifact_items (objects (all_artifact_fields xs)) ≡ xs
unfolding get ◌==◌
artifact_items-objects [] = refl
artifact_items-objects (a ∷ xs) = ap (◌∷◌ a) (artifact_items-objects xs)

same_artifacts_refl : (xs : List Artifact) → same_artifacts xs xs ≡ true
same_artifacts_refl [] = refl
same_artifacts_refl ((c, p) ∷ xs) = ground (arith, ==_refl c, ==_refl p, same_artifacts_refl xs)

binding-pass :
    (packet payload : Fields) (hash : String)
    → get_in "descriptor_hash" (get "task_binding" packet) ≡ str hash
    → get_in "task_id" (get "task_binding" packet) ≡ str (task_id_of payload)
    → capability_codes (get "capability_grants" packet) ≡ []
    → packet_roots packet ≡ payload_roots payload
    → packet_artifacts packet ≡ payload_artifacts payload
    → binding_codes packet payload hash ≡ []
unfolding binding_codes
binding-pass packet payload hash described tasked capable roots artifacts =
    rw
      (
        described,
        tasked,
        capable,
        roots,
        artifacts,
        ==_refl hash,
        ==_refl (task_id_of payload),
        same_texts_refl (payload_roots payload),
        same_artifacts_refl (payload_artifacts payload),
      )
      refl

verify-pass :
    (h : Host) (tools : TextTools) (packet payload : Fields) (hash : String)
    → compute_descriptor_payload_hash h tools payload ≡ ok hash
    → identity_code h packet ≡ none
    → binding_codes packet payload hash ≡ []
    → verify_authority_packet h tools (obj packet) payload ≡ ok (accepted_packet packet)
unfolding verify_authority_packet
verify-pass h tools packet payload hash taken identity binding =
    rw (identity, taken, binding, verify_authority_packet) refl

module _ (h : Host) where
  keys_differ : ◌≢◌ {A = String} "packet_id" "payload_hash"
  unfolding ◌==◌
  keys_differ e = false≢true ((==_iff "packet_id" "payload_hash").1 e)

  payload_complete :
      (packet : Fields)
      → packet_hash_payload (complete_packet_hash h packet) ≡ packet_hash_payload packet
  unfolding packet_hash_payload complete_packet_hash
  payload_complete packet =
      let hash = str (packet_hash h packet) in
      let id = str (packet_id h packet) in
      ap (pop "payload_hash")
        (pop-set_ne "packet_id" "payload_hash" hash (set "packet_id" id packet) keys_differ)
      ∙ pop-set "payload_hash" hash (pop "packet_id" (set "packet_id" id packet))
      ∙ ap (pop "payload_hash") (pop-set "packet_id" id packet)

  -- The hash of a completed packet is the one that it stores.
  hash_complete :
      (packet : Fields) → packet_hash h (complete_packet_hash h packet) ≡ packet_hash h packet
  hash_complete packet = ap (λ d. canonical_hash h (obj d)) (payload_complete packet)

  get-complete_hash :
      (packet : Fields)
      → get "payload_hash" (complete_packet_hash h packet) ≡ str (packet_hash h packet)
  unfolding complete_packet_hash ◌==◌
  get-complete_hash packet =
      get-set "payload_hash" "payload_hash" (str (packet_hash h packet))
        (set "packet_id" (str (packet_id h packet)) packet)

  get-complete_id :
      (packet : Fields) → get "packet_id" (complete_packet_hash h packet) ≡ str (packet_id h packet)
  unfolding complete_packet_hash ◌==◌
  get-complete_id packet =
      get-set "packet_id" "payload_hash" (str (packet_hash h packet))
        (set "packet_id" (str (packet_id h packet)) packet)
      ∙ get-set "packet_id" "packet_id" (str (packet_id h packet)) packet

  -- The completed packet stores its hash and the id that is made of it.
  sealed_complete : (packet : Fields) → is_self_hashed h (complete_packet_hash h packet) ≡ true
  sealed_complete packet =
      rw (get-complete_hash packet, get-complete_id packet, hash_complete packet)
        (ground (arith, ==_refl (packet_hash h packet), ==_refl (packet_id h packet)))

  party-built :
      (payload : Fields) (hash : String)
      → party_code (complete_packet_hash h (packet_body payload default_options hash)) ≡ none
  unfolding party_code complete_packet_hash packet_body get set ◌==◌
  party-built payload hash = refl

  all-built :
      (payload : Fields) (hash : String)
      → has_all required_fields (complete_packet_hash h (packet_body payload default_options hash))
        ≡ true
  unfolding complete_packet_hash packet_body has set ◌==◌
  all-built payload hash = refl

  identity-built :
      (payload : Fields) (hash : String)
      → identity_code h (complete_packet_hash h (packet_body payload default_options hash)) ≡ none
  unfolding identity_code
  identity-built payload hash =
      rw (all-built payload hash, sealed_complete (packet_body payload default_options hash))
        (party-built payload hash)

  roots-built :
      (payload : Fields) (hash : String)
      → packet_roots (complete_packet_hash h (packet_body payload default_options hash))
        ≡ payload_roots payload
  unfolding packet_roots payload_roots complete_packet_hash packet_body get set ◌==◌
  roots-built payload hash = ap sorted (texts_of-strings (workspace_roots payload))

  artifacts-built :
      (payload : Fields) (hash : String)
      → packet_artifacts (complete_packet_hash h (packet_body payload default_options hash))
        ≡ payload_artifacts payload
  unfolding packet_artifacts payload_artifacts artifact_expectations complete_packet_hash
      packet_body get set ◌==◌
  artifacts-built payload hash =
      rw (artifact_items-objects (artifacts_of (get "artifact_expectation" payload))) refl

  -- What the binding asks for beside the roots and the artifacts.
  tasks-built :
      (payload : Fields) (hash : String)
      → let packet = complete_packet_hash h (packet_body payload default_options hash) in
        (get_in "descriptor_hash" (get "task_binding" packet) ≡ str hash)
        × (get_in "task_id" (get "task_binding" packet) ≡ str (task_id_of payload))
        × (capability_codes (get "capability_grants" packet) ≡ [])
  unfolding complete_packet_hash packet_body capability_codes is_allowed_capability has_only get set
      ◌==◌
  tasks-built payload hash = (refl, refl, refl)

  binding-built :
      (payload : Fields) (hash : String)
      → binding_codes
          (complete_packet_hash h (packet_body payload default_options hash))
          payload
          hash
        ≡ []
  binding-built payload hash =
      let (described, tasked, capable) = tasks-built payload hash in
      binding-pass (complete_packet_hash h (packet_body payload default_options hash)) payload hash
        described tasked capable (roots-built payload hash) (artifacts-built payload hash)

module _ (h : Host) (tools : TextTools) where
  -- The packet that is built for a descriptor, with the default arguments, is accepted for it.
  pub build_authority_packet-verify :
      (payload packet : Fields)
      → build_authority_packet h tools payload default_options ≡ ok packet
      → verify_authority_packet h tools (obj packet) payload ≡ ok (accepted_packet packet)
  unfolding build_authority_packet
  build_authority_packet-verify payload packet e =
      let (hash, taken, made) = >>=-eq-ok (compute_descriptor_payload_hash h tools payload) _ e in
      let built = complete_packet_hash h (packet_body payload default_options hash) in
      let same : built ≡ packet = ok_injective built packet made in
      subst (λ p. verify_authority_packet h tools (obj p) payload ≡ ok (accepted_packet p)) same
        (verify-pass h tools built payload hash taken (identity-built h payload hash)
          (binding-built h payload hash))
