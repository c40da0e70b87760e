-- ===== src/Authority/Verify/Laws.antt =====
-- What an accepted packet has shown.
use mathlib.Core.Bool.{false≢true}
use runtime_lab_core.Prelude.{
  String, ◌≡◌, refl, ◌∙◌, ap, ◌⊎◌, inl, inr, true, none, Option-cases, List, [], ◌∷◌, ok, >>=-eq-ok,
  ==_iff, arith, same_texts, same_texts-eq,
}
use runtime_lab_core.Json.{Value, str, arr, obj, Items, Fields, get, is_str, is_str-eq}
use runtime_lab_core.Json.Access.{get_in}
use runtime_lab_core.Hash.{Host}
use runtime_lab_core.Descriptors.Validator.{TextTools}
use runtime_lab_core.Authority.Bindings.{
  Artifact, task_id_of, payload_roots, packet_roots, payload_artifacts, packet_artifacts,
  same_artifacts, compute_descriptor_payload_hash, packet_hash, packet_id,
}
use runtime_lab_core.Authority.Verify.{
  Verification, rejected, verification, grants_allowed, grants_only_allowed, capability_codes,
  is_current, party_code, identity_code, binding_codes, verify_bound, verify_authority_packet,
}

same_artifacts-eq : (xs ys : List Artifact) → same_artifacts xs ys ≡ true → xs ≡ ys
same_artifacts-eq [] [] e = refl
same_artifacts-eq ((c, p) ∷ xs) ((d, q) ∷ ys) e =
    ground (arith, e, ==_iff c d, ==_iff p q, same_artifacts-eq xs ys)
same_artifacts-eq [] (y ∷ ys) e = absurd cc
same_artifacts-eq (x ∷ xs) [] e = absurd cc

capability_codes-granted :
    (v : Value)
    → capability_codes v ≡ []
    → (grants : Items) × (v ≡ arr grants)
      × (grants_allowed grants ≡ true)
      × (grants_only_allowed grants ≡ true)
unfolding capability_codes
capability_codes-granted (arr grants) e = (grants, refl, ground (arith, e), ground (arith, e))
capability_codes-granted _ e = absurd cc

-- What an accepted packet binds together: its own hash and id, its issuer and its subject, the epoch, the descriptor's
-- hash and task, the one capability, and the roots and the artifacts of the descriptor.
pub record IsAuthorised (h : Host) (packet payload : Fields) (hash : String) : Type 0 where
  pub sealed : get "payload_hash" packet ≡ str (packet_hash h packet)
  pub named : get "packet_id" packet ≡ str (packet_id h packet)
  pub issued :
      (get_in "identity_id" (get "issuer" packet) ≡ str "governance:runtime_lab")
      × (get_in "role" (get "issuer" packet) ≡ str "governance_authority")
  pub addressed :
      (get_in "actor_id" (get "subject" packet) ≡ str "actor:local_runtime")
      × (get_in "actor_type" (get "subject" packet) ≡ str "runtime_actor")
  pub current :
      (is_current (get "not_before" packet) ≡ true) × (is_current (get "expires_at" packet) ≡ true)
  pub describes : get_in "descriptor_hash" (get "task_binding" packet) ≡ str hash
  pub tasked : get_in "task_id" (get "task_binding" packet) ≡ str (task_id_of payload)
  pub grants : Items
  pub granting : get "capability_grants" packet ≡ arr grants
  pub granted : grants_allowed grants ≡ true
  pub granted_only : grants_only_allowed grants ≡ true
  pub roots_agree : packet_roots packet ≡ payload_roots payload
  pub artifacts_agree : packet_artifacts packet ≡ payload_artifacts payload

identity_code-passed :
    (h : Host) (packet : Fields)
    → identity_code h packet ≡ none
    → (is_str (get "payload_hash" packet) (packet_hash h packet) ≡ true)
      × (is_str (get "packet_id" packet) (packet_id h packet) ≡ true)
      × (is_str (get_in "identity_id" (get "issuer" packet)) "governance:runtime_lab" ≡ true)
      × (is_str (get_in "role" (get "issuer" packet)) "governance_authority" ≡ true)
      × (is_str (get_in "actor_id" (get "subject" packet)) "actor:local_runtime" ≡ true)
      × (is_str (get_in "actor_type" (get "subject" packet)) "runtime_actor" ≡ true)
      × (is_current (get "not_before" packet) ≡ true)
      × (is_current (get "expires_at" packet) ≡ true)
unfolding identity_code party_code
identity_code-passed h packet e = ground (arith, e)

binding_codes-passed :
    (packet payload : Fields) (hash : String)
    → binding_codes packet payload hash ≡ []
    → (is_str (get_in "descriptor_hash" (get "task_binding" packet)) hash ≡ true)
      × (is_str (get_in "task_id" (get "task_binding" packet)) (task_id_of payload) ≡ true)
      × (capability_codes (get "capability_grants" packet) ≡ [])
      × (same_texts (packet_roots packet) (payload_roots payload) ≡ true)
      × (same_artifacts (packet_artifacts packet) (payload_artifacts payload) ≡ true)
unfolding binding_codes
binding_codes-passed packet payload hash e = ground (arith, e)

pub codes-IsAuthorised :
    (h : Host) (packet payload : Fields) (hash : String)
    → identity_code h packet ≡ none
    → binding_codes packet payload hash ≡ []
    → IsAuthorised h packet payload hash
codes-IsAuthorised h packet payload hash e f =
    let (sealed, named, by, role, to, kind, from, until) = identity_code-passed h packet e in
    let (described, tasked, capable, roots, artifacts) =
      binding_codes-passed packet payload hash f in
    let (grants, granting, granted, only) =
      capability_codes-granted (get "capability_grants" packet) capable in
    record {
      sealed = is_str-eq (get "payload_hash" packet) (packet_hash h packet) sealed;
      named = is_str-eq (get "packet_id" packet) (packet_id h packet) named;
      issued = (
        is_str-eq (get_in "identity_id" (get "issuer" packet)) _ by,
        is_str-eq (get_in "role" (get "issuer" packet)) _ role,
      );
      addressed = (
        is_str-eq (get_in "actor_id" (get "subject" packet)) _ to,
        is_str-eq (get_in "actor_type" (get "subject" packet)) _ kind,
      );
      current = (from, until);
      describes = is_str-eq (get_in "descriptor_hash" (get "task_binding" packet)) hash described;
      tasked = is_str-eq (get_in "task_id" (get "task_binding" packet)) (task_id_of payload) tasked;
      grants = grants;
      granting = granting;
      granted = granted;
      granted_only = only;
      roots_agree = same_texts-eq (packet_roots packet) (payload_roots payload) roots;
      artifacts_agree =
          same_artifacts-eq (packet_artifacts packet) (payload_artifacts payload) artifacts;
    }

verification-accepted :
    (packet : Fields) (verdict : List String)
    → (verification packet verdict).accepted ≡ true
    → verdict ≡ []
verification-accepted packet [] e = refl
verification-accepted packet (code ∷ codes) e = absurd cc

pub ok_injective : {A : Type 0} (a b : A) → ok a ≡ ok b → a ≡ b
ok_injective a b e = cc

pub verify_bound-IsAuthorised :
    (h : Host) (packet payload : Fields) (hash : String)
    → (verify_bound h packet payload hash).accepted ≡ true
    → IsAuthorised h packet payload hash
unfolding verify_bound
verify_bound-IsAuthorised h packet payload hash e = elim (Option-cases (identity_code h packet)) [
  | inl passed ↦ codes-IsAuthorised h packet payload hash passed (
      verification-accepted packet (binding_codes packet payload hash)
        (rw (passed, verify_bound) at e))
  | inr (code, failed) ↦ absurd (false≢true (rw (failed, verify_bound) at e))
]

module _ (h : Host) (tools : TextTools) where
  -- The three ways in which a verification returns.
  verify_authority_packet-cases :
      (packet payload : Fields) (outcome : Verification)
      → verify_authority_packet h tools (obj packet) payload ≡ ok outcome
      → ((code : String) × (rejected packet (code ∷ []) ≡ outcome))
        ⊎ ((hash : String) × (identity_code h packet ≡ none)
            × (compute_descriptor_payload_hash h tools payload ≡ ok hash)
            × (verification packet (binding_codes packet payload hash) ≡ outcome))
  unfolding verify_authority_packet
  verify_authority_packet-cases packet payload outcome e =
      elim (Option-cases (identity_code h packet)) [
        | inl passed ↦
            let (hash, taken, made) =
              >>=-eq-ok (compute_descriptor_payload_hash h tools payload) _
                (rw (passed, verify_authority_packet) at e) in
            inr (hash, passed, taken, ok_injective _ outcome made)
        | inr (code, failed) ↦
            inl (code, ok_injective _ outcome (rw (failed, verify_authority_packet) at e))
      ]

  -- A packet that is accepted for a descriptor binds the hash that the validated descriptor has.
  pub verify_authority_packet-IsAuthorised :
      (packet payload : Fields) (outcome : Verification)
      → verify_authority_packet h tools (obj packet) payload ≡ ok outcome
      → outcome.accepted ≡ true
      → (hash : String) × (compute_descriptor_payload_hash h tools payload ≡ ok hash)
        × IsAuthorised h packet payload hash
  verify_authority_packet-IsAuthorised packet payload outcome e accepted =
      elim (verify_authority_packet-cases packet payload outcome e) [
        | inl (code, made) ↦
            absurd (false≢true (ap (λ (o : Verification). o.accepted) made ∙ accepted))
        | inr (hash, passed, taken, made) ↦
            let free = ap (λ (o : Verification). o.accepted) made ∙ accepted in
            (
              hash,
              taken,
              codes-IsAuthorised h packet payload hash passed
                  (verification-accepted packet (binding_codes packet payload hash) free),
            )
      ]
