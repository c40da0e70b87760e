-- ===== src/Executor/Warrant.antt =====
-- What the checks of the executor show together.
use mathlib.Core.Path.{subst}
use runtime_lab_core.Prelude.{
  String, ◌≡◌, refl, sym, ◌∙◌, true, ◌&&◌, &&-eq-true, Option, none, some, is_empty, ok, >>=-eq-ok,
  then_check-pass, Bool-cases, inl, inr, arith,
}
use runtime_lab_core.Json.{str, obj, Fields, get, is_str, is_str-eq, is_text}
use runtime_lab_core.Json.Access.{get_in, text_or_empty, is_mapping, is_mapping-eq, is_text-eq}
use runtime_lab_core.Json.Equality.{same_value}
use runtime_lab_core.Hash.{Host}
use runtime_lab_core.Descriptors.Validator.{TextTools}
use runtime_lab_core.Authority.Bindings.{task_id_of, compute_descriptor_payload_hash}
use runtime_lab_core.Authority.Verify.{Verification, verify_authority_packet}
use runtime_lab_core.Authority.Verify.Laws.{
  IsAuthorised, verify_authority_packet-IsAuthorised, ok_injective,
}
use runtime_lab_core.Workspace.{verify_workspace_transaction_receipt}
use runtime_lab_core.ArtifactStore.Checks.{content_hash}
use runtime_lab_core.ArtifactStore.Store.{verify_artifact_receipt}
use runtime_lab_core.Executor.Paths.{output_path_error}
use runtime_lab_core.Executor.Checks.{
  fields_at, reject_with, packet_rejection, request_check, descriptor_check, packet_check,
  workspace_check, output_check, artifact_receipt_matches, artifact_check, content_check,
}
use runtime_lab_core.Executor.Within.{
  IsWithin, demand-true, demand-pass, output_path_error-IsWithin,
}

reject_with-none : (error : Option String) → reject_with error ≡ none → error ≡ none
reject_with-none none e = refl
reject_with-none (some code) e = absurd cc

-- The descriptor, its task and its authority.
pub record IsAuthorisedRequest (h : Host) (tools : TextTools) (request : Fields) : Type 0 where
  pub payload : Fields
  pub packet : Fields
  pub hash : String
  pub carries :
      (get "descriptor_payload" request ≡ obj payload)
      × (get "authority_packet" request ≡ obj packet)
  pub taken : compute_descriptor_payload_hash h tools payload ≡ ok hash
  pub described : get "descriptor_hash" request ≡ str hash
  pub tasked : get "task_id" request ≡ str (task_id_of payload)
  pub authorised : IsAuthorised h packet payload hash

-- The receipt of the workspace transaction is of the same task, descriptor and packet.
pub record IsTransaction (h : Host) (request transaction : Fields) : Type 0 where
  pub carried : get "workspace_transaction_receipt" request ≡ obj transaction
  pub verified : verify_workspace_transaction_receipt h (obj transaction) ≡ true
  pub same_task : same_value (get "task_id" request) (get "task_id" transaction) ≡ true
  pub same_descriptor :
      same_value (get "descriptor_hash" request) (get "descriptor_hash" transaction) ≡ true
  pub same_packet :
      same_value
        (get "authority_receipt_hash" transaction)
        (get_in "payload_hash" (get "authority_packet" request))
      ≡ true

-- The receipt of the artifact is of the content, the path and the two receipts.
pub record IsArtifact (h : Host) (request transaction artifact : Fields) : Type 0 where
  pub carried : get "artifact_receipt" request ≡ obj artifact
  pub verified : verify_artifact_receipt h (obj artifact) ≡ true
  pub matches : artifact_receipt_matches request artifact transaction ≡ true
  pub content_hashed :
      get "expected_content_hash" request
      ≡ str (content_hash h (text_or_empty (get "content" request)))

request_check-mapping :
    (request : Fields)
    → request_check request ≡ ok none
    → is_mapping (get "descriptor_payload" request) ≡ true
unfolding request_check
request_check-mapping request e =
    let (_, e1) = then_check-pass _ _ e in
    let (_, e2) = then_check-pass _ _ e1 in demand-true _ _ e2

packet_rejection-none :
    (outcome : Verification) → packet_rejection outcome ≡ none → outcome.accepted ≡ true
packet_rejection-none outcome e = elim (Bool-cases outcome.accepted) [
  | inl accepted ↦ accepted
  | inr refused ↦ elim (Bool-cases (is_empty outcome.rejection_codes)) [
    | inl silent ↦ absurd (ground (arith, rw (refused, silent) at e))
    | inr told ↦ absurd (ground (arith, rw (refused, told) at e))
  ]
]

module _ (h : Host) (tools : TextTools) (request : Fields) where
  pub checks-IsAuthorisedRequest :
      request_check request ≡ ok none
      → descriptor_check h tools request ≡ ok none
      → packet_check h tools request ≡ ok none
      → IsAuthorisedRequest h tools request
  unfolding descriptor_check packet_check
  checks-IsAuthorisedRequest e d p =
      let payload = fields_at "descriptor_payload" request in
      let packet = fields_at "authority_packet" request in
      let (hash, taken, d1) = >>=-eq-ok (compute_descriptor_payload_hash h tools payload) _ d in
      let (described, d2) = demand-pass (is_str (get "descriptor_hash" request) hash) _ _ d1 in
      let (tasked, d3) = demand-pass (is_str (get "task_id" request) (task_id_of payload)) _ _ d2 in
      let mapped = demand-true (is_mapping (get "authority_packet" request)) _ d3 in
      let (outcome, verified, p1) =
        >>=-eq-ok (verify_authority_packet h tools (obj packet) payload) _ p in
      let accepted = packet_rejection-none outcome (ok_injective _ none p1) in
      let (bound, bound_taken, authorised) =
        verify_authority_packet-IsAuthorised h tools packet payload outcome verified accepted in
      let same : bound ≡ hash = ok_injective bound hash (sym bound_taken ∙ taken) in
      record {
        payload = payload;
        packet = packet;
        hash = hash;
        carries = (
          is_mapping-eq (get "descriptor_payload" request) (request_check-mapping request e),
          is_mapping-eq (get "authority_packet" request) mapped,
        );
        taken = taken;
        described = is_str-eq (get "descriptor_hash" request) hash described;
        tasked = is_str-eq (get "task_id" request) (task_id_of payload) tasked;
        authorised = subst (IsAuthorised h packet payload) same authorised;
      }

  pub checks-IsTransaction :
      workspace_check h request ≡ ok none
      → IsTransaction h request (fields_at "workspace_transaction_receipt" request)
  unfolding workspace_check
  checks-IsTransaction e =
      let given = get "workspace_transaction_receipt" request in
      let (mapped, e1) = demand-pass (is_mapping given) _ _ e in
      let (verified, e2) = demand-pass (verify_workspace_transaction_receipt h given) _ _ e1 in
      let (task, e3) =
        demand-pass (same_value (get "task_id" request) (get_in "task_id" given)) _ _ e2 in
      let (descriptor, e4) =
        demand-pass (same_value (get "descriptor_hash" request) (get_in "descriptor_hash" given)) _
          _ e3 in
      let packet = demand-true _ _ e4 in
      let carried = is_mapping-eq given mapped in
      record {
        carried = carried;
        verified = rw (sym carried) verified;
        same_task =
            subst (λ v. same_value (get "task_id" request) (get_in "task_id" v) ≡ true) carried
              task;
        same_descriptor =
            subst
              (λ v. same_value (get "descriptor_hash" request) (get_in "descriptor_hash" v) ≡ true)
              carried descriptor;
        same_packet =
            subst
              (λ v.
                same_value (get_in "authority_receipt_hash" v)
                  (get_in "payload_hash" (get "authority_packet" request))
                ≡ true)
              carried packet;
      }

  pub checks-IsArtifact :
      artifact_check h request ≡ ok none
      → content_check h request ≡ ok none
      → IsArtifact h request
          (fields_at "workspace_transaction_receipt" request)
          (fields_at "artifact_receipt" request)
  unfolding artifact_check content_check
  checks-IsArtifact e c =
      let given = get "artifact_receipt" request in
      let (mapped, e1) = demand-pass (is_mapping given) _ _ e in
      let (verified, e2) = demand-pass (verify_artifact_receipt h given) _ _ e1 in
      let matched = demand-true _ _ e2 in
      let carried = is_mapping-eq given mapped in
      let hash = content_hash h (text_or_empty (get "content" request)) in
      let both = demand-true _ _ c in
      record {
        carried = carried;
        verified = subst (λ v. verify_artifact_receipt h v ≡ true) carried verified;
        matches = matched;
        content_hashed =
            is_str-eq (get "expected_content_hash" request) hash
              (&&-eq-true (is_text (get "expected_content_hash" request))
                (is_str (get "expected_content_hash" request) hash) both).1;
      }

  -- The path and the content are texts, and the path is one that the receipt lets the executor write.
  pub checks-IsWithin :
      output_check request ≡ ok none
      → (output content : String) × (get "output_path" request ≡ str output)
        × (get "content" request ≡ str content)
        × IsWithin output (fields_at "workspace_transaction_receipt" request)
  unfolding output_check
  checks-IsWithin e =
      let at = get "output_path" request in
      let has = get "content" request in
      let (texts, e1) =
        demand-pass (is_text at && is_text has && is_text (get "workspace_root" request)) _ _ e in
      let (error, found, e2) =
        >>=-eq-ok
          (output_path_error (text_or_empty at) (fields_at "workspace_transaction_receipt" request))
          _ e1 in
      let clear = reject_with-none error (ok_injective _ none e2) in
      (
        text_or_empty at,
        text_or_empty has,
        is_text-eq at (ground (arith, texts)),
        is_text-eq has (ground (arith, texts)),
        output_path_error-IsWithin (text_or_empty at)
            (fields_at "workspace_transaction_receipt" request)
            (subst
              (λ x.
                output_path_error (text_or_empty at)
                  (fields_at "workspace_transaction_receipt" request)
                ≡ ok x)
              clear found),
      )
