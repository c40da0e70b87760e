-- ===== src/ArtifactStore/Laws.antt =====
-- What a stored artifact has shown, and its receipt.
use mathlib.Core.Bool.{false≢true}
use runtime_lab_core.Prelude.{
  ℕ, String, ◌≡◌, refl, sym, ◌∙◌, ap, true, false, Option, none, some, Option-cases, inl, inr, [],
  ◌∷◌, ◌==◌,
}
use runtime_lab_core.Json.{Value, str, obj, Fields, get, set}
use runtime_lab_core.Json.Access.{text_or_empty}
use runtime_lab_core.Hash.{Host}
use runtime_lab_core.Hash.Seal.{seal, seal-is_sealed}
use runtime_lab_core.ArtifactStore.Policy.{StorePolicy, validate_policy}
use runtime_lab_core.ArtifactStore.Checks.{byte_length, content_hash, request_code}
use runtime_lab_core.ArtifactStore.Store.{
  StoreResult, receipt_body, accepted_receipt, verify_artifact_receipt, store_tested,
  store_artifact,
}
use runtime_lab_core.ArtifactStore.Storable.{IsStorable, request_code-IsStorable}

-- What a receipt repeats of the request that it is given for.
pub record Repeats (request receipt : Fields) : Type 0 where
  pub name_kept : get "artifact_name" receipt ≡ get "artifact_name" request
  pub kind_kept : get "artifact_type" receipt ≡ get "artifact_type" request
  pub media_kept : get "media_type" receipt ≡ get "media_type" request
  pub task_kept : get "task_id" receipt ≡ get "task_id" request
  pub descriptor_kept : get "descriptor_hash" receipt ≡ get "descriptor_hash" request
  pub authority_kept : get "authority_receipt_hash" receipt ≡ get "authority_receipt_hash" request
  pub transaction_kept :
      get "workspace_transaction_receipt_hash" receipt
      ≡ get "workspace_transaction_receipt_hash" request
  pub content_kept : get "content_hash" receipt ≡ get "expected_content_hash" request

accepted_receipt-Repeats :
    (h : Host) (request : Fields) (policy : StorePolicy) (hash : String) (size : ℕ)
    → get "expected_content_hash" request ≡ str hash
    → Repeats request (accepted_receipt h request policy hash size)
unfolding accepted_receipt seal receipt_body get set ◌==◌
accepted_receipt-Repeats h request policy hash size expected = record {
  name_kept = refl;
  kind_kept = refl;
  media_kept = refl;
  task_kept = refl;
  descriptor_kept = refl;
  authority_kept = refl;
  transaction_kept = refl;
  content_kept = sym expected;
}

-- What a result that may hand over a receipt has to do with the request.
pub IsBacked : (h : Host) (request : Fields) (policy : StorePolicy) (outcome : StoreResult) → Type 0
IsBacked h request policy outcome =
    IsStorable h request policy
    × ((receipt : Fields) × (outcome.receipt ≡ some receipt)
        × (verify_artifact_receipt h (obj receipt) ≡ true)
        × Repeats request receipt)

module _ (h : Host) where
  accepted_receipt-verify :
      (request : Fields) (policy : StorePolicy) (hash : String) (size : ℕ)
      → verify_artifact_receipt h (obj (accepted_receipt h request policy hash size)) ≡ true
  unfolding verify_artifact_receipt accepted_receipt
  accepted_receipt-verify request policy hash size =
      (seal-is_sealed h "receipt_hash" (receipt_body h request policy hash size)).0

  store_tested-accepted :
      (request : Fields) (policy : StorePolicy) (verdict : Option String)
      → verdict ≡ request_code h request policy
      → (store_tested h request policy verdict).accepted ≡ true
      → IsBacked h request policy (store_tested h request policy verdict)
  unfolding store_tested IsBacked
  store_tested-accepted request policy (some code) e accepted = absurd cc
  store_tested-accepted request policy none e accepted =
      let shown = request_code-IsStorable h request policy (sym e) in
      let content = text_or_empty (get "content" request) in
      let hash = content_hash h content in
      let expected =
        shown.expected ∙ ap (λ v. str (content_hash h (text_or_empty v))) (sym shown.given) in
      (
        shown,
        (
          accepted_receipt h request policy hash (byte_length content),
          refl,
          accepted_receipt-verify request policy hash (byte_length content),
          accepted_receipt-Repeats h request policy hash (byte_length content) expected,
        ),
      )

  -- An artifact is stored only under a valid policy whose bindings the request repeats, with a relative name without
  -- `..`, an allowed type and media type, and a content within the limit that has the expected hash; the receipt verifies
  -- and repeats the name, the types, the bindings and the hash of the request.
  pub store_artifact-IsBacked :
      (request : Fields) (policy : Value)
      → (store_artifact h (obj request) policy).accepted ≡ true
      → (valid : StorePolicy) × (validate_policy policy ≡ some valid)
        × IsBacked h request valid (store_artifact h (obj request) policy)
  unfolding store_artifact
  store_artifact-IsBacked request policy accepted = elim (Option-cases (validate_policy policy)) [
    | inl invalid ↦ absurd (false≢true (rw (invalid, store_artifact) at accepted))
    | inr (valid, parsed) ↦ (
      valid,
      parsed,
      rw (parsed, store_artifact)
          (store_tested-accepted request valid (request_code h request valid) refl
            (rw (parsed, store_artifact) at accepted)),
    )
  ]

  -- A rejected request is told one code and is given no receipt.
  pub store_artifact-reject :
      (request policy : Value)
      → (store_artifact h request policy).accepted ≡ false
      → ((store_artifact h request policy).receipt ≡ none)
        × ((code : String) × ((store_artifact h request policy).rejection_codes ≡ code ∷ []))
  unfolding store_artifact store_tested
  store_artifact-reject (obj request) policy e = elim (Option-cases (validate_policy policy)) [
    | inl invalid ↦ rw (invalid, store_artifact) (refl, ("ARTIFACT_POLICY_MALFORMED", refl))
    | inr (valid, parsed) ↦ elim (Option-cases (request_code h request valid)) [
      | inl passed ↦ absurd (false≢true (sym (rw (parsed, passed, store_artifact) at e)))
      | inr (code, failed) ↦ rw (parsed, failed, store_artifact) (refl, (code, refl))
    ]
  ]
  store_artifact-reject _ policy e = (refl, ("ARTIFACT_REQUEST_MALFORMED", refl))
