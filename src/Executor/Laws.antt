-- ===== src/Executor/Laws.antt =====
-- When the executor writes, and what it then hands over.
use mathlib.Core.Bool.{false≢true}
use mathlib.Core.Path.{subst}
use runtime_lab_core.Prelude.{
  String, ◌≡◌, refl, sym, ◌∙◌, ap, true, false, Option, none, some, List, [], ◌∷◌, ok, >>=-eq-ok,
  then_check-pass, ◌==◌,
}
use runtime_lab_core.Json.{Value, str, obj, Fields, get, set}
use runtime_lab_core.Json.Access.{get_in, text_or_empty}
use runtime_lab_core.PosixPath
use runtime_lab_core.Hash.{Host}
use runtime_lab_core.Hash.Seal.{seal, seal-is_sealed}
use runtime_lab_core.Descriptors.Validator.{TextTools}
use runtime_lab_core.Authority.Verify.Laws.{ok_injective}
use runtime_lab_core.Executor.Checks.{
  fields_at, request_check, descriptor_check, packet_check, workspace_check, output_check,
  artifact_check, content_check, target_of, place_check, checks,
}
use runtime_lab_core.Executor.Within.{IsWithin, demand-true}
use runtime_lab_core.Executor.Warrant.{
  IsAuthorisedRequest, IsTransaction, IsArtifact, checks-IsAuthorisedRequest, checks-IsTransaction,
  checks-IsArtifact, checks-IsWithin,
}
use runtime_lab_core.Executor.Run.{
  make_parents, write_text, ExecutionResult, receipt_body, executor_receipt,
  verify_executor_receipt, finish, reject, execute_write_text_artifact,
}

finish-accepted :
    (h : Host) (request : Fields) (verdict : Option (List String))
    → (finish h request verdict).accepted ≡ true
    → verdict ≡ none
finish-accepted h request none e = refl
finish-accepted h request (some codes) e = absurd cc

rejected-idle :
    (codes : List String) (outcome : ExecutionResult)
    → reject codes ≡ outcome
    → (outcome.effects ≡ []) × (outcome.receipt ≡ none)
rejected-idle codes outcome made = (
  sym (ap (λ (o : ExecutionResult). o.effects) made),
  sym (ap (λ (o : ExecutionResult). o.receipt) made),
)

finish-rejected :
    (h : Host) (request : Fields) (verdict : Option (List String)) (outcome : ExecutionResult)
    → finish h request verdict ≡ outcome
    → outcome.accepted ≡ false
    → (outcome.effects ≡ []) × (outcome.receipt ≡ none)
finish-rejected h request (some codes) outcome made refused = rejected-idle codes outcome made
finish-rejected h request none outcome made refused =
    absurd (false≢true (sym (ap (λ (o : ExecutionResult). o.accepted) made ∙ refused)))

module _ (h : Host) (tools : TextTools) (resolve : String → String) where
  -- All that a write rests on.
  pub record IsWarranted (request : Fields) : Type 0 where
    pub authorised : IsAuthorisedRequest h tools request
    pub transaction : Fields
    pub transacted : IsTransaction h request transaction
    pub output : String
    pub output_given : get "output_path" request ≡ str output
    pub content : String
    pub content_given : get "content" request ≡ str content
    pub within : IsWithin output transaction
    pub artifact : Fields
    pub stored : IsArtifact h request transaction artifact
    pub placed :
        PosixPath.is_relative_to
          (resolve (target_of request))
          (resolve (text_or_empty (get "workspace_root" request)))
        ≡ true

  checks-IsWarranted :
      (request : Fields) → checks h tools resolve request ≡ ok none → IsWarranted request
  unfolding checks place_check
  checks-IsWarranted request e =
      let (c1, e1) = then_check-pass (request_check request) _ e in
      let (c2, e2) = then_check-pass (descriptor_check h tools request) _ e1 in
      let (c3, e3) = then_check-pass (packet_check h tools request) _ e2 in
      let (c4, e4) = then_check-pass (workspace_check h request) _ e3 in
      let (c5, e5) = then_check-pass (output_check request) _ e4 in
      let (c6, e6) = then_check-pass (artifact_check h request) _ e5 in
      let (c7, e7) = then_check-pass (content_check h request) _ e6 in
      let (output, content, at, has, within) = checks-IsWithin h tools request c5 in
      record {
        authorised = checks-IsAuthorisedRequest h tools request c1 c2 c3;
        transaction = fields_at "workspace_transaction_receipt" request;
        transacted = checks-IsTransaction h tools request c4;
        output = output;
        output_given = at;
        content = content;
        content_given = has;
        within = within;
        artifact = fields_at "artifact_receipt" request;
        stored = checks-IsArtifact h tools request c6 c7;
        placed = demand-true _ _ e7;
      }

  -- The writes of an accepted request, and its receipt.
  unfoldable pub IsExecuted :
      (request : Fields) (content : String) (outcome : ExecutionResult) → Type 0
  IsExecuted request content outcome =
      (outcome.effects
        ≡ make_parents (target_of request) ∷ write_text (target_of request) content ∷ [])
      × ((receipt : Fields) × (outcome.receipt ≡ some receipt)
          × (verify_executor_receipt h (obj receipt) ≡ true)
          × (get "output_path" receipt ≡ get "output_path" request)
          × (get "descriptor_hash" receipt ≡ get "descriptor_hash" request)
          × (get "content_hash" receipt ≡ get "expected_content_hash" request)
          × (get "workspace_transaction_receipt_hash" receipt
              ≡ get_in "transaction_hash" (get "workspace_transaction_receipt" request))
          × (get "artifact_receipt_hash" receipt
              ≡ get_in "receipt_hash" (get "artifact_receipt" request)))

  executor_receipt-verify :
      (request : Fields) → verify_executor_receipt h (obj (executor_receipt h request)) ≡ true
  unfolding verify_executor_receipt executor_receipt
  executor_receipt-verify request = (seal-is_sealed h "receipt_hash" (receipt_body request)).0

  finish-IsExecuted :
      (request : Fields)
      → IsExecuted request (text_or_empty (get "content" request)) (finish h request none)
  unfolding IsExecuted executor_receipt seal receipt_body get set ◌==◌
  finish-IsExecuted request = (
    refl,
    (
      executor_receipt h request,
      refl,
      executor_receipt-verify request,
      refl,
      refl,
      refl,
      refl,
      refl,
    ),
  )

  -- The executor writes only what is warranted: the packet is authorised for the valid descriptor, both receipts verify
  -- and agree with the request and with each other, the path is granted and lies below the root after links are
  -- followed, and the content has the hash that the artifact was stored under. It then writes that content to that path,
  -- once, and hands over a receipt that verifies and names the descriptor, the path, the hash and both receipts.
  pub execute_write_text_artifact-IsWarranted :
      (request : Fields) (outcome : ExecutionResult)
      → execute_write_text_artifact h tools resolve (obj request) ≡ ok outcome
      → outcome.accepted ≡ true
      → (warrant : IsWarranted request) × IsExecuted request warrant.content outcome
  unfolding execute_write_text_artifact
  execute_write_text_artifact-IsWarranted request outcome e accepted =
      let (verdict, checked, made) = >>=-eq-ok (checks h tools resolve request) _ e in
      let same : finish h request verdict ≡ outcome =
        ok_injective (finish h request verdict) outcome made in
      let clear =
        finish-accepted h request verdict
          (ap (λ (o : ExecutionResult). o.accepted) same ∙ accepted) in
      let warrant = checks-IsWarranted request (checked ∙ ap ok clear) in
      (
        warrant,
        subst (λ o. IsExecuted request warrant.content o) (sym (ap (finish h request) clear) ∙ same)
            (subst (λ c. IsExecuted request c (finish h request none))
              (ap text_or_empty warrant.content_given) (finish-IsExecuted request)),
      )

  -- A request that is not accepted has no effects and gets no receipt.
  pub execute_write_text_artifact-reject :
      (request : Value) (outcome : ExecutionResult)
      → execute_write_text_artifact h tools resolve request ≡ ok outcome
      → outcome.accepted ≡ false
      → (outcome.effects ≡ []) × (outcome.receipt ≡ none)
  unfolding execute_write_text_artifact
  execute_write_text_artifact-reject (obj request) outcome e refused =
      let (verdict, _, made) = >>=-eq-ok (checks h tools resolve request) _ e in
      finish-rejected h request verdict outcome
        (ok_injective (finish h request verdict) outcome made) refused
  execute_write_text_artifact-reject _ outcome e refused =
      rejected-idle ("EXECUTOR_REQUEST_MALFORMED" ∷ []) outcome (ok_injective _ outcome e)
