-- ===== src/Workspace/Bound.antt =====
-- The workspace transaction over the verification of authority packets: runtime_lab/workspace/__init__.py
-- with its calls of runtime_lab/authority. A request with well-formed lists has the hash of its descriptor
-- taken on every path, for the receipt at the latest, so that an invalid descriptor always raises.
use mathlib.Core.Bool.{false≢true}
use mathlib.Core.Path.{subst}
use runtime_lab_core.Prelude.{
  ap, ◌≢◌, String, ◌≡◌, refl, ◌∙◌, Bool, true, Option, none, some, List, Result, ok, ◌>>=◌,
  >>=-eq-ok, sorted, All,
}
use runtime_lab_core.Json.{Value, str, obj, Fields, get}
use runtime_lab_core.Json.Access.{strict_string_list}
use runtime_lab_core.Hash.{Host}
use runtime_lab_core.Descriptors.Validator.{TextTools}
use runtime_lab_core.Authority.Bindings.{
  compute_descriptor_payload_hash, packet_roots, payload_roots, task_id_of,
}
use runtime_lab_core.Authority.Verify.{verify_bound}
use runtime_lab_core.Authority.Verify.Laws.{IsAuthorised, ok_injective, verify_bound-IsAuthorised}
use runtime_lab_core.Workspace
use runtime_lab_core.Workspace.{
  TransactionResult, begin_workspace_transaction, begin_with, reject_without_receipt,
}
use runtime_lab_core.Workspace.Laws.{IsGranted, begin_with-IsPrepared}

roots_agree_as : (packet : Fields) → Workspace.packet_roots packet ≡ packet_roots packet
unfolding Workspace.packet_roots packet_roots
roots_agree_as packet = refl

task_as : (payload : Fields) → Workspace.task_id_of payload ≡ task_id_of payload
unfolding Workspace.task_id_of task_id_of
task_as payload = refl

not_accepted :
    (code : String) (outcome : TransactionResult)
    → reject_without_receipt code ≡ outcome
    → outcome.accepted ≢ true
not_accepted code outcome made accepted =
    false≢true (ap (λ (o : TransactionResult). o.accepted) made ∙ accepted)

module _ (h : Host) where
  -- `verify_authority_packet` of a descriptor with the given hash, as the transaction reads its result.
  abbrev pub verdict : String → Fields → Fields → Bool × List String
  verdict hash packet payload =
      let outcome = verify_bound h packet payload hash in
      (outcome.accepted, outcome.rejection_codes)

module _ (h : Host) (tools : TextTools) where
  unfoldable pub begin_lists :
      Fields
      → Fields
      → Fields
      → Option (List String)
      → Option (List String)
      → Option (List String)
      → Result TransactionResult
  begin_lists request payload packet (some paths) (some roots) (some denied) = do
    hash ← compute_descriptor_payload_hash h tools payload
    ok (
        begin_with h (λ _. hash) (verdict h hash) request payload packet (some paths) (some roots)
          (some denied))
  begin_lists request payload packet _ _ _ =
      ok (reject_without_receipt "WORKSPACE_TRANSACTION_REQUEST_MALFORMED")

  -- `begin_workspace_transaction`, whose calls are those of the authority package.
  unfoldable pub begin_bound : Value → Value → Value → Result TransactionResult
  begin_bound (obj request) (obj payload) (obj packet) =
      begin_lists request payload packet (strict_string_list (get "requested_paths" request))
        (strict_string_list (get "allowed_roots" request))
        (strict_string_list (get "denied_paths" request))
  begin_bound (obj request) (obj payload) _ =
      ok (reject_without_receipt "WORKSPACE_AUTHORITY_PACKET_REQUIRED")
  begin_bound _ _ _ = ok (reject_without_receipt "WORKSPACE_TRANSACTION_REQUEST_MALFORMED")

  begin_lists-IsPrepared :
      (request payload packet : Fields) (paths roots denied : Option (List String))
      (outcome : TransactionResult)
      → begin_lists request payload packet paths roots denied ≡ ok outcome
      → outcome.accepted ≡ true
      → (hash : String) × (compute_descriptor_payload_hash h tools payload ≡ ok hash)
        × ((begin_with h
              (λ _. hash)
              (verdict h hash)
              request
              payload
              packet
              paths
              roots
              denied).accepted
            ≡ true)
  unfolding begin_lists
  begin_lists-IsPrepared request payload packet (some ps) (some rs) (some ds) outcome e accepted =
      let (hash, taken, made) = >>=-eq-ok (compute_descriptor_payload_hash h tools payload) _ e in
      (hash, taken, rw (ok_injective _ outcome made) accepted)
  begin_lists-IsPrepared request payload packet none roots denied outcome e accepted = absurd (
      not_accepted "WORKSPACE_TRANSACTION_REQUEST_MALFORMED" outcome (ok_injective _ outcome e)
        accepted)
  begin_lists-IsPrepared request payload packet (some ps) none denied outcome e accepted = absurd (
      not_accepted "WORKSPACE_TRANSACTION_REQUEST_MALFORMED" outcome (ok_injective _ outcome e)
        accepted)
  begin_lists-IsPrepared request payload packet (some ps) (some rs) none outcome e accepted =
      absurd (
        not_accepted "WORKSPACE_TRANSACTION_REQUEST_MALFORMED" outcome (ok_injective _ outcome e)
          accepted)

  -- A transaction that is prepared has a packet that binds the hash of the valid descriptor, and the request names that
  -- hash and the task of the descriptor; every requested path is relative, without `..`, not denied, and under one of
  -- the roots of the descriptor itself.
  pub begin_bound-IsAuthorised :
      (request payload packet : Fields) (outcome : TransactionResult)
      → begin_bound (obj request) (obj payload) (obj packet) ≡ ok outcome
      → outcome.accepted ≡ true
      → (hash : String) × (compute_descriptor_payload_hash h tools payload ≡ ok hash)
        × IsAuthorised h packet payload hash
        × (get "descriptor_hash" request ≡ str hash)
        × (get "task_id" request ≡ str (task_id_of payload))
        × ((paths roots denied : List String) × (strict_string_list (get "requested_paths" request)
              ≡ some paths)
            × (strict_string_list (get "denied_paths" request) ≡ some denied)
            × All (IsGranted (payload_roots payload) (sorted denied)) paths)
  unfolding begin_bound
  begin_bound-IsAuthorised request payload packet outcome e accepted =
      let wanted = strict_string_list (get "requested_paths" request) in
      let scope = strict_string_list (get "allowed_roots" request) in
      let refused = strict_string_list (get "denied_paths" request) in
      let (hash, taken, prepared) =
        begin_lists-IsPrepared request payload packet wanted scope refused outcome e accepted in
      let (paths, roots, denied, has_paths, _, has_denied, shown) =
        begin_with-IsPrepared h (λ _. hash) (verdict h hash) request payload packet wanted scope
          refused prepared in
      let authorised = verify_bound-IsAuthorised h packet payload hash shown.authorised in
      let same_roots : Workspace.packet_roots packet ≡ payload_roots payload =
        roots_agree_as packet ∙ authorised.roots_agree in
      (
        hash,
        taken,
        authorised,
        shown.described,
        shown.bound ∙ ap str (task_as payload),
        (
          paths,
          roots,
          denied,
          has_paths,
          has_denied,
          subst (λ rs. All (IsGranted rs (sorted denied)) paths) same_roots shown.granted,
        ),
      )
