-- ===== src/Tests/Authority.antt =====
-- A packet for the descriptor, and a workspace transaction over it.
use runtime_lab_core.Prelude.{
  String, ◌≡◌, refl, true, some, List, [], ◌∷◌, ok, ◌>>=◌, sorted, All, ◌==◌,
}
use runtime_lab_core.Json.{str, arr, obj, Fields, dict, strings, get, has, set, pop}
use runtime_lab_core.Json.Access.{strict_string_list, has_only}
use runtime_lab_core.PosixPath
use runtime_lab_core.Hash
use runtime_lab_core.Descriptors.Canonical
use runtime_lab_core.Descriptors.Validator.{validate_descriptor}
use runtime_lab_core.Authority.Bindings
use runtime_lab_core.Authority.Bindings.{
  descriptor_payload, compute_descriptor_payload_hash, payload_roots, task_id_of, packet_roots,
  packet_hash_payload,
}
use runtime_lab_core.Authority.Bindings.Laws.{compute_descriptor_payload_hash-validate}
use runtime_lab_core.Authority.Verify
use runtime_lab_core.Authority.Verify.{Verification, accepted_packet, verify_authority_packet}
use runtime_lab_core.Authority.Verify.Laws.{IsAuthorised, verify_authority_packet-IsAuthorised}
use runtime_lab_core.Authority.Packet
use runtime_lab_core.Authority.Packet.{
  default_options, build_authority_packet, packet_body, complete_packet_hash,
}
use runtime_lab_core.Authority.Packet.Laws.{build_authority_packet-verify}
use runtime_lab_core.Workspace
use runtime_lab_core.Workspace.{TransactionResult, begin_with}
use runtime_lab_core.Workspace.Laws.{IsGranted}
use runtime_lab_core.Workspace.Bound.{begin_bound, begin_lists, begin_bound-IsAuthorised, verdict}
use runtime_lab_core.Tests.Fixtures.{host}
use runtime_lab_core.Tests.Descriptors.{tools, descriptor, validated}

abbrev pub hash : String
hash = "0123456789abcdef0123456789abcdef0123456789abcdef0123456789abcdef"

listed_fields : descriptor_payload descriptor ≡ descriptor
unfolding descriptor_payload ◌==◌
listed_fields = refl

pub taken : compute_descriptor_payload_hash host tools descriptor ≡ ok hash
unfolding Canonical.canonical_hash
taken =
    rw (compute_descriptor_payload_hash-validate host tools descriptor, listed_fields, validated)
      refl

abbrev pub packet : Fields
packet = complete_packet_hash host (packet_body descriptor default_options hash)

built : build_authority_packet host tools descriptor default_options ≡ ok packet
unfolding build_authority_packet
built = rw taken refl

pub verified :
    verify_authority_packet host tools (obj packet) descriptor ≡ ok (accepted_packet packet)
verified = build_authority_packet-verify host tools descriptor packet built

build_authority_packet-verify_example :
    verify_authority_packet host tools (obj packet) descriptor ≡ ok (accepted_packet packet)
build_authority_packet-verify_example =
    build_authority_packet-verify host tools descriptor packet built

verify_authority_packet-IsAuthorised_example :
    (hash : String) × (compute_descriptor_payload_hash host tools descriptor ≡ ok hash)
    × IsAuthorised host packet descriptor hash
verify_authority_packet-IsAuthorised_example =
    verify_authority_packet-IsAuthorised host tools packet descriptor (accepted_packet packet)
      verified refl

compute_descriptor_payload_hash-validate_example :
    compute_descriptor_payload_hash host tools descriptor ≡ (
      validate_descriptor host tools (obj (descriptor_payload descriptor)) >>= λ _.
      ok (Canonical.canonical_hash host (descriptor_payload descriptor)))
compute_descriptor_payload_hash-validate_example =
    compute_descriptor_payload_hash-validate host tools descriptor

abbrev pub request : Fields
request = dict (
    ("descriptor_hash", str hash)
    ∷ ("task_id", str "task-1")
    ∷ ("requested_paths", arr (strings ("out/a.txt" ∷ [])))
    ∷ ("allowed_roots", arr (strings ("out" ∷ [])))
    ∷ ("denied_paths", arr (strings ("out/secret" ∷ [])))
    ∷ [])

abbrev pub prepared : TransactionResult
prepared =
    begin_with host (λ _. hash) (verdict host hash) request descriptor packet
      (some ("out/a.txt" ∷ [])) (some ("out" ∷ [])) (some ("out/secret" ∷ []))

pub bound : begin_bound host tools (obj request) (obj descriptor) (obj packet) ≡ ok prepared
unfolding begin_bound begin_lists strict_string_list get ◌==◌
bound = rw taken refl

prepared-accepted : prepared.accepted ≡ true
unfolding begin_with Workspace.transaction_result Workspace.transaction_codes Workspace.paths_code
    Workspace.path_code Workspace.packet_roots Workspace.task_id_of Workspace.normalize_path
    Workspace.has_traversal Workspace.path_within_root sorted get has set pop PosixPath.parse
    PosixPath.parts PosixPath.to_str PosixPath.is_absolute ◌==◌ complete_packet_hash packet_body
    Packet.artifact_expectations Verify.verify_bound Verify.identity_code Verify.party_code
    Verify.binding_codes Verify.capability_codes Verify.is_allowed_capability has_only
    Bindings.packet_roots Bindings.payload_roots Bindings.workspace_roots Bindings.task_id_of
    Bindings.payload_artifacts Bindings.packet_artifacts Hash.canonical_hash
prepared-accepted = refl

begin_bound-IsAuthorised_example :
    (hash : String) × (compute_descriptor_payload_hash host tools descriptor ≡ ok hash)
    × IsAuthorised host packet descriptor hash
    × (get "descriptor_hash" request ≡ str hash)
    × (get "task_id" request ≡ str (task_id_of descriptor))
    × ((paths roots denied : List String) × (strict_string_list (get "requested_paths" request)
          ≡ some paths)
        × (strict_string_list (get "denied_paths" request) ≡ some denied)
        × All (IsGranted (payload_roots descriptor) (sorted denied)) paths)
begin_bound-IsAuthorised_example =
    begin_bound-IsAuthorised host tools request descriptor packet prepared bound prepared-accepted
