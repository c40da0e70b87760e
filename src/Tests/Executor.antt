-- ===== src/Tests/Executor.antt =====
-- An execution of the stored artifact.
use runtime_lab_core.Prelude.{String, ◌≡◌, refl, Option, none, some, [], ◌∷◌, ok, ◌==◌, sorted}
use runtime_lab_core.Json.{str, obj, Fields, dict, get, has, set, pop}
use runtime_lab_core.Json.Access.{has_only}
use runtime_lab_core.Json.Equality.{same_value}
use runtime_lab_core.PosixPath
use runtime_lab_core.Hash
use runtime_lab_core.Hash.Seal.{seal, is_sealed}
use runtime_lab_core.Authority.Bindings
use runtime_lab_core.Authority.Verify
use runtime_lab_core.Authority.Packet
use runtime_lab_core.Authority.Packet.{packet_body, complete_packet_hash}
use runtime_lab_core.Workspace
use runtime_lab_core.ArtifactStore.Store
use runtime_lab_core.ArtifactStore.Checks.{content_hash}
use runtime_lab_core.Executor.Paths
use runtime_lab_core.Executor.Checks
use runtime_lab_core.Executor.Checks.{checks}
use runtime_lab_core.Executor.Run.{ExecutionResult, finish, reject, execute_write_text_artifact}
use runtime_lab_core.Executor.Laws.{
  IsWarranted, IsExecuted, execute_write_text_artifact-IsWarranted,
  execute_write_text_artifact-reject,
}
use runtime_lab_core.Tests.Fixtures.{host}
use runtime_lab_core.Tests.Descriptors.{tools, descriptor}
use runtime_lab_core.Tests.Authority.{hash, packet, prepared, taken, verified}
use runtime_lab_core.Tests.ArtifactStore.{long_hash, artifact_receipt}

abbrev receipt_or_end : Option Fields → Fields
receipt_or_end none = Fields.end
receipt_or_end (some receipt) = receipt

abbrev pub request : Fields
request = dict (
    ("action", str "write_text_artifact")
    ∷ ("descriptor_payload", obj descriptor)
    ∷ ("descriptor_hash", str hash)
    ∷ ("task_id", str "task-1")
    ∷ ("authority_packet", obj packet)
    ∷ ("workspace_transaction_receipt", obj (receipt_or_end prepared.receipt))
    ∷ ("artifact_receipt", obj artifact_receipt)
    ∷ ("output_path", str "out/a.txt")
    ∷ ("content", str "hello")
    ∷ ("workspace_root", str "/work")
    ∷ ("expected_content_hash", str long_hash)
    ∷ [])

-- No links to follow.
abbrev pub resolve : String → String
resolve path = path

checked : checks host tools resolve request ≡ ok none
unfolding checks Checks.request_check Checks.descriptor_check Checks.packet_check
    Checks.workspace_check Checks.output_check Checks.artifact_receipt_matches Checks.artifact_check
    Checks.content_check Checks.place_check Paths.output_path_error Paths.listed_paths
    Paths.denied_error Paths.root_error Paths.requested_error same_value get has set pop ◌==◌
    Bindings.task_id_of Workspace.normalize_path Workspace.has_traversal Workspace.path_within_root
    Workspace.verify_workspace_transaction_receipt Workspace.begin_with Workspace.transaction_result
    Workspace.receipt_body Workspace.transaction_codes Workspace.paths_code Workspace.path_code
    Workspace.packet_roots Workspace.task_id_of Verify.verify_bound Verify.identity_code
    Verify.party_code Verify.binding_codes Verify.capability_codes Verify.is_allowed_capability
    has_only Bindings.packet_roots Bindings.payload_roots Bindings.workspace_roots
    Bindings.payload_artifacts Bindings.packet_artifacts Store.verify_artifact_receipt
    Store.accepted_receipt Store.receipt_body content_hash sorted seal is_sealed Hash.canonical_hash
    complete_packet_hash packet_body Packet.artifact_expectations PosixPath.parse PosixPath.parts
    PosixPath.to_str PosixPath.is_absolute PosixPath.join PosixPath.is_relative_to PosixPath.begins
checked = rw (taken, verified) refl

abbrev pub executed : ExecutionResult
executed = finish host request none

pub execution : execute_write_text_artifact host tools resolve (obj request) ≡ ok executed
unfolding execute_write_text_artifact
execution = rw checked refl

execute_write_text_artifact-IsWarranted_example :
    (warrant : IsWarranted host tools resolve request) × IsExecuted host tools resolve request
      warrant.content executed
execute_write_text_artifact-IsWarranted_example =
    execute_write_text_artifact-IsWarranted host tools resolve request executed execution refl

-- Without an action nothing happens.
refusal :
    execute_write_text_artifact host tools resolve (obj Fields.end)
    ≡ ok (reject ("EXECUTOR_ACTION_NOT_ALLOWED" ∷ []))
unfolding execute_write_text_artifact checks Checks.request_check get has ◌==◌
refusal = refl

abbrev refused : ExecutionResult
refused = reject ("EXECUTOR_ACTION_NOT_ALLOWED" ∷ [])

execute_write_text_artifact-reject_example : (refused.effects ≡ []) × (refused.receipt ≡ none)
execute_write_text_artifact-reject_example =
    execute_write_text_artifact-reject host tools resolve (obj Fields.end) refused refusal refl
