-- ===== src/Tests/Workspace.antt =====
-- A workspace transaction at a concrete request.
use runtime_lab_core.Prelude.{
  String, ◌≡◌, refl, Bool, true, none, some, List, [], ◌∷◌, sorted, ◌==◌,
}
use runtime_lab_core.Json.{str, arr, obj, Fields, dict, strings, get, has}
use runtime_lab_core.Json.Access.{strict_string_list}
use runtime_lab_core.PosixPath
use runtime_lab_core.Workspace
use runtime_lab_core.Workspace.{
  TransactionResult, begin_workspace_transaction, transaction_result,
  verify_workspace_transaction_receipt,
}
use runtime_lab_core.Workspace.Laws.{
  IsPrepared, begin_workspace_transaction-IsPrepared, begin_workspace_transaction-verify,
}
use runtime_lab_core.Tests.Fixtures.{host}

abbrev descriptor_hash : Fields → String
descriptor_hash _ = "sha256:d"

-- A packet is accepted if it names an id.
abbrev verify_packet : Fields → Fields → Bool × List String
verify_packet packet payload = (has "packet_id" packet, "AUTHORITY_PACKET_MALFORMED" ∷ [])

abbrev payload : Fields
payload = dict (("task_ref", obj (dict (("task_id", str "task-1") ∷ []))) ∷ [])

abbrev packet : Fields
packet = dict (
    ("packet_id", str "packet-1")
    ∷ ("workspace_binding", obj (dict (("allowed_roots", arr (strings ("src" ∷ []))) ∷ [])))
    ∷ [])

abbrev request : Fields
request = dict (
    ("descriptor_hash", str "sha256:d")
    ∷ ("task_id", str "task-1")
    ∷ ("requested_paths", arr (strings ("src/a.py" ∷ "src/./b.py" ∷ [])))
    ∷ ("allowed_roots", arr (strings ("src" ∷ [])))
    ∷ ("denied_paths", arr (strings ("src/secret" ∷ [])))
    ∷ [])

abbrev prepared : TransactionResult
prepared =
    begin_workspace_transaction host descriptor_hash verify_packet (obj request) (obj payload)
      (obj packet)

prepared-accepted : prepared.accepted ≡ true
unfolding begin_workspace_transaction Workspace.begin_with transaction_result
    Workspace.transaction_codes Workspace.paths_code Workspace.path_code Workspace.packet_roots
    Workspace.task_id_of Workspace.normalize_path Workspace.has_traversal Workspace.path_within_root
    strict_string_list sorted get has PosixPath.parse PosixPath.parts PosixPath.to_str
    PosixPath.is_absolute ◌==◌
prepared-accepted = refl

begin_workspace_transaction-IsPrepared_example :
    (paths roots denied : List String) × (strict_string_list (get "requested_paths" request)
      ≡ some paths)
    × (strict_string_list (get "allowed_roots" request) ≡ some roots)
    × (strict_string_list (get "denied_paths" request) ≡ some denied)
    × IsPrepared host descriptor_hash verify_packet request payload packet paths roots denied
begin_workspace_transaction-IsPrepared_example =
    begin_workspace_transaction-IsPrepared host descriptor_hash verify_packet request payload packet
      prepared-accepted

abbrev receipt_of : TransactionResult → Fields
receipt_of result = elim result.receipt [ none ↦ Fields.end | some receipt ↦ receipt ]

receipt-given : prepared.receipt ≡ some (receipt_of prepared)
unfolding begin_workspace_transaction Workspace.begin_with transaction_result strict_string_list
    sorted get ◌==◌
receipt-given = refl

begin_workspace_transaction-verify_example :
    verify_workspace_transaction_receipt host (obj (receipt_of prepared)) ≡ true
begin_workspace_transaction-verify_example =
    begin_workspace_transaction-verify host descriptor_hash verify_packet (obj request)
      (obj payload) (obj packet) (receipt_of prepared) receipt-given
