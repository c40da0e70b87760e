-- ===== src/Workspace.antt =====
-- runtime_lab/workspace/__init__.py: workspace transactions. The verification of an authority packet
-- (runtime_lab/authority/verify.py) and the hash of a descriptor (runtime_lab/descriptors) are parameters.
pub mod Laws
pub mod Bound
use runtime_lab_core.Prelude.{
  ℕ, String, Bool, true, false, ◌&&◌, ◌||◌, not, Option, none, some, List, [], ◌∷◌, ◌++◌, map,
  contains, dedupe, is_empty, sorted, same_texts, starts_with, if◌then◌else◌, ◌==◌, ◌<>◌,
}
use runtime_lab_core.Json.{
  Value, null, bool, str, arr, obj, Items, nil, cons, Fields, end, field, dict, strings, get, has,
  is_str,
}
use runtime_lab_core.Json.Access.{as_string_list, strict_string_list, get_in, text_or_empty}
use runtime_lab_core.Hash.{Host, canonical_hash}
use runtime_lab_core.Hash.Seal.{seal, is_sealed}
use runtime_lab_core.PosixPath

abbrev text_or_none : Value → Value
text_or_none (str s) = str s
text_or_none _ = null

-- `_task_id`
unfoldable pub task_id_of : Fields → String
task_id_of payload = text_or_empty (get_in "task_id" (get "task_ref" payload))

unfoldable pub packet_roots : Fields → List String
packet_roots packet =
    sorted (as_string_list (get_in "allowed_roots" (get "workspace_binding" packet)))

unfoldable pub normalize_path : String → String
normalize_path path = PosixPath.to_str (PosixPath.parse path)

unfoldable pub has_traversal : String → Bool
has_traversal path = contains (PosixPath.parts (PosixPath.parse path)) ".."

unfoldable pub path_within_root : String → String → Bool
path_within_root path root =
    normalize_path path == normalize_path root
    || starts_with (normalize_path path) (normalize_path root <> "/")

-- `any(_path_within_root(path, root) for root in roots)`
abbrev pub within_any : String → List String → Bool
within_any path [] = false
within_any path (root ∷ roots) = path_within_root path root || within_any path roots

-- One round of the loop over the requested paths: the code of a path that is refused.
unfoldable pub path_code : List String → List String → String → Option String
path_code roots denied path =
    if PosixPath.is_absolute (PosixPath.parse path)
    then some "WORKSPACE_ABSOLUTE_PATH_REJECTED"
    else if has_traversal path
    then some "WORKSPACE_PATH_TRAVERSAL_REJECTED"
    else if contains (map normalize_path denied) (normalize_path path)
    then some "WORKSPACE_DENIED_PATH_REJECTED"
    else if not (within_any path roots)
    then some "WORKSPACE_PATH_OUTSIDE_ALLOWED_ROOT"
    else none

-- The loop: the code of the first path that is refused.
unfoldable pub paths_code : List String → List String → List String → Option String
paths_code roots denied [] = none
paths_code roots denied (path ∷ paths) =
    let rest = paths_code roots denied paths in
    elim (path_code roots denied path) [ some code ↦ some code | none ↦ rest ]

-- `request_map.get("symlink_policy", "reject") == "reject"`
abbrev rejects_symlinks : Fields → Bool
rejects_symlinks request =
    if has "symlink_policy" request then is_str (get "symlink_policy" request) "reject" else true

pub record TransactionResult : Type 0 where
  pub accepted : Bool
  pub status : String
  pub rejection_codes : List String
  pub receipt : Option Fields

-- `_reject_without_receipt`
abbrev pub reject_without_receipt : String → TransactionResult
reject_without_receipt code = record {
  accepted = false;
  status = "rejected";
  rejection_codes = code ∷ [];
  receipt = none;
}

module _ (h : Host) where
  unfoldable pub workspace_scope_hash : List String → List String → String
  workspace_scope_hash roots denied = canonical_hash h (
      obj (
        dict (
          ("allowed_roots", arr (strings (sorted roots)))
          ∷ ("denied_paths", arr (strings (sorted denied)))
          ∷ [])))

  unfoldable pub verify_workspace_transaction_receipt : Value → Bool
  verify_workspace_transaction_receipt (obj receipt) = is_sealed h "transaction_hash" receipt
  verify_workspace_transaction_receipt _ = false

module _ (h : Host) (descriptor_hash : Fields → String)
    (verify_packet : Fields → Fields → Bool × List String) where
  -- The `dict` of `_make_receipt`, before its hash is set.
  unfoldable pub receipt_body :
      Fields
      → Fields
      → Fields
      → List String
      → List String
      → List String
      → Bool
      → String
      → List String
      → Fields
  receipt_body request payload packet paths roots denied accepted status codes = dict (
      ("schema_version", str "workspace_transaction_receipt.v1")
      ∷ ("transaction_id", str (text_or_empty (get "transaction_id" request)))
      ∷ ("task_id", str (task_id_of payload))
      ∷ ("descriptor_hash", str (descriptor_hash payload))
      ∷ ("authority_packet_id", text_or_none (get "packet_id" packet))
      ∷ ("authority_packet_hash", text_or_none (get "payload_hash" packet))
      ∷ ("authority_receipt_hash", text_or_none (get "payload_hash" packet))
      ∷ ("workspace_scope_hash", str (workspace_scope_hash h roots denied))
      ∷ ("requested_paths", arr (strings (sorted paths)))
      ∷ ("allowed_roots", arr (strings (sorted roots)))
      ∷ ("denied_paths", arr (strings (sorted denied)))
      ∷ ("accepted", bool accepted)
      ∷ ("status", str status)
      ∷ ("rejection_codes", arr (strings (dedupe codes)))
      ∷ ("artifact_write_performed", bool false)
      ∷ ("tool_invocation_performed", bool false)
      ∷ ("llm_invocation_performed", bool false)
      ∷ ("transaction_hash", str "")
      ∷ [])

  -- The tests after the lists were read, in their order: none, or the codes of the first that fails.
  unfoldable pub transaction_codes :
      Fields → Fields → Fields → List String → List String → List String → Option (List String)
  transaction_codes request payload packet paths requested_roots denied =
      let roots = packet_roots packet in
      if not (verify_packet packet payload).0
      then some (verify_packet packet payload).1
      else if not (is_str (get "descriptor_hash" request) (descriptor_hash payload))
      then some ("WORKSPACE_DESCRIPTOR_HASH_MISMATCH" ∷ [])
      else if not (is_str (get "task_id" request) (task_id_of payload))
      then some ("WORKSPACE_TASK_BINDING_MISMATCH" ∷ [])
      else if not (same_texts requested_roots roots)
      then some ("WORKSPACE_SCOPE_MISMATCH" ∷ [])
      else if not (rejects_symlinks request)
      then some ("WORKSPACE_SYMLINK_ESCAPE_UNSUPPORTED" ∷ [])
      else if is_empty paths
      then some ("WORKSPACE_EMPTY_REQUEST_REJECTED" ∷ [])
      else elim (paths_code roots denied paths) [ none ↦ none | some code ↦ some (code ∷ []) ]

  -- `_result`, of the tests
  unfoldable pub transaction_result :
      Fields
      → Fields
      → Fields
      → List String
      → List String
      → Option (List String)
      → TransactionResult
  transaction_result request payload packet paths denied verdict =
      let accepted : Bool = elim verdict [ none ↦ true | some _ ↦ false ] in
      let status : String = elim verdict [ none ↦ "prepared" | some _ ↦ "rejected" ] in
      let codes : List String = elim verdict [ none ↦ [] | some codes ↦ codes ] in
      record {
        accepted = accepted;
        status = status;
        rejection_codes = dedupe codes;
        receipt = some (
            seal h "transaction_hash" (
              receipt_body request payload packet paths (packet_roots packet) denied accepted status
                codes));
      }

  -- The lists of the request, read strictly.
  unfoldable pub begin_with :
      Fields
      → Fields
      → Fields
      → Option (List String)
      → Option (List String)
      → Option (List String)
      → TransactionResult
  begin_with request payload packet (some paths) (some roots) (some denied) =
      transaction_result request payload packet paths (sorted denied)
        (transaction_codes request payload packet paths (sorted roots) (sorted denied))
  begin_with request payload packet _ _ _ =
      reject_without_receipt "WORKSPACE_TRANSACTION_REQUEST_MALFORMED"

  unfoldable pub begin_workspace_transaction : Value → Value → Value → TransactionResult
  begin_workspace_transaction (obj request) (obj payload) (obj packet) =
      begin_with request payload packet (strict_string_list (get "requested_paths" request))
        (strict_string_list (get "allowed_roots" request))
        (strict_string_list (get "denied_paths" request))
  begin_workspace_transaction (obj request) (obj payload) _ =
      reject_without_receipt "WORKSPACE_AUTHORITY_PACKET_REQUIRED"
  begin_workspace_transaction _ _ _ =
      reject_without_receipt "WORKSPACE_TRANSACTION_REQUEST_MALFORMED"
