-- ===== src/Executor/Paths.antt =====
-- `_output_path_error`: where an executor may write, by the receipt of the workspace transaction.
use runtime_lab_core.Prelude.{
  String, Bool, true, false, not, Option, none, some, List, [], ◌∷◌, map, contains, Result, ok,
  raise, ◌>>=◌, ◌then_check◌, if◌then◌else◌,
}
use runtime_lab_core.Json.{Value, str, arr, obj, Fields, get, has, keys}
use runtime_lab_core.Json.Access.{texts_of}
use runtime_lab_core.PosixPath
use runtime_lab_core.Workspace.{normalize_path, has_traversal, within_any}

-- The characters of a text, each a text of its own.
abbrev characters : String → List String
characters String.[] = []
characters (String.◌∷◌ c s) = String.◌∷◌ c String.[] ∷ characters s

-- The texts in `for path in v`.
abbrev iterate : Value → Result (List String)
iterate (arr items) = ok (texts_of items)
iterate (obj d) = ok (keys d)
iterate (str s) = ok (characters s)
iterate _ = raise "TypeError"

-- `[path for path in receipt.get(k, []) if isinstance(path, str)]`
unfoldable pub listed_paths : String → Fields → Result (List String)
listed_paths k receipt = if has k receipt then iterate (get k receipt) else ok []

-- `if not test: return code`
abbrev pub pass : Bool → String → Result (Option String)
pass true error = ok none
pass false error = ok (some error)

-- The tests on the paths that the receipt lists.
unfoldable pub denied_error : String → Fields → Result (Option String)
denied_error output receipt = do
  denied ← listed_paths "denied_paths" receipt
  pass (not (contains (map normalize_path denied) output)) "EXECUTOR_DENIED_PATH_REJECTED"

unfoldable pub root_error : String → Fields → Result (Option String)
root_error output receipt = do
  roots ← listed_paths "allowed_roots" receipt
  pass (within_any output roots) "EXECUTOR_OUTPUT_PATH_OUTSIDE_WORKSPACE"

unfoldable pub requested_error : String → Fields → Result (Option String)
requested_error output receipt = do
  requested ← listed_paths "requested_paths" receipt
  pass (contains (map normalize_path requested) output)
      "EXECUTOR_WORKSPACE_TRANSACTION_RECEIPT_MISMATCH"

unfoldable pub output_path_error : String → Fields → Result (Option String)
output_path_error output_path receipt =
    if PosixPath.is_absolute (PosixPath.parse output_path)
    then ok (some "EXECUTOR_OUTPUT_PATH_ABSOLUTE_REJECTED")
    else if has_traversal output_path
    then ok (some "EXECUTOR_OUTPUT_PATH_TRAVERSAL_REJECTED")
    else (denied_error (normalize_path output_path) receipt
        then_check root_error (normalize_path output_path) receipt
        then_check requested_error (normalize_path output_path) receipt)
