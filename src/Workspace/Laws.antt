-- ===== src/Workspace/Laws.antt =====
-- What a prepared workspace transaction has shown.
use mathlib.Core.Path.{subst}
use runtime_lab_core.Prelude.{
  String, ◌≡◌, refl, Bool, true, false, Option, none, some, List, [], ◌∷◌, map, contains, is_empty,
  sorted, same_texts-eq, All, arith,
}
use runtime_lab_core.Json.{Value, str, obj, Fields, get, is_str-eq}
use runtime_lab_core.Json.Access.{strict_string_list}
use runtime_lab_core.Hash.{Host}
use runtime_lab_core.Hash.Seal.{is_sealed, seal-is_sealed}
use runtime_lab_core.PosixPath
use runtime_lab_core.Workspace.{
  task_id_of, packet_roots, normalize_path, has_traversal, within_any, path_code, paths_code,
  verify_workspace_transaction_receipt, transaction_codes, transaction_result, begin_with,
  begin_workspace_transaction,
}

-- A path that the loop lets pass: relative, without `..`, not denied, and under one of the roots.
pub record IsGranted (roots denied : List String) (path : String) : Type 0 where
  pub relative : PosixPath.is_absolute (PosixPath.parse path) ≡ false
  pub inside : has_traversal path ≡ false
  pub not_denied : contains (map normalize_path denied) (normalize_path path) ≡ false
  pub rooted : within_any path roots ≡ true

path_code-IsGranted :
    (roots denied : List String) (path : String)
    → path_code roots denied path ≡ none
    → IsGranted roots denied path
unfolding path_code
path_code-IsGranted roots denied path h = ground (arith, h)

paths_code-IsGranted :
    (roots denied paths : List String)
    → paths_code roots denied paths ≡ none
    → All (IsGranted roots denied) paths
unfolding paths_code
paths_code-IsGranted roots denied [] h = tt
paths_code-IsGranted roots denied (path ∷ paths) h = (
  path_code-IsGranted roots denied path (ground (arith, h)),
  paths_code-IsGranted roots denied paths (ground (arith, h)),
)

some_injective : (a b : Fields) → some a ≡ some b → a ≡ b
some_injective a b e = cc

module _ (h : Host) (descriptor_hash : Fields → String)
    (verify_packet : Fields → Fields → Bool × List String) where
  -- What the request, the descriptor and the packet show together.
  pub record IsPrepared (request payload packet : Fields) (paths roots denied : List String)
      : Type 0 where
    pub authorised : (verify_packet packet payload).0 ≡ true
    pub described : get "descriptor_hash" request ≡ str (descriptor_hash payload)
    pub bound : get "task_id" request ≡ str (task_id_of payload)
    pub scoped : sorted roots ≡ packet_roots packet
    pub something : is_empty paths ≡ false
    pub granted : All (IsGranted (packet_roots packet) (sorted denied)) paths

  transaction_codes-IsPrepared :
      (request payload packet : Fields) (paths roots denied : List String)
      → transaction_codes h descriptor_hash verify_packet request payload packet paths
          (sorted roots)
          (sorted denied)
        ≡ none
      → IsPrepared request payload packet paths roots denied
  unfolding transaction_codes
  transaction_codes-IsPrepared request payload packet paths roots denied e = record {
    authorised = ground (arith, e);
    described =
        is_str-eq (get "descriptor_hash" request) (descriptor_hash payload) (ground (arith, e));
    bound = is_str-eq (get "task_id" request) (task_id_of payload) (ground (arith, e));
    scoped = same_texts-eq (sorted roots) (packet_roots packet) (ground (arith, e));
    something = ground (arith, e);
    granted = paths_code-IsGranted (packet_roots packet) (sorted denied) paths (ground (arith, e));
  }

  pub begin_with-IsPrepared :
      (request payload packet : Fields) (paths roots denied : Option (List String))
      → (begin_with h descriptor_hash verify_packet request payload packet paths roots
          denied).accepted
        ≡ true
      → (ps rs ds : List String) × (paths ≡ some ps)
        × (roots ≡ some rs)
        × (denied ≡ some ds)
        × IsPrepared request payload packet ps rs ds
  unfolding begin_with transaction_result
  begin_with-IsPrepared request payload packet (some ps) (some rs) (some ds) e = (
    ps,
    rs,
    ds,
    refl,
    refl,
    refl,
    transaction_codes-IsPrepared request payload packet ps rs ds (ground (arith, e)),
  )
  begin_with-IsPrepared request payload packet none roots denied e = absurd (ground (arith, e))
  begin_with-IsPrepared request payload packet (some ps) none denied e = absurd (ground (arith, e))
  begin_with-IsPrepared request payload packet (some ps) (some rs) none e =
      absurd (ground (arith, e))

  -- A transaction that is prepared has an accepted packet, the hash and the task of its descriptor, the roots of the
  -- packet, and at least one path; each of its paths is relative, without `..`, not denied, and under one of the
  -- roots.
  pub begin_workspace_transaction-IsPrepared :
      (request payload packet : Fields)
      → (begin_workspace_transaction h descriptor_hash verify_packet
          (obj request)
          (obj payload)
          (obj packet)).accepted
        ≡ true
      → (paths roots denied : List String) × (strict_string_list (get "requested_paths" request)
          ≡ some paths)
        × (strict_string_list (get "allowed_roots" request) ≡ some roots)
        × (strict_string_list (get "denied_paths" request) ≡ some denied)
        × IsPrepared request payload packet paths roots denied
  unfolding begin_workspace_transaction
  begin_workspace_transaction-IsPrepared request payload packet e =
      begin_with-IsPrepared request payload packet
        (strict_string_list (get "requested_paths" request))
        (strict_string_list (get "allowed_roots" request))
        (strict_string_list (get "denied_paths" request)) e

  begin_with-receipt :
      (request payload packet : Fields) (paths roots denied : Option (List String))
      (receipt : Fields)
      → (begin_with h descriptor_hash verify_packet request payload packet paths roots
          denied).receipt
        ≡ some receipt
      → verify_workspace_transaction_receipt h (obj receipt) ≡ true
  unfolding begin_with transaction_result verify_workspace_transaction_receipt
  begin_with-receipt request payload packet (some ps) (some rs) (some ds) receipt e =
      subst (λ r. is_sealed h "transaction_hash" r ≡ true) (some_injective _ receipt e)
        (seal-is_sealed h "transaction_hash" _).0
  begin_with-receipt request payload packet none roots denied receipt e = absurd cc
  begin_with-receipt request payload packet (some ps) none denied receipt e = absurd cc
  begin_with-receipt request payload packet (some ps) (some rs) none receipt e = absurd cc

  -- Every receipt that is handed over verifies, of a prepared transaction and of a rejected one.
  pub begin_workspace_transaction-verify :
      (request payload packet : Value) (receipt : Fields)
      → (begin_workspace_transaction h descriptor_hash verify_packet request payload packet).receipt
        ≡ some receipt
      → verify_workspace_transaction_receipt h (obj receipt) ≡ true
  unfolding begin_workspace_transaction
  begin_workspace_transaction-verify (obj r) (obj p) (obj k) receipt e =
      begin_with-receipt r p k (strict_string_list (get "requested_paths" r))
        (strict_string_list (get "allowed_roots" r)) (strict_string_list (get "denied_paths" r))
        receipt e
  begin_workspace_transaction-verify (obj r) (obj p) k receipt e = absurd cc
  begin_workspace_transaction-verify (obj r) p k receipt e = absurd cc
  begin_workspace_transaction-verify r p k receipt e = absurd cc
