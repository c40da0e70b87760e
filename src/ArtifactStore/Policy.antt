-- ===== src/ArtifactStore/Policy.antt =====
-- The policy of the artifact store: `_validate_policy`.
use runtime_lab_core.Prelude.{
  ℕ, pos, String, true, false, Option, none, some, List, [], ◌∷◌, if◌then◌else◌,
}
use runtime_lab_core.Json.{Value, bool, num, obj, Fields, get}
use runtime_lab_core.Json.Access.{all_texts, strict_string_list, text_or_empty}

-- The result of `_validate_policy`: its texts, its lists and its limit.
pub record StorePolicy : Type 0 where
  pub task_id : String
  pub descriptor_hash : String
  pub authority_receipt_hash : String
  pub workspace_transaction_receipt_hash : String
  pub allowed_artifact_types : List String
  pub allowed_media_types : List String
  pub max_size_bytes : ℕ
  -- the same, as it was given
  pub given_size : Value

-- An `int` that is not negative; a `bool` is one.
abbrev pub natural_of : Value → Option ℕ
natural_of (num (pos n)) = some n
natural_of (bool true) = some 1
natural_of (bool false) = some 0
natural_of _ = none

-- `_validate_policy`, of the lists and the limit
abbrev policy_with :
    Fields → Option (List String) → Option (List String) → Option ℕ → Option StorePolicy
policy_with policy (some types) (some media) (some limit) = some (record {
  task_id = text_or_empty (get "task_id" policy);
  descriptor_hash = text_or_empty (get "descriptor_hash" policy);
  authority_receipt_hash = text_or_empty (get "authority_receipt_hash" policy);
  workspace_transaction_receipt_hash =
      text_or_empty (get "workspace_transaction_receipt_hash" policy);
  allowed_artifact_types = types;
  allowed_media_types = media;
  max_size_bytes = limit;
  given_size = get "max_size_bytes" policy;
})
policy_with policy _ _ _ = none

unfoldable pub validate_policy : Value → Option StorePolicy
validate_policy (obj policy) =
    if all_texts
      ("task_id" ∷ "descriptor_hash" ∷ "authority_receipt_hash"
        ∷ "workspace_transaction_receipt_hash" ∷ [])
      policy
    then policy_with policy (strict_string_list (get "allowed_artifact_types" policy))
        (strict_string_list (get "allowed_media_types" policy))
        (natural_of (get "max_size_bytes" policy))
    else none
validate_policy _ = none
