-- ===== src/Replay/Input.antt =====
-- What a replay is given: the expected state and the graph of receipts.
use runtime_lab_core.Prelude.{
  ℕ, suc, pos, negsuc, String, Bool, true, false, ◌&&◌, ◌||◌, not, Option, none, some, List, [],
  ◌∷◌, if◌then◌else◌,
}
use runtime_lab_core.Json.{Value, bool, num, str, obj, Fields, get, has, is_text}
use runtime_lab_core.Json.Access.{is_mapping, strict_string_list}
use runtime_lab_core.Hash.{is_hash}

abbrev pub expected_hash_fields : List String
expected_hash_fields =
    "expected_ledger_chain_hash" ∷ "expected_terminal_event_hash" ∷ "descriptor_hash"
    ∷ "authority_receipt_hash" ∷ "workspace_transaction_receipt_hash" ∷ "artifact_receipt_hash"
    ∷ "executor_receipt_hash" ∷ "validation_receipt_hash" ∷ "artifact_content_hash"
    ∷ "executor_output_hash" ∷ []

-- `isinstance(v, int)`
abbrev is_int : Value → Bool
is_int (num _) = true
is_int (bool _) = true
is_int _ = false

-- The test of the loop over the hashes, for every field.
abbrev pub hashes_if_given : List String → Fields → Bool
hashes_if_given [] expected = true
hashes_if_given (k ∷ ks) expected =
    (not (has k expected) || is_hash (get k expected)) && hashes_if_given ks expected

abbrev is_given_list : Value → Bool
is_given_list v = elim (strict_string_list v) [ none ↦ false | some _ ↦ true ]

-- The tests of `_expected_state`.
unfoldable pub is_stated : Fields → Bool
is_stated expected =
    hashes_if_given expected_hash_fields expected
    && ((not (has "expected_event_count" expected) || is_int (get "expected_event_count" expected))
        && ((not (has "required_event_types" expected)
              || is_given_list (get "required_event_types" expected))
            && (not (has "task_id" expected) || is_text (get "task_id" expected))))

-- `_expected_state`
unfoldable pub expected_state : Value → Option Fields
expected_state (obj expected) = if is_stated expected then some expected else none
expected_state _ = none

abbrev mappings_if_given : List String → Fields → Bool
mappings_if_given [] graph = true
mappings_if_given (k ∷ ks) graph =
    (not (has k graph) || is_mapping (get k graph)) && mappings_if_given ks graph

-- `_receipt_graph`; entries of other names are never read
unfoldable pub receipt_graph : Value → Option Fields
receipt_graph (obj graph) =
    if mappings_if_given
      ("authority" ∷ "workspace_transaction" ∷ "artifact" ∷ "executor" ∷ "validation" ∷ []) graph
    then some graph
    else none
receipt_graph _ = none

-- The count that is expected of `n` events; a negative one is never theirs.
abbrev pub expected_count : ℕ → Value → Option ℕ
expected_count n (num (pos m)) = some m
expected_count n (num (negsuc _)) = some (suc n)
expected_count n (bool true) = some 1
expected_count n (bool false) = some 0
expected_count n _ = none

-- A text that is expected, where one is.
abbrev pub expected_text : Value → Option String
expected_text (str s) = some s
expected_text _ = none
