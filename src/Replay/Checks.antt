-- ===== src/Replay/Checks.antt =====
-- What a replay compares: the events of the ledger and the receipts with the expected state.
use runtime_lab_core.Prelude.{String, Bool, true, false, ◌&&◌, ◌||◌, not, List, [], ◌∷◌, ◌++◌}
use runtime_lab_core.Json.{Value, null, Fields, get, has, is_str}
use runtime_lab_core.Json.Access.{fields_of}
use runtime_lab_core.Json.Equality.{same_value}
use runtime_lab_core.Ledger.{when}

-- `v is None`
abbrev pub is_none : Value → Bool
is_none null = true
is_none _ = false

-- The `checks` of `_event_binding_errors`.
abbrev pub event_checks : List (String × String)
event_checks =
    ("task_id", "REPLAY_TASK_BINDING_MISMATCH")
    ∷ ("descriptor_hash", "REPLAY_DESCRIPTOR_HASH_MISMATCH")
    ∷ ("authority_receipt_hash", "REPLAY_AUTHORITY_RECEIPT_MISMATCH")
    ∷ ("workspace_transaction_receipt_hash", "REPLAY_WORKSPACE_TRANSACTION_RECEIPT_MISMATCH")
    ∷ ("artifact_receipt_hash", "REPLAY_ARTIFACT_RECEIPT_MISMATCH")
    ∷ ("executor_receipt_hash", "REPLAY_EXECUTOR_RECEIPT_MISMATCH")
    ∷ ("validation_receipt_hash", "REPLAY_VALIDATION_RECEIPT_MISMATCH")
    ∷ []

-- `_first_mismatch` finds none
abbrev pub agrees : Value → Value → Bool
agrees actual expected = is_none expected || same_value actual expected

-- An event names nothing under the key that differs from what is expected.
abbrev pub event_agrees : String → Fields → Fields → Bool
event_agrees k event expected = not (has k event) || agrees (get k event) (get k expected)

abbrev pub event_errors : List (String × String) → Fields → Fields → List String
event_errors [] event expected = []
event_errors ((k, error) ∷ rest) event expected =
    when (not (event_agrees k event expected)) error ++ event_errors rest event expected

-- `_event_binding_errors`
unfoldable pub event_binding_errors : List Fields → Fields → List String
event_binding_errors [] expected = []
event_binding_errors (event ∷ events) expected =
    event_errors event_checks event expected ++ event_binding_errors events expected

abbrev pub has_type : String → List Fields → Bool
has_type kind [] = false
has_type kind (event ∷ events) = is_str (get "event_type" event) kind || has_type kind events

-- `not _missing_required_events`
unfoldable pub all_required : List String → List Fields → Bool
all_required [] events = true
all_required (kind ∷ kinds) events = has_type kind events && all_required kinds events

-- A line of `_graph_hash_errors`: a field of a receipt that is to be what the state expects, or that may
-- also be missing.
pub record GraphCheck : Type 0 where
  pub receipt : String
  pub entry : String
  pub expected : String
  pub optional : Bool
  pub error : String

abbrev strictly : String → String → String → String → GraphCheck
strictly receipt entry expected error = record {
  receipt = receipt;
  entry = entry;
  expected = expected;
  optional = false;
  error = error;
}

-- A field that has the same name in the expected state, and may be missing.
abbrev loosely : String → String → String → GraphCheck
loosely receipt entry error = record {
  receipt = receipt;
  entry = entry;
  expected = entry;
  optional = true;
  error = error;
}

-- The lines, in their order.
abbrev pub graph_checks : List GraphCheck
graph_checks =
    strictly "authority" "receipt_hash" "authority_receipt_hash" "REPLAY_AUTHORITY_RECEIPT_MISMATCH"
    ∷ loosely "authority" "task_id" "REPLAY_TASK_BINDING_MISMATCH"
    ∷ loosely "authority" "descriptor_hash" "REPLAY_DESCRIPTOR_HASH_MISMATCH"
    ∷ strictly "workspace_transaction" "transaction_hash" "workspace_transaction_receipt_hash"
        "REPLAY_WORKSPACE_TRANSACTION_RECEIPT_MISMATCH"
    ∷ loosely "workspace_transaction" "authority_receipt_hash" "REPLAY_AUTHORITY_RECEIPT_MISMATCH"
    ∷ loosely "workspace_transaction" "task_id" "REPLAY_TASK_BINDING_MISMATCH"
    ∷ loosely "workspace_transaction" "descriptor_hash" "REPLAY_DESCRIPTOR_HASH_MISMATCH"
    ∷ strictly "artifact" "receipt_hash" "artifact_receipt_hash" "REPLAY_ARTIFACT_RECEIPT_MISMATCH"
    ∷ loosely "artifact" "authority_receipt_hash" "REPLAY_AUTHORITY_RECEIPT_MISMATCH"
    ∷ loosely "artifact" "workspace_transaction_receipt_hash"
        "REPLAY_WORKSPACE_TRANSACTION_RECEIPT_MISMATCH"
    ∷ strictly "artifact" "content_hash" "artifact_content_hash"
        "REPLAY_ARTIFACT_CONTENT_HASH_MISMATCH"
    ∷ loosely "artifact" "task_id" "REPLAY_TASK_BINDING_MISMATCH"
    ∷ loosely "artifact" "descriptor_hash" "REPLAY_DESCRIPTOR_HASH_MISMATCH"
    ∷ strictly "executor" "receipt_hash" "executor_receipt_hash" "REPLAY_EXECUTOR_RECEIPT_MISMATCH"
    ∷ loosely "executor" "authority_receipt_hash" "REPLAY_AUTHORITY_RECEIPT_MISMATCH"
    ∷ loosely "executor" "workspace_transaction_receipt_hash"
        "REPLAY_WORKSPACE_TRANSACTION_RECEIPT_MISMATCH"
    ∷ loosely "executor" "artifact_receipt_hash" "REPLAY_ARTIFACT_RECEIPT_MISMATCH"
    ∷ strictly "executor" "content_hash" "executor_output_hash"
        "REPLAY_EXECUTOR_OUTPUT_HASH_MISMATCH"
    ∷ loosely "executor" "task_id" "REPLAY_TASK_BINDING_MISMATCH"
    ∷ loosely "executor" "descriptor_hash" "REPLAY_DESCRIPTOR_HASH_MISMATCH"
    ∷ record {
      receipt = "validation";
      entry = "receipt_hash";
      expected = "validation_receipt_hash";
      optional = true;
      error = "REPLAY_VALIDATION_RECEIPT_MISMATCH";
    }
    ∷ loosely "validation" "executor_receipt_hash" "REPLAY_EXECUTOR_RECEIPT_MISMATCH"
    ∷ []

-- The field that a check reads.
abbrev pub checked_field : GraphCheck → Fields → Value
checked_field check graph = get check.entry (fields_of (get check.receipt graph))

abbrev pub passes : GraphCheck → Fields → Fields → Bool
passes check graph expected =
    (check.optional && is_none (checked_field check graph))
    || same_value (checked_field check graph) (get check.expected expected)

-- `_graph_hash_errors`
unfoldable pub graph_errors : List GraphCheck → Fields → Fields → List String
graph_errors [] graph expected = []
graph_errors (check ∷ checks) graph expected =
    when (not (passes check graph expected)) check.error ++ graph_errors checks graph expected
