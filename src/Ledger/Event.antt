-- ===== src/Ledger/Event.antt =====
-- runtime_lab/ledger/__init__.py, `_event_structure_error` and its tables: which events are well formed.
use runtime_lab_core.Prelude.{
  String, Bool, true, false, ◌&&◌, ◌||◌, not, Option, none, some, List, [], ◌∷◌, contains, lookup,
  if◌then◌else◌, ◌==◌,
}
use runtime_lab_core.Json.{Value, str, Fields, get, keys, is_str, is_text}
use runtime_lab_core.Hash.{is_hash}

abbrev allowed_event_types : List String
allowed_event_types =
    "task_admitted" ∷ "authority_bound" ∷ "workspace_transaction_prepared" ∷ "artifact_registered"
    ∷ "executor_started" ∷ "executor_completed" ∷ "validation_completed" ∷ []

unfoldable pub base_event_fields : List String
base_event_fields =
    "schema_version" ∷ "event_id" ∷ "event_type" ∷ "previous_event_hash" ∷ "task_id"
    ∷ "descriptor_hash" ∷ "authority_receipt_hash" ∷ "workspace_transaction_receipt_hash"
    ∷ "artifact_receipt_hash" ∷ "executor_receipt_hash" ∷ "validation_receipt_hash" ∷ "event_hash"
    ∷ []

unfoldable pub forbidden_event_fields : List String
forbidden_event_fields =
    "shell_command" ∷ "subprocess" ∷ "command" ∷ "tool_call" ∷ "tool_invocation" ∷ "llm_call"
    ∷ "llm_invocation" ∷ "network_endpoint" ∷ "http_request" ∷ "socket" ∷ "replay_engine"
    ∷ "executor_dispatch" ∷ "arbitrary_action" ∷ []

unfoldable pub event_required_receipt_hashes : List (String × List String)
event_required_receipt_hashes =
    ("task_admitted", "authority_receipt_hash" ∷ [])
    ∷ ("authority_bound", "authority_receipt_hash" ∷ [])
    ∷ (
      "workspace_transaction_prepared",
      "authority_receipt_hash" ∷ "workspace_transaction_receipt_hash" ∷ [],
    )
    ∷ (
      "artifact_registered",
      "authority_receipt_hash" ∷ "workspace_transaction_receipt_hash" ∷ "artifact_receipt_hash"
          ∷ [],
    )
    ∷ (
      "executor_started",
      "authority_receipt_hash" ∷ "workspace_transaction_receipt_hash" ∷ "artifact_receipt_hash"
          ∷ "executor_receipt_hash" ∷ [],
    )
    ∷ (
      "executor_completed",
      "authority_receipt_hash" ∷ "workspace_transaction_receipt_hash" ∷ "artifact_receipt_hash"
          ∷ "executor_receipt_hash" ∷ [],
    )
    ∷ (
      "validation_completed",
      "authority_receipt_hash" ∷ "workspace_transaction_receipt_hash" ∷ "artifact_receipt_hash"
          ∷ "executor_receipt_hash" ∷ "validation_receipt_hash" ∷ [],
    )
    ∷ []

-- `FORBIDDEN_EVENT_FIELDS & set(event)` is not empty
abbrev pub any_forbidden : List String → Bool
any_forbidden [] = false
any_forbidden (k ∷ ks) = contains forbidden_event_fields k || any_forbidden ks

-- `set(event) - BASE_EVENT_FIELDS` is not empty
abbrev pub any_unknown : List String → Bool
any_unknown [] = false
any_unknown (k ∷ ks) = not (contains base_event_fields k) || any_unknown ks

-- The loop over `required_strings`.
abbrev pub required_error : Fields → List String → Option String
required_error event [] = none
required_error event (k ∷ ks) =
    let rest = required_error event ks in
    if is_text (get k event)
    then rest
    else if k == "previous_event_hash"
    then some "LEDGER_PREVIOUS_EVENT_HASH_REQUIRED"
    else some "LEDGER_EVENT_MALFORMED"

unfoldable pub required_strings : List String
required_strings =
    "schema_version" ∷ "event_id" ∷ "event_type" ∷ "previous_event_hash" ∷ "task_id"
    ∷ "descriptor_hash" ∷ []

-- `all(_is_hash(event.get(field)) for field in fields)`, as the last loop tests it
abbrev pub all_hashes : Fields → List String → Bool
all_hashes event [] = true
all_hashes event (k ∷ ks) = is_hash (get k event) && all_hashes event ks

-- The fields that `EVENT_REQUIRED_RECEIPT_HASHES` names for an event's type.
unfoldable pub required_receipts : Value → List String
required_receipts (str event_type) = elim (lookup event_type event_required_receipt_hashes) [
  | none ↦ []
  | some ks ↦ ks
]
required_receipts _ = []

unfoldable pub is_allowed_type : Value → Bool
is_allowed_type (str event_type) = contains allowed_event_types event_type
is_allowed_type _ = false

-- What stands after the loop over `required_strings`.
unfoldable pub type_error : Fields → Option String
type_error event =
    if not (is_str (get "schema_version" event) "ledger_event.v1")
    then some "LEDGER_EVENT_MALFORMED"
    else if not (is_allowed_type (get "event_type" event))
    then some "LEDGER_EVENT_TYPE_NOT_ALLOWED"
    else if not (is_hash (get "descriptor_hash" event))
    then some "LEDGER_EVENT_MALFORMED"
    else if not (all_hashes event (required_receipts (get "event_type" event)))
    then some "LEDGER_REQUIRED_RECEIPT_HASH_MISSING"
    else none

unfoldable pub event_structure_error : Fields → Option String
event_structure_error event =
    if any_forbidden (keys event)
    then some "LEDGER_FORBIDDEN_FIELD"
    else if any_unknown (keys event)
    then some "LEDGER_FORBIDDEN_FIELD"
    else elim (required_error event required_strings) [
      | some code ↦ some code
      | none ↦ type_error event
    ]
