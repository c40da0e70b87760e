-- ===== src/Tests/Ledger.antt =====
-- The event ledger at concrete events.
use runtime_lab_core.Prelude.{
  ◌==◌, String, ◌≡◌, ◌↔◌, refl, true, false, none, some, List, [], ◌∷◌, ◌++◌, is_empty,
}
use runtime_lab_core.Json.{str, obj, Fields, dict, get, keys}
use runtime_lab_core.Hash.{is_hash}
use runtime_lab_core.Hash.Chain.{Agrees}
use runtime_lab_core.Ledger.Event.{
  event_structure_error, base_event_fields, forbidden_event_fields, required_strings,
  is_allowed_type, required_receipts, event_required_receipt_hashes, type_error,
}
use runtime_lab_core.Ledger.{
  as_value, existing_ledger, validate_ledger_chain, append_event, append_checked, appended, differs,
  verify_ledger_append_receipt,
}
use runtime_lab_core.Ledger.Laws.{IsChain, validate_ledger_chain_iff, validate_ledger_chain_unique}
use runtime_lab_core.Ledger.Stored.{stored}
use runtime_lab_core.Ledger.Append.{
  IsAppendable, append_event_iff, append_event-ledger, append_event-refused,
}
use runtime_lab_core.Tests.Fixtures.{host, host_with-IsReadBack}

abbrev pub hash : String
hash = "sha256:0123456789abcdef0123456789abcdef0123456789abcdef0123456789abcdef"

abbrev admitted : Fields
admitted = dict (
    ("schema_version", str "ledger_event.v1")
    ∷ ("event_id", str "event-1")
    ∷ ("event_type", str "task_admitted")
    ∷ ("previous_event_hash", str "GENESIS")
    ∷ ("task_id", str "task-1")
    ∷ ("descriptor_hash", str hash)
    ∷ ("authority_receipt_hash", str hash)
    ∷ [])

-- The ledger with the event alone.
abbrev pub one_event : List Fields
one_event = stored host admitted ∷ []

append-accepted : (append_event host (as_value []) (obj admitted)).accepted ≡ true
unfolding append_event append_checked appended existing_ledger as_value event_structure_error
    base_event_fields forbidden_event_fields required_strings is_allowed_type required_receipts
    event_required_receipt_hashes type_error differs get keys is_hash ◌==◌
append-accepted = refl

append_event-ledger_example :
    ((append_event host (as_value []) (obj admitted)).ledger
      ≡ some ([] ++ (stored host admitted ∷ [])))
    × ((validate_ledger_chain host
          (as_value ([] ++ (stored host admitted ∷ [])))
          none
          none
          none).accepted
        ≡ true)
    × ((receipt : Fields) × ((append_event host (as_value []) (obj admitted)).receipt
          ≡ some receipt)
        × (verify_ledger_append_receipt host (obj receipt) ≡ true))
append_event-ledger_example = append_event-ledger host [] admitted append-accepted

one_event-accepted :
    (validate_ledger_chain host (as_value one_event) none none none).accepted ≡ true
one_event-accepted = (append_event-ledger host [] admitted append-accepted).1

append_event_iff_example :
    ((append_event host (as_value []) (obj admitted)).accepted ≡ true)
    ↔ ((e : Fields) × (obj admitted ≡ obj e) × IsAppendable host [] e)
append_event_iff_example = append_event_iff host [] (obj admitted)

validate_ledger_chain_iff_example :
    ((validate_ledger_chain host (as_value one_event) none none none).accepted ≡ true)
    ↔ IsChain host [] "GENESIS" one_event
validate_ledger_chain_iff_example = validate_ledger_chain_iff host one_event

validate_ledger_chain_unique_example :
    Agrees host "event_hash" "previous_event_hash" one_event one_event
validate_ledger_chain_unique_example =
    validate_ledger_chain_unique host one_event one_event
      (host_with-IsReadBack "previous_event_hash") one_event-accepted one_event-accepted refl

-- An event that asks for a command.
abbrev with_command : Fields
with_command = Fields.field "command" (str "rm") admitted

append-refused : (append_event host (as_value []) (obj with_command)).accepted ≡ false
unfolding append_event append_checked existing_ledger as_value event_structure_error
    forbidden_event_fields keys ◌==◌
append-refused = refl

append_event-refused_example :
    ((append_event host (as_value []) (obj with_command)).event ≡ none)
    × ((append_event host (as_value []) (obj with_command)).receipt ≡ none)
    × ((append_event host (as_value []) (obj with_command)).ledger ≡ none)
    × (is_empty (append_event host (as_value []) (obj with_command)).rejection_codes ≡ false)
append_event-refused_example =
    append_event-refused host (as_value []) (obj with_command) append-refused
