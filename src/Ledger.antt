-- ===== src/Ledger.antt =====
-- runtime_lab/ledger/__init__.py: the append-only event ledger. `canonical_hash` and `str` are those of the Host.
pub mod Event
pub mod Laws
pub mod Structure
pub mod Stored
pub mod Append
use runtime_lab_core.Prelude.{
  ℕ, suc, pos, String, Bool, true, false, ◌&&◌, ◌||◌, not, Option, none, some, List, [], ◌∷◌, ◌++◌,
  map, length, contains, dedupe, is_empty, is_nonempty, starts_with, lookup, if◌then◌else◌, ◌==◌,
  ◌=ℕ=◌, ◌<>◌,
}
use runtime_lab_core.Json.{
  Value, null, bool, num, str, arr, obj, Items, nil, cons, Fields, end, field, dict, array, get,
  pop, set, keys, is_str, is_text,
}
use runtime_lab_core.Hash.{Host, canonical_hash, is_hash}
use runtime_lab_core.Ledger.Event.{event_structure_error}

-- `[code] if code else []`
abbrev pub codes_of : Option String → List String
codes_of none = []
codes_of (some code) = code ∷ []

abbrev events_of : Items → Option (List Fields)
events_of nil = some []
events_of (cons (obj e) vs) = elim (events_of vs) [ none ↦ none | some es ↦ some (e ∷ es) ]
events_of (cons _ vs) = none

-- `_existing_ledger`
unfoldable pub existing_ledger : Value → Option (List Fields)
existing_ledger (arr vs) = events_of vs
existing_ledger _ = none

-- A ledger as the value that a caller passes.
unfoldable pub as_value : List Fields → Value
as_value events = arr (array (map obj events))

-- The ids seen, with that of the event if it is a text.
abbrev pub saw : Value → List String → List String
saw (str id) seen = id ∷ seen
saw _ seen = seen

abbrev pub is_duplicate : Value → List String → Bool
is_duplicate (str id) seen = contains seen id
is_duplicate _ seen = false

-- `if test: codes.append(code)`
abbrev pub when : Bool → String → List String
when test code = if test then code ∷ [] else []

abbrev pub non_execution_flags : Fields
non_execution_flags = dict (
    ("replay_engine_performed", bool false)
    ∷ ("executor_invocation_performed", bool false)
    ∷ ("tool_invocation_performed", bool false)
    ∷ ("llm_invocation_performed", bool false)
    ∷ ("network_access_performed", bool false)
    ∷ [])

-- `_chain_report`
pub record ChainReport : Type 0 where
  pub accepted : Bool
  pub status : String
  pub rejection_codes : List String
  pub ledger_chain_hash : Option String
  pub flags : Fields

-- `_base_result`
pub record AppendResult : Type 0 where
  pub accepted : Bool
  pub status : String
  pub rejection_codes : List String
  pub event : Option Fields
  pub receipt : Option Fields
  pub ledger : Option (List Fields)
  pub flags : Fields

abbrev pub reject_append : String → AppendResult
reject_append code = record {
  accepted = false;
  status = "rejected";
  rejection_codes = dedupe (code ∷ []);
  event = none;
  receipt = none;
  ledger = none;
  flags = non_execution_flags;
}

-- `isinstance(provided, str) and provided.startswith("sha256:")`
abbrev has_hash_prefix : Value → Bool
has_hash_prefix (str s) = starts_with s "sha256:"
has_hash_prefix _ = false

-- `existing.get("event_id") == event_map["event_id"]`, the latter being a text by then
abbrev pub same_id : Value → Value → Bool
same_id found (str id) = is_str found id
same_id found _ = false

abbrev pub any_same_id : Value → List Fields → Bool
any_same_id id [] = false
any_same_id id (e ∷ es) = same_id (get "event_id" e) id || any_same_id id es

-- `supplied_previous != expected_previous`, the former being a text by then
unfoldable pub differs : Value → Value → Bool
differs (str supplied) expected = not (is_str expected supplied)
differs _ expected = true

abbrev pub last_or_genesis : List Fields → Value
last_or_genesis [] = str "GENESIS"
last_or_genesis (e ∷ []) = get "event_hash" e
last_or_genesis (_ ∷ (e ∷ r)) = last_or_genesis (e ∷ r)

-- The codes of the three expectations, after the loop.
abbrev pub expectation_codes :
    List Fields → Option String → Option ℕ → Option String → Option String → List String
expectation_codes events chain_hash count chain terminal =
    elim count [
      | none ↦ []
      | some n ↦ when (not (length events =ℕ= n)) "LEDGER_EXPECTED_EVENT_COUNT_MISMATCH"
    ]
    ++ (elim chain [
      | none ↦ []
      | some expected ↦
          when (elim chain_hash [ none ↦ true | some found ↦ not (found == expected) ])
            "LEDGER_EXPECTED_LEDGER_CHAIN_HASH_MISMATCH"
    ]
        ++ elim terminal [
          | none ↦ []
          | some expected ↦
              when (not (is_str (last_or_genesis events) expected))
                "LEDGER_EXPECTED_TERMINAL_EVENT_HASH_MISMATCH"
        ])

module _ (h : Host) where
  unfoldable pub canonical_event_hash : Fields → String
  canonical_event_hash event = canonical_hash h (obj (pop "event_hash" event))

  unfoldable pub ledger_chain_hash : List Fields → String
  ledger_chain_hash events = canonical_hash h (
      obj (
        dict (
          ("schema_version", str "ledger_chain.v1")
          ∷ ("event_hashes", arr (array (map (get "event_hash") events)))
          ∷ [])))

  -- One round of the loop of `validate_ledger_chain`: the codes that it adds.
  unfoldable pub event_codes : List String → String → Fields → List String
  event_codes seen previous event =
      when (is_duplicate (get "event_id" event) seen) "LEDGER_DUPLICATE_EVENT_ID"
      ++ (codes_of (event_structure_error event)
          ++ (when (not (is_str (get "previous_event_hash" event) previous))
                "LEDGER_CHAIN_DISCONTINUITY"
              ++ (if not (is_hash (get "event_hash" event))
                  then "LEDGER_EVENT_HASH_MISMATCH" ∷ []
                  else when (not (is_str (get "event_hash" event) (canonical_event_hash event)))
                      "LEDGER_EVENT_HASH_MISMATCH")))

  -- `provided_hash if isinstance(provided_hash, str) else f"invalid:{index}"`
  abbrev pub next_previous : ℕ → Value → String
  next_previous index (str s) = s
  next_previous index _ = "invalid:" <> h.to_str (num (pos index))

  -- The loop, from the event of number `index` on.
  unfoldable pub chain_codes : ℕ → List String → String → List Fields → List String
  chain_codes index seen previous [] = []
  chain_codes index seen previous (event ∷ events) =
      event_codes seen previous event
      ++ chain_codes (suc index) (saw (get "event_id" event) seen)
          (next_previous index (get "event_hash" event)) events

  abbrev chain_report : List String → Option String → ChainReport
  chain_report codes chain_hash = record {
    accepted = is_empty codes;
    status = if is_empty codes then "valid" else "rejected";
    rejection_codes = dedupe codes;
    ledger_chain_hash = if is_empty codes then chain_hash else none;
    flags = non_execution_flags;
  }

  unfoldable pub validate_ledger_chain :
      Value → Option ℕ → Option String → Option String → ChainReport
  validate_ledger_chain ledger count chain terminal = elim (existing_ledger ledger) [
    | none ↦ chain_report ("LEDGER_CHAIN_MALFORMED" ∷ []) none
    | some events ↦
        let codes = chain_codes 0 [] "GENESIS" events in
        let chain_hash = if is_empty codes then some (ledger_chain_hash events) else none in
        chain_report (codes ++ expectation_codes events chain_hash count chain terminal) chain_hash
  ]

  -- The `dict` literal of `_append_receipt`, before its hash is set: `receipt_hash` is not in the payload.
  unfoldable pub append_receipt_body : Fields → ℕ → String → Fields
  append_receipt_body event event_index chain_hash = dict (
      ("schema_version", str "ledger_append_receipt.v1")
      ∷ ("event_id", get "event_id" event)
      ∷ ("event_type", get "event_type" event)
      ∷ ("event_index", num (pos event_index))
      ∷ ("event_hash", get "event_hash" event)
      ∷ ("previous_event_hash", get "previous_event_hash" event)
      ∷ ("ledger_chain_hash", str chain_hash)
      ∷ ("task_id", get "task_id" event)
      ∷ ("descriptor_hash", get "descriptor_hash" event)
      ∷ ("authority_receipt_hash", get "authority_receipt_hash" event)
      ∷ ("workspace_transaction_receipt_hash", get "workspace_transaction_receipt_hash" event)
      ∷ ("artifact_receipt_hash", get "artifact_receipt_hash" event)
      ∷ ("executor_receipt_hash", get "executor_receipt_hash" event)
      ∷ ("validation_receipt_hash", get "validation_receipt_hash" event)
      ∷ ("replay_engine_performed", bool false)
      ∷ ("executor_invocation_performed", bool false)
      ∷ ("tool_invocation_performed", bool false)
      ∷ ("llm_invocation_performed", bool false)
      ∷ ("network_access_performed", bool false)
      ∷ ("receipt_hash", str "")
      ∷ [])

  unfoldable pub append_receipt : Fields → ℕ → String → Fields
  append_receipt event event_index chain_hash =
      let receipt = append_receipt_body event event_index chain_hash in
      set "receipt_hash" (str (canonical_hash h (obj (pop "receipt_hash" receipt)))) receipt

  unfoldable pub verify_ledger_append_receipt : Value → Bool
  verify_ledger_append_receipt (obj receipt) =
      has_hash_prefix (get "receipt_hash" receipt)
      && is_str (get "receipt_hash" receipt) (canonical_hash h (obj (pop "receipt_hash" receipt)))
  verify_ledger_append_receipt _ = false

  -- The part of `append_event` after its checks.
  unfoldable pub appended : List Fields → Fields → AppendResult
  appended events event =
      let event_map = set "event_hash" (str (canonical_event_hash event)) event in
      let next_ledger = events ++ (event_map ∷ []) in
      record {
        accepted = true;
        status = "appended";
        rejection_codes = [];
        event = some event_map;
        receipt = some (append_receipt event_map (length events) (ledger_chain_hash next_ledger));
        ledger = some next_ledger;
        flags = non_execution_flags;
      }

  -- The checks on the event, for a ledger that is empty or valid.
  unfoldable pub append_checked : List Fields → Fields → AppendResult
  append_checked events event = elim (event_structure_error event) [
    | some code ↦ reject_append code
    | none ↦
        if any_same_id (get "event_id" event) events
        then reject_append "LEDGER_DUPLICATE_EVENT_ID"
        else if not (is_text (get "previous_event_hash" event))
        then reject_append "LEDGER_PREVIOUS_EVENT_HASH_REQUIRED"
        else if differs (get "previous_event_hash" event) (last_or_genesis events)
        then reject_append "LEDGER_PREVIOUS_EVENT_HASH_MISMATCH"
        else appended events event
  ]

  unfoldable pub append_event : Value → Value → AppendResult
  append_event ledger (obj event) = elim (existing_ledger ledger) [
    | none ↦ reject_append "LEDGER_EVENT_MALFORMED"
    | some events ↦
        if not (is_empty events) && not (validate_ledger_chain ledger none none none).accepted
        then reject_append "LEDGER_CHAIN_INVALID"
        else append_checked events event
  ]
  append_event ledger _ = reject_append "LEDGER_EVENT_MALFORMED"
