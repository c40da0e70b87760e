-- ===== src/Replay/Engine.antt =====
-- `replay_ledger_chain` and its receipt.
use runtime_lab_core.Prelude.{
  pos, String, Bool, true, false, not, Option, none, some, List, [], ◌∷◌, map, length, dedupe,
  is_empty, ◌==◌, ◌||◌, if◌then◌else◌,
}
use runtime_lab_core.Json.{Value, bool, num, str, obj, Fields, dict, get, set}
use runtime_lab_core.Json.Access.{has_any, as_string_list}
use runtime_lab_core.Hash.{Host}
use runtime_lab_core.Hash.Seal.{seal}
use runtime_lab_core.Ledger.{ChainReport, existing_ledger, validate_ledger_chain, last_or_genesis}
use runtime_lab_core.Replay.Input.{expected_state, receipt_graph, expected_count, expected_text}
use runtime_lab_core.Replay.Checks.{event_binding_errors, all_required, graph_checks, graph_errors}

-- What `_result` returns, without the flags that are always `False`.
pub record ReplayResult : Type 0 where
  pub accepted : Bool
  pub status : String
  pub rejection_codes : List String
  pub ledger_chain_hash : Option String
  pub receipt_graph : Option Fields
  pub receipt : Option Fields

abbrev pub rejected : List String → ReplayResult
rejected codes = record {
  accepted = false;
  status = "rejected";
  rejection_codes = dedupe codes;
  ledger_chain_hash = none;
  receipt_graph = none;
  receipt = none;
}

abbrev pub forbidden_request_fields : List String
forbidden_request_fields =
    "shell_command" ∷ "subprocess" ∷ "command" ∷ "tool_call" ∷ "tool_invocation" ∷ "llm_call"
    ∷ "llm_invocation" ∷ "network_endpoint" ∷ "http_request" ∷ "socket" ∷ "executor_dispatch"
    ∷ "workspace_mutation" ∷ "artifact_mutation" ∷ "ledger_mutation" ∷ "r120_seal" ∷ []

-- `LEDGER_REJECTION_MAP`, and the code of any other rejection
abbrev replay_code : String → String
replay_code code =
    if code == "LEDGER_EXPECTED_EVENT_COUNT_MISMATCH"
    then "REPLAY_EVENT_COUNT_MISMATCH"
    else if code == "LEDGER_EXPECTED_LEDGER_CHAIN_HASH_MISMATCH"
        || code == "LEDGER_EXPECTED_TERMINAL_EVENT_HASH_MISMATCH"
    then "REPLAY_LEDGER_HEAD_MISMATCH"
    else "REPLAY_LEDGER_INVALID"

-- `_graph_summary`
unfoldable pub graph_summary : Fields → Fields
graph_summary expected = dict (
    ("task_id", get "task_id" expected)
    ∷ ("descriptor_hash", get "descriptor_hash" expected)
    ∷ ("authority_receipt_hash", get "authority_receipt_hash" expected)
    ∷ ("workspace_transaction_receipt_hash", get "workspace_transaction_receipt_hash" expected)
    ∷ ("artifact_receipt_hash", get "artifact_receipt_hash" expected)
    ∷ ("executor_receipt_hash", get "executor_receipt_hash" expected)
    ∷ ("validation_receipt_hash", get "validation_receipt_hash" expected)
    ∷ ("artifact_content_hash", get "artifact_content_hash" expected)
    ∷ ("executor_output_hash", get "executor_output_hash" expected)
    ∷ [])

-- The `receipt` of `_accepted_receipt`, before its hash is set.
unfoldable pub receipt_body : Fields → List Fields → String → Value → Fields
receipt_body expected ledger chain_hash terminal = dict (
    ("schema_version", str "replay_receipt.v1")
    ∷ ("replay_engine", str "read_only_replay_v1")
    ∷ ("task_id", get "task_id" expected)
    ∷ ("descriptor_hash", get "descriptor_hash" expected)
    ∷ ("ledger_event_count", num (pos (length ledger)))
    ∷ ("ledger_chain_hash", str chain_hash)
    ∷ ("terminal_event_hash", terminal)
    ∷ ("authority_receipt_hash", get "authority_receipt_hash" expected)
    ∷ ("workspace_transaction_receipt_hash", get "workspace_transaction_receipt_hash" expected)
    ∷ ("artifact_receipt_hash", get "artifact_receipt_hash" expected)
    ∷ ("executor_receipt_hash", get "executor_receipt_hash" expected)
    ∷ ("validation_receipt_hash", get "validation_receipt_hash" expected)
    ∷ ("artifact_content_hash", get "artifact_content_hash" expected)
    ∷ ("executor_output_hash", get "executor_output_hash" expected)
    ∷ ("executor_redispatch_performed", bool false)
    ∷ ("workspace_mutation_performed", bool false)
    ∷ ("artifact_mutation_performed", bool false)
    ∷ ("ledger_mutation_performed", bool false)
    ∷ ("tool_invocation_performed", bool false)
    ∷ ("llm_invocation_performed", bool false)
    ∷ ("network_access_performed", bool false)
    ∷ ("r120_seal_performed", bool false)
    ∷ ("receipt_hash", str "")
    ∷ [])

abbrev text_or_none : Option String → String
text_or_none none = ""
text_or_none (some s) = s

module _ (h : Host) where
  -- `validate_ledger_chain` with the expectations of the state
  unfoldable pub chain_report : List Fields → Value → Fields → ChainReport
  chain_report events ledger expected =
      validate_ledger_chain h ledger
        (expected_count (length events) (get "expected_event_count" expected))
        (expected_text (get "expected_ledger_chain_hash" expected))
        (expected_text (get "expected_terminal_event_hash" expected))

  -- The end of a replay that is accepted.
  unfoldable pub replayed : List Fields → Fields → Option String → ReplayResult
  replayed events expected chain_hash = record {
    accepted = true;
    status = "replayed";
    rejection_codes = [];
    ledger_chain_hash = chain_hash;
    receipt_graph = some (graph_summary expected);
    receipt = some (
        seal h "receipt_hash"
          (receipt_body expected events (text_or_none chain_hash) (last_or_genesis events)));
  }

  -- The tests on the events, the state and the receipts, in their order.
  unfoldable pub replay_with : List Fields → Value → Fields → Fields → ReplayResult
  replay_with events ledger expected graph =
      let report = chain_report events ledger expected in
      if not report.accepted
      then rejected (map replay_code report.rejection_codes)
      else if not (all_required (as_string_list (get "required_event_types" expected)) events)
      then rejected ("REPLAY_REQUIRED_EVENT_MISSING" ∷ [])
      else if not (is_empty (event_binding_errors events expected))
      then rejected (event_binding_errors events expected)
      else if not (is_empty (graph_errors graph_checks graph expected))
      then rejected (graph_errors graph_checks graph expected)
      else replayed events expected report.ledger_chain_hash

  unfoldable pub replay_given :
      Value → Option (List Fields) → Option Fields → Option Fields → ReplayResult
  replay_given ledger none expected graph = rejected ("REPLAY_INPUT_MALFORMED" ∷ [])
  replay_given ledger (some events) none graph = rejected ("REPLAY_EXPECTED_STATE_MALFORMED" ∷ [])
  replay_given ledger (some events) (some expected) none = rejected ("REPLAY_INPUT_MALFORMED" ∷ [])
  replay_given ledger (some events) (some expected) (some graph) =
      replay_with events ledger expected graph

  unfoldable pub replay_ledger_chain : Value → ReplayResult
  replay_ledger_chain (obj request) =
      if has_any forbidden_request_fields request
      then rejected ("REPLAY_FORBIDDEN_FIELD" ∷ [])
      else replay_given (get "ledger" request) (existing_ledger (get "ledger" request))
          (expected_state (get "expected_state" request))
          (receipt_graph (get "receipt_graph" request))
  replay_ledger_chain _ = rejected ("REPLAY_INPUT_MALFORMED" ∷ [])

  unfoldable pub validate_replay_against_expected_state : Value → Value → ReplayResult
  validate_replay_against_expected_state (obj request) expected =
      replay_ledger_chain (obj (set "expected_state" expected request))
  validate_replay_against_expected_state _ expected = rejected ("REPLAY_INPUT_MALFORMED" ∷ [])
