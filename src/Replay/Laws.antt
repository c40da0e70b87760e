-- ===== src/Replay/Laws.antt =====
-- What a replay that is accepted has shown.
use mathlib.Core.Bool.{false≢true}
use mathlib.Core.Path.{subst}
use runtime_lab_core.Prelude.{
  ℕ, String, ◌≡◌, refl, sym, ◌∙◌, ap, Bool, true, false, if◌then◌else◌, &&-eq-true, Bool-cases, inl,
  inr, Option, none, some, List, [], ◌++◌, length, is_empty, All, arith,
}
use runtime_lab_core.Json.{Value, obj, Fields, get}
use runtime_lab_core.Json.Access.{has_any, as_string_list}
use runtime_lab_core.Hash.{Host}
use runtime_lab_core.Ledger.{
  existing_ledger, chain_codes, expectation_codes, ledger_chain_hash, validate_ledger_chain,
}
use runtime_lab_core.Ledger.Laws.{IsChain, chain_codes_iff, is_empty-append}
use runtime_lab_core.Replay.Input.{expected_state, receipt_graph, expected_count, expected_text}
use runtime_lab_core.Replay.Checks.{event_binding_errors, all_required, graph_checks, graph_errors}
use runtime_lab_core.Replay.Matched.{NamesNothingElse, IsMatched, passes-IsMatched}
use runtime_lab_core.Replay.Engine.{
  ReplayResult, chain_report, replay_with, replay_given, replay_ledger_chain,
  forbidden_request_fields,
}
use runtime_lab_core.Replay.Errors.{event_binding_errors-IsBound, graph_errors-passes}
use runtime_lab_core.Replay.Evidence.{IsEvidence, replayed-IsEvidence}

module _ (h : Host) where
  -- An accepted report is of a chain, whatever was expected of it beside, and names its hash.
  validate_ledger_chain-IsChain :
      (ledger : Value) (events : List Fields) (count : Option ℕ) (chain terminal : Option String)
      → existing_ledger ledger ≡ some events
      → (validate_ledger_chain h ledger count chain terminal).accepted ≡ true
      → IsChain h [] "GENESIS" events
        × (is_empty
              (expectation_codes events (some (ledger_chain_hash h events)) count chain terminal)
            ≡ true)
        × ((validate_ledger_chain h ledger count chain terminal).ledger_chain_hash
            ≡ some (ledger_chain_hash h events))
  unfolding validate_ledger_chain
  validate_ledger_chain-IsChain ledger events count chain terminal given accepted =
      let codes = chain_codes h 0 [] "GENESIS" events in
      let found : Option String =
        if is_empty codes then some (ledger_chain_hash h events) else none in
      let others = expectation_codes events found count chain terminal in
      let clear : is_empty (codes ++ others) ≡ true =
        rw (given, validate_ledger_chain) at accepted in
      let (none_of_chain, none_of_others) =
        &&-eq-true (is_empty codes) (is_empty others)
          (sym (is_empty-append codes others) ∙ clear) in
      (
        (chain_codes_iff h 0 [] "GENESIS" events).0 none_of_chain,
        subst
            (λ (found : Option String).
              is_empty (expectation_codes events found count chain terminal) ≡ true)
            (ap (λ (b : Bool). if b then some (ledger_chain_hash h events) else none) none_of_chain)
            none_of_others,
        rw (given, validate_ledger_chain) (rw (clear, none_of_chain) refl),
      )

  -- The length, the hash and the last event of a chain are those that the state expects, as far as it does.
  abbrev pub Meets : Fields → List Fields → Type 0
  Meets expected events =
      is_empty (
        expectation_codes events (some (ledger_chain_hash h events))
          (expected_count (length events) (get "expected_event_count" expected))
          (expected_text (get "expected_ledger_chain_hash" expected))
          (expected_text (get "expected_terminal_event_hash" expected)))
      ≡ true

  -- What the request, the state and the receipts show together.
  pub record IsReplayed (request : Fields) : Type 0 where
    pub clean : has_any forbidden_request_fields request ≡ false
    pub events : List Fields
    pub carried : existing_ledger (get "ledger" request) ≡ some events
    pub chained : IsChain h [] "GENESIS" events
    pub expected : Fields
    pub stated : expected_state (get "expected_state" request) ≡ some expected
    pub as_expected : Meets expected events
    pub required : all_required (as_string_list (get "required_event_types" expected)) events ≡ true
    pub bound : All (NamesNothingElse expected) events
    pub graph : Fields
    pub given : receipt_graph (get "receipt_graph" request) ≡ some graph
    pub matched : IsMatched graph expected

  -- A replay that goes through: its chain, its tests, and the result.
  pub record Passes (events : List Fields) (ledger : Value) (expected graph : Fields) : Type 0 where
    pub reported : (chain_report h events ledger expected).accepted ≡ true
    pub required : all_required (as_string_list (get "required_event_types" expected)) events ≡ true
    pub bound : is_empty (event_binding_errors events expected) ≡ true
    pub matched : is_empty (graph_errors graph_checks graph expected) ≡ true

  replay_with-Passes :
      (events : List Fields) (ledger : Value) (expected graph : Fields)
      → (replay_with h events ledger expected graph).accepted ≡ true
      → Passes events ledger expected graph
  unfolding replay_with
  replay_with-Passes events ledger expected graph e = record {
    reported = ground (arith, e);
    required = ground (arith, e);
    bound = ground (arith, e);
    matched = ground (arith, e);
  }

  -- What comes of the result.
  pub HasEvidence : (events : List Fields) (expected : Fields) (outcome : ReplayResult) → Type 0
  HasEvidence events expected outcome =
      (receipt : Fields) × (outcome.receipt ≡ some receipt) × IsEvidence h events expected receipt

  replay_with-HasEvidence :
      (events : List Fields) (ledger : Value) (expected graph : Fields)
      → existing_ledger ledger ≡ some events
      → Passes events ledger expected graph
      → HasEvidence events expected (replay_with h events ledger expected graph)
  unfolding replay_with HasEvidence chain_report
  replay_with-HasEvidence events ledger expected graph given passed =
      let (_, _, named) = validate_ledger_chain-IsChain ledger events _ _ _ given passed.reported in
      rw (passed.reported, passed.required, passed.bound, passed.matched, named)
        (replayed-IsEvidence h events expected)

  -- The parts of a request that is accepted.
  replay_given-parts :
      (ledger : Value) (events : Option (List Fields)) (expected graph : Option Fields)
      → (replay_given h ledger events expected graph).accepted ≡ true
      → (es : List Fields) × (s : Fields) × (g : Fields) × (events ≡ some es)
        × (expected ≡ some s)
        × (graph ≡ some g)
  unfolding replay_given
  replay_given-parts ledger none expected graph e = absurd cc
  replay_given-parts ledger (some es) none graph e = absurd cc
  replay_given-parts ledger (some es) (some s) none e = absurd cc
  replay_given-parts ledger (some es) (some s) (some g) e = (es, s, g, refl, refl, refl)

  replay_ledger_chain-given :
      (request : Fields)
      → (replay_ledger_chain h (obj request)).accepted ≡ true
      → (has_any forbidden_request_fields request ≡ false)
        × (replay_ledger_chain h (obj request)
            ≡ replay_given h
                (get "ledger" request)
                (existing_ledger (get "ledger" request))
                (expected_state (get "expected_state" request))
                (receipt_graph (get "receipt_graph" request)))
  unfolding replay_ledger_chain
  replay_ledger_chain-given request e =
      elim (Bool-cases (has_any forbidden_request_fields request)) [
        | inl forbidden ↦ absurd (false≢true (rw (forbidden, replay_ledger_chain) at e))
        | inr clean ↦ (clean, rw (clean, replay_ledger_chain) refl)
      ]

  pub replay_ledger_chain-IsReplayed :
      (request : Fields)
      → (replay_ledger_chain h (obj request)).accepted ≡ true
      → (shown : IsReplayed request) × HasEvidence shown.events shown.expected
          (replay_ledger_chain h (obj request))
  unfolding replay_given chain_report
  replay_ledger_chain-IsReplayed request e =
      let ledger = get "ledger" request in
      let (clean, run) = replay_ledger_chain-given request e in
      let as_given = ap (λ (o : ReplayResult). o.accepted) (sym run) ∙ e in
      let (events, expected, graph, carried, stated, given) =
        replay_given-parts ledger (existing_ledger ledger)
          (expected_state (get "expected_state" request))
          (receipt_graph (get "receipt_graph" request)) as_given in
      let passed =
        replay_with-Passes events ledger expected graph
          (rw (carried, stated, given, replay_given) at as_given) in
      let (chained, as_expected, _) =
        validate_ledger_chain-IsChain ledger events _ _ _ carried passed.reported in
      (
        record {
          clean = clean;
          events = events;
          carried = carried;
          chained = chained;
          expected = expected;
          stated = stated;
          as_expected = as_expected;
          required = passed.required;
          bound = event_binding_errors-IsBound events expected passed.bound;
          graph = graph;
          given = given;
          matched =
              passes-IsMatched graph expected
                (graph_errors-passes graph_checks graph expected passed.matched);
        },
        subst (HasEvidence events expected)
            (sym (run ∙ rw (carried, stated, given, replay_given) refl))
            (replay_with-HasEvidence events ledger expected graph carried passed),
      )
