-- ===== src/AgentLoop/ReceiptLedger.antt =====
-- runtime_lab/agent_loop/ledger.py: the hash-linked list of receipt hashes.
pub mod Laws
use runtime_lab_core.Prelude.{ℕ, suc, pos, String, Bool, true, ◌&&◌, List, [], ◌∷◌}
use runtime_lab_core.Json.{str, num, obj, Fields, dict, get, pop, set, is_str}
use runtime_lab_core.Hash.{Host, canonical_hash}

module _ (h : Host) where
  -- The `dict` literal of an event, before its hash is set.
  abbrev pub event_body : String → ℕ → String → String → Fields
  event_body run_id index receipt_hash previous = dict (
      ("schema_version", str "1.0")
      ∷ ("ledger_version", str "agent_loop_ledger.v0")
      ∷ ("run_id", str run_id)
      ∷ ("sequence", num (pos index))
      ∷ ("event_type", str "agent_loop.receipt_recorded")
      ∷ ("receipt_hash", str receipt_hash)
      ∷ ("previous_event_hash", str previous)
      ∷ [])

  -- The loop of `build_ledger_events`, from the receipt of number `index` on.
  unfoldable pub build_from : String → ℕ → String → List String → List Fields
  build_from run_id index previous [] = []
  build_from run_id index previous (receipt_hash ∷ rest) =
      let event = event_body run_id index receipt_hash previous in
      let event_hash = canonical_hash h (obj event) in
      set "event_hash" (str event_hash) event ∷ build_from run_id (suc index) event_hash rest

  unfoldable pub build_ledger_events : String → List String → List Fields
  unfolding build_from
  build_ledger_events run_id receipt_hashes = build_from run_id 1 "GENESIS" receipt_hashes

  -- The tests of one round of `verify_ledger_events`.
  unfoldable pub event_verifies : String → Fields → Bool
  event_verifies previous event =
      let expected = pop "event_hash" event in
      is_str (get "previous_event_hash" expected) previous
      && is_str (get "event_hash" event) (canonical_hash h (obj expected))

  unfoldable pub verify_from : String → List Fields → Bool
  unfolding event_verifies
  verify_from previous [] = true
  verify_from previous (event ∷ events) =
      event_verifies previous event && verify_from (h.to_str (get "event_hash" event)) events

  unfoldable pub verify_ledger_events : List Fields → Bool
  unfolding verify_from
  verify_ledger_events events = verify_from "GENESIS" events
