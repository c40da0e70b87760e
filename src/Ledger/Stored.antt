-- ===== src/Ledger/Stored.antt =====
-- What `append_event` stores, and what it tests before.
use runtime_lab_core.Prelude.{
  ℕ, String, ◌≡◌, refl, sym, ◌∙◌, ap, true, false, none, List, ◌==◌, ==_refl, arith,
}
use runtime_lab_core.Json.{
  Value, null, bool, num, str, arr, obj, Fields, get, pop, set, is_str-eq, get-set, pop-set,
}
use runtime_lab_core.Hash.{Host, canonical_hash, starts_with-canonical_hash}
use runtime_lab_core.Ledger.Event.{event_structure_error}
use runtime_lab_core.Ledger.{
  is_duplicate, any_same_id, differs, canonical_event_hash, last_or_genesis, append_receipt_body,
  append_receipt, verify_ledger_append_receipt, appended, append_checked,
}
use runtime_lab_core.Ledger.Structure.{get-set_ne, event_structure_error-set}
use runtime_lab_core.Ledger.Laws.{IsNext}

module _ (h : Host) where
  -- The event that `append_event` stores.
  abbrev pub stored : Fields → Fields
  stored event = set "event_hash" (str (canonical_event_hash h event)) event

  canonical_event_hash-stored :
      (e : Fields) → canonical_event_hash h (stored e) ≡ canonical_event_hash h e
  unfolding canonical_event_hash
  canonical_event_hash-stored e = rw (pop-set "event_hash" (str (canonical_event_hash h e)) e) refl

  pub stored-IsNext :
      (seen : List String) (previous : String) (e : Fields)
      → is_duplicate (get "event_id" e) seen ≡ false
      → event_structure_error e ≡ none
      → get "previous_event_hash" e ≡ str previous
      → IsNext h seen previous (stored e)
  unfolding ◌==◌
  stored-IsNext seen previous e fresh structured linked =
      let hash = str (canonical_event_hash h e) in
      record {
        new_id = rw (get-set_ne "event_id" "event_hash" hash e refl) fresh;
        structured = event_structure_error-set hash e ∙ structured;
        linked = get-set_ne "previous_event_hash" "event_hash" hash e refl ∙ linked;
        hashed =
            get-set "event_hash" "event_hash" hash e ∙ ap str (sym (canonical_event_hash-stored e));
      }

  same_previous :
      (supplied expected : Value) → differs supplied expected ≡ false → supplied ≡ expected
  unfolding differs
  same_previous (str s) expected same = sym (is_str-eq expected s (ground (arith, same)))
  same_previous null expected same = absurd (ground (arith, same))
  same_previous (bool _) expected same = absurd (ground (arith, same))
  same_previous (num _) expected same = absurd (ground (arith, same))
  same_previous (arr _) expected same = absurd (ground (arith, same))
  same_previous (obj _) expected same = absurd (ground (arith, same))

  pub append_receipt-verify :
      (e : Fields) (i : ℕ) (chain_hash : String)
      → verify_ledger_append_receipt h (obj (append_receipt h e i chain_hash)) ≡ true
  unfolding verify_ledger_append_receipt append_receipt append_receipt_body get pop set ◌==◌
  append_receipt-verify e i chain_hash =
      let receipt = append_receipt_body h e i chain_hash in
      let hash = canonical_hash h (obj (pop "receipt_hash" receipt)) in
      ground (arith, ==_refl hash, starts_with-canonical_hash h (obj (pop "receipt_hash" receipt)))

  -- What an appended event has passed.
  pub append_checked-accepted :
      (events : List Fields) (e : Fields)
      → (append_checked h events e).accepted ≡ true
      → (event_structure_error e ≡ none)
        × (any_same_id (get "event_id" e) events ≡ false)
        × (append_checked h events e ≡ appended h events e)
        × (get "previous_event_hash" e ≡ last_or_genesis events)
  unfolding append_checked
  append_checked-accepted events e accepted =
      ground (arith, same_previous (get "previous_event_hash" e) (last_or_genesis events))
