-- ===== src/AgentLoop/ReceiptLedger/Laws.antt =====
-- The ledger records the receipts in order and verifies, and its last hash fixes it.
use mathlib.Core.List.{reverse, reverse_aux}
use mathlib.Core.Path.{subst}
use runtime_lab_core.Prelude.{
  ℕ, suc, String, ◌≡◌, refl, sym, ◌∙◌, ap, true, &&-eq-true, List, [], ◌∷◌, map, ◌==◌, eq_refl,
  arith,
}
use runtime_lab_core.Json.{Value, str, obj, Fields, get, pop, set, is_str-eq}
use runtime_lab_core.Hash.{Host, canonical_hash}
use runtime_lab_core.Hash.Chain.{IsReadBack, Sealed, Sealed-unique, Agrees, Agrees-reverse}
use runtime_lab_core.AgentLoop.ReceiptLedger.{
  event_body, build_from, build_ledger_events, event_verifies, verify_from, verify_ledger_events,
}

-- The receipt hashes that a ledger lists.
abbrev pub recorded : List Fields → List Value
recorded = map (get "receipt_hash")

module _ (h : Host) where
  build_from-verify_from :
      (r : String) (i : ℕ) (p : String) (hashes : List String)
      → (verify_from h p (build_from h r i p hashes) ≡ true)
        × (recorded (build_from h r i p hashes) ≡ map str hashes)
  unfolding build_from verify_from get pop set ◌==◌
  build_from-verify_from r i p [] = (refl, refl)
  build_from-verify_from r i p (x ∷ hashes) =
      let body = event_body h r i x p in
      let hash = canonical_hash h (obj body) in
      let (later, rest) = build_from-verify_from r (suc i) hash hashes in
      (rw h.to_str-str (ground (arith, later, eq_refl p, eq_refl hash)), ap (◌∷◌ (str x)) rest)

  -- A built ledger verifies and lists the given receipt hashes, all of them and in their order.
  pub build_ledger_events-verify :
      (run_id : String) (hashes : List String)
      → (verify_ledger_events h (build_ledger_events h run_id hashes) ≡ true)
        × (recorded (build_ledger_events h run_id hashes) ≡ map str hashes)
  unfolding build_ledger_events verify_ledger_events
  build_ledger_events-verify run_id hashes = build_from-verify_from run_id 1 "GENESIS" hashes

  event_verifies_inv :
      (p : String) (e : Fields)
      → event_verifies h p e ≡ true
      → (get "previous_event_hash" (pop "event_hash" e) ≡ str p)
        × (get "event_hash" e ≡ str (canonical_hash h (obj (pop "event_hash" e))))
  unfolding event_verifies
  event_verifies_inv p e v = ground (
    arith,
    is_str-eq (get "previous_event_hash" (pop "event_hash" e)) p,
    is_str-eq (get "event_hash" e) (canonical_hash h (obj (pop "event_hash" e))),
  )

  abbrev tail_from : String → List Fields → String
  tail_from p [] = p
  tail_from p (e ∷ events) = tail_from (h.to_str (get "event_hash" e)) events

  -- The hash of the last event.
  abbrev pub tail_hash : List Fields → String
  tail_hash = tail_from "GENESIS"

  verify_from-Sealed :
      (p : String) (older events : List Fields)
      → Sealed h "event_hash" "previous_event_hash" older p
      → verify_from h p events ≡ true
      → Sealed h "event_hash" "previous_event_hash" (reverse_aux events older) (tail_from p events)
  unfolding verify_from
  verify_from-Sealed p older [] sealed v = sealed
  verify_from-Sealed p older (e ∷ events) sealed v =
      let (now, later) = &&-eq-true (event_verifies h p e) _ v in
      let (link, hash) = event_verifies_inv p e now in
      let stored = ap h.to_str hash ∙ h.to_str-str _ in
      verify_from-Sealed (h.to_str (get "event_hash" e)) (e ∷ older) events
        (stored, hash ∙ ap str (sym stored), (p, link, sealed)) later

  -- Two receipt ledgers that verify with one last hash hold the same events, as `json.dumps` writes them without their
  -- stored hashes, or two different ones of these texts, one of each ledger, have the same SHA-256 digest. Of
  -- `json.dumps` it is supposed that mappings with one text have the same text as the hash before them.
  pub verify_ledger_events_unique :
      (xs ys : List Fields)
      → IsReadBack h "previous_event_hash"
      → verify_ledger_events h xs ≡ true
      → verify_ledger_events h ys ≡ true
      → tail_hash xs ≡ tail_hash ys
      → Agrees h "event_hash" "previous_event_hash" xs ys
  unfolding verify_ledger_events
  verify_ledger_events_unique xs ys back vx vy e =
      let sealed = verify_from-Sealed "GENESIS" [] in
      let of_xs =
        subst (Sealed h "event_hash" "previous_event_hash" (reverse xs)) e (sealed xs refl vx) in
      Agrees-reverse h "event_hash" "previous_event_hash" xs ys (
        Sealed-unique h "event_hash" "previous_event_hash" (reverse xs) (reverse ys) (tail_hash ys)
          back of_xs (sealed ys refl vy))
