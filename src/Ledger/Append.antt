-- ===== src/Ledger/Append.antt =====
-- `append_event`: when it accepts, what it leaves then, and what it leaves when it refuses.
use mathlib.Core.Path.{subst}
use runtime_lab_core.Prelude.{
  String, ◌≡◌, refl, sym, ◌∙◌, ap, true, false, ◌&&◌, not, Bool-cases, none, some, List, [], ◌∷◌,
  ◌++◌, length, dedupe, is_empty, if◌then◌else◌, ==_refl, arith, ◌↔◌, inl, inr,
}
use runtime_lab_core.Json.{Value, null, bool, num, str, arr, obj, Fields, get, is_text}
use runtime_lab_core.Hash.{Host}
use runtime_lab_core.Ledger.Event.{event_structure_error, required_strings}
use runtime_lab_core.Ledger.{
  as_value, is_duplicate, reject_append, any_same_id, differs, ledger_chain_hash, last_or_genesis,
  validate_ledger_chain, append_receipt, verify_ledger_append_receipt, appended, append_checked,
  append_event,
}
use runtime_lab_core.Ledger.Laws.{
  existing_ledger-as_value, IsChain, IsChain-snoc, IsChain-last, tail_hash, seen_after, fresh_after,
  validate_ledger_chain_iff,
}
use runtime_lab_core.Ledger.Stored.{
  stored, stored-IsNext, append_receipt-verify, append_checked-accepted,
}

module _ (h : Host) where
  -- The event may follow the events: they are a chain, it is well formed, its id is not among theirs, and it names
  -- the hash of the last of them.
  pub record IsAppendable (events : List Fields) (e : Fields) : Type 0 where
    pub chain : IsChain h [] "GENESIS" events
    pub structured : event_structure_error e ≡ none
    pub new_id : any_same_id (get "event_id" e) events ≡ false
    pub linked : get "previous_event_hash" e ≡ str (tail_hash h events)

  last_or_genesis-tail_hash :
      (events : List Fields)
      → IsChain h [] "GENESIS" events
      → last_or_genesis events ≡ str (tail_hash h events)
  last_or_genesis-tail_hash [] chain = refl
  last_or_genesis-tail_hash (x ∷ es) chain = IsChain-last h [] "GENESIS" x es chain

  fresh_id :
      (v : Value) (events : List Fields)
      → any_same_id v events ≡ false
      → is_duplicate v (seen_after h [] events) ≡ false
  fresh_id (str id) events new = fresh_after h [] id events refl new
  fresh_id null events new = refl
  fresh_id (bool _) events new = refl
  fresh_id (num _) events new = refl
  fresh_id (arr _) events new = refl
  fresh_id (obj _) events new = refl

  -- With a stored event a chain goes on.
  IsAppendable-IsChain :
      (events : List Fields) (e : Fields)
      → IsAppendable events e
      → IsChain h [] "GENESIS" (events ++ (stored h e ∷ []))
  IsAppendable-IsChain events e a = IsChain-snoc h [] "GENESIS" events (stored h e) a.chain (
      stored-IsNext h (seen_after h [] events) (tail_hash h events) e
        (fresh_id (get "event_id" e) events a.new_id) a.structured a.linked)

  append_event-as_value :
      (events : List Fields) (e : Fields)
      → append_event h (as_value events) (obj e) ≡ (
          if not (is_empty events)
            && not (validate_ledger_chain h (as_value events) none none none).accepted
          then reject_append "LEDGER_CHAIN_INVALID"
          else append_checked h events e)
  unfolding append_event
  append_event-as_value events e = rw (existing_ledger-as_value events, append_event) refl

  append_event-IsChain :
      (events : List Fields) (e : Fields)
      → (append_event h (as_value events) (obj e)).accepted ≡ true
      → IsChain h [] "GENESIS" events
        × ((append_event h (as_value events) (obj e)) ≡ append_checked h events e)
  append_event-IsChain [] e accepted = (tt, append_event-as_value [] e)
  append_event-IsChain (x ∷ es) e accepted =
      elim (Bool-cases (validate_ledger_chain h (as_value (x ∷ es)) none none none).accepted) [
        | inl valid ↦ (
          (validate_ledger_chain_iff h (x ∷ es)).0 valid,
          append_event-as_value (x ∷ es) e ∙ rw valid refl,
        )
        | inr invalid ↦ absurd (ground (arith, append_event-as_value (x ∷ es) e, invalid, accepted))
      ]

  previous-is_text :
      (e : Fields) → event_structure_error e ≡ none → is_text (get "previous_event_hash" e) ≡ true
  unfolding event_structure_error required_strings
  previous-is_text e structured = ground (arith, structured)

  linked-differs :
      (supplied expected : Value) (hash : String)
      → supplied ≡ str hash
      → expected ≡ str hash
      → differs supplied expected ≡ false
  unfolding differs
  linked-differs supplied expected hash s x = rw (s, x, ==_refl hash) refl

  append_checked-IsAppendable :
      (events : List Fields) (e : Fields)
      → IsAppendable events e
      → append_checked h events e ≡ appended h events e
  unfolding append_checked
  append_checked-IsAppendable events e a = ground (
    arith,
    a.structured,
    a.new_id,
    previous-is_text e a.structured,
    linked-differs (get "previous_event_hash" e) (last_or_genesis events) (tail_hash h events)
        a.linked (last_or_genesis-tail_hash events a.chain),
  )

  append_event-IsAppendable :
      (events : List Fields) (e : Fields)
      → IsAppendable events e
      → append_event h (as_value events) (obj e) ≡ appended h events e
  append_event-IsAppendable events e a =
      append_event-as_value events e
      ∙ rw ((validate_ledger_chain_iff h events).1 a.chain)
          (ground (arith, append_checked-IsAppendable events e a))

  accepted-IsAppendable :
      (events : List Fields) (e : Fields)
      → (append_event h (as_value events) (obj e)).accepted ≡ true
      → IsAppendable events e
  accepted-IsAppendable events e accepted =
      let (chain, same) = append_event-IsChain events e accepted in
      let (structured, new_id, _, linked) =
        append_checked-accepted h events e (sym (ap (λ r. r.accepted) same) ∙ accepted) in
      record {
        chain = chain;
        structured = structured;
        new_id = new_id;
        linked = linked ∙ last_or_genesis-tail_hash events chain;
      }

  -- An event is appended exactly when it may follow the ledger's events, and nothing but an object is.
  pub append_event_iff :
      (events : List Fields) (event : Value)
      → ((append_event h (as_value events) event).accepted ≡ true)
        ↔ ((e : Fields) × (event ≡ obj e) × IsAppendable events e)
  unfolding appended append_event
  append_event_iff events (obj e) = (
    λ accepted. (e, refl, accepted-IsAppendable events e accepted),
    λ (e', same, a).
        subst (λ v. (append_event h (as_value events) v).accepted ≡ true) (sym same)
          (ap (λ r. r.accepted) (append_event-IsAppendable events e' a)),
  )
  append_event_iff events null = (λ e. absurd (ground (arith, e)), λ (e', same, a). absurd cc)
  append_event_iff events (bool _) = (λ e. absurd (ground (arith, e)), λ (e', same, a). absurd cc)
  append_event_iff events (num _) = (λ e. absurd (ground (arith, e)), λ (e', same, a). absurd cc)
  append_event_iff events (str _) = (λ e. absurd (ground (arith, e)), λ (e', same, a). absurd cc)
  append_event_iff events (arr _) = (λ e. absurd (ground (arith, e)), λ (e', same, a). absurd cc)

  -- What is appended is the event with its hash, at the end of an unchanged ledger. The ledger that results is
  -- accepted again, and the receipt verifies.
  pub append_event-ledger :
      (events : List Fields) (e : Fields)
      → (append_event h (as_value events) (obj e)).accepted ≡ true
      → ((append_event h (as_value events) (obj e)).ledger ≡ some (events ++ (stored h e ∷ [])))
        × ((validate_ledger_chain h
              (as_value (events ++ (stored h e ∷ [])))
              none
              none
              none).accepted
            ≡ true)
        × ((receipt : Fields) × ((append_event h (as_value events) (obj e)).receipt ≡ some receipt)
            × (verify_ledger_append_receipt h (obj receipt) ≡ true))
  unfolding appended
  append_event-ledger events e accepted =
      let a = accepted-IsAppendable events e accepted in
      let new = events ++ (stored h e ∷ []) in
      rw (append_event-IsAppendable events e a) (
        refl,
        (validate_ledger_chain_iff h new).1 (IsAppendable-IsChain events e a),
        (
          append_receipt h (stored h e) (length events) (ledger_chain_hash h new),
          refl,
          append_receipt-verify h (stored h e) (length events) (ledger_chain_hash h new),
        ),
      )

  -- A refusal hands over no event, no receipt and no ledger, and says why.
  pub append_event-refused :
      (ledger event : Value)
      → (append_event h ledger event).accepted ≡ false
      → ((append_event h ledger event).event ≡ none)
        × ((append_event h ledger event).receipt ≡ none)
        × ((append_event h ledger event).ledger ≡ none)
        × (is_empty (append_event h ledger event).rejection_codes ≡ false)
  unfolding append_event append_checked appended dedupe
  append_event-refused ledger (obj e) refused = ground arith
  append_event-refused ledger null refused = (refl, refl, refl, refl)
  append_event-refused ledger (bool _) refused = (refl, refl, refl, refl)
  append_event-refused ledger (num _) refused = (refl, refl, refl, refl)
  append_event-refused ledger (str _) refused = (refl, refl, refl, refl)
  append_event-refused ledger (arr _) refused = (refl, refl, refl, refl)
