-- ===== src/Ledger/Laws.antt =====
-- A ledger that is accepted is a chain, appending keeps it one, and its last hash fixes it.
use mathlib.Core.Bool.{false≢true}
use mathlib.Core.Logic.{◌≢◌}
use mathlib.Core.List.{reverse, reverse_aux}
use mathlib.Core.Path.{subst}
use runtime_lab_core.Prelude.{
  ℕ, suc, String, ◌≡◌, refl, sym, ◌∙◌, ap, true, false, ◌&&◌, &&-eq-true, none, some, List, [], ◌∷◌,
  ◌++◌, contains, is_empty, ◌==◌, ==_iff, ==_refl, arith, ◌↔◌,
}
use runtime_lab_core.Json.{
  Value, null, bool, num, str, arr, obj, Fields, get, pop, is_str-eq, get-pop_ne,
}
use runtime_lab_core.Hash.{Host, is_hash, is_hash-canonical_hash}
use runtime_lab_core.Hash.Chain.{IsReadBack, Sealed, Sealed-unique, Agrees, Agrees-reverse}
use runtime_lab_core.Ledger.Event.{event_structure_error}
use runtime_lab_core.Ledger.{
  existing_ledger, as_value, saw, is_duplicate, same_id, any_same_id, canonical_event_hash,
  event_codes, next_previous, chain_codes, last_or_genesis, validate_ledger_chain,
}
pub use runtime_lab_core.Ledger.Structure.{get-set_ne, event_structure_error-set}

pub existing_ledger-as_value :
    (events : List Fields) → existing_ledger (as_value events) ≡ some events
unfolding existing_ledger as_value
existing_ledger-as_value [] = refl
existing_ledger-as_value (e ∷ es) = rw (existing_ledger-as_value es) refl

pub is_empty-append :
    {A : Type 0} (xs ys : List A) → is_empty (xs ++ ys) ≡ is_empty xs && is_empty ys
is_empty-append [] ys = refl
is_empty-append (x ∷ xs) ys = refl

append-nil : {A : Type 0} (xs : List A) → xs ++ [] ≡ xs
append-nil [] = refl
append-nil (x ∷ xs) = ap (◌∷◌ x) (append-nil xs)

saw-fresh :
    (v : Value) (seen : List String) (id : String)
    → contains seen id ≡ false
    → same_id v (str id) ≡ false
    → contains (saw v seen) id ≡ false
saw-fresh (str s) seen id unseen differ = ground (arith, ==_iff s id, ==_iff id s)
saw-fresh null seen id unseen differ = unseen
saw-fresh (bool _) seen id unseen differ = unseen
saw-fresh (num _) seen id unseen differ = unseen
saw-fresh (arr _) seen id unseen differ = unseen
saw-fresh (obj _) seen id unseen differ = unseen

module _ (h : Host) where
  -- What is asked of an event that comes after `previous` and the ids.
  pub record IsNext (seen : List String) (previous : String) (e : Fields) : Type 0 where
    pub new_id : is_duplicate (get "event_id" e) seen ≡ false
    pub structured : event_structure_error e ≡ none
    pub linked : get "previous_event_hash" e ≡ str previous
    pub hashed : get "event_hash" e ≡ str (canonical_event_hash h e)

  -- Events that follow one another, each with its own hash, a link to the one before, and an id of its own.
  abbrev pub IsChain : List String → String → List Fields → Type 0
  IsChain seen previous [] = Unit
  IsChain seen previous (e ∷ es) =
      IsNext seen previous e × IsChain (saw (get "event_id" e) seen) (canonical_event_hash h e) es

  is_hash-canonical_event_hash : (e : Fields) → is_hash (str (canonical_event_hash h e)) ≡ true
  unfolding canonical_event_hash
  is_hash-canonical_event_hash e = is_hash-canonical_hash h (obj (pop "event_hash" e))

  event_codes_iff :
      (seen : List String) (previous : String) (e : Fields)
      → (is_empty (event_codes h seen previous e) ≡ true) ↔ IsNext seen previous e
  unfolding event_codes
  event_codes_iff seen previous e = (
    λ none_found. record {
      new_id = ground arith;
      structured = ground arith;
      linked = is_str-eq (get "previous_event_hash" e) previous (ground arith);
      hashed = is_str-eq (get "event_hash" e) (canonical_event_hash h e) (ground arith);
    },
    λ next.
        rw (next.new_id, next.structured, next.linked, next.hashed) ground
          (
            arith,
            ==_refl previous,
            ==_refl (canonical_event_hash h e),
            is_hash-canonical_event_hash e,
          ),
  )

  pub chain_codes_iff :
      (i : ℕ) (seen : List String) (previous : String) (es : List Fields)
      → (is_empty (chain_codes h i seen previous es) ≡ true) ↔ IsChain seen previous es
  unfolding chain_codes
  chain_codes_iff i seen previous [] = (λ _. tt, λ _. refl)
  chain_codes_iff i seen previous (e ∷ es) = (
    λ none_found.
        let (now, later) =
          &&-eq-true _ _ (sym (is_empty-append (event_codes h seen previous e) _) ∙ none_found) in
        let next = (event_codes_iff seen previous e).0 now in
        let onward =
          subst (λ p. is_empty (chain_codes h (suc i) (saw (get "event_id" e) seen) p es) ≡ true)
            (ap (next_previous h i) next.hashed) later in
        (
          next,
          (chain_codes_iff (suc i) (saw (get "event_id" e) seen) (canonical_event_hash h e) es).0
              onward,
        ),
    λ (next, rest).
        rw
          (
            is_empty-append (event_codes h seen previous e) _,
            (event_codes_iff seen previous e).1 next,
            next.hashed,
          )
          ((chain_codes_iff (suc i) (saw (get "event_id" e) seen) (canonical_event_hash h e) es).1
            rest),
  )

  -- A ledger is accepted exactly when it is a chain: every event is well formed, has an id of its own, stores its
  -- hash, and names the hash of the event before it.
  pub validate_ledger_chain_iff :
      (events : List Fields)
      → ((validate_ledger_chain h (as_value events) none none none).accepted ≡ true)
        ↔ IsChain [] "GENESIS" events
  unfolding validate_ledger_chain
  validate_ledger_chain_iff events =
      rw
        (
          existing_ledger-as_value events,
          validate_ledger_chain,
          append-nil (chain_codes h 0 [] "GENESIS" events),
        )
        (chain_codes_iff 0 [] "GENESIS" events)

  -- The hash that the next event is to name.
  abbrev tail_from : String → List Fields → String
  tail_from p [] = p
  tail_from p (e ∷ es) = tail_from (canonical_event_hash h e) es

  abbrev pub tail_hash : List Fields → String
  tail_hash = tail_from "GENESIS"

  -- The ids seen after the events.
  abbrev pub seen_after : List String → List Fields → List String
  seen_after seen [] = seen
  seen_after seen (e ∷ es) = seen_after (saw (get "event_id" e) seen) es

  pub IsChain-snoc :
      (seen : List String) (previous : String) (es : List Fields) (e : Fields)
      → IsChain seen previous es
      → IsNext (seen_after seen es) (tail_from previous es) e
      → IsChain seen previous (es ++ (e ∷ []))
  IsChain-snoc seen previous [] e chain next = (next, tt)
  IsChain-snoc seen previous (x ∷ es) e (here, chain) next =
      (here, IsChain-snoc (saw (get "event_id" x) seen) (canonical_event_hash h x) es e chain next)

  pub IsChain-last :
      (seen : List String) (previous : String) (x : Fields) (es : List Fields)
      → IsChain seen previous (x ∷ es)
      → last_or_genesis (x ∷ es) ≡ str (tail_from previous (x ∷ es))
  IsChain-last seen previous x [] (next, _) = next.hashed
  IsChain-last seen previous x (y ∷ es) (_, chain) =
      IsChain-last (saw (get "event_id" x) seen) (canonical_event_hash h x) y es chain

  pub fresh_after :
      (seen : List String) (id : String) (es : List Fields)
      → contains seen id ≡ false
      → any_same_id (str id) es ≡ false
      → contains (seen_after seen es) id ≡ false
  fresh_after seen id [] unseen none_same = unseen
  fresh_after seen id (e ∷ es) unseen none_same =
      fresh_after (saw (get "event_id" e) seen) id es
        (ground (arith, none_same, saw-fresh (get "event_id" e) seen id unseen))
        (ground (arith, none_same))

  link_ne_hash : ◌≢◌ {A = String} "previous_event_hash" "event_hash"
  unfolding ◌==◌
  link_ne_hash e = false≢true (ap (λ s. s == "previous_event_hash") (sym e))

  IsChain-Sealed :
      (seen : List String) (previous : String) (older events : List Fields)
      → Sealed h "event_hash" "previous_event_hash" older previous
      → IsChain seen previous events
      → Sealed h "event_hash" "previous_event_hash"
          (reverse_aux events older)
          (tail_from previous events)
  unfolding canonical_event_hash
  IsChain-Sealed seen previous older [] sealed chain = sealed
  IsChain-Sealed seen previous older (e ∷ events) sealed (next, chain) =
      IsChain-Sealed (saw (get "event_id" e) seen) (canonical_event_hash h e) (e ∷ older) events
        (
          refl,
          next.hashed,
          (
            previous,
            get-pop_ne "previous_event_hash" "event_hash" e link_ne_hash ∙ next.linked,
            sealed,
          ),
        )
        chain

  -- Two accepted ledgers with one last hash hold the same events, as `json.dumps` writes them without their
  -- stored hashes, or two different ones of these texts, one of each ledger, have the same SHA-256 digest. Of
  -- `json.dumps` it is supposed that mappings with one text have the same text as the hash before them.
  pub validate_ledger_chain_unique :
      (xs ys : List Fields)
      → IsReadBack h "previous_event_hash"
      → (validate_ledger_chain h (as_value xs) none none none).accepted ≡ true
      → (validate_ledger_chain h (as_value ys) none none none).accepted ≡ true
      → tail_hash xs ≡ tail_hash ys
      → Agrees h "event_hash" "previous_event_hash" xs ys
  validate_ledger_chain_unique xs ys back vx vy e =
      let sealed = λ (zs : List Fields) (chain : IsChain [] "GENESIS" zs).
        IsChain-Sealed [] "GENESIS" [] zs refl chain in
      let of_xs =
        subst (Sealed h "event_hash" "previous_event_hash" (reverse xs)) e
          (sealed xs ((validate_ledger_chain_iff xs).0 vx)) in
      Agrees-reverse h "event_hash" "previous_event_hash" xs ys (
        Sealed-unique h "event_hash" "previous_event_hash" (reverse xs) (reverse ys) (tail_hash ys)
          back of_xs (sealed ys ((validate_ledger_chain_iff ys).0 vy)))
