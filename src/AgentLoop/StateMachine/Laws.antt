-- ===== src/AgentLoop/StateMachine/Laws.antt =====
-- What `build_transition_log` writes, `verify_transition_log` accepts; what a verified log fixes; and what
-- `verify_transition_log` leaves open.
use mathlib.Core.List.{reverse, reverse_aux}
use mathlib.Core.Path.{subst}
use runtime_lab_core.Prelude.{
  ℕ, suc, String, ◌≡◌, refl, sym, ◌∙◌, ap, true, &&-eq-true, inl, inr, List, [], ◌∷◌, ok,
  Result-cases, ◌==◌, ==_iff, eq_refl, arith,
}
use runtime_lab_core.Json.{str, obj, Fields, get, pop, set, is_str-eq}
use runtime_lab_core.Hash.{Host, canonical_hash}
use runtime_lab_core.Hash.Chain.{IsReadBack, Sealed, Sealed-unique, Agrees, Agrees-reverse}
use runtime_lab_core.AgentLoop.StateMachine.{
  next_state, Item, pair, triple, check_item, event_body, seal, build_from, build_transition_log,
  event_verifies, verify_from, verify_transition_log,
}

ok_injective {ℓ} : {A : Type ℓ} {a b : A} → ok a ≡ ok b → a ≡ b
ok_injective e = cc

abbrev transition_of : Item → String
transition_of (pair _ t) = t
transition_of (triple _ t _) = t

module _ (h : Host) where
  -- A fresh event stores its own hash, and without it is its body.
  pub seal_parts :
      (r : String) (i : ℕ) (s t u p : String)
      → let body = event_body h r i s t u p in
        (get "transition_hash" (seal h body) ≡ str (canonical_hash h (obj body)))
        × (pop "transition_hash" (seal h body) ≡ body)
  unfolding get pop set ◌==◌
  seal_parts r i s t u p = (refl, refl)

  pub seal-event_verifies :
      (r : String) (i : ℕ) (s t u p : String)
      → next_state s t ≡ ok u
      → event_verifies h p (seal h (event_body h r i s t u p)) ≡ true
  unfolding event_verifies get pop set ◌==◌
  seal-event_verifies r i s t u p e =
      rw (h.to_str-str, h.to_str-str, e)
        (ground (
          arith,
          eq_refl p,
          eq_refl u,
          eq_refl (canonical_hash h (obj (event_body h r i s t u p))),
        ))

  check_item_inv :
      (c : String) (item : Item) (t u : String)
      → check_item c item ≡ ok (t, u)
      → (t ≡ transition_of item) × (next_state c t ≡ ok u)
  unfolding check_item
  check_item_inv c (pair s t') t u e = ground (arith, ==_iff s c)
  check_item_inv c (triple s t' u') t u e = ground (arith, ==_iff s c)

  -- The log that an accepted item begins.
  pub build_from-cons :
      (r : String) (i : ℕ) (c p : String) (item : Item) (items : List Item) (log : List Fields)
      → build_from h r i c p (item ∷ items) ≡ ok log
      → (t u : String) × (rest : List Fields) × (check_item c item ≡ ok (t, u))
        × (build_from h r (suc i) u (canonical_hash h (obj (event_body h r i c t u p))) items
            ≡ ok rest)
        × (log ≡ seal h (event_body h r i c t u p) ∷ rest)
  unfolding build_from
  build_from-cons r i c p item items log e = elim (Result-cases (check_item c item)) [
    | inl (code, bad) ↦ absurd (ground arith)
    | inr ((t, u), good) ↦
        let next = canonical_hash h (obj (event_body h r i c t u p)) in
        elim (Result-cases (build_from h r (suc i) u next items)) [
          | inl (code, bad) ↦ absurd (ground arith)
          | inr (rest, more) ↦ (t, u, rest, good, more, ground arith)
        ]
  ]

  build_from-verify_from :
      (r : String) (i : ℕ) (c p : String) (items : List Item) (log : List Fields)
      → build_from h r i c p items ≡ ok log
      → verify_from h p log ≡ true
  unfolding build_from verify_from
  build_from-verify_from r i c p [] log e = rw (← ok_injective e) refl
  build_from-verify_from r i c p (item ∷ items) log e =
      let (t, u, rest, checked, more, same) = build_from-cons r i c p item items log e in
      let body = event_body h r i c t u p in
      let hash = canonical_hash h (obj body) in
      let later = build_from-verify_from r (suc i) u hash items rest more in
      let found = (check_item_inv c item t u checked).1 in
      rw (same, verify_from, seal-event_verifies r i c t u p found)
        (rw ((seal_parts r i c t u p).0, h.to_str-str) later)

  -- Every log that `build_transition_log` returns passes `verify_transition_log`.
  pub build_transition_log-verify :
      (items : List Item) (run_id : String) (log : List Fields)
      → build_transition_log h items run_id ≡ ok log
      → verify_transition_log h log ≡ true
  unfolding build_transition_log verify_transition_log
  build_transition_log-verify items run_id log e =
      build_from-verify_from run_id 1 "TASK_RECEIVED" "GENESIS" items log e

  event_verifies_inv :
      (p : String) (e : Fields)
      → event_verifies h p e ≡ true
      → (get "previous_transition_hash" (pop "transition_hash" e) ≡ str p)
        × (get "transition_hash" e ≡ str (canonical_hash h (obj (pop "transition_hash" e))))
  unfolding event_verifies
  event_verifies_inv p e v = ground (
    arith,
    is_str-eq (get "previous_transition_hash" (pop "transition_hash" e)) p,
    is_str-eq (get "transition_hash" e) (canonical_hash h (obj (pop "transition_hash" e))),
  )

  -- The hash of the last event, `p` for a log that is empty.
  abbrev tail_from : String → List Fields → String
  tail_from p [] = p
  tail_from p (e ∷ log) = tail_from (h.to_str (get "transition_hash" e)) log

  abbrev pub tail_hash : List Fields → String
  tail_hash = tail_from "GENESIS"

  verify_from-Sealed :
      (p : String) (older log : List Fields)
      → Sealed h "transition_hash" "previous_transition_hash" older p
      → verify_from h p log ≡ true
      → Sealed h "transition_hash" "previous_transition_hash"
          (reverse_aux log older)
          (tail_from p log)
  unfolding verify_from
  verify_from-Sealed p older [] sealed v = sealed
  verify_from-Sealed p older (e ∷ log) sealed v =
      let (now, later) = &&-eq-true (event_verifies h p e) _ v in
      let (link, hash) = event_verifies_inv p e now in
      let stored = ap h.to_str hash ∙ h.to_str-str _ in
      verify_from-Sealed (h.to_str (get "transition_hash" e)) (e ∷ older) log
        (stored, hash ∙ ap str (sym stored), (p, link, sealed)) later

  -- Two logs that verify with one last hash hold the same events, as `json.dumps` writes them without their
  -- stored hashes, or two different ones of these texts, one of each log, have the same SHA-256 digest. Of
  -- `json.dumps` it is supposed that mappings with one text have the same text as the hash before them.
  pub verify_transition_log_unique :
      (xs ys : List Fields)
      → IsReadBack h "previous_transition_hash"
      → verify_transition_log h xs ≡ true
      → verify_transition_log h ys ≡ true
      → tail_hash xs ≡ tail_hash ys
      → Agrees h "transition_hash" "previous_transition_hash" xs ys
  unfolding verify_transition_log
  verify_transition_log_unique xs ys back vx vy e =
      let sealed = verify_from-Sealed "GENESIS" [] in
      let of_xs =
        subst (Sealed h "transition_hash" "previous_transition_hash" (reverse xs)) e
          (sealed xs refl vx) in
      Agrees-reverse h "transition_hash" "previous_transition_hash" xs ys (
        Sealed-unique h "transition_hash" "previous_transition_hash" (reverse xs) (reverse ys)
          (tail_hash ys) back of_xs (sealed ys refl vy))
