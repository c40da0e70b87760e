-- ===== src/Hash/Seal.antt =====
-- Receipts that store their own hash: `_hash_payload`, and the tests that the `verify_...` functions share.
use runtime_lab_core.Prelude.{
  String, ◌≡◌, refl, Bool, true, false, ◌&&◌, ==_refl, arith, starts_with,
}
use runtime_lab_core.Json.{Value, str, obj, Fields, get, pop, set, is_str, get-set, pop-set}
use runtime_lab_core.Hash.{Host, canonical_hash, starts_with-canonical_hash}

-- `isinstance(provided, str) and provided.startswith("sha256:")`
abbrev has_hash_prefix : Value → Bool
has_hash_prefix (str s) = starts_with s "sha256:"
has_hash_prefix _ = false

module _ (h : Host) (hash_field : String) where
  -- `d[hash_field] = canonical_hash(_hash_payload(d, hash_field))`
  unfoldable pub seal : Fields → Fields
  seal d = set hash_field (str (canonical_hash h (obj (pop hash_field d)))) d

  unfoldable pub is_sealed : Fields → Bool
  is_sealed d =
      has_hash_prefix (get hash_field d)
      && is_str (get hash_field d) (canonical_hash h (obj (pop hash_field d)))

  get-seal :
      (d : Fields) → get hash_field (seal d) ≡ str (canonical_hash h (obj (pop hash_field d)))
  unfolding seal
  get-seal d =
      rw
        (
          get-set hash_field hash_field (str (canonical_hash h (obj (pop hash_field d)))) d,
          ==_refl hash_field,
        )
        refl

  pop-seal : (d : Fields) → pop hash_field (seal d) ≡ pop hash_field d
  unfolding seal
  pop-seal d = pop-set hash_field (str (canonical_hash h (obj (pop hash_field d)))) d

  -- Whatever is sealed passes the test, and its payload is what was sealed.
  pub seal-is_sealed :
      (d : Fields) → (is_sealed (seal d) ≡ true) × (pop hash_field (seal d) ≡ pop hash_field d)
  unfolding is_sealed
  seal-is_sealed d =
      let hash = canonical_hash h (obj (pop hash_field d)) in
      (
        rw (get-seal d, pop-seal d)
            (ground (arith, starts_with-canonical_hash h (obj (pop hash_field d)), ==_refl hash)),
        pop-seal d,
      )
