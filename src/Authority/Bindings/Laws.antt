-- ===== src/Authority/Bindings/Laws.antt =====
-- The hash that a packet binds is that of the valid descriptor.
use Prim.Native.String.{count}
use runtime_lab_core.Prelude.{
  String, ◌≡◌, refl, ◌∙◌, ap, inl, inr, true, false, ok, ◌>>=◌, Result-cases, ==_iff, arith,
  is_nonempty, contains,
}
use runtime_lab_core.Json.{Value, str, obj, Fields, end, field, set}
use runtime_lab_core.Hash.{Host}
use runtime_lab_core.Descriptors.Canonical
use runtime_lab_core.Descriptors.Schema.{allowed_fields}
use runtime_lab_core.Descriptors.Validator.{TextTools, validate_descriptor}
use runtime_lab_core.Descriptors.Validator.Laws.{validate_descriptor-hash}
use runtime_lab_core.Authority.Bindings.{
  descriptor_payload, read_hash, compute_descriptor_payload_hash,
}

nonempty_64 : (s : String) → count s ≡ 64 → is_nonempty s ≡ true
nonempty_64 String.[] e = absurd (omega (arith, e))
nonempty_64 (String.◌∷◌ c s) e = refl

read_hash-nonempty : (s : String) → is_nonempty s ≡ true → read_hash (str s) ≡ ok s
read_hash-nonempty s e = rw e refl

-- A field that no descriptor has makes no difference.
descriptor_payload-set :
    (k : String) (v : Value) (d : Fields)
    → contains allowed_fields k ≡ false
    → descriptor_payload (set k v d) ≡ descriptor_payload d
unfolding descriptor_payload set
descriptor_payload-set k v end e = ground (arith, e)
descriptor_payload-set k v (field j w r) e =
    ground (arith, e, ==_iff j k, descriptor_payload-set k v r e)

module _ (h : Host) (tools : TextTools) where
  canonical-nonempty : (d : Fields) → is_nonempty (Canonical.canonical_hash h d) ≡ true
  unfolding Canonical.canonical_hash
  canonical-nonempty d = nonempty_64 (h.sha256_hex _) (h.hex_length _)

  -- The computed hash is the canonical hash of the fields that a descriptor may have, and it is given exactly when these
  -- are a valid descriptor: that the hash be missing cannot happen.
  pub compute_descriptor_payload_hash-validate :
      (payload : Fields)
      → compute_descriptor_payload_hash h tools payload ≡ (
          validate_descriptor h tools (obj (descriptor_payload payload)) >>= λ _.
          ok (Canonical.canonical_hash h (descriptor_payload payload)))
  unfolding compute_descriptor_payload_hash
  compute_descriptor_payload_hash-validate payload =
      elim (Result-cases (validate_descriptor h tools (obj (descriptor_payload payload)))) [
        | inl (code, failed) ↦ rw failed refl
        | inr (valid, passed) ↦
            let (stored, _, _, same) =
              validate_descriptor-hash h tools (descriptor_payload payload) valid passed in
            rw passed (
              ap read_hash (stored ∙ ap str same)
              ∙ read_hash-nonempty (Canonical.canonical_hash h (descriptor_payload payload))
                  (canonical-nonempty (descriptor_payload payload)))
      ]

  -- Fields beyond those of a descriptor do not change the hash.
  pub compute_descriptor_payload_hash-set :
      (k : String) (v : Value) (payload : Fields)
      → contains allowed_fields k ≡ false
      → compute_descriptor_payload_hash h tools (set k v payload)
        ≡ compute_descriptor_payload_hash h tools payload
  unfolding compute_descriptor_payload_hash
  compute_descriptor_payload_hash-set k v payload e = rw (descriptor_payload-set k v payload e) refl
