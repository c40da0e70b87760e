-- ===== src/Descriptors/Validator/Laws.antt =====
-- What a valid descriptor has shown, and the derived fields that it is returned with.
use runtime_lab_core.Prelude.{String, ◌≡◌, refl, sym, ◌∙◌, ok, >>=-eq-ok, ◌==◌}
use runtime_lab_core.Json.{Value, str, obj, Fields, get, set, get-set}
use runtime_lab_core.Json.Access.{checked_get}
use runtime_lab_core.Hash.{Host}
use runtime_lab_core.Descriptors.Canonical.{
  canonical_hash, descriptor_id, strip_fields-set, strip_fields,
}
use runtime_lab_core.Descriptors.Schema.{validate_schema_shape}
use runtime_lab_core.Descriptors.Validator.{
  TextTools, claims, presence, requirements, boundary, capabilities, with_derived,
  validate_descriptor,
}

pub checked_get-eq-ok :
    (k : String) (v : Value) {x : Value}
    → checked_get k v ≡ ok x
    → (d : Fields) × (v ≡ obj d) × (get k d ≡ x)
unfolding checked_get
checked_get-eq-ok k (obj d) e = (d, refl, cc)
checked_get-eq-ok k _ e = absurd cc

module _ (h : Host) (tools : TextTools) where
  -- The steps of the validation, each of which returned.
  pub record Passes (payload : Fields) : Type 0 where
    pub present : presence payload ≡ ok tt
    pub shaped : validate_schema_shape payload ≡ ok tt
    pub required : requirements payload ≡ ok tt
    pub bounded : boundary payload ≡ ok tt
    pub capable : capabilities payload ≡ ok tt
    pub claimed : claims tools payload ≡ ok tt

  pub validate_descriptor-Passes :
      (payload : Fields) {valid : Fields}
      → validate_descriptor h tools (obj payload) ≡ ok valid
      → Passes payload × (with_derived h payload ≡ valid)
  unfolding validate_descriptor
  validate_descriptor-Passes payload e =
      let (a, pa, ea) = >>=-eq-ok (presence payload) _ e in
      let (b, pb, eb) = >>=-eq-ok (validate_schema_shape payload) _ ea in
      let (c, pc, ec) = >>=-eq-ok (requirements payload) _ eb in
      let (d, pd, ed) = >>=-eq-ok (boundary payload) _ ec in
      let (f, pf, ef) = >>=-eq-ok (capabilities payload) _ ed in
      let (g, pg, eg) = >>=-eq-ok (claims tools payload) _ ef in
      (
        record {
          present = pa;
          shaped = pb;
          required = pc;
          bounded = pd;
          capable = pf;
          claimed = pg;
        },
        cc,
      )

module _ (h : Host) where
  strip-with_derived :
      (payload : Fields) → strip_fields (with_derived h payload) ≡ strip_fields payload
  unfolding with_derived ◌==◌
  strip-with_derived payload =
      let hash = str (canonical_hash h payload) in
      let one = set "canonical_hash" hash payload in
      let two = set "descriptor_hash" hash one in
      strip_fields-set "descriptor_id" (str (descriptor_id h payload)) two refl
      ∙ strip_fields-set "descriptor_hash" hash one refl
      ∙ strip_fields-set "canonical_hash" hash payload refl

  hash-with_derived :
      (payload : Fields) → canonical_hash h (with_derived h payload) ≡ canonical_hash h payload
  unfolding canonical_hash
  hash-with_derived payload = rw (strip-with_derived payload, canonical_hash) refl

  id-with_derived :
      (payload : Fields) → descriptor_id h (with_derived h payload) ≡ descriptor_id h payload
  unfolding descriptor_id
  id-with_derived payload = rw (hash-with_derived payload) refl

  get-with_derived :
      (payload : Fields)
      → (get "canonical_hash" (with_derived h payload) ≡ str (canonical_hash h payload))
        × (get "descriptor_hash" (with_derived h payload) ≡ str (canonical_hash h payload))
        × (get "descriptor_id" (with_derived h payload) ≡ str (descriptor_id h payload))
  unfolding with_derived ◌==◌
  get-with_derived payload =
      let hash = str (canonical_hash h payload) in
      let id = str (descriptor_id h payload) in
      let one = set "canonical_hash" hash payload in
      let two = set "descriptor_hash" hash one in
      (
        get-set "canonical_hash" "descriptor_id" id two
            ∙ get-set "canonical_hash" "descriptor_hash" hash one
            ∙ get-set "canonical_hash" "canonical_hash" hash payload,
        get-set "descriptor_hash" "descriptor_id" id two
            ∙ get-set "descriptor_hash" "descriptor_hash" hash one,
        get-set "descriptor_id" "descriptor_id" id two,
      )

module _ (h : Host) (tools : TextTools) where
  -- A descriptor that is returned stores its own hash, under both names, and the id that is made of it: taking the
  -- hash again of what is returned gives the same, since the derived fields are left out.
  pub validate_descriptor-hash :
      (payload valid : Fields)
      → validate_descriptor h tools (obj payload) ≡ ok valid
      → (get "canonical_hash" valid ≡ str (canonical_hash h valid))
        × (get "descriptor_hash" valid ≡ str (canonical_hash h valid))
        × (get "descriptor_id" valid ≡ str (descriptor_id h valid))
        × (canonical_hash h valid ≡ canonical_hash h payload)
  validate_descriptor-hash payload valid e =
      let (_, made) = validate_descriptor-Passes h tools payload e in
      let (first, second, third) = get-with_derived h payload in
      let same = hash-with_derived h payload in
      rw (sym made) (rw (same, id-with_derived h payload) (first, second, third, refl))
