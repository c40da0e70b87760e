-- ===== src/Descriptors/Canonical.antt =====
-- runtime_lab/descriptors/canonical.py: the form of a descriptor that its hash is taken of.
use runtime_lab_core.Prelude.{
  String, ◌≡◌, refl, ap, true, List, [], ◌∷◌, ==_iff, arith, contains, if◌then◌else◌, ◌<>◌,
  text_take,
}
use runtime_lab_core.Json.{
  Value, null, bool, str, num, arr, obj, Items, nil, cons, Fields, end, field, set,
}
use runtime_lab_core.Hash.{Host}

abbrev pub derived_fields : List String
derived_fields = "descriptor_id" ∷ "canonical_hash" ∷ "descriptor_hash" ∷ []

-- `_strip_derived`, on a value, on a `dict` and on a list
unfoldable mutual
  pub strip_derived : Value → Value
  strip_derived (obj d) = obj (strip_fields d)
  strip_derived (arr vs) = arr (strip_items vs)
  strip_derived (str s) = str s
  strip_derived (num n) = num n
  strip_derived (bool b) = bool b
  strip_derived null = null

  pub strip_fields : Fields → Fields
  strip_fields end = end
  strip_fields (field k v r) =
      let rest = strip_fields r in
      let kept = strip_derived v in if contains derived_fields k then rest else field k kept rest

  pub strip_items : Items → Items
  strip_items nil = nil
  strip_items (cons v vs) = cons (strip_derived v) (strip_items vs)

module _ (h : Host) where
  -- `canonical_hash(payload)`, without a prefix
  unfoldable pub canonical_hash : Fields → String
  canonical_hash payload = h.sha256_hex (h.dumps (obj (strip_fields payload)))

  unfoldable pub descriptor_id : Fields → String
  descriptor_id payload = "b1-desc-" <> text_take 12 (canonical_hash payload)

mutual
  unfolding strip_derived strip_fields strip_items

  strip_derived_twice : (v : Value) → strip_derived (strip_derived v) ≡ strip_derived v
  strip_derived_twice (obj d) = ap obj (strip_fields_twice d)
  strip_derived_twice (arr vs) = ap arr (strip_items_twice vs)
  strip_derived_twice (str s) = refl
  strip_derived_twice (num n) = refl
  strip_derived_twice (bool b) = refl
  strip_derived_twice null = refl

  strip_fields_twice : (d : Fields) → strip_fields (strip_fields d) ≡ strip_fields d
  strip_fields_twice end = refl
  strip_fields_twice (field k v r) = ground (arith, strip_fields_twice r, strip_derived_twice v)

  strip_items_twice : (vs : Items) → strip_items (strip_items vs) ≡ strip_items vs
  strip_items_twice nil = refl
  strip_items_twice (cons v vs) = ground (arith, strip_items_twice vs, strip_derived_twice v)

-- A derived field makes no difference.
pub strip_fields-set :
    (k : String) (v : Value) (d : Fields)
    → contains derived_fields k ≡ true
    → strip_fields (set k v d) ≡ strip_fields d
unfolding strip_fields set
strip_fields-set k v end h = ground (arith, h)
strip_fields-set k v (field j w r) h = ground (arith, h, ==_iff j k, strip_fields-set k v r h)
