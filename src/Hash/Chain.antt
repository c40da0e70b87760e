-- ===== src/Hash/Chain.antt =====
-- Hash-linked event lists: what a log that stores each event's hash, and repeats the hash before it in
-- the next event, says about its contents. The logs of the agent loop and the event ledger are of this form.
use mathlib.Core.List.{reverse, reverse_aux, reverse-reverse}
use mathlib.Core.Bool.{true≢false}
use mathlib.Core.Path.{ap₂, subst}
use runtime_lab_core.Prelude.{
  String, ◌≡◌, refl, sym, ◌∙◌, ◌≢◌, ◌⊎◌, inl, inr, List, [], ◌∷◌, map, ap, Among, ◌<>◌, ◌==◌,
  ==_iff, Bool-cases,
}
use runtime_lab_core.Json.{str, obj, Fields, get, pop}
use runtime_lab_core.Hash.{Host, canonical_hash, canonical_hash-ne-genesis}

Among-reverse_aux :
    {A : Type 0} (a : A) (xs acc : List A) → Among a (reverse_aux xs acc) → Among a xs ⊎ Among a acc
Among-reverse_aux a [] acc m = inr m
Among-reverse_aux a (x ∷ xs) acc m = elim (Among-reverse_aux a xs (x ∷ acc) m) [
  | inl old ↦ inl (inr old)
  | inr (inl here) ↦ inl (inl here)
  | inr (inr there) ↦ inr there
]

Among-reverse : {A : Type 0} (a : A) (xs : List A) → Among a (reverse xs) → Among a xs
Among-reverse a xs m = elim (Among-reverse_aux a xs [] m) [ inl here ↦ here | inr out ↦ absurd out ]

map-reverse_aux :
    {A B : Type 0} (f : A → B) (xs acc : List A)
    → map f (reverse_aux xs acc) ≡ reverse_aux (map f xs) (map f acc)
map-reverse_aux f [] acc = refl
map-reverse_aux f (x ∷ xs) acc = map-reverse_aux f xs (x ∷ acc)

-- A property of `json.dumps`: what it writes can be read back, so two mappings that it writes as the same text have the
-- same text under a key.
abbrev pub IsReadBack : Host → String → Type 0
IsReadBack h k =
    (a b : Fields) (s : String)
    → h.dumps (obj a) ≡ h.dumps (obj b)
    → get k a ≡ str s
    → get k b ≡ str s

-- `hash_key` holds an event's own hash and `link_key` the hash of the event before it.
module _ (h : Host) (hash_key link_key : String) where
  -- What an event's hash is taken of.
  abbrev pub payload : Fields → Fields
  payload = pop hash_key

  abbrev pub payload_hash : Fields → String
  payload_hash e = canonical_hash h (obj (payload e))

  -- The newest event stands first. Each carries its hash, and links to the one before it.
  abbrev pub Sealed : List Fields → String → Type 0
  Sealed [] last = last ≡ "GENESIS"
  Sealed (e ∷ older) last =
      (last ≡ payload_hash e)
      × (get hash_key e ≡ str last)
      × ((before : String) × (get link_key (payload e) ≡ str before) × Sealed older before)

  -- The text of which an event's hash is taken.
  abbrev pub payload_text : Fields → String
  payload_text e = h.dumps (obj (payload e))

  -- Two different texts, one of a payload of each log, with one digest.
  abbrev pub Collision : List Fields → List Fields → Type 0
  Collision xs ys =
      (s t : String) × Among s (map payload_text xs)
      × Among t (map payload_text ys)
      × (s ≢ t)
      × (("sha256:" <> h.sha256_hex s) ≡ ("sha256:" <> h.sha256_hex t))

  -- A log seen as the texts of its payloads: all of its contents but the stored hashes, which they fix, and the order
  -- of the keys of a `dict`, which `json.dumps` sorts.
  abbrev pub Agrees : List Fields → List Fields → Type 0
  Agrees xs ys = (map payload_text xs ≡ map payload_text ys) ⊎ Collision xs ys

  Agrees-cons :
      (x y : Fields) (xs ys : List Fields)
      → payload_text x ≡ payload_text y
      → Agrees xs ys
      → Agrees (x ∷ xs) (y ∷ ys)
  Agrees-cons x y xs ys same (inl rest) = inl (ap₂ ◌∷◌ same rest)
  Agrees-cons x y xs ys same (inr (a, b, in_xs, in_ys, differ, hash)) =
      inr (a, b, inr in_xs, inr in_ys, differ, hash)

  str_injective : (a b : String) → str a ≡ str b → a ≡ b
  str_injective a b e = cc

  -- The last hash of a log fixes the log, or there is a collision.
  pub Sealed-unique :
      (xs ys : List Fields) (last : String)
      → IsReadBack h link_key
      → Sealed xs last
      → Sealed ys last
      → Agrees xs ys
  unfolding canonical_hash
  Sealed-unique [] [] last _ _ _ = inl refl
  Sealed-unique [] (y ∷ ys) last _ g (hash, _, _) =
      absurd (canonical_hash-ne-genesis h (obj (payload y)) (sym hash ∙ g))
  Sealed-unique (x ∷ xs) [] last _ (hash, _, _) g =
      absurd (canonical_hash-ne-genesis h (obj (payload x)) (sym hash ∙ g))
  Sealed-unique (x ∷ xs) (y ∷ ys) last back (hx, _, (p, lx, sx)) (hy, _, (q, ly, sy)) =
      elim (Bool-cases (payload_text x == payload_text y)) [
        | inl equal ↦
            let same = (==_iff (payload_text x) (payload_text y)).0 equal in
            let joined : p ≡ q =
              str_injective p q (sym (back (payload x) (payload y) p same lx) ∙ ly) in
            Agrees-cons x y xs ys same (Sealed-unique xs ys q back (subst (Sealed xs) joined sx) sy)
        | inr differ ↦ inr (
          payload_text x,
          payload_text y,
          inl refl,
          inl refl,
          (λ same. true≢false (sym ((==_iff (payload_text x) (payload_text y)).1 same) ∙ differ)),
          sym hx ∙ hy,
        )
      ]

  -- The same, for logs with the oldest event first.
  pub Agrees-reverse : (xs ys : List Fields) → Agrees (reverse xs) (reverse ys) → Agrees xs ys
  Agrees-reverse xs ys (inl same) =
      let back = λ (zs : List Fields). map-reverse_aux payload_text zs [] in
      inl (
        sym (reverse-reverse (map payload_text xs))
        ∙ ap reverse (sym (back xs) ∙ same ∙ back ys)
        ∙ reverse-reverse (map payload_text ys))
  Agrees-reverse xs ys (inr (a, b, in_xs, in_ys, differ, hash)) =
      let back = λ (zs : List Fields) (c : String) (m : Among c (map payload_text (reverse zs))).
        Among-reverse c (map payload_text zs)
          (subst (Among c) (map-reverse_aux payload_text zs []) m) in
      inr (a, b, back xs a in_xs, back ys b in_ys, differ, hash)
