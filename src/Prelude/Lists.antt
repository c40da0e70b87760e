-- ===== src/Prelude/Lists.antt =====
-- Lists measured and indexed by native numbers.
use Prim.Native.Nat.{ℕ, zero, suc, ◌+◌}
use Prim.Native.String.{String}
use mathlib.Core.Path.{◌≡◌, refl, sym, subst}
use mathlib.Core.Logic.{◌⊎◌, inl, inr}
use mathlib.Core.Bool.{Bool, true, false, ◌||◌, ◌&&◌}
use mathlib.Core.List.{List, [], ◌∷◌, ◌++◌}
use native.Mathlib.Omega.{arith}
use runtime_lab_core.Prelude.Tests.{◌==◌, ==_iff, ==_refl, if◌then◌else◌}

module _ {ℓ} {A : Type ℓ} where
  abbrev pub length : List A → ℕ
  length [] = 0
  length (_ ∷ xs) = suc (length xs)

  abbrev pub take : ℕ → List A → List A
  take zero xs = []
  take (suc n) [] = []
  take (suc n) (x ∷ xs) = x ∷ take n xs

  abbrev pub drop : ℕ → List A → List A
  drop zero xs = xs
  drop (suc n) [] = []
  drop (suc n) (_ ∷ xs) = drop n xs

  pub length-append : (xs ys : List A) → length (xs ++ ys) ≡ length xs + length ys
  length-append [] ys = omega arith
  length-append (x ∷ xs) ys = omega (arith, length-append xs ys)

-- `x in xs`
abbrev pub contains : List String → String → Bool
contains [] a = false
contains (x ∷ xs) a = a == x || contains xs a

-- `xs == ys`
abbrev pub same_texts : List String → List String → Bool
same_texts [] [] = true
same_texts (x ∷ xs) (y ∷ ys) = x == y && same_texts xs ys
same_texts _ _ = false

pub same_texts-eq : (xs ys : List String) → same_texts xs ys ≡ true → xs ≡ ys
same_texts-eq [] [] h = refl
same_texts-eq (x ∷ xs) (y ∷ ys) h = ground (arith, h, ==_iff x y, same_texts-eq xs ys)
same_texts-eq [] (y ∷ ys) h = absurd (ground (arith, h))
same_texts-eq (x ∷ xs) [] h = absurd (ground (arith, h))

pub same_texts_refl : (xs : List String) → same_texts xs xs ≡ true
same_texts_refl [] = refl
same_texts_refl (x ∷ xs) = ground (arith, ==_refl x, same_texts_refl xs)

-- All copies of `a` taken out.
abbrev pub without : String → List String → List String
without a [] = []
without a (x ∷ xs) = let rest = without a xs in if x == a then rest else x ∷ rest

-- `list(dict.fromkeys(xs))`: the first of each value, in order.
unfoldable pub dedupe : List String → List String
dedupe [] = []
dedupe (x ∷ xs) = x ∷ without x (dedupe xs)

-- `not xs`
abbrev pub is_empty {ℓ} : {A : Type ℓ} → List A → Bool
is_empty [] = true
is_empty _ = false

-- Of a list with something in it something is left.
pub is_empty-dedupe : (xs : List String) → is_empty (dedupe xs) ≡ is_empty xs
unfolding dedupe
is_empty-dedupe [] = refl
is_empty-dedupe (x ∷ xs) = refl

-- `a` is one of the list.
abbrev pub Among : {A : Type 0} → A → List A → Type 0
Among a [] = ⊥
Among a (x ∷ xs) = (a ≡ x) ⊎ Among a xs

abbrev pub All : {A : Type 0} → (A → Type 0) → List A → Type 0
All P [] = Unit
All P (x ∷ xs) = P x × All P xs

pub All-Among : {A : Type 0} (P : A → Type 0) (a : A) (xs : List A) → All P xs → Among a xs → P a
All-Among P a (x ∷ xs) h (inl here) = subst P (sym here) h.0
All-Among P a (x ∷ xs) h (inr there) = All-Among P a xs h.1 there
All-Among P a [] h m = absurd m
