-- ===== src/Prelude/Text.antt =====
-- Operations of Python's `str` that the program calls, over the native text.
use Prim.Native.Nat.{ℕ, zero, suc}
use Prim.Native.Char.{code}
use Prim.Native.String.{String}
use runtime_lab_core.Prelude.Tests.{◌=ℕ=◌, leb, if◌then◌else◌}
use mathlib.Core.Bool.{Bool, true, false, ◌||◌, ◌&&◌}
use mathlib.Core.Option.{Option, none, some}

-- `a + b`
infixr 66 ◌<>◌
abbrev pub ◌<>◌ : String → String → String
String.[] <> t = t
(String.◌∷◌ c s) <> t = String.◌∷◌ c (s <> t)

-- What is left of a text behind a prefix.
abbrev pub strip_prefix : String → String → Option String
strip_prefix String.[] s = some s
strip_prefix (String.◌∷◌ c p) String.[] = none
strip_prefix (String.◌∷◌ c p) (String.◌∷◌ d s) =
    let rest = strip_prefix p s in if code c =ℕ= code d then rest else none

-- `s.startswith(p)`
abbrev pub starts_with : String → String → Bool
starts_with s p = elim (strip_prefix p s) [ none ↦ false | some _ ↦ true ]

-- `s.removeprefix(p)`
abbrev pub removeprefix : String → String → String
removeprefix s p = elim (strip_prefix p s) [ none ↦ s | some rest ↦ rest ]

-- `bool(s)`
abbrev pub is_nonempty : String → Bool
is_nonempty String.[] = false
is_nonempty _ = true

-- `p in s`
abbrev pub has_infix : String → String → Bool
has_infix String.[] p = starts_with String.[] p
has_infix (String.◌∷◌ c s) p = starts_with (String.◌∷◌ c s) p || has_infix s p

-- `c.isspace()`, by the code point
abbrev pub is_space : ℕ → Bool
is_space c =
    (leb 9 c && leb c 13)
    || (leb 28 c && leb c 32)
    || (c =ℕ= 133)
    || (c =ℕ= 160)
    || (c =ℕ= 5760)
    || (leb 8192 c && leb c 8202)
    || (c =ℕ= 8232)
    || (c =ℕ= 8233)
    || (c =ℕ= 8239)
    || (c =ℕ= 8287)
    || (c =ℕ= 12288)

abbrev pub lstrip : String → String
lstrip String.[] = String.[]
lstrip (String.◌∷◌ c s) = let rest = lstrip s in if is_space (code c) then rest else String.◌∷◌ c s

abbrev pub rstrip : String → String
rstrip String.[] = String.[]
rstrip (String.◌∷◌ c s) =
    let rest = rstrip s in
    elim rest [
      | String.[] ↦ if is_space (code c) then String.[] else String.◌∷◌ c String.[]
      | String.◌∷◌ d r ↦ String.◌∷◌ c (String.◌∷◌ d r)
    ]

-- `s.strip()`
unfoldable pub strip : String → String
strip s = rstrip (lstrip s)

-- `s[:n]`
abbrev pub text_take : ℕ → String → String
text_take zero s = String.[]
text_take (suc n) String.[] = String.[]
text_take (suc n) (String.◌∷◌ c s) = String.◌∷◌ c (text_take n s)
