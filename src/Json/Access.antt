-- ===== src/Json/Access.antt =====
-- Reading a value as Python does where it may be of another type: `isinstance` tests, `.get` on what
-- should be a `dict`, `in`.
use runtime_lab_core.Prelude.{
  String, ◌≡◌, refl, Bool, true, false, ◌&&◌, ◌||◌, Option, none, some, List, [], ◌∷◌, Result, ok,
  raise, has_infix, is_nonempty, strip, contains,
}
use runtime_lab_core.Json.{
  Value, null, str, arr, obj, Items, nil, cons, Fields, end, field, get, has, is_str, is_text,
}

-- `isinstance(v, Mapping)`
abbrev pub is_mapping : Value → Bool
is_mapping (obj _) = true
is_mapping _ = false

abbrev pub is_list : Value → Bool
is_list (arr _) = true
is_list _ = false

-- `v.get(k)` where `v` was not tested to be a mapping
unfoldable pub checked_get : String → Value → Result Value
checked_get k (obj d) = ok (get k d)
checked_get k _ = raise "AttributeError"

-- `v.get(k)`, and `None` if `v` is no mapping
abbrev pub get_in : String → Value → Value
get_in k (obj d) = get k d
get_in k _ = null

-- `isinstance(v, str) and bool(v.strip())`
abbrev pub is_nonblank : Value → Bool
is_nonblank (str s) = is_nonempty (strip s)
is_nonblank _ = false

-- `all(_is_non_empty_string(item) for item in v)`
abbrev pub all_nonblank : Items → Bool
all_nonblank nil = true
all_nonblank (cons v vs) = is_nonblank v && all_nonblank vs

-- `v == ["a", ...]`
abbrev pub are_texts : Items → List String → Bool
are_texts nil [] = true
are_texts (cons v vs) (s ∷ ss) = is_str v s && are_texts vs ss
are_texts _ _ = false

abbrev pub is_texts : Value → List String → Bool
is_texts (arr vs) ss = are_texts vs ss
is_texts _ ss = false

abbrev pub has_item : String → Items → Bool
has_item s nil = false
has_item s (cons v vs) = is_str v s || has_item s vs

-- `s in v`
unfoldable pub is_member : String → Value → Result Bool
is_member s (arr vs) = ok (has_item s vs)
is_member s (obj d) = ok (has s d)
is_member s (str t) = ok (has_infix t s)
is_member s _ = raise "TypeError"

-- `any(k in d for k in ks)`
abbrev pub has_any : List String → Fields → Bool
has_any [] d = false
has_any (k ∷ ks) d = has k d || has_any ks d

-- `all(k in d for k in ks)`
abbrev pub has_all : List String → Fields → Bool
has_all [] d = true
has_all (k ∷ ks) d = has k d && has_all ks d

-- `not (set(d) - set(ks))`
unfoldable pub has_only : List String → Fields → Bool
has_only ks end = true
has_only ks (field k _ r) = contains ks k && has_only ks r

-- `all(isinstance(d.get(k), str) and d.get(k) for k in ks)`
abbrev pub all_texts : List String → Fields → Bool
all_texts [] d = true
all_texts (k ∷ ks) d = is_text (get k d) && all_texts ks d

-- `all(_is_non_empty_string(d.get(k)) for k in ks)`
abbrev pub nonblank_at : List String → Fields → Bool
nonblank_at [] d = true
nonblank_at (k ∷ ks) d = is_nonblank (get k d) && nonblank_at ks d

abbrev strict_texts : Items → Option (List String)
strict_texts nil = some []
strict_texts (cons (str s) vs) = elim (strict_texts vs) [ none ↦ none | some ss ↦ some (s ∷ ss) ]
strict_texts (cons _ vs) = none

-- The texts of a list of `str` only; `None` for anything else.
unfoldable pub strict_string_list : Value → Option (List String)
strict_string_list (arr vs) = strict_texts vs
strict_string_list _ = none

abbrev pub texts_of : Items → List String
texts_of nil = []
texts_of (cons (str s) vs) = s ∷ texts_of vs
texts_of (cons _ vs) = texts_of vs

-- `[item for item in v if isinstance(item, str)]`, empty if `v` is no list
abbrev pub as_string_list : Value → List String
as_string_list (arr vs) = texts_of vs
as_string_list _ = []

abbrev pub text_or_empty : Value → String
text_or_empty (str s) = s
text_or_empty _ = ""

-- The `dict` that a value is, or an empty one.
abbrev pub fields_of : Value → Fields
fields_of (obj d) = d
fields_of _ = end

pub is_mapping-eq : (v : Value) → is_mapping v ≡ true → v ≡ obj (fields_of v)
is_mapping-eq (obj d) e = refl
is_mapping-eq _ e = absurd cc

pub is_text-eq : (v : Value) → is_text v ≡ true → v ≡ str (text_or_empty v)
is_text-eq (str s) e = refl
is_text-eq _ e = absurd cc
