-- ===== src/Json/Equality.antt =====
-- `a == b` of decoded JSON, as Python compares it: a `dict` in any order, and a `bool` with a number.
use runtime_lab_core.Prelude.{
  ℤ, pos, String, ◌≡◌, sym, ap, Bool, true, false, ◌&&◌, not, ◌==◌, ==_iff, leb_ℤ,
}
use runtime_lab_core.Json.{
  Value, null, bool, num, str, arr, obj, Items, nil, cons, Fields, end, field, get, has, keys,
}
use runtime_lab_core.Json.Access.{has_only}

abbrev same_ℤ : ℤ → ℤ → Bool
same_ℤ a b = leb_ℤ a b && leb_ℤ b a

-- `int(b)`
abbrev int_of : Bool → ℤ
int_of true = pos 1
int_of false = pos 0

abbrev same_bool : Bool → Bool → Bool
same_bool true b = b
same_bool false b = not b

unfoldable mutual
  pub same_value : Value → Value → Bool
  same_value null null = true
  same_value (str s) (str t) = s == t
  same_value (bool a) (bool b) = same_bool a b
  same_value (num m) (num n) = same_ℤ m n
  same_value (bool a) (num n) = same_ℤ (int_of a) n
  same_value (num m) (bool b) = same_ℤ m (int_of b)
  same_value (arr us) (arr vs) = same_items us vs
  same_value (obj d) (obj e) = fields_in d e && has_only (keys d) e
  same_value _ _ = false

  pub same_items : Items → Items → Bool
  same_items nil nil = true
  same_items (cons u us) (cons v vs) = same_value u v && same_items us vs
  same_items _ _ = false

  -- Every entry of the first is one of the second.
  pub fields_in : Fields → Fields → Bool
  fields_in end e = true
  fields_in (field k v r) e = has k e && (same_value v (get k e) && fields_in r e)

-- A value that equals a text is that text.
pub same_value_str : (v : Value) (s : String) → same_value v (str s) ≡ true → v ≡ str s
unfolding same_value
same_value_str (str t) s e = ap str ((==_iff t s).0 e)
same_value_str _ s e = absurd cc

pub same_value_of_str : (s : String) (v : Value) → same_value (str s) v ≡ true → v ≡ str s
unfolding same_value
same_value_of_str s (str t) e = ap str (sym ((==_iff s t).0 e))
same_value_of_str s _ e = absurd cc
