-- ===== src/Json.antt =====
-- Values of a decoded JSON document, and the operations of `dict` that the program calls. A number
-- is an `int`; floats do not occur in the code that is modelled.
pub mod Access
pub mod Equality
use native.Mathlib.Decide.{ℕ_discrete}
use runtime_lab_core.Prelude.{
  ℕ, ℤ, pos, String, ◌≡◌, refl, ◌≢◌, Bool, true, false, List, [], ◌∷◌, ◌==◌, ==_iff, arith,
  if◌then◌else◌, str_le, Bool-cases, inl, inr, is_nonempty,
}

mutual
  -- The entries of a `dict`, in their order.
  pub data Fields : Type 0 where
    end : Fields
    field : String → Value → Fields → Fields

  pub data Value : Type 0 where
    obj : Fields → Value
    null : Value
    bool : Bool → Value
    arr : Items → Value
    num : ℤ → Value
    str : String → Value

  -- The members of a `list`.
  pub data Items : Type 0 where
    nil : Items
    cons : Value → Items → Items

-- `{"k": v, ...}`
abbrev pub dict : List (String × Value) → Fields
dict [] = end
dict ((k, v) ∷ r) = field k v (dict r)

-- `[v, ...]`
abbrev pub array : List Value → Items
array [] = nil
array (v ∷ r) = cons v (array r)

-- A list of `str`.
abbrev pub strings : List String → Items
strings [] = nil
strings (s ∷ r) = cons (str s) (strings r)

-- `d.get(k)`, with `None` for a missing key
unfoldable pub get : String → Fields → Value
get k end = null
get k (field j v r) = if j == k then v else get k r

-- `k in d`
unfoldable pub has : String → Fields → Bool
has k end = false
has k (field j v r) = if j == k then true else has k r

-- `d.pop(k, None)` on a copy. A `dict` has a key once at most; here every entry of the key goes.
unfoldable pub pop : String → Fields → Fields
pop k end = end
pop k (field j v r) = let rest = pop k r in if j == k then rest else field j v rest

-- `d[k] = v` on a copy
unfoldable pub set : String → Value → Fields → Fields
set k v end = field k v end
set k v (field j w r) = if j == k then field j v r else field j w (set k v r)

-- `set(d)`
unfoldable pub keys : Fields → List String
keys end = []
keys (field k _ r) = k ∷ keys r

-- `v == s` for a `str` on the right
abbrev pub is_str : Value → String → Bool
is_str (str t) s = t == s
is_str _ s = false

-- `isinstance(v, str) and v`
abbrev pub is_text : Value → Bool
is_text (str s) = is_nonempty s
is_text _ = false

-- `bool(v)`
abbrev pub truthy : Value → Bool
truthy null = false
truthy (bool b) = b
truthy (num (pos ℕ.zero)) = false
truthy (num _) = true
truthy (str s) = is_nonempty s
truthy (arr nil) = false
truthy (arr _) = true
truthy (obj end) = false
truthy (obj _) = true

pub is_str-eq : (v : Value) (s : String) → is_str v s ≡ true → v ≡ str s
is_str-eq (str t) s h = ground (arith, ==_iff t s)
is_str-eq null s h = ground arith
is_str-eq _ s h = ground arith

pub get-set :
    (j k : String) (v : Value) (d : Fields) → get j (set k v d) ≡ (if k == j then v else get j d)
unfolding get set
get-set j k v end = refl
get-set j k v (field i w r) = ground (arith, ==_iff k j, ==_iff i k, ==_iff i j, get-set j k v r)

pub pop-set : (k : String) (v : Value) (d : Fields) → pop k (set k v d) ≡ pop k d
unfolding pop set
pop-set k v end = ground (arith, ==_iff k k)
pop-set k v (field i w r) = ground (arith, ==_iff i k, pop-set k v r)

pub pop-set_ne :
    (j k : String) (v : Value) (d : Fields) → j ≢ k → pop j (set k v d) ≡ set k v (pop j d)
unfolding pop set
pop-set_ne j k v end h = ground (arith, h, ==_iff k j)
pop-set_ne j k v (field i w r) h = ground (arith, h, ==_iff i k, ==_iff i j, pop-set_ne j k v r h)

pub get-pop_ne : (j k : String) (d : Fields) → j ≢ k → get j (pop k d) ≡ get j d
unfolding pop get
get-pop_ne j k end h = refl
get-pop_ne j k (field i v r) h = ground (arith, ==_iff i k, ==_iff i j, get-pop_ne j k r h)

String-discrete : Discrete String
String-discrete a b = elim (Bool-cases (a == b)) [
  | inl same ↦ yes ((==_iff a b).0 same)
  | inr differ ↦ no (λ p. ground (arith, ==_iff a b))
]

pub Value-discrete : Discrete Value
Value-discrete = hlevel (ℕ_discrete, String-discrete)

pub Fields-discrete : Discrete Fields
Fields-discrete = hlevel (ℕ_discrete, String-discrete)

-- `a or b`
abbrev pub or_value : Value → Value → Value
or_value a b = if truthy a then a else b

-- A `dict` of texts.
abbrev pub text_fields : List (String × String) → Fields
text_fields [] = end
text_fields ((k, v) ∷ r) = field k (str v) (text_fields r)

-- Of the entries of a `dict` of texts, `dict(sorted(d.items()))`.
abbrev insert_entry : String × String → List (String × String) → List (String × String)
insert_entry e [] = e ∷ []
insert_entry e (f ∷ r) =
    let rest = insert_entry e r in if str_le e.0 f.0 then e ∷ (f ∷ r) else f ∷ rest

abbrev sort_entries : List (String × String) → List (String × String)
sort_entries [] = []
sort_entries (e ∷ r) = insert_entry e (sort_entries r)

unfoldable pub sorted_entries : List (String × String) → Fields
sorted_entries entries = text_fields (sort_entries entries)
