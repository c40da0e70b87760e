-- ===== src/Prelude/Results.antt =====
-- A computation that returns or raises a policy error with its code, and `dict` lookup by text.
use Prim.Native.String.{String}
use mathlib.Core.Path.{◌≡◌, refl}
use mathlib.Core.Logic.{◌⊎◌, inl, inr}
use mathlib.Core.Bool.{Bool, true, false}
use mathlib.Core.Option.{Option, none, some}
use mathlib.Core.List.{List, [], ◌∷◌}
use runtime_lab_core.Prelude.Tests.{◌==◌, ==_iff, Bool-cases, if◌then◌else◌}
use runtime_lab_core.Prelude.Lists.{Among}
use native.Mathlib.Omega.{arith}

pub data Result {ℓ} (A : Type ℓ) : Type ℓ where
  ok : A → Result A
  raise : String → Result A

-- `if not test: raise Error(code)`
abbrev pub require : Bool → String → Result (Unit {0})
require true code = ok tt
require false code = raise code

-- What comes after a step that returned; an error ends the rest.
infixl 5 ◌>>=◌ ◌>>◌
abbrev pub ◌>>=◌ {κ ℓ} : {X : Type κ} {Y : Type ℓ} → Result X → (X → Result Y) → Result Y
raise code >>= next = raise code
ok value >>= next = next value

abbrev pub ◌>>◌ {κ} : {Y : Type κ} → Result (Unit {0}) → Result Y → Result Y
step >> rest = step >>= λ _. rest

-- Steps that return together have each returned.
pub >>=-eq-ok {κ ℓ} :
    {X : Type κ} {Y : Type ℓ} (step : Result X) (next : X → Result Y) {y : Y}
    → (step >>= next) ≡ ok y
    → (x : X) × (step ≡ ok x) × (next x ≡ ok y)
>>=-eq-ok (raise code) next returned = cc
>>=-eq-ok (ok x) next returned = (x, refl, returned)

-- `table.get(k)` of a `dict` keyed by texts
abbrev pub lookup {ℓ} : {V : Type ℓ} → String → List (String × V) → Option V
lookup k [] = none
lookup k ((j, v) ∷ r) = if j == k then some v else lookup k r

pub Result-cases {ℓ} :
    {A : Type ℓ} (r : Result A) → ((e : String) × (r ≡ raise e)) ⊎ ((a : A) × (r ≡ ok a))
Result-cases (ok a) = inr (a, refl)
Result-cases (raise e) = inl (e, refl)

-- What a lookup finds is an entry of the table.
pub lookup-Among :
    {V : Type 0} (k : String) (v : V) (table : List (String × V))
    → lookup k table ≡ some v
    → Among (k, v) table
lookup-Among k v [] e = cc
lookup-Among k v ((j, w) ∷ r) e = elim (Bool-cases (j == k)) [
  | inl same ↦ inl (ground (arith, ==_iff j k))
  | inr differ ↦ inr (lookup-Among k v r (rw differ at e))
]

-- A test that was passed holds, and the rest returned.
pub require-pass {κ} :
    {Y : Type κ} (b : Bool) (code : String) (next : Unit {0} → Result Y) {y : Y}
    → (require b code >>= next) ≡ ok y
    → (b ≡ true) × (next tt ≡ ok y)
require-pass true code next returned = (refl, returned)
require-pass false code next returned = cc

-- The code of the first test that fails.
abbrev pub first_code : Option String → Option String → Option String
first_code (some code) rest = some code
first_code none rest = rest

-- Of checks that may raise: the rejection of the first that rejects; `none` when all pass.
infixr 4 ◌then_check◌
abbrev pub ◌then_check◌ {ℓ} :
    {A : Type ℓ} → Result (Option A) → Result (Option A) → Result (Option A)
(raise error) then_check rest = raise error
(ok (some rejection)) then_check rest = ok (some rejection)
(ok none) then_check rest = rest

pub then_check-pass {ℓ} :
    {A : Type ℓ} (check rest : Result (Option A))
    → (check then_check rest) ≡ ok none
    → (check ≡ ok none) × (rest ≡ ok none)
then_check-pass (raise error) rest e = absurd cc
then_check-pass (ok (some rejection)) rest e = absurd cc
then_check-pass (ok none) rest e = (refl, e)
