-- ===== src/TestRunner/Allowlist/Laws.antt =====
-- What a command of the table has passed.
use mathlib.Core.Path.{subst}
use runtime_lab_core.Prelude.{
  ℕ, String, ◌≡◌, ◌⊎◌, refl, true, false, ◌&&◌, Option, some, List, [], ◌∷◌, ok, arith,
  Option-cases, require-pass, Bool, not, sym, raise, inl, inr, contains, starts_with, lookup,
}
use runtime_lab_core.TestRunner.Models.{TestCommandSpec}
use runtime_lab_core.TestRunner.Allowlist.{
  disallowed_commands, command_name, pytest_index, has_pytest_target, any_live, validate_argv,
  validate_command_spec, candidates_of, resolve_command_spec,
}

List-cases : {A : Type 0} (xs : List A) → (xs ≡ []) ⊎ ((x : A) × (rest : List A) × (xs ≡ x ∷ rest))
List-cases [] = inl refl
List-cases (x ∷ rest) = inr (x, rest, refl)

-- A command of pytest, on a target, without the options that choose tests by an expression or run other code.
pub record IsTestCommand (spec : TestCommandSpec) : Type 0 where
  pub closed :
      (spec.shell_allowed ≡ false)
      × (spec.network_allowed ≡ false)
      × (spec.llm_invocation_allowed ≡ false)
      × (spec.model_driven_executor_dispatch_allowed ≡ false)
      × (spec.allow_live_deepseek ≡ false)
  pub first : String
  pub rest : List String
  pub argv_is : spec.argv ≡ first ∷ rest
  pub family : contains disallowed_commands (command_name first) ≡ false
  pub no_code : starts_with (command_name first) "python" && contains spec.argv "-c" ≡ false
  pub index : ℕ
  pub pytest : pytest_index spec.argv ≡ some index
  pub no_expression : contains spec.argv "-k" ≡ false
  pub not_live : any_live spec.argv ≡ false
  pub target : has_pytest_target spec.argv index ≡ true

pub ok_injective : {A : Type 0} (a b : A) → ok a ≡ ok b → a ≡ b
ok_injective a b e = cc

not-true : (b : Bool) → not b ≡ true → b ≡ false
not-true true e = sym e
not-true false e = refl

raise_not_ok : {A : Type 0} (error : String) (a : A) → raise error ≡ ok a → ⊥
raise_not_ok error a e = absurd cc

-- The tests on a command line that begins with `first`.
validate_argv-IsTestCommand :
    (spec found : TestCommandSpec) (first : String) (rest : List String)
    → (spec.shell_allowed ≡ false)
      × (spec.network_allowed ≡ false)
      × (spec.llm_invocation_allowed ≡ false)
      × (spec.model_driven_executor_dispatch_allowed ≡ false)
      × (spec.allow_live_deepseek ≡ false)
    → spec.argv ≡ first ∷ rest
    → validate_argv (command_name first) spec ≡ ok found
    → (spec ≡ found) × IsTestCommand spec
unfolding validate_argv
validate_argv-IsTestCommand spec found first rest closed argv_is h =
    let (family, h1) =
      require-pass (not (contains disallowed_commands (command_name first))) _ _ h in
    let (no_code, h2) =
      require-pass (not (starts_with (command_name first) "python" && contains spec.argv "-c")) _ _
        h1 in
    elim (Option-cases (pytest_index spec.argv)) [
      | inl missing ↦ absurd (raise_not_ok _ found (rw missing at h2))
      | inr (index, pytest) ↦
          let (no_expression, h3) =
            require-pass (not (contains spec.argv "-k")) _ _ (rw pytest at h2) in
          let (not_live, h4) = require-pass (not (any_live spec.argv)) _ _ h3 in
          let (target, h5) = require-pass (has_pytest_target spec.argv index) _ _ h4 in
          (
            ok_injective spec found h5,
            record {
              closed = closed;
              first = first;
              rest = rest;
              argv_is = argv_is;
              family = not-true _ family;
              no_code = not-true _ no_code;
              index = index;
              pytest = pytest;
              no_expression = not-true _ no_expression;
              not_live = not-true _ not_live;
              target = target;
            },
          )
    ]

validate_command_spec-IsTestCommand :
    (spec found : TestCommandSpec)
    → validate_command_spec spec ≡ ok found
    → (spec ≡ found) × IsTestCommand spec
unfolding validate_command_spec
validate_command_spec-IsTestCommand spec found h = elim (List-cases spec.argv) [
  | inl missing ↦ absurd (ground (arith, h))
  | inr (first, rest, argv_is) ↦
      validate_argv-IsTestCommand spec found first rest (ground (arith, h)) argv_is
        (ground (arith, h))
]

pub resolve_command_spec-IsTestCommand :
    (command_id : String) (allowlist : Option (List (String × TestCommandSpec)))
    (spec : TestCommandSpec)
    → resolve_command_spec command_id allowlist ≡ ok spec
    → (lookup command_id (candidates_of allowlist) ≡ some spec) × IsTestCommand spec
unfolding resolve_command_spec
resolve_command_spec-IsTestCommand command_id allowlist spec h =
    elim (Option-cases (lookup command_id (candidates_of allowlist))) [
      | inl missing ↦ absurd (ground (arith, h))
      | inr (found, at) ↦
          let (same, good) =
            validate_command_spec-IsTestCommand found spec (rw (at, resolve_command_spec) at h) in
          (rw same at at, subst IsTestCommand same good)
    ]
