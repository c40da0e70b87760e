-- ===== src/TestRunner/Runner/Laws.antt =====
-- The recorded output is bounded, and the process sees no secret.
use mathlib.Core.Path.{subst}
use runtime_lab_core.Prelude.{
  ℕ, ℤ, ◌≤ℤ◌, suc, pos, pos_part, ◌+◌, ◌-◌, ◌≤◌, min, String, ◌≡◌, ◌↔◌, refl, sym, ap, ◌⊎◌, inl,
  inr, Bool, true, false, Option, some, List, [], ◌∷◌, ◌++◌, take, drop, length, All, contains,
  sorted, map, arith, Bool-cases, ltb, ==_iff,
}
use runtime_lab_core.TestRunner.Models.{TestRunnerPolicy, TestRunRequest, TestCommandSpec}
use runtime_lab_core.TestRunner.Policy.{
  Folders, Verdict, rejected, accepted, policy_or_default, validate_test_run_request,
}
use runtime_lab_core.TestRunner.Policy.Laws.{Limits, Passed, validate_test_run_request-Passed}
use runtime_lab_core.TestRunner.Runner.{
  Patterns, Env, mark, contains_secret_like_value, limit, stdout_of, stderr_of, redact_keys,
  redact_environment, truncate_outputs, base_env, Invocation, Outcome, TestRun, ran, run_invocation,
  run_allowlisted_test,
}

length-take : {A : Type 0} (n : ℕ) (xs : List A) → length (take n xs) ≡ min n (length xs)
length-take ℕ.zero xs = omega arith
length-take (suc n) [] = omega arith
length-take (suc n) (x ∷ xs) = omega (arith, length-take n xs)

take-append-drop : {A : Type 0} (n : ℕ) (xs : List A) → take n xs ++ drop n xs ≡ xs
take-append-drop ℕ.zero xs = refl
take-append-drop (suc n) [] = refl
take-append-drop (suc n) (x ∷ xs) = ap (◌∷◌ x) (take-append-drop n xs)

take_all : {A : Type 0} (n : ℕ) (xs : List A) → length xs ≤ n → take n xs ≡ xs
take_all ℕ.zero [] h = refl
take_all ℕ.zero (x ∷ xs) h = absurd (omega arith)
take_all (suc n) [] h = refl
take_all (suc n) (x ∷ xs) h = ap (◌∷◌ x) (take_all n xs (omega arith))

-- What is recorded of a stream begins it, and it is all of it exactly if it is not marked as cut.
abbrev pub Records : List ℕ → List ℕ → Bool → Type 0
Records recorded stream cut =
    ((rest : List ℕ) × (recorded ++ rest ≡ stream)) × ((cut ≡ false) ↔ (recorded ≡ stream))

not_lt : (a b : ℕ) → ltb a b ≡ false → b ≤ a
not_lt a b h = ground arith

not_lt_self : (a : ℕ) → ltb a a ≡ false
not_lt_self a = ground arith

take-Records : (n : ℕ) (xs : List ℕ) → Records (take n xs) xs (ltb (length (take n xs)) (length xs))
take-Records n xs = (
  (drop n xs, take-append-drop n xs),
  (
    λ whole.
        take_all n xs
          (omega (arith, length-take {A = ℕ} n xs, not_lt (length (take n xs)) (length xs) whole)),
    λ same.
        subst (λ (recorded : List ℕ). ltb (length recorded) (length xs) ≡ false) (sym same)
          (not_lt_self (length xs)),
  ),
)

-- Both recorded streams begin the real ones and are marked as cut off exactly where something is missing, each keeps
-- within its limit, and both together within theirs.
pub truncate_outputs_bounds :
    (stdout stderr : List ℕ) (max_out max_err max_total : ℕ)
    → let (out, err, out_cut, err_cut) = truncate_outputs stdout stderr max_out max_err max_total in
      Records out stdout out_cut
      × Records err stderr err_cut
      × (length out ≤ max_out)
      × (length err ≤ max_err)
      × (length out + length err ≤ max_total)
unfolding truncate_outputs
truncate_outputs_bounds stdout stderr max_out max_err max_total = (
  take-Records (min max_out max_total) stdout,
  take-Records (min max_err (max_total - length (take (min max_out max_total) stdout))) stderr,
  omega (arith, length-take {A = ℕ}),
  omega (arith, length-take {A = ℕ}),
  omega (arith, length-take {A = ℕ}),
)

module _ (re : Patterns) where
  -- An entry that may be shown: masked, or with neither a secret's name nor its form.
  abbrev pub IsClean : String × String → Type 0
  IsClean (key, value) =
      (value ≡ mark) ⊎ ((re.secret_key key ≡ false) × (re.secret_value value ≡ false))

  contains_secret_like_value-IsClean :
      (env : Env) → contains_secret_like_value re env ≡ false → All IsClean env
  unfolding contains_secret_like_value
  contains_secret_like_value-IsClean [] h = tt
  contains_secret_like_value-IsClean ((key, value) ∷ env) h =
      ground (arith, contains_secret_like_value-IsClean env, ==_iff value mark)

  redact_keys-IsAllowed :
      (env : Env) (allowed redacted keys : List String)
      → All (λ e. contains allowed e.0 ≡ true) (redact_keys re env allowed redacted keys)
  unfolding redact_keys
  redact_keys-IsAllowed env allowed redacted [] = tt
  redact_keys-IsAllowed env allowed redacted (key ∷ keys) =
      ground (arith, redact_keys-IsAllowed env allowed redacted keys)

Verdict-cases :
    (v : Verdict)
    → ((id : String) × (codes : List String) × (v ≡ rejected id codes))
      ⊎ ((id : String) × (spec : TestCommandSpec) × (cwd : String) × (v ≡ accepted id spec cwd))
Verdict-cases (rejected id codes) = inl (id, codes, refl)
Verdict-cases (accepted id spec cwd) = inr (id, spec, cwd, refl)

limit_of : (o : Option ℤ) (n : ℤ) → o ≡ some n → limit o ≡ pos_part n
limit_of o n e = ap limit e

positive_le : (a b : ℤ) → pos 1 ≤ℤ a → a ≤ℤ b → pos_part a ≤ pos_part b
positive_le a b h k = ground arith

-- The texts of a run are decoded of bytes that begin the streams of its process, are marked where something is
-- missing, and keep within the limits.
pub record IsBounded (policy : TestRunnerPolicy) (outcome : Outcome) (decode : List ℕ → String)
    (r : TestRun) : Type 0 where
  pub out : List ℕ
  pub err : List ℕ
  pub decoded : (r.stdout ≡ decode out) × (r.stderr ≡ decode err)
  pub of_stdout : Records out (stdout_of outcome) r.stdout_truncated
  pub of_stderr : Records err (stderr_of outcome) r.stderr_truncated
  pub within_out : length out ≤ pos_part policy.max_stdout_bytes
  pub within_err : length err ≤ pos_part policy.max_stderr_bytes
  pub within_total : length out + length err ≤ pos_part policy.max_total_output_bytes

-- A run that takes place passed every test; its process is given the argument list of a listed command and
-- only clean entries under allowed names; what is recorded keeps within the policy's limits.
module _ (folders : Folders) (re : Patterns) (environ : Env) (executor : Invocation → Outcome)
    (decode : List ℕ → String) where
  abbrev pub IsSafeRun :
      TestRunRequest
      → Option (List (String × TestCommandSpec))
      → TestRunnerPolicy
      → TestRun
      → Type 0
  IsSafeRun request allowlist policy r =
      (spec : TestCommandSpec) × Passed folders request allowlist policy spec r.invocation.cwd
      × (r.invocation.argv ≡ spec.argv)
      × All (IsClean re) r.invocation.env
      × All (λ e. contains request.allowed_env_keys e.0 ≡ true) r.invocation.env
      × IsBounded policy (executor r.invocation) decode r

  run_bounds :
      (request : TestRunRequest) (policy : TestRunnerPolicy) (invocation : Invocation)
      → Limits request policy
      → IsBounded policy
          (executor invocation)
          decode
          (run_invocation decode request invocation (executor invocation))
  unfolding run_invocation truncate_outputs
  run_bounds request policy invocation l =
      let stdout = stdout_of (executor invocation) in
      let stderr = stderr_of (executor invocation) in
      let max_out = limit request.max_stdout_bytes in
      let max_total = limit request.max_total_output_bytes in
      let recorded = take (min max_out max_total) stdout in
      let (of_out, of_err, out, err, total) =
        truncate_outputs_bounds stdout stderr max_out (limit request.max_stderr_bytes) max_total in
      let o = limit_of request.max_stdout_bytes l.out l.out_given in
      let e = limit_of request.max_stderr_bytes l.err l.err_given in
      let n = limit_of request.max_total_output_bytes l.total l.total_given in
      record {
        out = recorded;
        err = take (min (limit request.max_stderr_bytes) (max_total - length recorded)) stderr;
        decoded = (refl, refl);
        of_stdout = of_out;
        of_stderr = of_err;
        within_out = omega (
          arith,
          out,
          err,
          total,
          o,
          e,
          n,
          positive_le l.out policy.max_stdout_bytes l.positive.1 l.within.1,
          positive_le l.err policy.max_stderr_bytes l.positive.2 l.within.2,
          positive_le l.total policy.max_total_output_bytes l.positive.3 l.within.3,
        );
        within_err = omega (
          arith,
          out,
          err,
          total,
          o,
          e,
          n,
          positive_le l.out policy.max_stdout_bytes l.positive.1 l.within.1,
          positive_le l.err policy.max_stderr_bytes l.positive.2 l.within.2,
          positive_le l.total policy.max_total_output_bytes l.positive.3 l.within.3,
        );
        within_total = omega (
          arith,
          out,
          err,
          total,
          o,
          e,
          n,
          positive_le l.out policy.max_stdout_bytes l.positive.1 l.within.1,
          positive_le l.err policy.max_stderr_bytes l.positive.2 l.within.2,
          positive_le l.total policy.max_total_output_bytes l.positive.3 l.within.3,
        );
      }

  -- A test run that takes place passed every test of the validation; its process is given the argument list of the
  -- listed command, in the folder that was tested, and only masked or secret-free entries under allowed names. The
  -- returned texts are decoded of bytes that begin the two streams, are marked as cut off exactly where something is
  -- missing, and keep within the limits of the policy, each and together.
  pub run_allowlisted_test-IsSafeRun :
      (request : TestRunRequest) (allowlist : Option (List (String × TestCommandSpec)))
      (chosen : Option TestRunnerPolicy) (r : TestRun)
      → run_allowlisted_test folders re environ executor decode request allowlist chosen ≡ ran r
      → IsSafeRun request allowlist (policy_or_default chosen) r
  unfolding run_allowlisted_test
  run_allowlisted_test-IsSafeRun request allowlist chosen r h =
      elim (Verdict-cases (validate_test_run_request folders request allowlist chosen)) [
        | inl (id, codes, bad) ↦ absurd (ground arith)
        | inr (id, spec, cwd, good) ↦
            let env =
              redact_environment re (base_env environ request) request.allowed_env_keys
                request.redacted_env_keys in
            elim (Bool-cases (contains_secret_like_value re env)) [
              | inl secret ↦ absurd (ground arith)
              | inr clean ↦
                  let invocation : Invocation = record {
                    argv = spec.argv;
                    cwd = cwd;
                    env = env;
                    timeout_seconds = request.timeout_seconds;
                  } in
                  let same : run_invocation decode request invocation (executor invocation) ≡ r =
                    ground arith in
                  let passed =
                    validate_test_run_request-Passed folders request allowlist chosen id spec cwd
                      good in
                  subst (IsSafeRun request allowlist (policy_or_default chosen)) same (
                    spec,
                    passed,
                    refl,
                    contains_secret_like_value-IsClean re env clean,
                    redact_keys-IsAllowed re (base_env environ request) request.allowed_env_keys
                        request.redacted_env_keys
                        (sorted (map (λ e. e.0) (base_env environ request))),
                    run_bounds request (policy_or_default chosen) invocation passed.limits,
                  )
            ]
      ]
