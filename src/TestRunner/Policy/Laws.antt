-- ===== src/TestRunner/Policy/Laws.antt =====
-- What an accepted request has passed.
use mathlib.Core.Path.{subst}
use runtime_lab_core.Prelude.{
  ℤ, pos, ◌≤ℤ◌, String, ◌≡◌, ◌≢◌, refl, true, false, Option, none, some, List, ok, arith,
  Option-cases, Result-cases, require-pass, sym, inl, inr, lookup,
}
use runtime_lab_core.TestRunner.Models.{TestRunnerPolicy, TestRunRequest, TestCommandSpec}
use runtime_lab_core.PosixPath
use runtime_lab_core.TestRunner.Allowlist.{candidates_of, resolve_command_spec}
use runtime_lab_core.TestRunner.Allowlist.Laws.{
  IsTestCommand, ok_injective, resolve_command_spec-IsTestCommand,
}
use runtime_lab_core.TestRunner.Policy.{
  Folders, accepted, policy_rejection, limits_rejection, request_rejection, resolve_cwd,
  resolve_request, policy_or_default, validate_test_run_request,
}

-- The limits of a request are given and positive, lie within the policy's, and the total covers both streams.
pub record Limits (request : TestRunRequest) (policy : TestRunnerPolicy) : Type 0 where
  pub timeout : ℤ
  pub out : ℤ
  pub err : ℤ
  pub total : ℤ
  pub timeout_given : request.timeout_seconds ≡ some timeout
  pub out_given : request.max_stdout_bytes ≡ some out
  pub err_given : request.max_stderr_bytes ≡ some err
  pub total_given : request.max_total_output_bytes ≡ some total
  pub positive : (pos 1 ≤ℤ timeout) × (pos 1 ≤ℤ out) × (pos 1 ≤ℤ err) × (pos 1 ≤ℤ total)
  pub within :
      (timeout ≤ℤ policy.timeout_seconds)
      × (out ≤ℤ policy.max_stdout_bytes)
      × (err ≤ℤ policy.max_stderr_bytes)
      × (total ≤ℤ policy.max_total_output_bytes)
  pub covers : (out ≤ℤ total) × (err ≤ℤ total)

from_given :
    (request : TestRunRequest) (policy : TestRunnerPolicy) (t o e n : ℤ)
    → request.timeout_seconds ≡ some t
    → request.max_stdout_bytes ≡ some o
    → request.max_stderr_bytes ≡ some e
    → request.max_total_output_bytes ≡ some n
    → limits_rejection request policy ≡ none
    → Limits request policy
unfolding limits_rejection
from_given request policy t o e n gt go ge gn h = record {
  timeout = t;
  out = o;
  err = e;
  total = n;
  timeout_given = gt;
  out_given = go;
  err_given = ge;
  total_given = gn;
  positive = ground arith;
  within = ground arith;
  covers = ground arith;
}

given : (o : Option ℤ) → (o ≢ none) → (n : ℤ) × (o ≡ some n)
given none h = absurd (h refl)
given (some n) h = (n, refl)

limits_rejection-Limits :
    (request : TestRunRequest) (policy : TestRunnerPolicy)
    → limits_rejection request policy ≡ none
    → Limits request policy
unfolding limits_rejection
limits_rejection-Limits request policy h =
    let (t, gt) = given request.timeout_seconds (λ e. ground arith) in
    let (o, go) = given request.max_stdout_bytes (λ e. ground arith) in
    let (e, ge) = given request.max_stderr_bytes (λ e. ground arith) in
    let (n, gn) = given request.max_total_output_bytes (λ e. ground arith) in
    from_given request policy t o e n gt go ge gn h

-- The folder that the request names, after links are followed: a folder below the workspace's, which is one.
pub record IsFolder (folders : Folders) (request : TestRunRequest) (cwd : String) : Type 0 where
  pub named :
      cwd
      ≡ folders.resolve
          (PosixPath.join (folders.resolve request.workspace_root) request.cwd_relative)
  pub below : PosixPath.is_relative_to cwd (folders.resolve request.workspace_root) ≡ true
  pub root_is_dir : folders.is_dir (folders.resolve request.workspace_root) ≡ true
  pub cwd_is_dir : folders.is_dir cwd ≡ true

-- What an accepted request has passed: the policy allows nothing that the runner must not do, the request
-- asks for nothing of the kind, its command is a valid one of the table, its folder lies in the workspace.
pub record Passed (folders : Folders) (request : TestRunRequest)
    (allowlist : Option (List (String × TestCommandSpec))) (policy : TestRunnerPolicy)
    (spec : TestCommandSpec) (cwd : String) : Type 0 where
  pub policy_closed :
      (policy.shell_allowed ≡ false)
      × (policy.network_allowed ≡ false)
      × (policy.llm_invocation_allowed ≡ false)
      × (policy.allow_live_deepseek ≡ false)
      × (policy.model_driven_executor_dispatch_allowed ≡ false)
      × (policy.receipt_required ≡ true)
      × (policy.ledger_event_required ≡ true)
  pub request_closed :
      (request.raw_command ≡ none)
      × (request.argv ≡ none)
      × (request.shell ≡ false)
      × (request.network_allowed ≡ false)
      × (request.llm_invocation_requested ≡ false)
      × (request.model_driven_executor_dispatch_requested ≡ false)
      × (request.allow_live_deepseek ≡ false)
  pub listed : lookup request.command_id (candidates_of allowlist) ≡ some spec
  pub command : IsTestCommand spec
  pub folder : IsFolder folders request cwd
  pub limits : Limits request policy

resolve_cwd-IsFolder :
    (folders : Folders) (request : TestRunRequest) (cwd : String)
    → resolve_cwd folders request ≡ ok cwd
    → IsFolder folders request cwd
unfolding resolve_cwd
resolve_cwd-IsFolder folders request cwd h =
    let root = folders.resolve request.workspace_root in
    let at = folders.resolve (PosixPath.join root request.cwd_relative) in
    let (below, h1) = require-pass (PosixPath.is_relative_to at root) _ _ h in
    let (root_is_dir, h2) = require-pass (folders.is_dir root) _ _ h1 in
    let (cwd_is_dir, h3) = require-pass (folders.is_dir at) _ _ h2 in
    let same = ok_injective _ cwd h3 in
    record {
      named = sym same;
      below = subst (λ c. PosixPath.is_relative_to c root ≡ true) same below;
      root_is_dir = root_is_dir;
      cwd_is_dir = subst (λ c. folders.is_dir c ≡ true) same cwd_is_dir;
    }

resolve_request_inv :
    (folders : Folders) (request : TestRunRequest)
    (allowlist : Option (List (String × TestCommandSpec))) (spec : TestCommandSpec) (cwd : String)
    → resolve_request folders request allowlist ≡ ok (spec, cwd)
    → (resolve_command_spec request.command_id allowlist ≡ ok spec)
      × (resolve_cwd folders request ≡ ok cwd)
unfolding resolve_request
resolve_request_inv folders request allowlist spec cwd h =
    elim (Result-cases (resolve_command_spec request.command_id allowlist)) [
      | inl (code, bad) ↦ absurd (ground arith)
      | inr (s, found) ↦ elim (Result-cases (resolve_cwd folders request)) [
        | inl (code, bad) ↦ absurd (ground arith)
        | inr (c, at) ↦ ground arith
      ]
    ]

policy_rejection-none :
    (policy : TestRunnerPolicy)
    → policy_rejection policy ≡ none
    → (policy.shell_allowed ≡ false)
      × (policy.network_allowed ≡ false)
      × (policy.llm_invocation_allowed ≡ false)
      × (policy.allow_live_deepseek ≡ false)
      × (policy.model_driven_executor_dispatch_allowed ≡ false)
      × (policy.receipt_required ≡ true)
      × (policy.ledger_event_required ≡ true)
unfolding policy_rejection
policy_rejection-none policy h = ground arith

request_rejection-none :
    (request : TestRunRequest) (policy : TestRunnerPolicy)
    → request_rejection request policy ≡ none
    → (request.raw_command ≡ none)
      × (request.argv ≡ none)
      × (request.shell ≡ false)
      × (request.network_allowed ≡ false)
      × (request.llm_invocation_requested ≡ false)
      × (request.model_driven_executor_dispatch_requested ≡ false)
      × (request.allow_live_deepseek ≡ false)
      × (limits_rejection request policy ≡ none)
unfolding request_rejection
request_rejection-none request policy h = ground arith

-- The three gates of `validate_test_run_request`, of an accepted request.
gates :
    (folders : Folders) (request : TestRunRequest)
    (allowlist : Option (List (String × TestCommandSpec))) (chosen : Option TestRunnerPolicy)
    (id : String) (spec : TestCommandSpec) (cwd : String)
    → validate_test_run_request folders request allowlist chosen ≡ accepted id spec cwd
    → (policy_rejection (policy_or_default chosen) ≡ none)
      × (request_rejection request (policy_or_default chosen) ≡ none)
      × (resolve_request folders request allowlist ≡ ok (spec, cwd))
unfolding validate_test_run_request
gates folders request allowlist chosen id spec cwd h =
    elim (Option-cases (policy_rejection (policy_or_default chosen))) [
      | inr (code, bad) ↦ absurd (ground arith)
      | inl open_policy ↦
          elim (Option-cases (request_rejection request (policy_or_default chosen))) [
            | inr (code, bad) ↦ absurd (ground arith)
            | inl open_request ↦ elim (Result-cases (resolve_request folders request allowlist)) [
              | inl (code, bad) ↦ absurd (ground arith)
              | inr ((s, c), found) ↦ (open_policy, open_request, ground arith)
            ]
          ]
    ]

-- An accepted request has passed every test, under the policy that was given or the default one: the policy asks for
-- a receipt and a ledger event and allows nothing of shell, network, language model, live provider and dispatch; the
-- request asks for nothing of these, and brings no command of its own; the command is that of the table under the
-- request's id, and one of pytest with a target and without the options `-c` of python and `-k`, not of a program of
-- the refused families; its folder is the one that is named, lies below the root after links are followed, and both
-- are folders; the limits are given, positive, within the policy's, and the total covers both streams.
pub validate_test_run_request-Passed :
    (folders : Folders) (request : TestRunRequest)
    (allowlist : Option (List (String × TestCommandSpec))) (chosen : Option TestRunnerPolicy)
    (id : String) (spec : TestCommandSpec) (cwd : String)
    → validate_test_run_request folders request allowlist chosen ≡ accepted id spec cwd
    → Passed folders request allowlist (policy_or_default chosen) spec cwd
validate_test_run_request-Passed folders request allowlist chosen id spec cwd h =
    let (p, r, x) = gates folders request allowlist chosen id spec cwd h in
    let (raw, argv, shell, network, llm, dispatch, live, limits) =
      request_rejection-none request (policy_or_default chosen) r in
    let (resolved, folder) = resolve_request_inv folders request allowlist spec cwd x in
    let (listed, command) =
      resolve_command_spec-IsTestCommand request.command_id allowlist spec resolved in
    record {
      policy_closed = policy_rejection-none (policy_or_default chosen) p;
      request_closed = (raw, argv, shell, network, llm, dispatch, live);
      listed = listed;
      command = command;
      folder = resolve_cwd-IsFolder folders request cwd folder;
      limits = limits_rejection-Limits request (policy_or_default chosen) limits;
    }
