-- ===== src/AgentLoop/Policy/Laws.antt =====
-- What an accepted request of the agent loop has shown.
use runtime_lab_core.Prelude.{
  pos, ◌≤ℤ◌, String, ◌≡◌, refl, Bool, true, false, ◌&&◌, ◌||◌, not, Option, none, some, List, [],
  ◌∷◌, ◌++◌, map, length, contains, is_empty, is_empty-dedupe, is_nonempty, arith, ◌==◌, ==_iff,
  ◌∙◌, sym,
}
use runtime_lab_core.Hash.{Host}
use runtime_lab_core.AgentLoop.Models.{
  AgentLoopMode, dry_run, supervised_apply, mode_value, AgentLoopPolicy, AgentLoopAuthority,
  AgentLoopRequest,
}
use runtime_lab_core.AgentLoop.Authority.{evaluate_given, evaluate_authority, given_text}
use runtime_lab_core.AgentLoop.Policy.{
  Patterns, planner_codes, limit_codes, flag_codes, task_codes, has_approval, mode_codes, is_listed,
  test_codes, request_codes, validate_agent_loop_request,
}

is_empty-append :
    {A : Type 0} (xs ys : List A)
    → is_empty (xs ++ ys) ≡ true
    → (is_empty xs ≡ true) × (is_empty ys ≡ true)
is_empty-append [] ys h = (refl, h)
is_empty-append (x ∷ xs) ys h = (h, cc)

-- `a` only with `b`
abbrev pub implies : Bool → Bool → Bool
implies a b = not a || b

abbrev pub is_apply : AgentLoopMode → Bool
is_apply dry_run = false
is_apply supervised_apply = true

-- The authority is the task's own, forbids what the loop must not do, and allows what the request needs.
pub record Granted (request : AgentLoopRequest) (policy : AgentLoopPolicy) (a : AgentLoopAuthority)
    : Type 0 where
  pub same_task : a.task_id ≡ request.task_id
  pub supervised : a.allow_autonomous_mode ≡ false
  pub mode_allowed : contains (map mode_value a.allowed_modes) (mode_value request.mode) ≡ true
  pub apply_allowed : implies (is_apply request.mode) a.allow_patch_apply ≡ true
  pub tests_allowed : implies (given_text request.test_command_id) a.allow_test_runner ≡ true
  pub no_dispatch :
      (a.allow_model_driven_executor_dispatch ≡ false)
      × (request.model_driven_executor_dispatch_requested ≡ false)
  pub provider_allowed :
      implies request.allow_live_llm_provider policy.allow_live_llm_provider ≡ true

mode_is_apply : (m : AgentLoopMode) → (mode_value m == "SUPERVISED_APPLY") ≡ is_apply m
unfolding ◌==◌
mode_is_apply dry_run = refl
mode_is_apply supervised_apply = refl

evaluate_given-Granted :
    (h : Host) (request : AgentLoopRequest) (a : AgentLoopAuthority) (policy : AgentLoopPolicy)
    → is_empty (evaluate_given h request a policy).rejection_codes ≡ true
    → Granted request policy a
unfolding evaluate_given
evaluate_given-Granted h request a policy e =
    ground (arith, ==_iff a.task_id request.task_id, mode_is_apply request.mode)

evaluate_authority-Granted :
    (h : Host) (request : AgentLoopRequest) (authority : Option AgentLoopAuthority)
    (policy : AgentLoopPolicy)
    → is_empty (evaluate_authority h request authority policy).rejection_codes ≡ true
    → (a : AgentLoopAuthority) × (authority ≡ some a) × Granted request policy a
unfolding evaluate_authority
evaluate_authority-Granted h request none policy e = absurd (cc)
evaluate_authority-Granted h request (some a) policy e =
    (a, refl, evaluate_given-Granted h request a policy e)

-- The request keeps within the policy's limits, and asks for nothing that is refused outright.
pub record Modest (request : AgentLoopRequest) (policy : AgentLoopPolicy) : Type 0 where
  pub iterations :
      (pos 1 ≤ℤ policy.max_iterations) × (request.requested_iterations ≤ℤ policy.max_iterations)
  pub context_reads : pos (length request.context_requests) ≤ℤ policy.max_context_reads
  pub proposals : request.patch_proposal_count ≤ℤ policy.max_patch_proposals
  pub transactions : request.patch_apply_transaction_count ≤ℤ policy.max_patch_apply_transactions
  pub test_runs : request.test_run_count ≤ℤ policy.max_test_runs
  pub evidence :
      (policy.require_receipts ≡ true)
      × (policy.require_ledger_events ≡ true)
      × (policy.require_replay_bundle ≡ true)
      × (policy.require_final_report ≡ true)

limit_codes-Modest :
    (request : AgentLoopRequest) (policy : AgentLoopPolicy)
    → is_empty (limit_codes request policy) ≡ true
    → Modest request policy
unfolding limit_codes
limit_codes-Modest request policy e = ground arith

flag_codes-none :
    (request : AgentLoopRequest) (policy : AgentLoopPolicy)
    → is_empty (flag_codes request policy) ≡ true
    → (given_text request.raw_command ≡ false) × (request.workspace_mutation_requested ≡ false)
unfolding flag_codes
flag_codes-none request policy e = ground arith

mode_codes-none :
    (request : AgentLoopRequest) (policy : AgentLoopPolicy)
    → is_empty (mode_codes request policy) ≡ true
    → implies (is_apply request.mode) (
        policy.allow_patch_apply
        && implies policy.require_human_approval_for_apply (has_approval request.approval_packet))
      ≡ true
unfolding mode_codes
mode_codes-none request policy e = ground arith

-- No command is named, or one that the policy and the allowlist admit.
abbrev tests_admitted : Option String → AgentLoopPolicy → Bool
tests_admitted none policy = true
tests_admitted (some id) policy =
    implies (is_nonempty id) (policy.allow_test_runner && is_listed id)

test_codes-none :
    (request : AgentLoopRequest) (policy : AgentLoopPolicy)
    → is_empty (test_codes request policy) ≡ true
    → tests_admitted request.test_command_id policy ≡ true
unfolding test_codes
test_codes-none request policy e = ground arith

-- What an accepted request has shown.
pub record Admissible (request : AgentLoopRequest) (authority : Option AgentLoopAuthority)
    (policy : AgentLoopPolicy) : Type 0 where
  pub granted : (a : AgentLoopAuthority) × (authority ≡ some a) × Granted request policy a
  pub modest : Modest request policy
  pub no_command : given_text request.raw_command ≡ false
  pub no_mutation : request.workspace_mutation_requested ≡ false
  pub approved :
      implies (is_apply request.mode) (
        policy.allow_patch_apply
        && implies policy.require_human_approval_for_apply (has_approval request.approval_packet))
      ≡ true
  pub test_listed : tests_admitted request.test_command_id policy ≡ true

-- An accepted request has an authority that grants it, keeps within the policy's limits, carries no command
-- and no mutation, names an approval if it applies a patch, and names only a listed test command.
pub validate_agent_loop_request-Admissible :
    (h : Host) (re : Patterns) (request : AgentLoopRequest) (authority : Option AgentLoopAuthority)
    (policy : AgentLoopPolicy)
    → (validate_agent_loop_request h re request authority policy).accepted ≡ true
    → Admissible request authority policy
unfolding validate_agent_loop_request
validate_agent_loop_request-Admissible h re request authority policy e =
    let first = (evaluate_authority h request authority policy).rejection_codes in
    let limits = limit_codes request policy in
    let flags = flag_codes request policy in
    let planner = planner_codes h re request.planner_output in
    let task = task_codes re request in
    let mode = mode_codes request policy in
    let tests = test_codes request policy in
    let all = sym (is_empty-dedupe (request_codes h re request authority policy)) ∙ e in
    let (of_authority, r1) =
      is_empty-append first (limits ++ (flags ++ (planner ++ (task ++ (mode ++ tests))))) all in
    let (of_limits, r2) =
      is_empty-append limits (flags ++ (planner ++ (task ++ (mode ++ tests)))) r1 in
    let (of_flags, r3) = is_empty-append flags (planner ++ (task ++ (mode ++ tests))) r2 in
    let (of_planner, r4) = is_empty-append planner (task ++ (mode ++ tests)) r3 in
    let (of_task, r5) = is_empty-append task (mode ++ tests) r4 in
    let (of_mode, of_tests) = is_empty-append mode tests r5 in
    let (no_command, no_mutation) = flag_codes-none request policy of_flags in
    record {
      granted = evaluate_authority-Granted h request authority policy of_authority;
      modest = limit_codes-Modest request policy of_limits;
      no_command = no_command;
      no_mutation = no_mutation;
      approved = mode_codes-none request policy of_mode;
      test_listed = test_codes-none request policy of_tests;
    }
