-- ===== src/AgentLoop/Supervisor.antt =====
-- runtime_lab/agent_loop/supervisor.py and plan.py. The four calls that reach other packages (repository
-- context, patch proposal, patch application, test runner) are given by their results or the exceptions that they
-- raise; the files that are written and the calls that are made are listed as effects in their order.
pub mod Documents
pub mod Laws
pub mod Log
pub mod Steps
pub mod Transitions
use runtime_lab_core.Prelude.{
  ℕ, pos, String, Bool, true, false, ◌&&◌, not, Option, none, some, List, [], ◌∷◌, ◌++◌, map,
  length, dedupe, is_empty, is_nonempty, if◌then◌else◌, Result, ok, raise,
}
use runtime_lab_core.Json.{
  Value, null, str, bool, num, arr, nil, obj, Fields, end, field, dict, strings, get, set, truthy,
  array,
}
use runtime_lab_core.Hash.{Host, canonical_hash}
use runtime_lab_core.AgentLoop.Models.{
  AgentLoopMode, dry_run, supervised_apply, mode_value, AgentLoopPolicy, AgentLoopAuthority,
  AgentLoopRequest,
}
use runtime_lab_core.AgentLoop.Authority.{evaluate_authority, given_text}
use runtime_lab_core.AgentLoop.Policy.{Patterns, validate_agent_loop_request}
use runtime_lab_core.AgentLoop.StateMachine
use runtime_lab_core.AgentLoop.StateMachine.{
  Item, pair, build_transition_log, verify_transition_log,
}
use runtime_lab_core.AgentLoop.ReceiptLedger.{build_ledger_events, verify_ledger_events}
use runtime_lab_core.AgentLoop.Receipts.{ReceiptArguments, build_agent_loop_receipt, receipt_body}
use runtime_lab_core.AgentLoop.Replay.{ManifestArguments, build_replay_manifest}
unfoldable pub use runtime_lab_core.AgentLoop.Supervisor.Transitions.{transition_pairs}
pub use runtime_lab_core.AgentLoop.Supervisor.Documents.{
  StepResult, Calls, Effect, made_directory, read_context, created_proposal, applied_patch,
  ran_tests, wrote_replay, wrote_report, wrote_receipt,
}
unfoldable pub use runtime_lab_core.AgentLoop.Supervisor.Documents.{
  last_event, last_hash, create_deterministic_plan, plan_of, test_hashes, executor_hashes,
  manifest_arguments, receipt_arguments, final_report,
}

pub record Success : Type 0 where
  pub patch_apply_performed : Bool
  pub test_execution_performed : Bool
  pub ledger_events : List Fields
  pub replay_manifest : Fields
  pub agent_loop_receipt : Fields

-- What a run returns, or the exception of a call, which nothing catches.
pub data Outcome : Type 0 where
  failed : List String → Outcome
  raised : String → Outcome
  succeeded : Success → Outcome

-- `list(result.get("rejection_codes", [code]))`
abbrev pub codes_or : StepResult → String → List String
codes_or r code = elim r.rejection_codes [ none ↦ code ∷ [] | some codes ↦ codes ]

-- `_failure`, of which the codes are kept
abbrev pub failure : List String → List Effect → Outcome × List Effect
failure codes effects = (failed (dedupe codes), effects)

-- A call was made: where it raised an exception the run does, else it goes on.
abbrev pub resume :
    Option String → List Effect → (List Effect → Outcome × List Effect) → Outcome × List Effect
resume (some error) effects next = (raised error, effects)
resume none effects next = next effects

abbrev pub attempt :
    Calls → Effect → List Effect → (List Effect → Outcome × List Effect) → Outcome × List Effect
attempt calls effect effects next = resume (calls.raises effect) (effects ++ (effect ∷ [])) next

-- The files of a run that went well are written.
abbrev pub write_files : Calls → List Effect → Success → Outcome × List Effect
write_files calls effects success = attempt calls wrote_replay effects (λ replayed.
    attempt calls wrote_report replayed
      (λ reported. attempt calls wrote_receipt reported (λ all. (succeeded success, all))))

abbrev pub all_accepted : List StepResult → Bool
all_accepted [] = true
all_accepted (r ∷ rs) = r.accepted && all_accepted rs

abbrev all_codes : List StepResult → List String
all_codes [] = []
all_codes (r ∷ rs) = elim r.rejection_codes [ none ↦ [] | some codes ↦ codes ] ++ all_codes rs

module _ (h : Host) where
  -- The last part of the loop: ledger, replay manifest, report, receipt, and the ledger with the receipt.
  unfoldable pub conclude :
      AgentLoopRequest
      → AgentLoopPolicy
      → String
      → Calls
      → List Fields
      → List Effect
      → Outcome × List Effect
  unfolding build_ledger_events verify_ledger_events build_replay_manifest build_agent_loop_receipt
      manifest_arguments receipt_arguments final_report
  conclude request policy authority_hash calls log effects =
      let hashes = executor_hashes request calls in
      let state_hash = last_hash h "transition_hash" log in
      let applied : Bool = elim request.mode [ dry_run ↦ false | supervised_apply ↦ true ] in
      let events = build_ledger_events h request.run_id hashes in
      let manifest =
        build_replay_manifest h (manifest_arguments h request calls state_hash events) in
      let arguments =
        receipt_arguments h request policy authority_hash calls state_hash manifest
          (final_report h request policy calls log events manifest) in
      if not (verify_ledger_events h events)
      then failure ("REJECTED_LEDGER_HASH_MISMATCH" ∷ []) effects
      else write_files calls effects (record {
        patch_apply_performed = applied && calls.patch_apply.performed;
        test_execution_performed =
            applied && given_text request.test_command_id && calls.test.performed;
        ledger_events =
            build_ledger_events h request.run_id
              (hashes ++ (canonical_hash h (obj (receipt_body arguments)) ∷ []));
        replay_manifest = manifest;
        agent_loop_receipt = build_agent_loop_receipt h arguments;
      })

  -- The calls that only a supervised run makes: the patch, then the tests if a command is named.
  unfoldable pub apply_and_test :
      AgentLoopRequest
      → AgentLoopPolicy
      → String
      → Calls
      → List Fields
      → List Effect
      → Outcome × List Effect
  unfolding conclude
  apply_and_test request policy authority_hash calls log effects =
      attempt calls applied_patch effects (λ patched.
        if not calls.patch_apply.accepted
        then failure (codes_or calls.patch_apply "REJECTED_UNAPPROVED_MUTATION") patched
        else if not (given_text request.test_command_id)
        then conclude request policy authority_hash calls log patched
        else attempt calls ran_tests patched (λ tested.
          if not calls.test.accepted
          then failure (codes_or calls.test "REJECTED_TEST_RUNNER_RECEIPT") tested
          else conclude request policy authority_hash calls log tested))

  -- From the context requests on.
  unfoldable pub run_steps :
      AgentLoopRequest → AgentLoopPolicy → String → Calls → List Fields → Outcome × List Effect
  unfolding conclude apply_and_test
  run_steps request policy authority_hash calls log =
      attempt calls read_context (made_directory ∷ []) (λ read.
        if not (all_accepted calls.context)
        then failure
            (if is_empty (all_codes calls.context)
              then "REJECTED_CONTEXT_READ" ∷ []
              else all_codes calls.context)
            read
        else attempt calls created_proposal read (λ proposed.
          if not calls.proposal.accepted
          then failure (codes_or calls.proposal "REJECTED_PATCH_PROPOSAL_REQUIRED") proposed
          else elim request.mode [
            | dry_run ↦ conclude request policy authority_hash calls log proposed
            | supervised_apply ↦ apply_and_test request policy authority_hash calls log proposed
          ]))

  module _ (re : Patterns) where
    -- Where `build_transition_log` raises an error, the run does.
    unfoldable pub run_agent_loop :
        AgentLoopRequest
        → Option AgentLoopAuthority
        → AgentLoopPolicy
        → Calls
        → Result (Outcome × List Effect)
    unfolding plan_of run_steps
    run_agent_loop request authority policy calls =
        let validation = validate_agent_loop_request h re request authority policy in
        let decision = evaluate_authority h request authority policy in
        let pairs = transition_pairs request.mode (given_text request.test_command_id) in
        if not validation.accepted
        then ok (failure validation.rejection_codes [])
        else elim (calls.raises made_directory) [
          | some error ↦ ok (raised error, made_directory ∷ [])
          | none ↦
              if truthy (get "tool_calls" (plan_of h request))
              then ok (failure ("REJECTED_MODEL_TOOL_CALL" ∷ []) (made_directory ∷ []))
              else elim (build_transition_log h pairs request.run_id) [
                | raise code ↦ raise code
                | ok log ↦
                    if not (verify_transition_log h log)
                    then ok
                        (failure ("REJECTED_TRANSITION_HASH_MISMATCH" ∷ []) (made_directory ∷ []))
                    else ok (run_steps request policy decision.authority_decision_hash calls log)
              ]
        ]
