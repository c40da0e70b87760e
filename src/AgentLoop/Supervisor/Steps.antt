-- ===== src/AgentLoop/Supervisor/Steps.antt =====
-- The steps of an admitted run: when they succeed, what they hand over, and in which order the calls are made.
use runtime_lab_core.Prelude.{
  String, ◌≡◌, Bool, true, false, ◌&&◌, not, Option, none, some, List, [], ◌∷◌, ◌++◌, map, Among,
  arith, ◌||◌,
}
use runtime_lab_core.Json.{str, obj, Fields, get}
use runtime_lab_core.Hash.{Host, canonical_hash}
use runtime_lab_core.AgentLoop.Models.{dry_run, supervised_apply, AgentLoopPolicy, AgentLoopRequest}
use runtime_lab_core.AgentLoop.Authority.{given_text}
use runtime_lab_core.AgentLoop.ReceiptLedger.{build_ledger_events, verify_ledger_events}
use runtime_lab_core.AgentLoop.ReceiptLedger.Laws.{recorded, build_ledger_events-verify}
use runtime_lab_core.AgentLoop.Receipts.{
  verify_agent_loop_receipt, build_agent_loop_receipt-verify, receipt_body,
}
use runtime_lab_core.AgentLoop.Replay.{
  build_replay_manifest, verify_replay_manifest, build_replay_manifest-verify,
}
use runtime_lab_core.AgentLoop.Supervisor.{
  manifest_arguments, final_report, receipt_arguments, last_hash, Calls, Effect, made_directory,
  read_context, created_proposal, applied_patch, ran_tests, wrote_replay, wrote_report,
  wrote_receipt, Outcome, failed, raised, succeeded, resume, attempt, write_files, Success,
  all_accepted, executor_hashes, conclude, apply_and_test, run_steps,
}

-- A call raises no exception.
abbrev pub returns : Calls → Effect → Bool
returns calls effect = elim (calls.raises effect) [ none ↦ true | some _ ↦ false ]

-- All the calls that the mode asks for return and are accepted, and the files are written.
abbrev pub all_steps_accepted : AgentLoopRequest → Calls → Bool
all_steps_accepted request calls =
    returns calls read_context
    && all_accepted calls.context
    && returns calls created_proposal
    && calls.proposal.accepted
    && elim request.mode [
      | dry_run ↦ true
      | supervised_apply ↦
          returns calls applied_patch
          && calls.patch_apply.accepted
          && (not (given_text request.test_command_id)
              || (returns calls ran_tests && calls.test.accepted))
    ]
    && (returns calls wrote_replay && returns calls wrote_report && returns calls wrote_receipt)

-- What a run hands over if it is successful: a ledger that verifies and lists the receipts of the calls in their order,
-- then the loop's own.
abbrev pub IsEvidence : Host → AgentLoopRequest → Calls → Outcome → Type 0
IsEvidence h request calls (failed codes) = Unit
IsEvidence h request calls (raised error) = Unit
IsEvidence h request calls (succeeded s) =
    (verify_ledger_events h s.ledger_events ≡ true)
    × (verify_agent_loop_receipt h s.agent_loop_receipt ≡ true)
    × (verify_replay_manifest h s.replay_manifest ≡ true)
    × ((own : String) × (get "receipt_hash" s.agent_loop_receipt ≡ str own)
        × (recorded s.ledger_events ≡ map str (executor_hashes request calls ++ (own ∷ []))))

abbrev pub is_success : Outcome → Bool
is_success (failed _) = false
is_success (raised _) = false
is_success (succeeded _) = true

module _ (h : Host) (request : AgentLoopRequest) (policy : AgentLoopPolicy)
    (authority_hash : String) (log : List Fields) (calls : Calls) where
  resume-IsEvidence :
      (raises : Option String) (effects : List Effect) (next : List Effect → Outcome × List Effect)
      → ((fx : List Effect) → IsEvidence h request calls (next fx).0)
      → IsEvidence h request calls (resume raises effects next).0
  resume-IsEvidence (some error) effects next good = tt
  resume-IsEvidence none effects next good = good effects

  write_files-IsEvidence :
      (effects : List Effect) (s : Success)
      → IsEvidence h request calls (succeeded s)
      → IsEvidence h request calls (write_files calls effects s).0
  write_files-IsEvidence effects s good =
      let last = λ (fx : List Effect).
        resume-IsEvidence (calls.raises wrote_receipt) (fx ++ (wrote_receipt ∷ []))
          (λ all. (succeeded s, all)) (λ all. good) in
      let middle = λ (fx : List Effect).
        resume-IsEvidence (calls.raises wrote_report) (fx ++ (wrote_report ∷ []))
          (λ reported. attempt calls wrote_receipt reported (λ all. (succeeded s, all))) last in
      resume-IsEvidence (calls.raises wrote_replay) (effects ++ (wrote_replay ∷ [])) _ middle

  conclude-IsEvidence :
      (effects : List Effect)
      → IsEvidence h request calls (conclude h request policy authority_hash calls log effects).0
  unfolding conclude
  conclude-IsEvidence effects =
      let hashes = executor_hashes request calls in
      let events = build_ledger_events h request.run_id hashes in
      let state_hash = last_hash h "transition_hash" log in
      let manifest = manifest_arguments h request calls state_hash events in
      let a =
        receipt_arguments h request policy authority_hash calls state_hash
          (build_replay_manifest h manifest)
          (final_report h request policy calls log events (build_replay_manifest h manifest)) in
      let own = canonical_hash h (obj (receipt_body a)) in
      let (verified, stored) = build_agent_loop_receipt-verify h a in
      let (sealed, listed) = build_ledger_events-verify h request.run_id (hashes ++ (own ∷ [])) in
      rw ((build_ledger_events-verify h request.run_id hashes).0) (
        write_files-IsEvidence effects _
          (sealed, verified, (build_replay_manifest-verify h manifest).0, (own, stored, listed)))

  -- `proposed` of `run_steps`, and what follows it.
  abbrev proposed : List Effect
  proposed = made_directory ∷ read_context ∷ created_proposal ∷ []

  conclude-is_success :
      (effects : List Effect)
      → is_success (conclude h request policy authority_hash calls log effects).0
        ≡ returns calls wrote_replay && returns calls wrote_report && returns calls wrote_receipt
  unfolding conclude
  conclude-is_success effects =
      rw ((build_ledger_events-verify h request.run_id (executor_hashes request calls)).0)
        (ground arith)

  apply_and_test-IsEvidence :
      (effects : List Effect)
      → IsEvidence h request calls
          (apply_and_test h request policy authority_hash calls log effects).0
  unfolding apply_and_test
  apply_and_test-IsEvidence effects = ground (
    arith,
    conclude-IsEvidence (effects ++ (applied_patch ∷ [])),
    conclude-IsEvidence ((effects ++ (applied_patch ∷ [])) ++ (ran_tests ∷ [])),
  )

  pub run_steps-IsEvidence :
      IsEvidence h request calls (run_steps h request policy authority_hash calls log).0
  unfolding run_steps
  run_steps-IsEvidence =
      ground (arith, conclude-IsEvidence proposed, apply_and_test-IsEvidence proposed)

  pub run_steps-is_success :
      is_success (run_steps h request policy authority_hash calls log).0
      ≡ all_steps_accepted request calls
  unfolding run_steps apply_and_test
  run_steps-is_success = ground (
    arith,
    conclude-is_success proposed,
    conclude-is_success (proposed ++ (applied_patch ∷ [])),
    conclude-is_success ((proposed ++ (applied_patch ∷ [])) ++ (ran_tests ∷ [])),
  )

  -- A patch is applied by no run but a supervised one whose reads and proposal were accepted, and tests run only
  -- after the patch was accepted.
  pub run_steps-effects :
      (Among applied_patch (run_steps h request policy authority_hash calls log).1
        → (request.mode ≡ supervised_apply)
          × (all_accepted calls.context && calls.proposal.accepted ≡ true))
      × (Among ran_tests (run_steps h request policy authority_hash calls log).1
          → (request.mode ≡ supervised_apply) × (calls.patch_apply.accepted ≡ true))
  unfolding run_steps apply_and_test conclude
  run_steps-effects = (λ m. ground arith, λ m. ground arith)
