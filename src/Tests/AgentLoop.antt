-- ===== src/Tests/AgentLoop.antt =====
-- The agent loop at concrete requests and logs.
use runtime_lab_core.Prelude.{
  ◌==◌, ◌≡◌, ◌↔◌, refl, true, ◌&&◌, none, some, List, [], ◌∷◌, ◌++◌, map, length, ◌≤◌, Among, inl,
  inr, Result, ok, raise, dedupe,
}
use runtime_lab_core.Json.{str, Fields, obj, get, pop, set, has}
use runtime_lab_core.Hash.{Host, canonical_hash}
use runtime_lab_core.Hash.Chain.{Agrees}
use runtime_lab_core.AgentLoop.Models.{supervised_apply, default_policy}
use runtime_lab_core.AgentLoop.Policy.{validate_agent_loop_request}
use runtime_lab_core.AgentLoop.Policy.Laws.{Admissible, validate_agent_loop_request-Admissible}
use runtime_lab_core.AgentLoop.StateMachine.{
  next_state, pair, triple, Item, build_transition_log, verify_transition_log, event_body, seal,
}
use runtime_lab_core.AgentLoop.StateMachine
use runtime_lab_core.AgentLoop.StateMachine.Laws.{
  build_transition_log-verify, verify_transition_log_unique,
}
use runtime_lab_core.AgentLoop.StateMachine.Order.{IsWalk, transition_of}
use runtime_lab_core.AgentLoop.StateMachine.Accept.{
  build_transition_log_iff, build_transition_log-length, build_transition_log-approved, seal_steps,
  verify_transition_log-seal_steps,
}
use runtime_lab_core.AgentLoop.ReceiptLedger.{build_ledger_events, verify_ledger_events}
use runtime_lab_core.AgentLoop.ReceiptLedger.Laws.{
  recorded, build_ledger_events-verify, verify_ledger_events_unique,
}
use runtime_lab_core.AgentLoop.Receipts.{
  ReceiptArguments, receipt_body, build_agent_loop_receipt, verify_agent_loop_receipt,
  build_agent_loop_receipt-verify,
}
use runtime_lab_core.AgentLoop.Supervisor.{
  plan_of, create_deterministic_plan, failed, run_steps, conclude, transition_pairs, applied_patch,
  Effect, Outcome, run_agent_loop, all_accepted,
}
use runtime_lab_core.AgentLoop.Supervisor.Laws.{run_agent_loop-applied}
use runtime_lab_core.AgentLoop.Supervisor.Log.{walk_end, transition_pairs-verify}
use runtime_lab_core.Tests.Fixtures.{
  host, host_with, host_with-IsReadBack, no_matches, authority, approved_request, all_go_well,
  two_items,
}

-- The steps of the fixture, sealed.
abbrev two_events : List Fields
two_events = seal_steps host "run-1" 1 "GENESIS" (
    ("TASK_RECEIVED", ("check_authority", "AUTHORITY_CHECKED"))
    ∷ ("AUTHORITY_CHECKED", ("create_plan", "PLAN_CREATED"))
    ∷ [])

build-two_items : build_transition_log host two_items "run-1" ≡ ok two_events
unfolding build_transition_log StateMachine.build_from StateMachine.check_item next_state ◌==◌ get
    pop set
build-two_items = refl

two_events-verify : verify_transition_log host two_events ≡ true
unfolding verify_transition_log StateMachine.verify_from StateMachine.event_verifies next_state ◌==◌
    get pop set canonical_hash
two_events-verify = refl

build_transition_log-verify_example : verify_transition_log host two_events ≡ true
build_transition_log-verify_example =
    build_transition_log-verify host two_items "run-1" two_events build-two_items

abbrev transition_host : Host
transition_host = host_with "previous_transition_hash"

two_events-verify_there : verify_transition_log transition_host two_events ≡ true
unfolding verify_transition_log StateMachine.verify_from StateMachine.event_verifies next_state ◌==◌
    get pop set canonical_hash
two_events-verify_there = refl

verify_transition_log_unique_example :
    Agrees transition_host "transition_hash" "previous_transition_hash" two_events two_events
verify_transition_log_unique_example =
    verify_transition_log_unique transition_host two_events two_events
      (host_with-IsReadBack "previous_transition_hash") two_events-verify_there
      two_events-verify_there refl

build_transition_log_iff_example :
    ((log : List Fields) × (build_transition_log host two_items "run-1" ≡ ok log))
    ↔ IsWalk "TASK_RECEIVED" two_items
build_transition_log_iff_example = build_transition_log_iff host two_items "run-1"

build_transition_log-length_example :
    (length two_events ≡ length two_items) × (length two_events ≤ 14)
build_transition_log-length_example =
    build_transition_log-length host two_items "run-1" two_events build-two_items

transition_pairs-verify_example :
    (walk_end "TASK_RECEIVED" (transition_pairs supervised_apply true) ≡ ok "DONE")
    × ((log : List Fields) × (build_transition_log host
            (transition_pairs supervised_apply true)
            "run-1"
          ≡ ok log)
        × (verify_transition_log host log ≡ true))
transition_pairs-verify_example = transition_pairs-verify host supervised_apply true "run-1"

build_ledger_events-verify_example :
    (verify_ledger_events host (build_ledger_events host "run-1" ("sha256:a" ∷ "sha256:b" ∷ []))
      ≡ true)
    × (recorded (build_ledger_events host "run-1" ("sha256:a" ∷ "sha256:b" ∷ []))
        ≡ str "sha256:a" ∷ str "sha256:b" ∷ [])
build_ledger_events-verify_example =
    build_ledger_events-verify host "run-1" ("sha256:a" ∷ "sha256:b" ∷ [])

abbrev ledger_events : List Fields
ledger_events = build_ledger_events host "run-1" ("sha256:a" ∷ "sha256:b" ∷ [])

verify_ledger_events_unique_example :
    Agrees host "event_hash" "previous_event_hash" ledger_events ledger_events
verify_ledger_events_unique_example =
    verify_ledger_events_unique host ledger_events ledger_events
      (host_with-IsReadBack "previous_event_hash") build_ledger_events-verify_example.0
      build_ledger_events-verify_example.0 refl

request-accepted :
    (validate_agent_loop_request host no_matches approved_request
      (some authority)
      default_policy).accepted
    ≡ true
unfolding validate_agent_loop_request ◌==◌ has dedupe
request-accepted = refl

validate_agent_loop_request-Admissible_example :
    Admissible approved_request (some authority) default_policy
validate_agent_loop_request-Admissible_example =
    validate_agent_loop_request-Admissible host no_matches approved_request (some authority)
      default_policy request-accepted

-- The result of the run, `failed` if it raised.
abbrev finished : Outcome × List Effect
finished =
    elim (run_agent_loop host no_matches approved_request (some authority) default_policy
      all_go_well) [ Result.ok r ↦ r | Result.raise _ ↦ (failed [], []) ]

run-finished :
    run_agent_loop host no_matches approved_request (some authority) default_policy all_go_well
    ≡ ok (finished.0, finished.1)
unfolding run_agent_loop ◌==◌ has dedupe get validate_agent_loop_request plan_of
    create_deterministic_plan build_transition_log StateMachine.build_from verify_transition_log
    StateMachine.verify_from StateMachine.event_verifies canonical_hash pop set transition_pairs
run-finished = refl

patch_applied : Among applied_patch finished.1
unfolding run_agent_loop ◌==◌ has dedupe get validate_agent_loop_request plan_of
    create_deterministic_plan build_transition_log StateMachine.build_from verify_transition_log
    StateMachine.verify_from StateMachine.event_verifies canonical_hash pop set transition_pairs
    run_steps conclude
patch_applied = inr (inr (inr (inl refl)))

run_agent_loop-applied_example :
    (approved_request.mode ≡ supervised_apply)
    × Admissible approved_request (some authority) default_policy
    × (all_accepted all_go_well.context && all_go_well.proposal.accepted ≡ true)
run_agent_loop-applied_example =
    run_agent_loop-applied host no_matches approved_request (some authority) default_policy
      all_go_well finished.0 finished.1 run-finished patch_applied

-- Transitions of a whole run, cut where the patch is started.
abbrev before_apply : List Item
before_apply =
    pair "TASK_RECEIVED" "check_authority"
    ∷ pair "AUTHORITY_CHECKED" "create_plan"
    ∷ pair "PLAN_CREATED" "read_context"
    ∷ pair "CONTEXT_READ" "create_patch_proposal"
    ∷ pair "PATCH_PROPOSAL_CREATED" "require_human_approval"
    ∷ pair "HUMAN_APPROVAL_REQUIRED" "verify_human_approval"
    ∷ []

abbrev starting_log : Result (List Fields)
starting_log =
    build_transition_log host
      (before_apply ++ (pair "HUMAN_APPROVAL_VERIFIED" "start_patch_apply" ∷ [])) "run-1"

abbrev log_of : Result (List Fields) → List Fields
log_of (ok log) = log
log_of (raise _) = []

starting_log-built : starting_log ≡ ok (log_of starting_log)
unfolding build_transition_log StateMachine.build_from StateMachine.check_item next_state ◌==◌ get
    pop set
starting_log-built = refl

build_transition_log-approved_example :
    Among "verify_human_approval" (map transition_of before_apply)
build_transition_log-approved_example =
    build_transition_log-approved host before_apply
      (pair "HUMAN_APPROVAL_VERIFIED" "start_patch_apply") [] "run-1" (log_of starting_log)
      starting_log-built refl

-- A log that goes from the first state to DONE and back to the first, and verifies.
verify_transition_log-seal_steps_example :
    verify_transition_log host (
      seal_steps host "run-1" 1 "GENESIS" (
        ("LEDGER_SEALED_LOCALLY", ("done", "DONE"))
        ∷ ("TASK_RECEIVED", ("check_authority", "AUTHORITY_CHECKED"))
        ∷ []))
    ≡ true
unfolding next_state ◌==◌
verify_transition_log-seal_steps_example =
    verify_transition_log-seal_steps host "run-1"
      (("LEDGER_SEALED_LOCALLY", ("done", "DONE"))
        ∷ ("TASK_RECEIVED", ("check_authority", "AUTHORITY_CHECKED"))
        ∷ [])
      (refl, (refl, tt))

abbrev some_receipt : ReceiptArguments
some_receipt = record {
  task_id = "task-1";
  run_id = "run-1";
  base_commit = some "c0ffee";
  workspace_root_hash = none;
  mode = "DRY_RUN";
  policy_hash = "sha256:p";
  authority_decision_hash = none;
  state_transition_hash_chain = "sha256:s";
  executor_receipt_hashes = "sha256:a" ∷ [];
  artifact_hashes = [];
  final_result = "SUCCESS";
  non_claims = Fields.end;
  rejection_codes = [];
  created_at_utc = "2026-01-01T00:00:00Z";
}

build_agent_loop_receipt-verify_example :
    (verify_agent_loop_receipt host (build_agent_loop_receipt host some_receipt) ≡ true)
    × (get "receipt_hash" (build_agent_loop_receipt host some_receipt)
        ≡ str (canonical_hash host (obj (receipt_body some_receipt))))
build_agent_loop_receipt-verify_example = build_agent_loop_receipt-verify host some_receipt
