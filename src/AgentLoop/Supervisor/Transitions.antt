-- ===== src/AgentLoop/Supervisor/Transitions.antt =====
-- runtime_lab/agent_loop/supervisor.py, `_transition_pairs`: the transitions of a run.
use runtime_lab_core.Prelude.{Bool, List, [], ◌∷◌, ◌++◌, if◌then◌else◌}
use runtime_lab_core.AgentLoop.Models.{AgentLoopMode, dry_run, supervised_apply}
use runtime_lab_core.AgentLoop.StateMachine.{Item, pair}

abbrev apply_pairs : List Item
apply_pairs =
    pair "PATCH_PROPOSAL_CREATED" "require_human_approval"
    ∷ pair "HUMAN_APPROVAL_REQUIRED" "verify_human_approval"
    ∷ pair "HUMAN_APPROVAL_VERIFIED" "start_patch_apply"
    ∷ pair "PATCH_APPLY_TRANSACTION_STARTED" "complete_patch_apply"
    ∷ []

abbrev test_pairs : List Item
test_pairs =
    pair "PATCH_APPLY_TRANSACTION_COMPLETED" "request_tests"
    ∷ pair "ALLOWLISTED_TESTS_REQUESTED" "complete_tests"
    ∷ pair "ALLOWLISTED_TESTS_COMPLETED" "write_final_artifact"
    ∷ []

-- The two branches on `test_requested` add the same pairs.
abbrev mode_pairs : AgentLoopMode → Bool → List Item
mode_pairs dry_run test_requested = pair "PATCH_PROPOSAL_CREATED" "write_final_artifact" ∷ []
mode_pairs supervised_apply test_requested =
    apply_pairs ++ (if test_requested then test_pairs else test_pairs)

unfoldable pub transition_pairs : AgentLoopMode → Bool → List Item
transition_pairs mode test_requested =
    (pair "TASK_RECEIVED" "check_authority"
      ∷ pair "AUTHORITY_CHECKED" "create_plan"
      ∷ pair "PLAN_CREATED" "read_context"
      ∷ pair "CONTEXT_READ" "create_patch_proposal"
      ∷ [])
    ++ (mode_pairs mode test_requested
        ++ (pair "FINAL_ARTIFACT_WRITTEN" "verify_receipts"
            ∷ pair "RECEIPTS_VERIFIED" "seal_ledger"
            ∷ pair "LEDGER_SEALED_LOCALLY" "done"
            ∷ []))
