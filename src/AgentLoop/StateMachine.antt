-- ===== src/AgentLoop/StateMachine.antt =====
-- runtime_lab/agent_loop/state_machine.py: the transition table, and the hash-linked transition log. An
-- event of the log is the `dict` that the source builds; `AgentLoopPolicyError(code)` is `raise code`.
pub mod Laws
pub mod Order
pub mod Accept
use runtime_lab_core.Prelude.{
  ℕ, suc, pos, String, Bool, true, false, ◌&&◌, none, some, List, [], ◌∷◌, Result, ok, raise, ◌>>=◌,
  ◌>>◌, require, lookup, ◌==◌,
}
use runtime_lab_core.Json.{str, num, obj, Fields, dict, get, pop, set, is_str}
use runtime_lab_core.Hash.{Host, canonical_hash}

abbrev pub transitions : List (String × List (String × String))
transitions =
    ("TASK_RECEIVED", ("check_authority", "AUTHORITY_CHECKED") ∷ [])
    ∷ ("AUTHORITY_CHECKED", ("create_plan", "PLAN_CREATED") ∷ [])
    ∷ ("PLAN_CREATED", ("read_context", "CONTEXT_READ") ∷ [])
    ∷ ("CONTEXT_READ", ("create_patch_proposal", "PATCH_PROPOSAL_CREATED") ∷ [])
    ∷ (
      "PATCH_PROPOSAL_CREATED",
      ("require_human_approval", "HUMAN_APPROVAL_REQUIRED")
          ∷ ("write_final_artifact", "FINAL_ARTIFACT_WRITTEN")
          ∷ [],
    )
    ∷ ("HUMAN_APPROVAL_REQUIRED", ("verify_human_approval", "HUMAN_APPROVAL_VERIFIED") ∷ [])
    ∷ ("HUMAN_APPROVAL_VERIFIED", ("start_patch_apply", "PATCH_APPLY_TRANSACTION_STARTED") ∷ [])
    ∷ (
      "PATCH_APPLY_TRANSACTION_STARTED",
      ("complete_patch_apply", "PATCH_APPLY_TRANSACTION_COMPLETED") ∷ [],
    )
    ∷ ("PATCH_APPLY_TRANSACTION_COMPLETED", ("request_tests", "ALLOWLISTED_TESTS_REQUESTED") ∷ [])
    ∷ ("ALLOWLISTED_TESTS_REQUESTED", ("complete_tests", "ALLOWLISTED_TESTS_COMPLETED") ∷ [])
    ∷ ("ALLOWLISTED_TESTS_COMPLETED", ("write_final_artifact", "FINAL_ARTIFACT_WRITTEN") ∷ [])
    ∷ ("FINAL_ARTIFACT_WRITTEN", ("verify_receipts", "RECEIPTS_VERIFIED") ∷ [])
    ∷ ("RECEIPTS_VERIFIED", ("seal_ledger", "LEDGER_SEALED_LOCALLY") ∷ [])
    ∷ ("LEDGER_SEALED_LOCALLY", ("done", "DONE") ∷ [])
    ∷ ("DONE", [])
    ∷ []

unfoldable pub next_state : String → String → Result String
next_state current transition = elim (lookup current transitions) [
  | none ↦ raise "REJECTED_UNKNOWN_STATE"
  | some row ↦ elim (lookup transition row) [
    | none ↦ raise "REJECTED_UNKNOWN_TRANSITION"
    | some target ↦ ok target
  ]
]

-- An item of `transitions`: a pair, or a triple with the target that the caller expects.
pub data Item : Type 0 where
  pair : String → String → Item
  triple : String → String → String → Item

-- `state`, `transition` and `expected_target` of an item. Of a pair the target is looked up at once.
unfoldable unpack : Item → Result (String × String × String)
unpack (pair state transition) =
    next_state state transition >>= λ target. ok (state, transition, target)
unpack (triple state transition target) = ok (state, transition, target)

-- The checks of one round, at the state that the log has reached: the transition and its target.
unfoldable pub check_item : String → Item → Result (String × String)
unfolding unpack
check_item current item = do
  (state, transition, expected_target) ← unpack item
  require (state == current) "REJECTED_UNKNOWN_STATE"
  target ← next_state state transition
  require (target == expected_target) "REJECTED_UNKNOWN_TRANSITION"
  ok (transition, target)

module _ (h : Host) where
  -- The `dict` literal of an event, before its hash is set.
  abbrev pub event_body : String → ℕ → String → String → String → String → Fields
  event_body run_id index state transition target previous = dict (
      ("run_id", str run_id)
      ∷ ("sequence", num (pos index))
      ∷ ("from_state", str state)
      ∷ ("transition", str transition)
      ∷ ("to_state", str target)
      ∷ ("previous_transition_hash", str previous)
      ∷ [])

  -- `event["transition_hash"] = canonical_hash(event)`
  abbrev pub seal : Fields → Fields
  seal event = set "transition_hash" (str (canonical_hash h (obj event))) event

  -- The loop of `build_transition_log`, from the item of number `index` on.
  unfoldable pub build_from : String → ℕ → String → String → List Item → Result (List Fields)
  unfolding check_item
  build_from run_id index current previous [] = ok []
  build_from run_id index current previous (item ∷ items) = do
    (transition, target) ← check_item current item
    let event = event_body run_id index current transition target previous
    log ← build_from run_id (suc index) target (canonical_hash h (obj event)) items
    ok (seal event ∷ log)

  unfoldable pub build_transition_log : List Item → String → Result (List Fields)
  unfolding build_from
  build_transition_log items run_id = build_from run_id 1 "TASK_RECEIVED" "GENESIS" items

  -- The tests that one round of `verify_transition_log` makes, in their order.
  unfoldable pub event_verifies : String → Fields → Bool
  event_verifies previous event =
      let expected = pop "transition_hash" event in
      is_str (get "previous_transition_hash" expected) previous
      && elim (next_state (h.to_str (get "from_state" expected))
          (h.to_str (get "transition" expected))) [
            | raise _ ↦ false
            | ok target ↦ is_str (get "to_state" expected) target
          ]
      && is_str (get "transition_hash" event) (canonical_hash h (obj expected))

  -- Its loop, with the hash that the next event is to name.
  unfoldable pub verify_from : String → List Fields → Bool
  unfolding event_verifies
  verify_from previous [] = true
  verify_from previous (event ∷ log) =
      event_verifies previous event && verify_from (h.to_str (get "transition_hash" event)) log

  unfoldable pub verify_transition_log : List Fields → Bool
  unfolding verify_from
  verify_transition_log log = verify_from "GENESIS" log
