-- ===== src/AgentLoop/Supervisor/Log.antt =====
-- The transition log of a run: its transitions lead to the end, so it is built and verifies.
use runtime_lab_core.Prelude.{
  ◌==◌, String, ◌≡◌, refl, Bool, true, false, List, [], ◌∷◌, Result, ok, ◌>>=◌, >>=-eq-ok,
}
use runtime_lab_core.Json.{Fields}
use runtime_lab_core.Hash.{Host}
use runtime_lab_core.AgentLoop.Models.{AgentLoopMode, dry_run, supervised_apply}
use runtime_lab_core.AgentLoop.StateMachine.{
  Item, check_item, build_transition_log, verify_transition_log, next_state,
}
use runtime_lab_core.AgentLoop.StateMachine.Laws.{build_transition_log-verify}
use runtime_lab_core.AgentLoop.StateMachine.Order.{IsWalk, check_item-IsStep}
use runtime_lab_core.AgentLoop.StateMachine.Accept.{build_transition_log_iff}
use runtime_lab_core.AgentLoop.Supervisor.{transition_pairs}

-- The state to which the items lead from a state.
abbrev pub walk_end : String → List Item → Result String
walk_end s [] = ok s
walk_end s (item ∷ items) = check_item s item >>= λ step. walk_end step.1 items

walk_end-IsWalk : (s d : String) (items : List Item) → walk_end s items ≡ ok d → IsWalk s items
walk_end-IsWalk s d [] e = tt
walk_end-IsWalk s d (item ∷ items) e =
    let ((t, u), checked, more) = >>=-eq-ok (check_item s item) (λ step. walk_end step.1 items) e in
    let (named, allowed) = check_item-IsStep s item t u checked in
    (t, u, named, allowed, walk_end-IsWalk u d items more)

transition_pairs-walk_end :
    (mode : AgentLoopMode) (tested : Bool)
    → walk_end "TASK_RECEIVED" (transition_pairs mode tested) ≡ ok "DONE"
unfolding transition_pairs check_item next_state ◌==◌
transition_pairs-walk_end dry_run tested = refl
transition_pairs-walk_end supervised_apply true = refl
transition_pairs-walk_end supervised_apply false = refl

module _ (h : Host) where
  -- For every mode and test command the supervisor's transitions lead from TASK_RECEIVED to DONE, the log of
  -- them is built, and it verifies: neither check of the log can stop a run.
  pub transition_pairs-verify :
      (mode : AgentLoopMode) (tested : Bool) (run_id : String)
      → (walk_end "TASK_RECEIVED" (transition_pairs mode tested) ≡ ok "DONE")
        × ((log : List Fields) × (build_transition_log h (transition_pairs mode tested) run_id
              ≡ ok log)
            × (verify_transition_log h log ≡ true))
  transition_pairs-verify mode tested run_id =
      let leads = transition_pairs-walk_end mode tested in
      let items = transition_pairs mode tested in
      let (log, built) =
        (build_transition_log_iff h items run_id).1
          (walk_end-IsWalk "TASK_RECEIVED" "DONE" items leads) in
      (leads, (log, built, build_transition_log-verify h items run_id log built))
