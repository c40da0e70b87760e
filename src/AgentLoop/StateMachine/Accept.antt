-- ===== src/AgentLoop/StateMachine/Accept.antt =====
-- Which lists of transitions `build_transition_log` accepts, and what that says of a run: it is short, it
-- applies no patch before an approval was verified. And what `verify_transition_log` does not ask.
use mathlib.Core.Bool.{false≢true}
use runtime_lab_core.Prelude.{
  ap, ◌==◌, All, ℕ, suc, ◌≤◌, String, ◌≡◌, refl, sym, ◌≢◌, ◌↔◌, true, List, [], ◌∷◌, ◌++◌, map,
  length, ok, Among, arith,
}
use runtime_lab_core.Json.{Fields, obj}
use runtime_lab_core.Hash.{Host, canonical_hash}
use runtime_lab_core.AgentLoop.StateMachine.{
  next_state, Item, event_body, seal, build_from, build_transition_log, verify_from,
  verify_transition_log,
}
use runtime_lab_core.AgentLoop.StateMachine.Laws.{build_from-cons, seal_parts, seal-event_verifies}
use runtime_lab_core.AgentLoop.StateMachine.Order.{
  IsWalk, transition_of, check_item-IsStep, check_item_of_step, rank, walk_length, walk_approved,
}

start_ne : ◌≢◌ {A = String} "TASK_RECEIVED" "HUMAN_APPROVAL_VERIFIED"
unfolding ◌==◌
start_ne e = false≢true (ap (λ s. s == "TASK_RECEIVED") (sym e))

module _ (h : Host) where
  build_from-IsWalk :
      (r : String) (i : ℕ) (c p : String) (items : List Item) (log : List Fields)
      → build_from h r i c p items ≡ ok log
      → IsWalk c items
  build_from-IsWalk r i c p [] log e = tt
  build_from-IsWalk r i c p (item ∷ items) log e =
      let (t, u, rest, checked, more, same) = build_from-cons h r i c p item items log e in
      let (named, allowed) = check_item-IsStep c item t u checked in
      (t, u, named, allowed, build_from-IsWalk r (suc i) u _ items rest more)

  build_from_of_IsWalk :
      (r : String) (i : ℕ) (c p : String) (items : List Item)
      → IsWalk c items
      → (log : List Fields) × (build_from h r i c p items ≡ ok log) × (length log ≡ length items)
  unfolding build_from
  build_from_of_IsWalk r i c p [] w = ([], refl, refl)
  build_from_of_IsWalk r i c p (item ∷ items) (t, u, named, allowed, w) =
      let body = event_body h r i c t u p in
      let (log, built, long) =
        build_from_of_IsWalk r (suc i) u (canonical_hash h (obj body)) items w in
      (
        seal h body ∷ log,
        rw (check_item_of_step c item t u named allowed, build_from) (rw built),
        omega (arith, long),
      )

  -- A log is built exactly of the walks through the table that begin at TASK_RECEIVED.
  pub build_transition_log_iff :
      (items : List Item) (run_id : String)
      → ((log : List Fields) × (build_transition_log h items run_id ≡ ok log))
        ↔ IsWalk "TASK_RECEIVED" items
  unfolding build_transition_log
  build_transition_log_iff items run_id = (
    λ (log, e). build_from-IsWalk run_id 1 "TASK_RECEIVED" "GENESIS" items log e,
    λ w.
        let (log, e, _) = build_from_of_IsWalk run_id 1 "TASK_RECEIVED" "GENESIS" items w in
        (log, e),
  )

  -- A run passes each state once at most: no log has more than 14 events.
  pub build_transition_log-length :
      (items : List Item) (run_id : String) (log : List Fields)
      → build_transition_log h items run_id ≡ ok log
      → (length log ≡ length items) × (length log ≤ 14)
  unfolding build_transition_log rank ◌==◌
  build_transition_log-length items run_id log e =
      let walk = build_from-IsWalk run_id 1 "TASK_RECEIVED" "GENESIS" items log e in
      let (log', e', long) = build_from_of_IsWalk run_id 1 "TASK_RECEIVED" "GENESIS" items walk in
      let same : log' ≡ log = ground arith in
      let count : length log ≡ length items = rw (← same) long in
      (count, omega (arith, count, walk_length "TASK_RECEIVED" items walk))

  -- In a list that is accepted, a verified human approval stands before each start of a patch.
  pub build_transition_log-approved :
      (before : List Item) (item : Item) (after : List Item) (run_id : String) (log : List Fields)
      → build_transition_log h (before ++ (item ∷ after)) run_id ≡ ok log
      → transition_of item ≡ "start_patch_apply"
      → Among "verify_human_approval" (map transition_of before)
  unfolding build_transition_log
  build_transition_log-approved before item after run_id log e start =
      walk_approved "TASK_RECEIVED" before item after start_ne start
        (build_from-IsWalk run_id 1 "TASK_RECEIVED" "GENESIS" (before ++ (item ∷ after)) log e)

  -- Steps written one after the other and sealed, whether or not each begins where the last one ended.
  abbrev pub seal_steps : String → ℕ → String → List (String × (String × String)) → List Fields
  seal_steps run_id i p [] = []
  seal_steps run_id i p ((s, (t, u)) ∷ steps) =
      let body = event_body h run_id i s t u p in
      seal h body ∷ seal_steps run_id (suc i) (canonical_hash h (obj body)) steps

  seal_steps-verify_from :
      (r : String) (i : ℕ) (p : String) (steps : List (String × (String × String)))
      → All (λ e. next_state e.0 e.1.0 ≡ ok e.1.1) steps
      → verify_from h p (seal_steps r i p steps) ≡ true
  unfolding verify_from
  seal_steps-verify_from r i p [] _ = refl
  seal_steps-verify_from r i p ((s, (t, u)) ∷ steps) (allowed, rest) =
      let body = event_body h r i s t u p in
      let hash = canonical_hash h (obj body) in
      rw (seal-event_verifies h r i s t u p allowed) (
        rw ((seal_parts h r i s t u p).0, h.to_str-str)
          (seal_steps-verify_from r (suc i) hash steps rest))

  -- `verify_transition_log` accepts every sealed list of table edges, in any order and from any state.
  pub verify_transition_log-seal_steps :
      (run_id : String) (steps : List (String × (String × String)))
      → All (λ e. next_state e.0 e.1.0 ≡ ok e.1.1) steps
      → verify_transition_log h (seal_steps run_id 1 "GENESIS" steps) ≡ true
  unfolding verify_transition_log
  verify_transition_log-seal_steps run_id steps allowed =
      seal_steps-verify_from run_id 1 "GENESIS" steps allowed
