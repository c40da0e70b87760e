-- ===== src/AgentLoop/Supervisor/Laws.antt =====
-- The runs of the supervisor: what a patch needs, and when a run succeeds.
use mathlib.Core.Path.{subst}
use runtime_lab_core.Prelude.{
  ◌≡◌, refl, sym, ◌∙◌, Bool, true, false, ◌&&◌, not, Bool-cases, dedupe, Option, Option-cases, List,
  [], ◌∷◌, Among, Result, ok, arith, ◌⊎◌, inl, inr,
}
use runtime_lab_core.Json.{Fields, get, truthy}
use runtime_lab_core.Hash.{Host}
use runtime_lab_core.AgentLoop.Models.{
  supervised_apply, AgentLoopPolicy, AgentLoopAuthority, AgentLoopRequest,
}
use runtime_lab_core.AgentLoop.Authority.{evaluate_authority, given_text}
use runtime_lab_core.AgentLoop.Policy.{Patterns, validate_agent_loop_request}
use runtime_lab_core.AgentLoop.Policy.Laws.{Admissible, validate_agent_loop_request-Admissible}
use runtime_lab_core.AgentLoop.Supervisor.{
  plan_of, Calls, Effect, made_directory, applied_patch, Outcome, failed, raised, all_accepted,
  run_steps, run_agent_loop,
}
use runtime_lab_core.AgentLoop.Supervisor.Log.{transition_pairs-verify}
use runtime_lab_core.AgentLoop.Supervisor.Steps.{returns, IsEvidence, is_success, run_steps-effects}

few-none : (fx : List Effect) → (fx ≡ []) ⊎ (fx ≡ made_directory ∷ []) → Among applied_patch fx → ⊥
few-none fx (inl e) m = subst (Among applied_patch) e m
few-none fx (inr e) m = ground (arith, subst (Among applied_patch) e m)

module _ (h : Host) (re : Patterns) (request : AgentLoopRequest)
    (authority : Option AgentLoopAuthority) (policy : AgentLoopPolicy) (calls : Calls) where
  -- The request is accepted, the directory is made, and the plan calls no tool.
  abbrev pub is_admitted : Bool
  is_admitted =
      (validate_agent_loop_request h re request authority policy).accepted
      && returns calls made_directory
      && not (truthy (get "tool_calls" (plan_of h request)))

  abbrev run : Result (Outcome × List Effect)
  run = run_agent_loop h re request authority policy calls

  -- An admitted request runs its steps, with its log.
  run_agent_loop-admitted :
      is_admitted ≡ true
      → (log : List Fields) × (run
          ≡ ok (
              run_steps h request policy
                (evaluate_authority h request authority policy).authority_decision_hash
                calls
                log))
  unfolding run_agent_loop
  run_agent_loop-admitted admitted =
      let (_, (log, built, verified)) =
        transition_pairs-verify h request.mode (given_text request.test_command_id)
          request.run_id in
      (log, ground (arith, admitted, built, verified))

  -- Any other makes no call, and does not succeed.
  run_agent_loop-refused :
      is_admitted ≡ false
      → (o : Outcome) × (effects : List Effect) × (run ≡ ok (o, effects))
        × (is_success o ≡ false)
        × IsEvidence h request calls o
        × ((effects ≡ []) ⊎ (effects ≡ made_directory ∷ []))
  unfolding run_agent_loop dedupe
  run_agent_loop-refused refused =
      elim (Bool-cases (validate_agent_loop_request h re request authority policy).accepted) [
        | inl accepted ↦ elim (Option-cases (calls.raises made_directory)) [
          | inr (error, broken) ↦
              (raised error, made_directory ∷ [], rw (accepted, broken) refl, refl, tt, inr refl)
          | inl made ↦
              let tools : truthy (get "tool_calls" (plan_of h request)) ≡ true =
                ground (arith, refused, accepted) in
              (
                failed ("REJECTED_MODEL_TOOL_CALL" ∷ []),
                made_directory ∷ [],
                rw (accepted, made, tools) refl,
                refl,
                tt,
                inr refl,
              )
        ]
        | inr rejected ↦ (
          failed
              (dedupe (validate_agent_loop_request h re request authority policy).rejection_codes),
          [],
          rw rejected refl,
          refl,
          tt,
          inl refl,
        )
      ]

  -- A run that applies a patch has a request that was accepted as a supervised one, so with its authority and, where
  -- the policy asks for it, an approval; all reads and the proposal were accepted before.
  pub run_agent_loop-applied :
      (o : Outcome) (effects : List Effect)
      → run ≡ ok (o, effects)
      → Among applied_patch effects
      → (request.mode ≡ supervised_apply)
        × Admissible request authority policy
        × (all_accepted calls.context && calls.proposal.accepted ≡ true)
  run_agent_loop-applied o effects e applied = elim (Bool-cases is_admitted) [
    | inl admitted ↦
        let (log, runs) = run_agent_loop-admitted admitted in
        let decided = (evaluate_authority h request authority policy).authority_decision_hash in
        let same : effects ≡ (run_steps h request policy decided calls log).1 =
          ground (arith, sym e ∙ runs) in
        let (mode, earlier) =
          (run_steps-effects h request policy decided log calls).0
            (subst (Among applied_patch) same applied) in
        let accepted : (validate_agent_loop_request h re request authority policy).accepted ≡ true =
          ground (arith, admitted) in
        (
          mode,
          validate_agent_loop_request-Admissible h re request authority policy accepted,
          earlier,
        )
    | inr refused ↦
        let (_, fx, runs, _, _, few) = run_agent_loop-refused refused in
        let same : effects ≡ fx = ground (arith, sym e ∙ runs) in
        absurd (few-none fx few (subst (Among applied_patch) same applied))
  ]
