-- ===== src/AgentLoop/Authority.antt =====
-- runtime_lab/agent_loop/authority.py.
use runtime_lab_core.Prelude.{
  String, Bool, true, false, ◌&&◌, ◌||◌, not, Option, none, some, List, [], ◌∷◌, map, ◌==◌,
  contains, dedupe, is_nonempty, if◌then◌else◌,
}
use runtime_lab_core.Json.{str, bool, null, arr, obj, Fields, dict, strings}
use runtime_lab_core.Hash.{Host, canonical_hash}
use runtime_lab_core.AgentLoop.Models.{
  mode_value, AgentLoopPolicy, AgentLoopAuthority, AgentLoopRequest,
}

-- The returned `dict`: its entries, and the copy of the authority that an accepted one carries.
pub record Decision : Type 0 where
  pub accepted : Bool
  pub rejection_codes : List String
  pub authority_decision_hash : String
  pub authority : Option AgentLoopAuthority

-- `bool(text)` of a text that may be missing
abbrev pub given_text : Option String → Bool
given_text none = false
given_text (some s) = is_nonempty s

-- The entries of the `dict` before its hash is set.
abbrev decision_fields : Bool → List String → Option AgentLoopAuthority → AgentLoopRequest → Fields
decision_fields accepted codes authority request = dict (
    ("accepted", bool accepted)
    ∷ ("rejection_codes", arr (strings (dedupe codes)))
    ∷ ("task_id", str request.task_id)
    ∷ ("run_id", str request.run_id)
    ∷ ("mode", str (mode_value request.mode))
    ∷ (
      "supervision_required",
      elim authority [ none ↦ bool true | some a ↦ bool a.supervision_required ],
    )
    ∷ ("actor_id", elim authority [ none ↦ null | some a ↦ str a.actor_id ])
    ∷ (
      "autonomous_operation_allowed",
      elim authority [ none ↦ bool false | some a ↦ bool a.allow_autonomous_mode ],
    )
    ∷ (
      "model_driven_executor_dispatch_allowed",
      elim authority [ none ↦ bool false | some a ↦ bool a.allow_model_driven_executor_dispatch ],
    )
    ∷ [])

module _ (h : Host) where
  -- `_decision` for a rejection with one code.
  abbrev pub reject : String → Option AgentLoopAuthority → AgentLoopRequest → Decision
  reject code authority request = record {
    accepted = false;
    rejection_codes = dedupe (code ∷ []);
    authority_decision_hash =
        canonical_hash h (obj (decision_fields false (code ∷ []) authority request));
    authority = none;
  }

  abbrev pub accept : AgentLoopAuthority → AgentLoopRequest → Decision
  accept authority request = record {
    accepted = true;
    rejection_codes = dedupe [];
    authority_decision_hash =
        canonical_hash h (obj (decision_fields true [] (some authority) request));
    authority = some authority;
  }

  unfoldable pub evaluate_given : AgentLoopRequest → AgentLoopAuthority → AgentLoopPolicy → Decision
  unfolding dedupe
  evaluate_given request authority policy =
      let refuse = λ (code : String). reject code (some authority) request in
      if not (authority.task_id == request.task_id)
      then refuse "REJECTED_MISSING_AUTHORITY"
      else if authority.allow_autonomous_mode
      then refuse "REJECTED_AUTONOMOUS_MODE"
      else if not (contains (map mode_value authority.allowed_modes) (mode_value request.mode))
      then refuse "REJECTED_SCOPE_ESCALATION"
      else if mode_value request.mode == "SUPERVISED_APPLY" && not authority.allow_patch_apply
      then refuse "REJECTED_UNAPPROVED_MUTATION"
      else if given_text request.test_command_id && not authority.allow_test_runner
      then refuse "REJECTED_TEST_RUNNER_BYPASS"
      else if request.model_driven_executor_dispatch_requested
          || authority.allow_model_driven_executor_dispatch
      then refuse "REJECTED_MODEL_TOOL_CALL"
      else if request.allow_live_llm_provider && not policy.allow_live_llm_provider
      then refuse "REJECTED_LIVE_LLM_PROVIDER_BY_DEFAULT"
      else accept authority request

  unfoldable pub evaluate_authority :
      AgentLoopRequest → Option AgentLoopAuthority → AgentLoopPolicy → Decision
  unfolding evaluate_given
  evaluate_authority request none policy = reject "REJECTED_MISSING_AUTHORITY" none request
  evaluate_authority request (some authority) policy = evaluate_given request authority policy
