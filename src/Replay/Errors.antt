-- ===== src/Replay/Errors.antt =====
-- Where a replay finds no error in the events and the receipts, they agree with the state.
use runtime_lab_core.Prelude.{
  String, ◌≡◌, refl, sym, ◌∙◌, Bool, true, false, not, &&-eq-true, List, [], ◌∷◌, ◌++◌, is_empty,
  All,
}
use runtime_lab_core.Json.{Fields}
use runtime_lab_core.Ledger.{when}
use runtime_lab_core.Ledger.Laws.{is_empty-append}
use runtime_lab_core.Replay.Checks.{
  event_agrees, event_checks, event_errors, event_binding_errors, GraphCheck, passes, graph_errors,
}

when-passed :
    (b : Bool) (error : String) (rest : List String)
    → is_empty (when (not b) error ++ rest) ≡ true
    → (b ≡ true) × (is_empty rest ≡ true)
when-passed true error rest e = (refl, e)
when-passed false error rest e = absurd cc

-- An event names nothing that differs from the state.
abbrev pub IsBound : Fields → List (String × String) → Fields → Type 0
IsBound expected checks event = All (λ check. event_agrees check.0 event expected ≡ true) checks

event_errors-IsBound :
    (checks : List (String × String)) (event expected : Fields)
    → is_empty (event_errors checks event expected) ≡ true
    → IsBound expected checks event
event_errors-IsBound [] event expected e = tt
event_errors-IsBound ((k, error) ∷ checks) event expected e =
    let (here, rest) =
      when-passed (event_agrees k event expected) error (event_errors checks event expected) e in
    (here, event_errors-IsBound checks event expected rest)

pub event_binding_errors-IsBound :
    (events : List Fields) (expected : Fields)
    → is_empty (event_binding_errors events expected) ≡ true
    → All (IsBound expected event_checks) events
unfolding event_binding_errors
event_binding_errors-IsBound [] expected e = tt
event_binding_errors-IsBound (event ∷ events) expected e =
    let (here, rest) =
      &&-eq-true (is_empty (event_errors event_checks event expected))
        (is_empty (event_binding_errors events expected))
        (sym (
            is_empty-append (event_errors event_checks event expected)
              (event_binding_errors events expected))
          ∙ e) in
    (
      event_errors-IsBound event_checks event expected here,
      event_binding_errors-IsBound events expected rest,
    )

pub graph_errors-passes :
    (checks : List GraphCheck) (graph expected : Fields)
    → is_empty (graph_errors checks graph expected) ≡ true
    → All (λ check. passes check graph expected ≡ true) checks
unfolding graph_errors
graph_errors-passes [] graph expected e = tt
graph_errors-passes (check ∷ checks) graph expected e =
    let (here, rest) =
      when-passed (passes check graph expected) check.error (graph_errors checks graph expected)
        e in
    (here, graph_errors-passes checks graph expected rest)
