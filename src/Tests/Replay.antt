-- ===== src/Tests/Replay.antt =====
-- A replay of one event, and one with the receipt of an execution.
use runtime_lab_core.Prelude.{◌≡◌, refl, false, [], ◌∷◌, ◌==◌}
use runtime_lab_core.Json.{str, arr, obj, Fields, dict, strings, get}
use runtime_lab_core.Hash
use runtime_lab_core.Ledger
use runtime_lab_core.Ledger.{as_value}
use runtime_lab_core.Ledger.Event
use runtime_lab_core.Replay.Input
use runtime_lab_core.Replay.Checks
use runtime_lab_core.Replay.Engine
use runtime_lab_core.Replay.Engine.{replay_ledger_chain}
use runtime_lab_core.Replay.Executor.{replay_ledger_chain-executed}
use runtime_lab_core.Executor.Run.{executor_receipt}
use runtime_lab_core.Tests.Fixtures.{host}
use runtime_lab_core.Tests.Descriptors.{tools}
use runtime_lab_core.Tests.Ledger.{hash, one_event}
use runtime_lab_core.Tests.Executor
use runtime_lab_core.Tests.Executor.{resolve, executed, execution}

abbrev expected : Fields
expected = dict (
    ("task_id", str "task-1")
    ∷ ("descriptor_hash", str hash)
    ∷ ("authority_receipt_hash", str hash)
    ∷ ("required_event_types", arr (strings ("task_admitted" ∷ [])))
    ∷ [])

abbrev replay_request : Fields
replay_request = dict (
    ("ledger", as_value one_event)
    ∷ ("expected_state", obj expected)
    ∷ (
      "receipt_graph",
      obj (
          dict (
            ("authority", obj (dict (("receipt_hash", str hash) ∷ ("task_id", str "task-1") ∷ [])))
            ∷ [])),
    )
    ∷ [])

abbrev receipt : Fields
receipt = executor_receipt host Executor.request

abbrev graph : Fields
graph = dict (("executor", obj receipt) ∷ [])

abbrev executed_request : Fields
executed_request = dict (("receipt_graph", obj graph) ∷ [])

replay_ledger_chain-executed_example :
    (replay_ledger_chain host (obj executed_request)).accepted ≡ false
unfolding get ◌==◌
replay_ledger_chain-executed_example =
    replay_ledger_chain-executed host tools resolve Executor.request executed_request graph receipt
      executed execution refl refl refl refl
