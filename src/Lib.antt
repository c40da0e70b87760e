-- ===== src/Lib.antt =====
-- Runtime Lab Core: a local agent runtime that fails closed. Every part takes a request as plain data, answers
-- with a `dict` that is accepted or carries rejection codes, and seals what it did in receipts and hash-linked
-- logs. This library models the agent loop, the event ledger, the test runner, the application of patches to
-- the files of a workspace, and the way of a task from its descriptor to a written artifact and its replay:
-- descriptors, authority packets, workspace transactions, the artifact store, the executor and the replay of a
-- ledger, of runtime_lab/.
--
-- Files and code:
--   Prelude        lists, texts, integers and results of Python, with the lemmas that all parts share
--   Json           decoded JSON values and the operations of `dict`; Access has the tests on their types,
--                  Equality Python's `==`
--   Hash           runtime_lab/authority/canonical.py: `canonical_hash`; Hash.Chain is the common theory of
--                  hash-linked lists, Hash.Seal that of receipts which store their own hash
--   AgentLoop      runtime_lab/agent_loop/: StateMachine (state_machine.py), ReceiptLedger (ledger.py),
--                  Models (models.py), Authority (authority.py), Policy (policy.py), Receipts (receipts.py),
--                  Replay (replay.py), Supervisor (supervisor.py, plan.py; Transitions and Documents are
--                  its data, Log, Steps and Laws its proofs)
--   Ledger         runtime_lab/ledger/__init__.py: Event is `_event_structure_error`, Ledger the validation of
--                  a chain and `append_event`
--   PosixPath      what the code uses of `pathlib.PurePosixPath`
--   TestRunner     runtime_lab/test_runner/: Models, Allowlist, Policy, Runner (with redaction.py), Receipts
--   PatchApply     runtime_lab/patch_apply/: Models (models.py), Diff (diff_apply.py), Receipts (receipts.py),
--                  Transaction (transaction.py, rollback.py)
--   Descriptors    runtime_lab/descriptors/: Canonical (canonical.py), Schema (schema.py), Validator
--                  (validator.py)
--   Authority      runtime_lab/authority/: Bindings (canonical.py, the readers of verify.py and
--                  `compute_descriptor_payload_hash`), Verify (verify.py), Packet (packet.py)
--   Workspace      runtime_lab/workspace/__init__.py; Workspace.Bound joins it to Authority
--   ArtifactStore  runtime_lab/artifact_store/__init__.py: Policy, Checks, Store
--   Executor       runtime_lab/executor/__init__.py: Paths, Checks, Run
--   Replay         runtime_lab/replay/__init__.py: Input, Checks, Engine; Matched says what it is that
--                  the receipts agree; Replay.Executor joins it to the executor
--   Tests          concrete machines, requests and logs
--
-- How the parts meet: `run_agent_loop` validates a request with Policy, which asks Authority, the table of
-- StateMachine and the table of Allowlist; it then builds a log with StateMachine, makes the calls of its mode,
-- and seals their receipts with ReceiptLedger, Replay and Receipts. An operation of the source is a function of
-- the same name without the leading underscore. A `dict` that is hashed is a value of Json, a `dict` that is only
-- read by its caller is a record. An exception with a code is `raise code`.
--
-- Parameters: SHA-256, `json.dumps` and `str` (Hash.Host), regular expressions (Policy.Patterns,
-- Runner.Patterns), the file system (TestRunner.Policy.Folders), the environment and the executor of a test, and
-- the results of the calls that `run_agent_loop` makes into other packages, or the exceptions that they raise
-- (Supervisor.Calls), `bytes.decode` (of the recorded output of a test),
-- `str.lower` (Descriptors.Validator.TextTools) and `Path.resolve` (an argument of the executor). Workspace takes
-- the verification of packets and the hash of descriptors as arguments, which Workspace.Bound fills. It is only
-- assumed that a SHA-256 digest has 64 digits and that `str` leaves a text as it is and, where the last hash of a log
-- is said to fix the log, that `json.dumps` writes two mappings as one text only if they have the same text under the
-- key of the link (Hash.Chain.IsReadBack). Time is an argument.
--
-- All loops run over lists, by structural recursion; there is no fuel. Python's `int` is ℤ, lengths are ℕ.
--
-- The task's way: a descriptor is validated and its hash bound into a packet; a workspace transaction and the
-- artifact store check the packet and the policy and hand over receipts; the executor writes only under all three.
-- The executor lists its writes in its result; that they fail is not modelled there. A replay compares the events of
-- a ledger and the receipts of these parts with an expected state; it writes nothing.
--
-- The transaction of a patch works on a store of files, where each write may fail (PatchApply.Transaction.Faults).
-- Links in the workspace are not followed there: two paths name one file only if they are equal.
--
-- Not modelled: patch proposals, the parsing of diffs and the validation of a request to apply one, admission,
-- repository context, the spine, the no-op adapters of the descriptors and the LLM
-- providers, since each is a package of its own that the modelled code reaches by its results. Floats do not occur
-- in the code that is modelled.
pub mod Prelude
pub mod Json
pub mod Descriptors
pub mod Hash
pub mod Authority
pub mod Ledger
pub mod AgentLoop
pub mod PosixPath
pub mod TestRunner
pub mod PatchApply
pub mod Workspace
pub mod ArtifactStore
pub mod Executor
pub mod Replay
pub mod Tests
