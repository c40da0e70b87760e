-- ===== src/Replay/Executor.antt =====
-- The receipts of the executor in a replay. The executor takes the hash of a descriptor as
-- runtime_lab/descriptors/canonical.py gives it, 64 digits; a replay asks for a hash with the prefix `sha256:`.
use Prim.Native.String.{count}
use Prim.Native.String.count
use mathlib.Core.Bool.{false≢true}
use mathlib.Core.Path.{subst}
use runtime_lab_core.Prelude.{
  &&-eq-true, ℕ, suc, ◌+◌, String, Char, ◌=ℕ=◌, ◌≡◌, ◌≢◌, refl, sym, ◌∙◌, ap, true, false, ◌&&◌,
  ◌||◌, Bool-cases, inl, inr, none, some, ok, >>=-eq-ok, strip_prefix, starts_with, removeprefix,
  arith, Option-cases,
}
use runtime_lab_core.Json.{Value, str, obj, Fields, end, field, get, has}
use runtime_lab_core.Json.Access.{fields_of}
use runtime_lab_core.Json.Equality.{same_value, same_value_of_str}
use runtime_lab_core.Hash.{Host, is_hash}
use runtime_lab_core.Descriptors.Canonical
use runtime_lab_core.Descriptors.Validator.{TextTools, validate_descriptor}
use runtime_lab_core.Authority.Bindings.{compute_descriptor_payload_hash, descriptor_payload}
use runtime_lab_core.Authority.Bindings.Laws.{compute_descriptor_payload_hash-validate}
use runtime_lab_core.Authority.Verify.Laws.{ok_injective}
use runtime_lab_core.Executor.Run.{ExecutionResult, execute_write_text_artifact}
use runtime_lab_core.Executor.Laws.{IsExecuted, execute_write_text_artifact-IsWarranted}
use runtime_lab_core.Replay.Input.{
  is_stated, expected_state, receipt_graph, hashes_if_given, expected_hash_fields,
}
use runtime_lab_core.Replay.Checks.{is_none}
use runtime_lab_core.Replay.Engine.{replay_ledger_chain}
use runtime_lab_core.Replay.Laws.{IsReplayed, replay_ledger_chain-IsReplayed}

count-cons : (c : Char) (s : String) → count (String.◌∷◌ c s) ≡ suc (count s)
count-cons c s = λ i. count.cons c s i

-- A prefix and what is left behind it make up the length.
count-strip_prefix :
    (p s rest : String) → strip_prefix p s ≡ some rest → count s ≡ count p + count rest
count-strip_prefix String.[] s rest e = ground (arith, e)
count-strip_prefix (String.◌∷◌ c p) String.[] rest e = absurd cc
count-strip_prefix (String.◌∷◌ c p) (String.◌∷◌ d s) rest e =
    ground (arith, e, count-strip_prefix p s rest, count-cons c p, count-cons d s)

-- What is left of 64 characters behind a prefix is shorter.
prefix-short :
    (p s : String) (n : ℕ)
    → count s ≡ 64
    → count p ≡ suc n
    → (starts_with s p && (count (removeprefix s p) =ℕ= 64)) ≡ false
prefix-short p s n whole some_prefix = elim (Option-cases (strip_prefix p s)) [
  | inl other ↦ rw (other, ◌&&◌) refl
  | inr (rest, found) ↦
      rw (found, ◌&&◌) (ground (arith, count-strip_prefix p s rest found, whole, some_prefix))
]

-- 64 digits alone have not the form of a hash with its prefix.
is_hash-short : (s : String) → count s ≡ 64 → is_hash (str s) ≡ false
unfolding is_hash
is_hash-short s e = prefix-short "sha256:" s 6 e refl

module _ (h : Host) (tools : TextTools) where
  descriptor_hash-count :
      (payload : Fields) (hash : String)
      → compute_descriptor_payload_hash h tools payload ≡ ok hash
      → count hash ≡ 64
  unfolding Canonical.canonical_hash
  descriptor_hash-count payload hash e =
      let (_, _, made) =
        >>=-eq-ok (validate_descriptor h tools (obj (descriptor_payload payload))) _
          (sym (compute_descriptor_payload_hash-validate h tools payload) ∙ e) in
      ap count (sym (ok_injective _ hash made)) ∙ h.hex_length _

-- What is read of a key is under it.
has-get : (k s : String) (d : Fields) → get k d ≡ str s → has k d ≡ true
unfolding get has
has-get k s end e = absurd cc
has-get k s (field j v r) e = ground (arith, e, has-get k s r)

some_injective : (a b : Fields) → some a ≡ some b → a ≡ b
some_injective a b e = cc

not_some : (a : Fields) → none ≢ some a
not_some a e = absurd cc

-- The state is the mapping that is given, and its hashes have the form of one.
expected_state-hashes :
    (v : Value) (expected : Fields)
    → expected_state v ≡ some expected
    → hashes_if_given expected_hash_fields expected ≡ true
unfolding expected_state is_stated
expected_state-hashes (obj d) expected e = elim (Bool-cases (is_stated d)) [
  | inl stated ↦
      let same = some_injective d expected (rw (stated, expected_state) at e) in
      subst (λ x. hashes_if_given expected_hash_fields x ≡ true) same
        (&&-eq-true (hashes_if_given expected_hash_fields d) _ stated).0
  | inr unstated ↦ absurd (not_some expected (rw (unstated, expected_state) at e))
]
expected_state-hashes _ expected e = absurd cc

stated-is_hash :
    (expected : Fields) (v : Value) (s : String)
    → expected_state v ≡ some expected
    → get "descriptor_hash" expected ≡ str s
    → is_hash (str s) ≡ true
stated-is_hash expected v s e named =
    let present = has-get "descriptor_hash" s expected named in
    let hashes = expected_state-hashes v expected e in
    subst (λ x. is_hash x ≡ true) named (ground (arith, present, hashes))

receipt_graph-same : (given graph : Fields) → receipt_graph (obj given) ≡ some graph → given ≡ graph
unfolding receipt_graph
receipt_graph-same given graph e = ground (arith, e)

-- The check of the descriptor that the executor's receipt names.
executor_check :
    (request : Fields) (h : Host) (shown : IsReplayed h request) (hash : String)
    → get "descriptor_hash" (fields_of (get "executor" shown.graph)) ≡ str hash
    → get "descriptor_hash" shown.expected ≡ str hash
executor_check request h shown hash at =
    let check = shown.matched.tasks.3.1 in
    same_value_of_str hash (get "descriptor_hash" shown.expected) (
      subst
        (λ v. ((true && is_none v) || same_value v (get "descriptor_hash" shown.expected)) ≡ true)
        at check)

module _ (h : Host) (tools : TextTools) (resolve : String → String) where
  -- A replay never accepts the receipt of an execution: the receipt names the descriptor by 64 digits, and the hash that
  -- the state expects, if any, has the prefix `sha256:`.
  pub replay_ledger_chain-executed :
      (task request graph receipt : Fields) (outcome : ExecutionResult)
      → execute_write_text_artifact h tools resolve (obj task) ≡ ok outcome
      → outcome.accepted ≡ true
      → outcome.receipt ≡ some receipt
      → get "receipt_graph" request ≡ obj graph
      → get "executor" graph ≡ obj receipt
      → (replay_ledger_chain h (obj request)).accepted ≡ false
  unfolding IsExecuted
  replay_ledger_chain-executed task request graph receipt outcome run accepted handed given
        executor =
      elim (Bool-cases (replay_ledger_chain h (obj request)).accepted) [
        | inr refused ↦ refused
        | inl replayed ↦
            let (warrant, (_, (made, made_handed, _, _, named, _, _, _))) =
              execute_write_text_artifact-IsWarranted h tools resolve task outcome run accepted in
            let (shown, _) = replay_ledger_chain-IsReplayed h request replayed in
            let hash = warrant.authorised.hash in
            let same_receipt = some_injective made receipt (sym made_handed ∙ handed) in
            let same_graph =
              receipt_graph-same graph shown.graph
                (subst (λ v. receipt_graph v ≡ some shown.graph) given shown.given) in
            let at : get "descriptor_hash" (fields_of (get "executor" shown.graph)) ≡ str hash =
              ap (λ g. get "descriptor_hash" (fields_of (get "executor" g))) (sym same_graph)
              ∙ ap (λ v. get "descriptor_hash" (fields_of v)) executor
              ∙ ap (get "descriptor_hash") (sym same_receipt)
              ∙ named
              ∙ warrant.authorised.described in
            let stated = executor_check request h shown hash at in
            let long =
              stated-is_hash shown.expected (get "expected_state" request) hash shown.stated
                stated in
            let short = is_hash-short hash (
              descriptor_hash-count h tools warrant.authorised.payload hash
                warrant.authorised.taken) in
            absurd (false≢true (sym short ∙ long))
      ]
