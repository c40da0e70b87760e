-- ===== src/Replay/Evidence.antt =====
-- What the receipt of a replay says.
use runtime_lab_core.Prelude.{
  pos, String, ◌≡◌, refl, true, false, some, List, [], ◌∷◌, length, All, ◌==◌,
}
use runtime_lab_core.Json.{bool, str, num, Fields, get, set}
use runtime_lab_core.Hash.{Host}
use runtime_lab_core.Hash.Seal.{seal, is_sealed, seal-is_sealed}
use runtime_lab_core.Ledger.{ledger_chain_hash, last_or_genesis}
use runtime_lab_core.Replay.Engine.{receipt_body, replayed}

module _ (h : Host) where
  -- What a replay does not do.
  abbrev pub performed_fields : List String
  performed_fields =
      "executor_redispatch_performed" ∷ "workspace_mutation_performed"
      ∷ "artifact_mutation_performed" ∷ "ledger_mutation_performed" ∷ "tool_invocation_performed"
      ∷ "llm_invocation_performed" ∷ "network_access_performed" ∷ "r120_seal_performed" ∷ []

  -- The receipt of a replay: sealed, and of the chain, its length and its end, and the state.
  pub record IsEvidence (events : List Fields) (expected receipt : Fields) : Type 0 where
    pub sealed : is_sealed h "receipt_hash" receipt ≡ true
    pub of_chain : get "ledger_chain_hash" receipt ≡ str (ledger_chain_hash h events)
    pub of_count : get "ledger_event_count" receipt ≡ num (pos (length events))
    pub of_task : get "task_id" receipt ≡ get "task_id" expected
    pub of_artifact : get "artifact_receipt_hash" receipt ≡ get "artifact_receipt_hash" expected
    pub of_executor : get "executor_receipt_hash" receipt ≡ get "executor_receipt_hash" expected
    pub of_end : get "terminal_event_hash" receipt ≡ last_or_genesis events
    pub of_descriptor : get "descriptor_hash" receipt ≡ get "descriptor_hash" expected
    pub of_authority : get "authority_receipt_hash" receipt ≡ get "authority_receipt_hash" expected
    pub of_workspace :
        get "workspace_transaction_receipt_hash" receipt
        ≡ get "workspace_transaction_receipt_hash" expected
    pub of_validation :
        get "validation_receipt_hash" receipt ≡ get "validation_receipt_hash" expected
    pub of_content : get "artifact_content_hash" receipt ≡ get "artifact_content_hash" expected
    pub of_output : get "executor_output_hash" receipt ≡ get "executor_output_hash" expected
    pub idle : All (λ k. get k receipt ≡ bool false) performed_fields

  pub replayed-IsEvidence :
      (events : List Fields) (expected : Fields)
      → (receipt : Fields) × ((replayed h events expected
            (some (ledger_chain_hash h events))).receipt
          ≡ some receipt)
        × IsEvidence events expected receipt
  unfolding replayed seal receipt_body get set ◌==◌
  replayed-IsEvidence events expected =
      let body =
        receipt_body expected events (ledger_chain_hash h events) (last_or_genesis events) in
      (
        seal h "receipt_hash" body,
        refl,
        record {
          sealed = (seal-is_sealed h "receipt_hash" body).0;
          of_chain = refl;
          of_count = refl;
          of_task = refl;
          of_artifact = refl;
          of_executor = refl;
          of_end = refl;
          of_descriptor = refl;
          of_authority = refl;
          of_workspace = refl;
          of_validation = refl;
          of_content = refl;
          of_output = refl;
          idle = (refl, (refl, (refl, (refl, (refl, (refl, (refl, (refl, tt))))))));
        },
      )
