-- ===== src/PatchApply/Transaction/Atomic.antt =====
-- A transaction is atomic: it patches all of its files, or leaves every file as it was.
use mathlib.Core.Path.{subst}
use runtime_lab_core.Prelude.{
  String, ◌≡◌, refl, sym, ◌∙◌, ap, ◌⊎◌, inl, inr, Bool, true, false, Bool-cases, Option, none, some,
  Option-cases, List, contains, Result, ok, raise,
}
use runtime_lab_core.PatchApply.Models.{FilePatch}
use runtime_lab_core.PatchApply.Transaction.{
  Store, Faults, apply_parsed, restore, preimage_texts, TransactionResult, Outcome, roll_back,
  write_receipt, all_present, read_postimages, start, conclude, apply_patch_transaction,
}
use runtime_lab_core.PatchApply.Transaction.Laws.{
  paths_of, temps_of, distinct, patch_all, apply_targets_elsewhere, apply_targets-patch_all,
  preimage_texts-Remembers, restore-back,
}

ok_injective : {A : Type 0} (a b : A) → ok a ≡ ok b → a ≡ b
ok_injective a b e = cc

raise_not_ok : {A : Type 0} (error : String) (a : A) → raise error ≡ ok a → ⊥
raise_not_ok error a e = absurd cc

-- At a path, an accepted transaction has patched the file as the diff says, and any other has changed nothing.
pub IsAtomicAt :
    (p : String) (parsed : Result (List FilePatch)) (targets : List String) (before after : Store)
    (result : TransactionResult)
    → Type 0
IsAtomicAt p parsed targets before after result =
    ((result.accepted ≡ true)
      × ((patches : List FilePatch) × (parsed ≡ ok patches)
          × (after p ≡ patch_all patches targets before p)))
    ⊎ ((result.accepted ≡ false) × (after p ≡ before p))

module _ (faults : Faults) (p mark : String) (targets : List String)
    (clean : contains (temps_of mark targets) p ≡ false)
    (free : contains (temps_of "rollback" targets) p ≡ false) where
  -- The loop changes a file only if it is a target.
  apply_parsed_near :
      (parsed : Result (List FilePatch)) (before : Store)
      → (contains (paths_of targets) p ≡ true)
        ⊎ ((apply_parsed faults mark parsed targets before).files p ≡ before p)
  unfolding apply_parsed
  apply_parsed_near (raise error) before = inr refl
  apply_parsed_near (ok patches) before = elim (Bool-cases (contains (paths_of targets) p)) [
    | inl claimed ↦ inl claimed
    | inr other ↦ inr (apply_targets_elsewhere faults p mark patches targets before clean other)
  ]

  -- A rollback that returns brings the file back, and its result is the failure.
  roll_back-back :
      (preimages : List (String × String)) (files before after : Store)
      (failed result : TransactionResult)
      → preimage_texts targets before ≡ some preimages
      → (contains (paths_of targets) p ≡ true) ⊎ (files p ≡ before p)
      → roll_back faults preimages files failed ≡ (after, ok result)
      → (failed ≡ result) × (after p ≡ before p)
  unfolding roll_back
  roll_back-back preimages files before after failed result taken near e =
      let (listed, known) = preimage_texts-Remembers targets before preimages taken in
      let returned = ap (λ (o : Outcome). o.1) e in
      let left = ap (λ (o : Outcome). o.0 p) e in
      elim (Bool-cases (restore faults preimages files).1) [
        | inr broken ↦ absurd (raise_not_ok "OSError" result (rw broken at returned))
        | inl well ↦ (
          ok_injective failed result (rw well at returned),
          sym left
              ∙ restore-back faults p preimages files before known
                  (subst (λ ts. contains (temps_of "rollback" ts) p ≡ false) (sym listed) free) well
                  (subst (λ ts. (contains (paths_of ts) p ≡ true) ⊎ (files p ≡ before p))
                    (sym listed) near),
        )
      ]

  failed-IsAtomicAt :
      (parsed : Result (List FilePatch)) (before after : Store) (failed result : TransactionResult)
      → failed.accepted ≡ false
      → (failed ≡ result) × (after p ≡ before p)
      → IsAtomicAt p parsed targets before after result
  unfolding IsAtomicAt
  failed-IsAtomicAt parsed before after failed result refused (same, kept) =
      inr (sym (ap (λ (r : TransactionResult). r.accepted) same) ∙ refused, kept)

  -- A loop that went through had a parsed diff, and patched the file.
  applied-patch_all :
      (parsed : Result (List FilePatch)) (before : Store)
      → distinct (paths_of targets) ≡ true
      → (apply_parsed faults mark parsed targets before).failure ≡ none
      → (patches : List FilePatch) × (parsed ≡ ok patches)
        × ((apply_parsed faults mark parsed targets before).files p
            ≡ patch_all patches targets before p)
  unfolding apply_parsed
  applied-patch_all (raise error) before apart e = absurd cc
  applied-patch_all (ok patches) before apart e =
      (patches, refl, apply_targets-patch_all faults p mark patches targets before apart clean e)

  write_receipt-IsAtomicAt :
      (fails : Bool) (parsed : Result (List FilePatch)) (preimages : List (String × String))
      (before after : Store) (result : TransactionResult)
      → distinct (paths_of targets) ≡ true
      → preimage_texts targets before ≡ some preimages
      → (apply_parsed faults mark parsed targets before).failure ≡ none
      → write_receipt faults fails preimages (apply_parsed faults mark parsed targets before)
        ≡ (after, ok result)
      → IsAtomicAt p parsed targets before after result
  unfolding write_receipt IsAtomicAt
  write_receipt-IsAtomicAt true parsed preimages before after result apart taken through e =
      failed-IsAtomicAt parsed before after _ result refl (
        roll_back-back preimages (apply_parsed faults mark parsed targets before).files before after
          _ result taken (apply_parsed_near parsed before) e)
  write_receipt-IsAtomicAt false parsed preimages before after result apart taken through e =
      let (patches, as_parsed, patched) = applied-patch_all parsed before apart through in
      inl (
        ap (λ (r : TransactionResult). r.accepted)
            (sym (ok_injective _ result (ap (λ (o : Outcome). o.1) e))),
        (patches, as_parsed, sym (ap (λ (o : Outcome). o.0 p) e) ∙ patched),
      )

  read_postimages-IsAtomicAt :
      (parsed : Result (List FilePatch)) (preimages : List (String × String)) (before after : Store)
      (result : TransactionResult)
      → distinct (paths_of targets) ≡ true
      → preimage_texts targets before ≡ some preimages
      → (apply_parsed faults mark parsed targets before).failure ≡ none
      → read_postimages faults targets preimages (apply_parsed faults mark parsed targets before)
        ≡ (after, ok result)
      → IsAtomicAt p parsed targets before after result
  unfolding read_postimages
  read_postimages-IsAtomicAt parsed preimages before after result apart taken through e =
      let progress = apply_parsed faults mark parsed targets before in
      elim (Bool-cases (all_present targets progress.files)) [
        | inr missing ↦ absurd (
            raise_not_ok "FileNotFoundError" result
              (ap (λ (o : Outcome). o.1) (rw (missing, read_postimages) at e)))
        | inl present ↦
            write_receipt-IsAtomicAt faults.receipt_fails parsed preimages before after result apart
              taken through (rw (present, read_postimages) at e)
      ]

  conclude-IsAtomicAt :
      (parsed : Result (List FilePatch)) (preimages : List (String × String)) (before after : Store)
      (result : TransactionResult)
      → distinct (paths_of targets) ≡ true
      → preimage_texts targets before ≡ some preimages
      → conclude faults targets preimages (apply_parsed faults mark parsed targets before)
        ≡ (after, ok result)
      → IsAtomicAt p parsed targets before after result
  unfolding conclude
  conclude-IsAtomicAt parsed preimages before after result apart taken e =
      let progress = apply_parsed faults mark parsed targets before in
      elim (Option-cases progress.failure) [
        | inr (error, stopped) ↦ failed-IsAtomicAt parsed before after _ result refl (
            roll_back-back preimages progress.files before after _ result taken
              (apply_parsed_near parsed before) (rw (stopped, conclude) at e))
        | inl through ↦
            read_postimages-IsAtomicAt parsed preimages before after result apart taken through
              (rw (through, conclude) at e)
      ]

  start-IsAtomicAt :
      (fails : Bool) (parsed : Result (List FilePatch))
      (preimages : Option (List (String × String))) (before after : Store)
      (result : TransactionResult)
      → distinct (paths_of targets) ≡ true
      → preimage_texts targets before ≡ preimages
      → start faults fails mark parsed targets before preimages ≡ (after, ok result)
      → IsAtomicAt p parsed targets before after result
  unfolding start
  start-IsAtomicAt false parsed (some preimages) before after result apart taken e =
      conclude-IsAtomicAt parsed preimages before after result apart taken e
  start-IsAtomicAt _ parsed _ before after result apart taken e =
      failed-IsAtomicAt parsed before after _ result refl
        (ok_injective _ result (ap (λ (o : Outcome). o.1) e), sym (ap (λ (o : Outcome). o.0 p) e))

module _ (faults : Faults) where
  -- A transaction that returns is atomic, whichever writes fail before its rollback: at every path but those of its
  -- temporary files, an accepted one leaves what patching all targets at once gives, each from its text before, and a
  -- rejected one leaves the file as it was. The paths of the targets are different from each other.
  pub apply_patch_transaction-IsAtomicAt :
      (p transaction_id : String) (parsed : Result (List FilePatch)) (targets : List String)
      (before after : Store) (result : TransactionResult)
      → distinct (paths_of targets) ≡ true
      → contains (temps_of transaction_id targets) p ≡ false
      → contains (temps_of "rollback" targets) p ≡ false
      → apply_patch_transaction faults transaction_id parsed targets before ≡ (after, ok result)
      → IsAtomicAt p parsed targets before after result
  unfolding apply_patch_transaction
  apply_patch_transaction-IsAtomicAt p transaction_id parsed targets before after result apart clean
        free e =
      start-IsAtomicAt faults p transaction_id targets clean free faults.rollback_artifact_fails
        parsed (preimage_texts targets before) before after result apart refl e
