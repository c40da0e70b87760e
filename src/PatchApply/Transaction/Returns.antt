-- ===== src/PatchApply/Transaction/Returns.antt =====
-- When a transaction returns: its own writes may fail, those of its rollback may not.
use mathlib.Core.Path.{subst}
use runtime_lab_core.Prelude.{
  String, ◌==◌, contains, arith, raise, Result-cases, ◌≡◌, refl, sym, inl, inr, Bool, true, false,
  Option, some, Option-cases, List, [], ◌∷◌, Result, ok, All,
}
use runtime_lab_core.PatchApply.Models.{FilePatch}
use runtime_lab_core.PatchApply.Transaction.{
  Store, Faults, path_of, temp_of, patched_text, replace_file, Progress, apply_targets,
  apply_parsed, is_present, all_present, read_postimages, restore, preimage_texts,
  TransactionResult, Outcome, roll_back, write_receipt, start, conclude, apply_patch_transaction,
}
use runtime_lab_core.PatchApply.Transaction.Laws.{
  temps_of, some_not_none, entry_targets, preimage_texts-Remembers,
}

-- No target is the temporary file of a target.
abbrev pub IsClear : String → List String → Type 0
IsClear mark targets =
    All (λ target. contains (temps_of mark targets) (path_of target) ≡ false) targets

-- A target whose text was taken was there, and so were the others.
preimage_texts-cons :
    (target : String) (targets : List String) (files : Store) (preimages : List (String × String))
    → preimage_texts (target ∷ targets) files ≡ some preimages
    → (texts : List (String × String)) × (preimage_texts targets files ≡ some texts)
      × (is_present (files (path_of target)) ≡ true)
unfolding preimage_texts
preimage_texts-cons target targets files preimages e =
    elim (Option-cases (files (path_of target))) [
      | inl missing ↦ absurd (some_not_none preimages (rw (missing, preimage_texts) at e))
      | inr (text, known) ↦ elim (Option-cases (preimage_texts targets files)) [
        | inl broken ↦ absurd (some_not_none preimages (rw (known, broken, preimage_texts) at e))
        | inr (texts, rest) ↦ (texts, rest, rw known refl)
      ]
    ]

module _ (faults : Faults) where
  -- The writes and the replacements of a rollback go well.
  unfoldable pub RollsBack : List String → Type 0
  RollsBack targets =
      All
        (λ target.
          (faults.write_fails (temp_of "rollback" target) ≡ false)
          × (faults.replace_fails (temp_of "rollback" target) ≡ false))
        targets

  restore-well :
      (preimages : List (String × String)) (files : Store)
      → RollsBack (entry_targets preimages)
      → (restore faults preimages files).1 ≡ true
  unfolding restore replace_file RollsBack
  restore-well [] files _ = refl
  restore-well ((target, text) ∷ preimages) files ((writes, replaces), others) =
      rw (writes, replaces) (restore-well preimages _ others)

  roll_back-returns :
      (preimages : List (String × String)) (files : Store) (failed : TransactionResult)
      → RollsBack (entry_targets preimages)
      → (roll_back faults preimages files failed).1 ≡ ok failed
  unfolding roll_back
  roll_back-returns preimages files failed good = rw (restore-well preimages files good) refl

  -- What `apply_patch_transaction` returns.
  abbrev pub Returns : Outcome → Type 0
  Returns outcome = (result : TransactionResult) × (outcome.1 ≡ ok result)

  write_receipt-Returns :
      (fails : Bool) (preimages : List (String × String)) (progress : Progress)
      → RollsBack (entry_targets preimages)
      → Returns (write_receipt faults fails preimages progress)
  unfolding write_receipt
  write_receipt-Returns true preimages progress good =
      (_, roll_back-returns preimages progress.files _ good)
  write_receipt-Returns false preimages progress good = (_, refl)

  -- A write leaves a file that is there in its place, unless it is that of the temporary one.
  replace_file-present :
      (mark target text p : String) (files : Store)
      → (p == temp_of mark target) ≡ false
      → is_present (files p) ≡ true
      → is_present ((replace_file faults mark target text files).0 p) ≡ true
  unfolding replace_file
  replace_file-present mark target text p files clean present = ground (arith, clean, present)

  apply_targets-present :
      (mark p : String) (patches : List FilePatch) (targets : List String) (files : Store)
      → contains (temps_of mark targets) p ≡ false
      → is_present (files p) ≡ true
      → is_present ((apply_targets faults mark patches targets files).files p) ≡ true
  unfolding apply_targets
  apply_targets-present mark p patches [] files clean present = present
  apply_targets-present mark p patches (target ∷ targets) files clean present =
      elim (Result-cases (patched_text patches files target)) [
        | inl (error, failed) ↦ rw (failed, apply_targets) present
        | inr (text, made) ↦
            let here =
              replace_file-present mark target text p files (ground (arith, clean)) present in
            let rest =
              apply_targets-present mark p patches targets
                (replace_file faults mark target text files).0 (ground (arith, clean)) here in
            rw (made, apply_targets) (ground (arith, here, rest))
      ]

  apply_parsed-present :
      (mark p : String) (parsed : Result (List FilePatch)) (targets : List String) (files : Store)
      → contains (temps_of mark targets) p ≡ false
      → is_present (files p) ≡ true
      → is_present ((apply_parsed faults mark parsed targets files).files p) ≡ true
  unfolding apply_parsed
  apply_parsed-present mark p (raise error) targets files clean present = present
  apply_parsed-present mark p (ok patches) targets files clean present =
      apply_targets-present mark p patches targets files clean present

  -- The targets that are read again are there, as they were before.
  applied-present :
      (mark : String) (parsed : Result (List FilePatch)) (all targets : List String) (files : Store)
      (preimages : List (String × String))
      → All (λ target. contains (temps_of mark all) (path_of target) ≡ false) targets
      → preimage_texts targets files ≡ some preimages
      → all_present targets (apply_parsed faults mark parsed all files).files ≡ true
  unfolding all_present preimage_texts
  applied-present mark parsed all [] files preimages _ taken = refl
  applied-present mark parsed all (target ∷ targets) files preimages (clean, others) taken =
      let (texts, rest, here) = preimage_texts-cons target targets files preimages taken in
      rw
        (
          apply_parsed-present mark (path_of target) parsed all files clean here,
          applied-present mark parsed all targets files texts others rest,
        )
        refl

  read_postimages-Returns :
      (targets : List String) (preimages : List (String × String)) (progress : Progress)
      → all_present targets progress.files ≡ true
      → RollsBack (entry_targets preimages)
      → Returns (read_postimages faults targets preimages progress)
  unfolding read_postimages
  read_postimages-Returns targets preimages progress present good =
      rw present (write_receipt-Returns faults.receipt_fails preimages progress good)

  conclude-Returns :
      (targets : List String) (preimages : List (String × String)) (progress : Progress)
      → all_present targets progress.files ≡ true
      → RollsBack (entry_targets preimages)
      → Returns (conclude faults targets preimages progress)
  unfolding conclude
  conclude-Returns targets preimages progress present good = elim (Option-cases progress.failure) [
    | inr (error, stopped) ↦
        rw (stopped, conclude) (_, roll_back-returns preimages progress.files _ good)
    | inl through ↦
        rw (through, conclude) (read_postimages-Returns targets preimages progress present good)
  ]

  start-Returns :
      (fails : Bool) (transaction_id : String) (parsed : Result (List FilePatch))
      (targets : List String) (files : Store) (preimages : Option (List (String × String)))
      → preimage_texts targets files ≡ preimages
      → IsClear transaction_id targets
      → RollsBack targets
      → Returns (start faults fails transaction_id parsed targets files preimages)
  unfolding start
  start-Returns false transaction_id parsed targets files (some preimages) taken clear good =
      conclude-Returns targets preimages (apply_parsed faults transaction_id parsed targets files)
        (applied-present transaction_id parsed targets targets files preimages clear taken)
        (subst RollsBack (sym (preimage_texts-Remembers targets files preimages taken).0) good)
  start-Returns _ transaction_id parsed targets files _ taken clear good = (_, refl)

  -- Whichever writes fail, the transaction returns a result, as long as the writes of its rollback go well and no
  -- target is the temporary file of a target.
  pub apply_patch_transaction-Returns :
      (transaction_id : String) (parsed : Result (List FilePatch)) (targets : List String)
      (files : Store)
      → IsClear transaction_id targets
      → RollsBack targets
      → Returns (apply_patch_transaction faults transaction_id parsed targets files)
  unfolding apply_patch_transaction
  apply_patch_transaction-Returns transaction_id parsed targets files clear good =
      start-Returns faults.rollback_artifact_fails transaction_id parsed targets files
        (preimage_texts targets files) refl clear good
