-- ===== src/Tests/Transaction.antt =====
-- A transaction on two files, and one whose second write fails.
use runtime_lab_core.Prelude.{
  String, ◌≡◌, refl, true, false, none, some, List, [], ◌∷◌, Result, ok, raise, pos, if◌then◌else◌,
  ◌==◌, if◌then◌else◌,
}
use runtime_lab_core.PosixPath
use runtime_lab_core.PatchApply.Models.{FilePatch}
use runtime_lab_core.PatchApply.Diff
use runtime_lab_core.PatchApply.Transaction
use runtime_lab_core.PatchApply.Transaction.{
  Store, Faults, TransactionResult, Outcome, path_of, temp_of, apply_patch_transaction,
}
use runtime_lab_core.PatchApply.Transaction.Laws.{distinct, paths_of}
use runtime_lab_core.PatchApply.Transaction.Atomic.{IsAtomicAt, apply_patch_transaction-IsAtomicAt}
use runtime_lab_core.PatchApply.Transaction.Returns.{
  IsClear, RollsBack, Returns, apply_patch_transaction-Returns,
}

abbrev files : Store
files =
    λ path. if path == "a.txt" then some "one\n" else if path == "b.txt" then some "two\n" else none

abbrev patch : String → String → String → FilePatch
patch target old new = record {
  target_path = target;
  hunks =
      record {
        old_start = pos 1;
        old_count = pos 1;
        new_start = pos 1;
        new_count = pos 1;
        lines = record { kind = "-"; text = old } ∷ record { kind = "+"; text = new } ∷ [];
      }
      ∷ [];
}

abbrev patches : Result (List FilePatch)
patches = ok (patch "a.txt" "one" "ONE" ∷ patch "b.txt" "two" "TWO" ∷ [])

abbrev targets : List String
targets = "a.txt" ∷ "b.txt" ∷ []

-- The second file cannot be written.
abbrev second_fails : Faults
second_fails = record {
  rollback_artifact_fails = false;
  receipt_fails = false;
  write_fails = λ temp. temp == "b.txt.T.tmp";
  replace_fails = λ temp. false;
  left_over = λ temp. none;
}

abbrev outcome : Outcome
outcome = apply_patch_transaction second_fails "T" patches targets files

abbrev result_of : Result TransactionResult → TransactionResult
result_of (ok result) = result
result_of (raise error) = Transaction.failure_with error [] false false

abbrev result : TransactionResult
result = result_of outcome.1

returned : outcome ≡ (outcome.0, ok result)
unfolding apply_patch_transaction Transaction.start Transaction.conclude Transaction.read_postimages
    Transaction.all_present Transaction.write_receipt Transaction.roll_back Transaction.restore
    Transaction.preimage_texts Transaction.apply_parsed Transaction.apply_targets
    Transaction.replace_file Transaction.patched_text Transaction.universal_newlines path_of temp_of
    Diff.apply_file_patch_to_text Diff.apply_hunks Diff.hunk_index Diff.apply_lines Diff.apply_line
    Diff.is_line_at Diff.split_lines Diff.join_lines PosixPath.parse PosixPath.to_str ◌==◌
returned = refl

apart : distinct (paths_of targets) ≡ true
unfolding path_of PosixPath.parse PosixPath.to_str ◌==◌
apart = refl

apply_patch_transaction-IsAtomicAt_example :
    IsAtomicAt "a.txt" patches targets files outcome.0 result
unfolding temp_of path_of PosixPath.parse PosixPath.to_str ◌==◌
apply_patch_transaction-IsAtomicAt_example =
    apply_patch_transaction-IsAtomicAt second_fails "a.txt" "T" patches targets files outcome.0
      result apart refl refl returned

good : RollsBack second_fails targets
unfolding RollsBack temp_of path_of PosixPath.parse PosixPath.to_str ◌==◌
good = ((refl, refl), ((refl, refl), tt))

clear : IsClear "T" targets
unfolding temp_of path_of PosixPath.parse PosixPath.to_str ◌==◌
clear = (refl, (refl, tt))

-- A target that is the temporary file of a later one is gone when the targets are read again.
abbrev entangled : List String
entangled = "a.txt.T.tmp" ∷ "a.txt" ∷ []

abbrev entangled_files : Store
entangled_files = λ path. if path == "a.txt.T.tmp" then some "one\n" else files path

abbrev no_faults : Faults
no_faults = record second_fails { write_fails = λ temp. false }

entangled-raises :
    (apply_patch_transaction no_faults "T"
      (ok (patch "a.txt.T.tmp" "one" "ONE" ∷ patch "a.txt" "one" "TWO" ∷ []))
      entangled
      entangled_files).1
    ≡ raise "FileNotFoundError"
unfolding apply_patch_transaction Transaction.start Transaction.conclude Transaction.read_postimages
    Transaction.all_present Transaction.write_receipt Transaction.roll_back Transaction.restore
    Transaction.preimage_texts Transaction.apply_parsed Transaction.apply_targets
    Transaction.replace_file Transaction.patched_text Transaction.universal_newlines path_of temp_of
    Diff.apply_file_patch_to_text Diff.apply_hunks Diff.hunk_index Diff.apply_lines Diff.apply_line
    Diff.is_line_at Diff.split_lines Diff.join_lines PosixPath.parse PosixPath.to_str ◌==◌
entangled-raises = refl

apply_patch_transaction-Returns_example : Returns second_fails outcome
apply_patch_transaction-Returns_example =
    apply_patch_transaction-Returns second_fails "T" patches targets files clear good
