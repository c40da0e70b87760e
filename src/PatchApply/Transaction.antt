-- ===== src/PatchApply/Transaction.antt =====
-- runtime_lab/patch_apply/transaction.py and rollback.py: the application of an approved patch to the files of a
-- workspace, all or nothing. The validated request and the parsed diff are arguments, and so is which of the
-- writes the operating system refuses. Two paths name one file only if they are equal: links are not followed.
pub mod Laws
pub mod Atomic
pub mod Returns
use runtime_lab_core.Prelude.{
  String, Bool, true, false, ◌&&◌, not, Option, none, some, List, [], ◌∷◌, ◌++◌, map, contains,
  code, ◌=ℕ=◌, dedupe, is_empty, ◌==◌, ◌<>◌, if◌then◌else◌, Result, ok, raise, ◌>>=◌,
}
use runtime_lab_core.PosixPath
use runtime_lab_core.PatchApply.Models.{FilePatch}
use runtime_lab_core.PatchApply.Diff.{begins_with_newline, apply_file_patch_to_text}

-- The texts of the files of the workspace, by their normalised relative paths.
abbrev pub Store : Type 0
Store = String → Option String

abbrev pub put : String → Option String → Store → Store
put path content files = λ other. if other == path then content else files other

-- `root / target`, seen from the root
unfoldable pub path_of : String → String
path_of target = PosixPath.to_str (PosixPath.parse target)

-- `path.with_name(f"{path.name}.{transaction_id}.tmp")`, and the one of the rollback
unfoldable pub temp_of : String → String → String
temp_of mark target = path_of target <> "." <> mark <> ".tmp"

-- By the path of the temporary file: which writes and which replacements fail, and what a write that fails
-- leaves there.
pub record Faults : Type 0 where
  pub rollback_artifact_fails : Bool
  pub receipt_fails : Bool
  pub write_fails : String → Bool
  pub replace_fails : String → Bool
  pub left_over : String → Option String

-- The new lines of `read_text`, which turns each line end into a line feed.
unfoldable pub universal_newlines : String → String
universal_newlines String.[] = String.[]
universal_newlines (String.◌∷◌ c s) =
    let rest = universal_newlines s in
    if code c =ℕ= 13
    then (if begins_with_newline s then rest else String.◌∷◌ "\n" rest)
    else String.◌∷◌ c rest

-- `{patch.target_path: patch for patch in ...}[target]`: the last patch of a path counts.
abbrev pub patch_for : String → List FilePatch → Option FilePatch
patch_for target [] = none
patch_for target (p ∷ ps) = elim (patch_for target ps) [
  | some later ↦ some later
  | none ↦ if p.target_path == target then some p else none
]

abbrev or_missing : {A : Type 0} → Option A → Result A
or_missing none = raise "PATCH_APPLY_WRITE_FAILED"
or_missing (some a) = ok a

-- The text that a target is to get; an error other than of the policy has the code of its handler.
unfoldable pub patched_text : List FilePatch → Store → String → Result String
patched_text patches files target = do
  original ← or_missing (files (path_of target))
  file_patch ← or_missing (patch_for target patches)
  apply_file_patch_to_text (universal_newlines original) file_patch

-- Where a sequence of writes has come: the files, what was changed, and the code of what stopped it.
pub record Progress : Type 0 where
  pub files : Store
  pub changed : List String
  pub failure : Option String

abbrev pub stop : Store → String → Progress
stop files error = record { files = files; changed = []; failure = some error }

abbrev pub and_before : String → Progress → Progress
and_before target rest = record {
  files = rest.files;
  changed = target ∷ rest.changed;
  failure = rest.failure;
}

module _ (faults : Faults) where
  -- `temp_path.write_text(text)` and `temp_path.replace(path)`: the files, and whether both went well.
  unfoldable pub replace_file : String → String → String → Store → Store × Bool
  replace_file mark target text files =
      let temp = temp_of mark target in
      if faults.write_fails temp
      then (put temp (faults.left_over temp) files, false)
      else if faults.replace_fails temp
      then (put temp (some text) files, false)
      else (put (path_of target) (some text) (put temp none files), true)

  -- The loop over the target files.
  unfoldable pub apply_targets : String → List FilePatch → List String → Store → Progress
  apply_targets mark patches [] files = record { files = files; changed = []; failure = none }
  apply_targets mark patches (target ∷ targets) files = elim (patched_text patches files target) [
    | raise error ↦ stop files error
    | ok text ↦
        let (written, well) = replace_file mark target text files in
        let rest = apply_targets mark patches targets written in
        if well then and_before target rest else stop written "PATCH_APPLY_WRITE_FAILED"
  ]

  -- The body of the `try` block, of the parsed diff.
  unfoldable pub apply_parsed : String → Result (List FilePatch) → List String → Store → Progress
  apply_parsed mark (raise error) targets files = stop files error
  apply_parsed mark (ok patches) targets files = apply_targets mark patches targets files

  -- `restore_rollback_artifact`, of the texts before; a write that fails raises.
  unfoldable pub restore : List (String × String) → Store → Store × Bool
  restore [] files = (files, true)
  restore ((target, text) ∷ preimages) files =
      let (written, well) = replace_file "rollback" target text files in
      let rest = restore preimages written in if well then rest else (written, false)

-- The `preimage_texts` of `build_rollback_artifact`; a file that cannot be read raises.
unfoldable pub preimage_texts : List String → Store → Option (List (String × String))
preimage_texts [] files = some []
preimage_texts (target ∷ targets) files =
    let rest = preimage_texts targets files in
    elim (files (path_of target)) [
      | none ↦ none
      | some text ↦ elim rest [ none ↦ none | some texts ↦ some ((target, text) ∷ texts) ]
    ]

abbrev pub is_present : Option String → Bool
is_present none = false
is_present (some _) = true

-- Every target can be read.
unfoldable pub all_present : List String → Store → Bool
all_present [] files = true
all_present (target ∷ targets) files =
    is_present (files (path_of target)) && all_present targets files

-- The entries of the returned `dict` that say how the transaction went.
pub record TransactionResult : Type 0 where
  pub accepted : Bool
  pub rejection_codes : List String
  pub transaction_states : List String
  pub files_changed : List String
  pub rollback_artifact_written : Bool
  pub rollback_performed : Bool

abbrev verified_states : List String
verified_states = "PLANNED" ∷ "APPROVAL_VERIFIED" ∷ "PREIMAGE_VERIFIED" ∷ []

abbrev applied_states : List String
applied_states = verified_states ++ "ROLLBACK_PREPARED" ∷ "APPLY_STARTED" ∷ []

abbrev rollback_states : List String
rollback_states = "ROLLBACK_REQUIRED" ∷ "ROLLBACK_COMPLETED" ∷ "REJECTED_FAIL_CLOSED" ∷ []

-- `_failure`
abbrev pub failure_with : String → List String → Bool → Bool → TransactionResult
failure_with error states performed written = record {
  accepted = false;
  rejection_codes = error ∷ [];
  transaction_states = states;
  files_changed = [];
  rollback_artifact_written = written;
  rollback_performed = performed;
}

-- The files after the call, and what it returned or raised.
abbrev pub Outcome : Type 0
Outcome = Store × Result TransactionResult

module _ (faults : Faults) where
  -- A rollback, and the failure that is returned after it.
  unfoldable pub roll_back : List (String × String) → Store → TransactionResult → Outcome
  roll_back preimages files result =
      let (restored, well) = restore faults preimages files in
      (restored, if well then ok result else raise "OSError")

  -- The end of a transaction whose files were all written; `fails` says whether the receipt could not be.
  unfoldable pub write_receipt : Bool → List (String × String) → Progress → Outcome
  write_receipt true preimages progress = roll_back preimages progress.files (
      failure_with "RECEIPT_WRITE_FAILED"
        (applied_states ++ "APPLY_COMPLETED" ∷ "POSTIMAGE_VERIFIED" ∷ rollback_states) true true)
  write_receipt false preimages progress = (
    progress.files,
    ok (record {
      accepted = true;
      rejection_codes = [];
      transaction_states =
          applied_states
          ++ "APPLY_COMPLETED" ∷ "POSTIMAGE_VERIFIED" ∷ "RECEIPT_WRITTEN"
            ∷ "COMMITTED_LOCAL_TRANSACTION" ∷ [];
      files_changed = progress.changed;
      rollback_artifact_written = true;
      rollback_performed = false;
    }),
  )

  -- The targets are read again for the hashes of the receipt. A file that is missing there raises an error that
  -- nothing catches; after the receipt the same files are read once more, for their sizes.
  unfoldable pub read_postimages : List String → List (String × String) → Progress → Outcome
  read_postimages targets preimages progress =
      if all_present targets progress.files
      then write_receipt faults.receipt_fails preimages progress
      else (progress.files, raise "FileNotFoundError")

  -- What comes after the loop over the targets.
  unfoldable pub conclude : List String → List (String × String) → Progress → Outcome
  conclude targets preimages progress = elim progress.failure [
    | some error ↦ roll_back preimages progress.files (
        failure_with error (applied_states ++ rollback_states) (not (is_empty progress.changed))
          true)
    | none ↦ read_postimages targets preimages progress
  ]

  unfoldable pub start :
      Bool
      → String
      → Result (List FilePatch)
      → List String
      → Store
      → Option (List (String × String))
      → Outcome
  start false transaction_id parsed targets files (some preimages) =
      conclude targets preimages (apply_parsed faults transaction_id parsed targets files)
  start _ transaction_id parsed targets files _ = (
    files,
    ok (
        failure_with "ROLLBACK_ARTIFACT_WRITE_FAILED"
          (verified_states ++ "REJECTED_FAIL_CLOSED" ∷ []) false false),
  )

  -- `apply_patch_transaction` after its request was validated.
  unfoldable pub apply_patch_transaction :
      String → Result (List FilePatch) → List String → Store → Outcome
  apply_patch_transaction transaction_id parsed targets files =
      start faults.rollback_artifact_fails transaction_id parsed targets files
        (preimage_texts targets files)
