-- ===== src/PatchApply/Transaction/Laws.antt =====
-- What the writes of a transaction and of its rollback do to one file, whose path is no temporary one.
use mathlib.Core.Path.{subst}
use runtime_lab_core.Prelude.{
  Bool-cases, ◌≢◌, not, ◌&&◌, String, ◌≡◌, refl, sym, ◌∙◌, ap, ◌⊎◌, inl, inr, Bool, true, false,
  Option, none, some, Option-cases, List, [], ◌∷◌, map, contains, Result, ok, raise, Result-cases,
  ◌==◌, ==_iff, arith, if◌then◌else◌, All,
}
use runtime_lab_core.PatchApply.Models.{FilePatch}
use runtime_lab_core.PatchApply.Transaction.{
  Store, path_of, temp_of, Faults, patched_text, replace_file, apply_targets, restore,
  preimage_texts,
}

abbrev pub paths_of : List String → List String
paths_of = map path_of

abbrev pub temps_of : String → List String → List String
temps_of mark = map (temp_of mark)

abbrev pub entry_targets : List (String × String) → List String
entry_targets [] = []
entry_targets ((target, _) ∷ rest) = target ∷ entry_targets rest

module _ (faults : Faults) (p : String) where
  -- One file is replaced: another path is left as it was.
  pub replace_file_elsewhere :
      (mark target text : String) (files : Store)
      → (p == temp_of mark target) ≡ false
      → (p == path_of target) ≡ false
      → (replace_file faults mark target text files).0 p ≡ files p
  unfolding replace_file
  replace_file_elsewhere mark target text files clean other = ground (arith, clean, other)

  -- If it goes well, the path itself has the text.
  pub replace_file_well :
      (mark target text : String) (files : Store)
      → (p == temp_of mark target) ≡ false
      → (replace_file faults mark target text files).1 ≡ true
      → (replace_file faults mark target text files).0 p
        ≡ (if p == path_of target then some text else files p)
  unfolding replace_file
  replace_file_well mark target text files clean well = ground (arith, clean, well)

  pub apply_targets_elsewhere :
      (mark : String) (patches : List FilePatch) (targets : List String) (files : Store)
      → contains (temps_of mark targets) p ≡ false
      → contains (paths_of targets) p ≡ false
      → (apply_targets faults mark patches targets files).files p ≡ files p
  unfolding apply_targets
  apply_targets_elsewhere mark patches [] files clean other = refl
  apply_targets_elsewhere mark patches (target ∷ targets) files clean other =
      elim (Result-cases (patched_text patches files target)) [
        | inl (error, failed) ↦ rw (failed, apply_targets) refl
        | inr (text, made) ↦
            let here =
              replace_file_elsewhere mark target text files (ground (arith, clean))
                (ground (arith, other)) in
            let rest =
              apply_targets_elsewhere mark patches targets
                (replace_file faults mark target text files).0 (ground (arith, clean))
                (ground (arith, other)) in
            rw (made, apply_targets) (ground (arith, here, rest))
      ]

-- The paths are different from each other.
abbrev pub distinct : List String → Bool
distinct [] = true
distinct (x ∷ xs) = not (contains xs x) && distinct xs

-- What a target is to contain: the patched text of the files before.
abbrev pub patched_or_none : Result String → Option String
patched_or_none (ok text) = some text
patched_or_none (raise _) = none

-- All targets patched at once, each from the files before.
unfoldable pub patch_all : List FilePatch → List String → Store → Store
patch_all patches [] files = files
patch_all patches (target ∷ targets) files = λ p.
    if p == path_of target
    then patched_or_none (patched_text patches files target)
    else patch_all patches targets files p

patched_text_same :
    (patches : List FilePatch) (target : String) (files others : Store)
    → files (path_of target) ≡ others (path_of target)
    → patched_text patches files target ≡ patched_text patches others target
unfolding patched_text
patched_text_same patches target files others same = rw same refl

module _ (faults : Faults) (p : String) where
  patch_all_same :
      (patches : List FilePatch) (targets : List String) (files others : Store)
      → files p ≡ others p
      → patch_all patches targets files p ≡ patch_all patches targets others p
  unfolding patch_all
  patch_all_same patches [] files others same = same
  patch_all_same patches (target ∷ targets) files others same =
      elim (Bool-cases (p == path_of target)) [
        | inl here ↦
            let at = (==_iff p (path_of target)).0 here in
            let step =
              patched_text_same patches target files others
                (subst (λ q. files q ≡ others q) at same) in
            rw (here, step) refl
        | inr there ↦ rw there (patch_all_same patches targets files others same)
      ]

  -- A loop that goes through leaves what patching all targets at once gives.
  pub apply_targets-patch_all :
      (mark : String) (patches : List FilePatch) (targets : List String) (files : Store)
      → distinct (paths_of targets) ≡ true
      → contains (temps_of mark targets) p ≡ false
      → (apply_targets faults mark patches targets files).failure ≡ none
      → (apply_targets faults mark patches targets files).files p
        ≡ patch_all patches targets files p
  unfolding apply_targets patch_all
  apply_targets-patch_all mark patches [] files apart clean well = refl
  apply_targets-patch_all mark patches (target ∷ targets) files apart clean well =
      elim (Result-cases (patched_text patches files target)) [
        | inl (error, failed) ↦ absurd (ground (arith, rw (failed, apply_targets) at well))
        | inr (text, made) ↦
            let written = (replace_file faults mark target text files).0 in
            elim (Bool-cases (replace_file faults mark target text files).1) [
              | inr broken ↦ absurd (ground (arith, rw (made, broken, apply_targets) at well))
              | inl fine ↦
                  let at_p =
                    replace_file_well faults p mark target text files (ground (arith, clean))
                      fine in
                  elim (Bool-cases (p == path_of target)) [
                    | inl here ↦
                        let untouched =
                          apply_targets_elsewhere faults p mark patches targets written
                            (ground (arith, clean))
                            (subst (λ q. contains (paths_of targets) q ≡ false)
                              (sym ((==_iff p (path_of target)).0 here)) (ground (arith, apart))) in
                        rw (made, fine, here, apply_targets) (untouched ∙ rw here at at_p)
                    | inr there ↦
                        let rest =
                          apply_targets-patch_all mark patches targets written
                            (ground (arith, apart)) (ground (arith, clean))
                            (rw (made, fine, apply_targets) at well) in
                        rw (made, fine, there, apply_targets)
                          (rest ∙ patch_all_same patches targets written files (rw there at at_p))
                  ]
            ]
      ]

-- Each text of the rollback artifact is that of its file.
abbrev pub Remembers : Store → List (String × String) → Type 0
Remembers files preimages = All (λ entry. files (path_of entry.0) ≡ some entry.1) preimages

some_injective : {A : Type 0} (a b : A) → some a ≡ some b → a ≡ b
some_injective a b e = cc

pub some_not_none : {A : Type 0} (a : A) → none ≢ some a
some_not_none a e = absurd cc

pub preimage_texts-Remembers :
    (targets : List String) (files : Store) (preimages : List (String × String))
    → preimage_texts targets files ≡ some preimages
    → (entry_targets preimages ≡ targets) × Remembers files preimages
unfolding preimage_texts
preimage_texts-Remembers [] files preimages e =
    subst (λ list. (entry_targets list ≡ []) × Remembers files list) (some_injective [] preimages e)
      (refl, tt)
preimage_texts-Remembers (target ∷ targets) files preimages e =
    elim (Option-cases (files (path_of target))) [
      | inl missing ↦ absurd (some_not_none preimages (rw (missing, preimage_texts) at e))
      | inr (text, known) ↦ elim (Option-cases (preimage_texts targets files)) [
        | inl broken ↦ absurd (some_not_none preimages (rw (known, broken, preimage_texts) at e))
        | inr (texts, rest) ↦
            let (listed, others) = preimage_texts-Remembers targets files texts rest in
            subst (λ list. (entry_targets list ≡ target ∷ targets) × Remembers files list)
              (some_injective ((target, text) ∷ texts) preimages
                (rw (known, rest, preimage_texts) at e))
              (ap (◌∷◌ target) listed, (known, others))
      ]
    ]

module _ (faults : Faults) (p : String) where
  -- After its own file was written back, a path is as before, or it is still to be written back.
  written_near :
      (target text : String) (preimages : List (String × String)) (files written before : Store)
      → before (path_of target) ≡ some text
      → written p ≡ (if p == path_of target then some text else files p)
      → (contains (paths_of (entry_targets ((target, text) ∷ preimages))) p ≡ true)
        ⊎ (files p ≡ before p)
      → (contains (paths_of (entry_targets preimages)) p ≡ true) ⊎ (written p ≡ before p)
  written_near target text preimages files written before known at_p near =
      elim (Bool-cases (p == path_of target)) [
        | inl here ↦
            inr (rw here at at_p ∙ sym known ∙ ap before (sym ((==_iff p (path_of target)).0 here)))
        | inr there ↦ elim near [
          | inl claimed ↦ inl (ground (arith, claimed, there))
          | inr same ↦ inr (rw there at at_p ∙ same)
        ]
      ]

  -- A rollback that goes through brings back a file that differs from its text before only if it is a target.
  pub restore-back :
      (preimages : List (String × String)) (files before : Store)
      → Remembers before preimages
      → contains (temps_of "rollback" (entry_targets preimages)) p ≡ false
      → (restore faults preimages files).1 ≡ true
      → (contains (paths_of (entry_targets preimages)) p ≡ true) ⊎ (files p ≡ before p)
      → (restore faults preimages files).0 p ≡ before p
  unfolding restore
  restore-back [] files before _ clean well (inl claimed) = absurd cc
  restore-back [] files before _ clean well (inr same) = same
  restore-back ((target, text) ∷ preimages) files before (known, others) clean well near =
      let written = (replace_file faults "rollback" target text files).0 in
      elim (Bool-cases (replace_file faults "rollback" target text files).1) [
        | inr broken ↦ absurd (ground (arith, rw (broken, restore) at well))
        | inl fine ↦
            let at_p =
              replace_file_well faults p "rollback" target text files (ground (arith, clean))
                fine in
            let rest : (contains (paths_of (entry_targets preimages)) p ≡ true)
                ⊎ (written p ≡ before p) =
              written_near target text preimages files written before known at_p near in
            rw (fine, restore)
              (restore-back preimages written before others (ground (arith, clean))
                (rw (fine, restore) at well) rest)
      ]
