-- ===== src/Tests/PatchApply.antt =====
-- A patch at a concrete text.
use runtime_lab_core.Prelude.{pos, String, ◌≡◌, ◌↔◌, refl, List, [], ◌∷◌, ok, ◌==◌}
use runtime_lab_core.PatchApply.Models.{FilePatch}
use runtime_lab_core.PatchApply.Diff
use runtime_lab_core.PatchApply.Diff.{split_lines, join_lines, apply_file_patch_to_text}
use runtime_lab_core.PatchApply.Diff.Spec.{IsPatched, apply_file_patch_to_text_iff}

-- The second of three lines is replaced, below one line of context.
abbrev one_line : FilePatch
one_line = record {
  target_path = "a.txt";
  hunks =
      record {
        old_start = pos 1;
        old_count = pos 2;
        new_start = pos 1;
        new_count = pos 2;
        lines =
            record { kind = " "; text = "a" }
            ∷ record { kind = "-"; text = "b" }
            ∷ record { kind = "+"; text = "x" }
            ∷ [];
      }
      ∷ [];
}

apply-one_line : apply_file_patch_to_text "a\nb\nc\n" one_line ≡ ok "a\nx\nc\n"
unfolding apply_file_patch_to_text Diff.apply_hunks Diff.hunk_index Diff.apply_lines Diff.apply_line
    Diff.is_line_at split_lines join_lines ◌==◌
apply-one_line = refl

apply_file_patch_to_text_iff_example :
    (apply_file_patch_to_text "a\nb\nc\n" one_line ≡ ok "a\nx\nc\n") ↔ (
      (out : List String) × ("a\nx\nc\n" ≡ join_lines out)
      × IsPatched 0 (split_lines "a\nb\nc\n") one_line.hunks out)
apply_file_patch_to_text_iff_example = apply_file_patch_to_text_iff "a\nb\nc\n" one_line "a\nx\nc\n"
