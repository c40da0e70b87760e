-- ===== src/PatchApply/Diff.antt =====
-- runtime_lab/patch_apply/diff_apply.py: the application of the hunks of a file to its text.
pub mod Laws
pub mod Spec
use runtime_lab_core.Prelude.{
  ℕ, zero, suc, ◌+◌, ◌-◌, ℤ, pos, negsuc, ltb, ◌=ℕ=◌, String, Char, code, Bool, true, false, ◌&&◌,
  ◌||◌, not, Option, none, some, List, [], ◌∷◌, ◌++◌, length, take, drop, ◌==◌, ◌<>◌, if◌then◌else◌,
  Result, ok, raise, ◌>>=◌, ◌>>◌,
}
use runtime_lab_core.PosixPath.{push}
use runtime_lab_core.PatchApply.Models.{DiffLine, DiffHunk, FilePatch}

-- The characters at which `str.splitlines` ends a line.
abbrev pub is_line_end : Char → Bool
is_line_end c =
    let n = code c in
    n =ℕ= 10
    || (n =ℕ= 11
        || (n =ℕ= 12
            || (n =ℕ= 13
                || (n =ℕ= 28
                    || (n =ℕ= 29 || (n =ℕ= 30 || (n =ℕ= 133 || (n =ℕ= 8232 || n =ℕ= 8233))))))))

abbrev pub begins_with_newline : String → Bool
begins_with_newline String.[] = false
begins_with_newline (String.◌∷◌ c _) = code c =ℕ= 10

-- `text.splitlines(keepends=True)`; a carriage return with a line feed after it is one line end.
unfoldable pub split_lines : String → List String
split_lines String.[] = []
split_lines (String.◌∷◌ c s) =
    let rest = split_lines s in
    if is_line_end c && not (code c =ℕ= 13 && begins_with_newline s)
    then String.◌∷◌ c String.[] ∷ rest
    else push c rest

-- `"".join(lines)`
unfoldable pub join_lines : List String → String
join_lines [] = String.[]
join_lines (l ∷ ls) = l <> join_lines ls

-- `position < len(lines) and lines[position] == expected`
unfoldable pub is_line_at : List String → ℕ → String → Bool
is_line_at [] position expected = false
is_line_at (l ∷ ls) zero expected = l == expected
is_line_at (l ∷ ls) (suc position) expected = is_line_at ls position expected

-- One round of the inner loop: the next position, and what is added to the output.
unfoldable pub apply_line : List String → ℕ → DiffLine → Result (ℕ × List String)
apply_line lines position d =
    let expected = d.text <> "\n" in
    if d.kind == " "
    then (if is_line_at lines position expected
        then ok (suc position, expected ∷ [])
        else raise "HUNK_CONTEXT_MISMATCH")
    else if d.kind == "-"
    then (if is_line_at lines position expected
        then ok (suc position, [])
        else raise "HUNK_CONTEXT_MISMATCH")
    else if d.kind == "+"
    then ok (position, expected ∷ [])
    else ok (position, [])

-- The inner loop.
unfoldable pub apply_lines : List String → ℕ → List DiffLine → Result (ℕ × List String)
apply_lines lines position [] = ok (position, [])
apply_lines lines position (d ∷ ds) = do
  (next, out) ← apply_line lines position d
  (last, rest) ← apply_lines lines next ds
  ok (last, out ++ rest)

-- `old_start - 1`, of which a negative value is below every cursor
abbrev pub old_index : ℤ → Option ℕ
old_index (pos (suc n)) = some n
old_index _ = none

-- The place of a hunk: not before the cursor, and not after the last line.
unfoldable pub hunk_index : List String → ℕ → DiffHunk → Result ℕ
hunk_index lines cursor hunk = elim (old_index hunk.old_start) [
  | none ↦ raise "HUNK_CONTEXT_MISMATCH"
  | some i ↦ if ltb i cursor || ltb (length lines) i then raise "HUNK_CONTEXT_MISMATCH" else ok i
]

-- The loop over the hunks, and the lines after the last of them.
unfoldable pub apply_hunks : List String → ℕ → List DiffHunk → Result (List String)
apply_hunks lines cursor [] = ok (drop cursor lines)
apply_hunks lines cursor (hunk ∷ hunks) = do
  i ← hunk_index lines cursor hunk
  (position, out) ← apply_lines lines i hunk.lines
  rest ← apply_hunks lines position hunks
  ok (take (i - cursor) (drop cursor lines) ++ (out ++ rest))

unfoldable pub apply_file_patch_to_text : String → FilePatch → Result String
apply_file_patch_to_text original_text file_patch = do
  out ← apply_hunks (split_lines original_text) 0 file_patch.hunks
  ok (join_lines out)
