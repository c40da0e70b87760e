-- ===== src/PatchApply/Diff/Spec.antt =====
-- What the application of the hunks is to do, and that it does it.
use mathlib.Core.Path.{subst}
use runtime_lab_core.Prelude.{
  ℕ, zero, suc, ◌+◌, ◌-◌, ◌≤◌, pos, String, ◌≡◌, refl, sym, ◌∙◌, ap, ◌↔◌, List, [], ◌∷◌, ◌++◌,
  length, length-append, take, drop, ok, >>=-eq-ok, arith,
}
use runtime_lab_core.PatchApply.Models.{DiffHunk, FilePatch}
use runtime_lab_core.PatchApply.Diff.{
  split_lines, join_lines, apply_lines, hunk_index, apply_hunks, apply_file_patch_to_text,
}
use runtime_lab_core.PatchApply.Diff.Laws.{old_lines, new_lines, apply_lines-drop, drop-apply_lines}

-- The lines from the cursor on are kept lines, the old lines of the hunk at its place, and what the other hunks
-- patch; in the output its new lines stand in the place of the old ones.
abbrev pub IsPatched : ℕ → List String → List DiffHunk → List String → Type 0
IsPatched cursor rest [] out = out ≡ rest
IsPatched cursor rest (hunk ∷ hunks) out =
    (kept tail patched : List String) × (hunk.old_start ≡ pos (suc (cursor + length kept)))
    × (rest ≡ kept ++ (old_lines hunk.lines ++ tail))
    × (out ≡ kept ++ (new_lines hunk.lines ++ patched))
    × IsPatched ((cursor + length kept) + length (old_lines hunk.lines)) tail hunks patched

take-drop :
    (i : ℕ) (lines : List String)
    → i ≤ length lines
    → (lines ≡ take i lines ++ drop i lines) × (length (take i lines) ≡ i)
take-drop zero lines h = (refl, refl)
take-drop (suc i) [] h = absurd (omega arith)
take-drop (suc i) (x ∷ xs) h =
    let (same, long) = take-drop i xs (omega arith) in (ap (λ r. x ∷ r) same, omega (arith, long))

-- The lines between the cursor and a place behind it.
drop-take :
    (lines : List String) (c i : ℕ)
    → c ≤ i
    → i ≤ length lines
    → (drop c lines ≡ take (i - c) (drop c lines) ++ drop i lines)
      × (c + length (take (i - c) (drop c lines)) ≡ i)
drop-take lines zero i c≤i fits =
    let whole : i - 0 ≡ i = omega arith in
    let (same, long) = take-drop i lines fits in (rw whole same, rw whole (omega (arith, long)))
drop-take lines (suc c) zero c≤i fits = absurd (omega arith)
drop-take [] (suc c) (suc i) c≤i fits = absurd (omega arith)
drop-take (x ∷ xs) (suc c) (suc i) c≤i fits =
    let less : suc i - suc c ≡ i - c = omega arith in
    let (same, long) = drop-take xs c i (omega arith) (omega arith) in
    (rw less same, rw less (omega (arith, long)))

take-append : (xs ys : List String) → take (length xs) (xs ++ ys) ≡ xs
take-append [] ys = refl
take-append (x ∷ xs) ys = ap (λ r. x ∷ r) (take-append xs ys)

drop-append : (xs ys : List String) → drop (length xs) (xs ++ ys) ≡ ys
drop-append [] ys = refl
drop-append (x ∷ xs) ys = drop-append xs ys

drop-nil : (n : ℕ) → drop {A = String} n [] ≡ []
drop-nil zero = refl
drop-nil (suc n) = refl

drop-drop : (lines : List String) (c n : ℕ) → drop (c + n) lines ≡ drop n (drop c lines)
drop-drop lines zero n = let same : 0 + n ≡ n = omega arith in rw same refl
drop-drop [] (suc c) n = drop-nil (suc c + n) ∙ sym (drop-nil n)
drop-drop (x ∷ xs) (suc c) n =
    let same : suc c + n ≡ suc (c + n) = omega arith in rw same (drop-drop xs c n)

length-drop :
    (lines : List String) (c : ℕ) → c ≤ length lines → length (drop c lines) + c ≡ length lines
length-drop lines zero h = omega arith
length-drop [] (suc c) h = absurd (omega arith)
length-drop (x ∷ xs) (suc c) h = omega (arith, length-drop xs c (omega arith))

hunk_index-inv :
    (lines : List String) (c : ℕ) (hunk : DiffHunk) (i : ℕ)
    → hunk_index lines c hunk ≡ ok i
    → (hunk.old_start ≡ pos (suc i)) × (c ≤ i) × (i ≤ length lines)
unfolding hunk_index
hunk_index-inv lines c hunk i h = ground (arith, h)

hunk_index-at :
    (lines : List String) (c : ℕ) (hunk : DiffHunk) (i : ℕ)
    → hunk.old_start ≡ pos (suc i)
    → c ≤ i
    → i ≤ length lines
    → hunk_index lines c hunk ≡ ok i
unfolding hunk_index
hunk_index-at lines c hunk i start c≤i fits = rw start (ground arith)

apply_hunks-IsPatched :
    (lines : List String) (c : ℕ) (hunks : List DiffHunk) (out : List String)
    → apply_hunks lines c hunks ≡ ok out
    → IsPatched c (drop c lines) hunks out
unfolding apply_hunks
apply_hunks-IsPatched lines c [] out h = cc
apply_hunks-IsPatched lines c (hunk ∷ hunks) out h =
    let (i, found, h') = >>=-eq-ok (hunk_index lines c hunk) _ h in
    let ((q, new), applied, h'') = >>=-eq-ok (apply_lines lines i hunk.lines) _ h' in
    let (rest, more, h3) = >>=-eq-ok (apply_hunks lines q hunks) _ h'' in
    let (start, c≤i, fits) = hunk_index-inv lines c hunk i found in
    let (cut, moved, made) = apply_lines-drop lines i hunk.lines q new applied in
    let (kept, long) = drop-take lines c i c≤i fits in
    let place : (c + length (take (i - c) (drop c lines))) + length (old_lines hunk.lines) ≡ q =
      omega (arith, long, moved) in
    let joined : take (i - c) (drop c lines) ++ (new ++ rest) ≡ out = cc in
    (
      take (i - c) (drop c lines),
      drop q lines,
      rest,
      start ∙ ap (λ n. pos (suc n)) (sym long),
      kept ∙ ap (λ xs. take (i - c) (drop c lines) ++ xs) cut,
      sym joined ∙ ap (λ xs. take (i - c) (drop c lines) ++ (xs ++ rest)) made,
      subst (λ n. IsPatched n (drop q lines) hunks rest) (sym place)
          (apply_hunks-IsPatched lines q hunks rest more),
    )

IsPatched-apply_hunks :
    (lines : List String) (c : ℕ) (hunks : List DiffHunk) (out : List String)
    → c ≤ length lines
    → IsPatched c (drop c lines) hunks out
    → apply_hunks lines c hunks ≡ ok out
unfolding apply_hunks
IsPatched-apply_hunks lines c [] out fits same = ap ok (sym same)
IsPatched-apply_hunks lines c (hunk ∷ hunks) out fits
      (kept, tail, patched, start, cut, made, rest) =
    let i = c + length kept in
    let old = old_lines hunk.lines in
    let fits_i : i ≤ length lines =
      omega (arith, length-drop lines c fits, ap length cut, length-append kept (old ++ tail)) in
    let at_i : drop i lines ≡ old ++ tail =
      drop-drop lines c (length kept)
      ∙ ap (λ xs. drop (length kept) xs) cut
      ∙ drop-append kept (old ++ tail) in
    let (applied, after) = drop-apply_lines lines i hunk.lines tail at_i in
    let fits_q : i + length old ≤ length lines =
      omega (arith, length-drop lines i fits_i, ap length at_i, length-append old tail) in
    let more =
      IsPatched-apply_hunks lines (i + length old) hunks patched fits_q
        (subst (λ xs. IsPatched (i + length old) xs hunks patched) (sym after) rest) in
    let width : i - c ≡ length kept = omega arith in
    let gap : take (i - c) (drop c lines) ≡ kept =
      rw (width, cut) (take-append kept (old ++ tail)) in
    rw (hunk_index-at lines c hunk i start (omega arith) fits_i, applied, more, gap)
      (ap ok (sym made))

-- A patch applies exactly when its hunks stand in order at their places in the lines of the text, with their old
-- lines there, and the result is the text with the new lines in place of the old ones.
pub apply_file_patch_to_text_iff :
    (text : String) (patch : FilePatch) (result : String)
    → (apply_file_patch_to_text text patch ≡ ok result) ↔ (
        (out : List String) × (result ≡ join_lines out)
        × IsPatched 0 (split_lines text) patch.hunks out)
unfolding apply_file_patch_to_text
apply_file_patch_to_text_iff text patch result = (
  λ h.
      let (out, applied, made) = >>=-eq-ok (apply_hunks (split_lines text) 0 patch.hunks) _ h in
      (out, sym (cc), apply_hunks-IsPatched (split_lines text) 0 patch.hunks out applied),
  λ (out, made, patched).
      rw (IsPatched-apply_hunks (split_lines text) 0 patch.hunks out (omega arith) patched)
        (ap ok (sym made)),
)
