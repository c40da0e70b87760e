-- ===== src/PatchApply/Diff/Laws.antt =====
-- When a patch applies, and what it leaves.
use runtime_lab_core.Prelude.{
  ℕ, zero, suc, ◌+◌, String, ◌≡◌, refl, sym, ◌∙◌, ap, true, Bool-cases, inl, inr, List, [], ◌∷◌,
  ◌++◌, length, length-append, drop, ◌==◌, ==_iff, ◌<>◌, if◌then◌else◌, ok, >>=-eq-ok, arith,
}
use runtime_lab_core.PatchApply.Models.{DiffLine}
use runtime_lab_core.PatchApply.Diff.{is_line_at, apply_line, apply_lines}

-- What a line of a diff stands for in the old text, and in the new one.
abbrev pub old_line : DiffLine → List String
old_line d =
    if d.kind == " "
    then (d.text <> "\n") ∷ []
    else if d.kind == "-"
    then (d.text <> "\n") ∷ []
    else []

abbrev pub new_line : DiffLine → List String
new_line d =
    if d.kind == " "
    then (d.text <> "\n") ∷ []
    else if d.kind == "-"
    then []
    else if d.kind == "+"
    then (d.text <> "\n") ∷ []
    else []

unfoldable pub old_lines : List DiffLine → List String
old_lines [] = []
old_lines (d ∷ ds) = old_line d ++ old_lines ds

unfoldable pub new_lines : List DiffLine → List String
new_lines [] = []
new_lines (d ∷ ds) = new_line d ++ new_lines ds

pub append_assoc : {A : Type 0} (xs ys zs : List A) → (xs ++ ys) ++ zs ≡ xs ++ (ys ++ zs)
append_assoc [] ys zs = refl
append_assoc (x ∷ xs) ys zs = ap (λ r. x ∷ r) (append_assoc xs ys zs)

is_line_at-drop :
    (lines : List String) (p : ℕ) (l : String)
    → is_line_at lines p l ≡ true
    → drop p lines ≡ l ∷ drop (suc p) lines
unfolding is_line_at
is_line_at-drop [] p l h = absurd (ground (arith, h))
is_line_at-drop (x ∷ xs) zero l h = ground (arith, ==_iff x l)
is_line_at-drop (x ∷ xs) (suc p) l h = is_line_at-drop xs p l h

drop-is_line_at :
    (lines : List String) (p : ℕ) (l : String) (tail : List String)
    → drop p lines ≡ l ∷ tail
    → (is_line_at lines p l ≡ true) × (drop (suc p) lines ≡ tail)
unfolding is_line_at
drop-is_line_at [] zero l tail h = absurd cc
drop-is_line_at [] (suc p) l tail h = absurd cc
drop-is_line_at (x ∷ xs) zero l tail h = ground (arith, ==_iff x l)
drop-is_line_at (x ∷ xs) (suc p) l tail h = drop-is_line_at xs p l tail h

-- One line that was applied.
apply_line-drop :
    (lines : List String) (p : ℕ) (d : DiffLine) (q : ℕ) (out : List String)
    → apply_line lines p d ≡ ok (q, out)
    → (drop p lines ≡ old_line d ++ drop q lines)
      × (q ≡ p + length (old_line d))
      × (out ≡ new_line d)
unfolding apply_line
apply_line-drop lines p d q out h = ground (arith, is_line_at-drop lines p (d.text <> "\n"))

drop-apply_line :
    (lines : List String) (p : ℕ) (d : DiffLine) (tail : List String)
    → drop p lines ≡ old_line d ++ tail
    → (apply_line lines p d ≡ ok (p + length (old_line d), new_line d))
      × (drop (p + length (old_line d)) lines ≡ tail)
unfolding apply_line
drop-apply_line lines p d tail h =
    let one : p + 1 ≡ suc p = omega arith in
    let none_taken : p + 0 ≡ p = omega arith in
    let found = drop-is_line_at lines p (d.text <> "\n") tail in
    elim (Bool-cases (d.kind == " ")) [
      | inl same ↦ let (here, after) = found (rw same at h) in rw (same, one, here) (refl, after)
      | inr other ↦ elim (Bool-cases (d.kind == "-")) [
        | inl removed ↦
            let (here, after) = found (rw (other, removed) at h) in
            rw (other, removed, one, here) (refl, after)
        | inr kept ↦ elim (Bool-cases (d.kind == "+")) [
          | inl added ↦ rw (other, kept, added, none_taken) (refl, (rw (other, kept) at h))
          | inr unknown ↦ rw (other, kept, unknown, none_taken) (refl, (rw (other, kept) at h))
        ]
      ]
    ]

pub apply_lines-drop :
    (lines : List String) (p : ℕ) (ds : List DiffLine) (q : ℕ) (out : List String)
    → apply_lines lines p ds ≡ ok (q, out)
    → (drop p lines ≡ old_lines ds ++ drop q lines)
      × (q ≡ p + length (old_lines ds))
      × (out ≡ new_lines ds)
unfolding apply_lines old_lines new_lines
apply_lines-drop lines p [] q out h = ground (arith, h)
apply_lines-drop lines p (d ∷ ds) q out h =
    let ((next, o), first, h') = >>=-eq-ok (apply_line lines p d) _ h in
    let ((last, r), more, h'') = >>=-eq-ok (apply_lines lines next ds) _ h' in
    let (cut, moved, made) = apply_line-drop lines p d next o first in
    let (cut', moved', made') = apply_lines-drop lines next ds last r more in
    let same : ◌≡◌ {A = ℕ × List String} (last, o ++ r) (q, out) = cc in
    let at_q : last ≡ q = ap (λ x. x.0) same in
    (
      cut
          ∙ ap (λ xs. old_line d ++ xs) (cut' ∙ ap (λ n. old_lines ds ++ drop n lines) at_q)
          ∙ sym (append_assoc (old_line d) (old_lines ds) (drop q lines)),
      omega (arith, at_q, moved, moved', length-append (old_line d) (old_lines ds)),
      sym (ap (λ x. x.1) same) ∙ rw (made, made') refl,
    )

pub drop-apply_lines :
    (lines : List String) (p : ℕ) (ds : List DiffLine) (tail : List String)
    → drop p lines ≡ old_lines ds ++ tail
    → (apply_lines lines p ds ≡ ok (p + length (old_lines ds), new_lines ds))
      × (drop (p + length (old_lines ds)) lines ≡ tail)
unfolding apply_lines old_lines new_lines
drop-apply_lines lines p [] tail h = let still : p + 0 ≡ p = omega arith in rw still (refl, h)
drop-apply_lines lines p (d ∷ ds) tail h =
    let (first, after) =
      drop-apply_line lines p d (old_lines ds ++ tail)
        (h ∙ append_assoc (old_line d) (old_lines ds) tail) in
    let (more, left) = drop-apply_lines lines (p + length (old_line d)) ds tail after in
    let far : (p + length (old_line d)) + length (old_lines ds)
        ≡ p + length (old_line d ++ old_lines ds) =
      omega (arith, length-append (old_line d) (old_lines ds)) in
    (rw (first, more, far) refl, ap (λ n. drop n lines) (sym far) ∙ left)
