-- ===== src/Prelude/Sorting.antt =====
-- `sorted` on texts, which Python compares by code points.
use Prim.Native.Nat.{Ordering}
use Prim.Native.String.{String, compare}
use mathlib.Core.Bool.{Bool, true, false}
use mathlib.Core.List.{List, [], ◌∷◌}
use runtime_lab_core.Prelude.Tests.{if◌then◌else◌}

abbrev pub str_le : String → String → Bool
str_le a b = elim (compare a b) [ Ordering.gt ↦ false | _ ↦ true ]

abbrev insert_sorted : String → List String → List String
insert_sorted a [] = a ∷ []
insert_sorted a (x ∷ xs) =
    let rest = insert_sorted a xs in if str_le a x then a ∷ (x ∷ xs) else x ∷ rest

-- `sorted(xs)`
unfoldable pub sorted : List String → List String
sorted [] = []
sorted (x ∷ xs) = insert_sorted x (sorted xs)
