-- ===== src/Descriptors/Validator/Parts.antt =====
-- What the parts of the validation show: the paths of the artifacts and the claims.
use runtime_lab_core.Prelude.{
  String, ◌≡◌, refl, sym, ap, true, false, List, [], ◌∷◌, ok, raise, require-pass, Bool-cases, inl,
  inr, arith, contains, All,
}
use runtime_lab_core.Json.{Value, str, arr, obj, Items, nil, cons, Fields, strings, get, is_str-eq}
use runtime_lab_core.Json.Access.{
  is_texts, are_texts, checked_get, has_only, text_or_empty, is_nonblank, nonblank_at,
}
use runtime_lab_core.PosixPath
use runtime_lab_core.Descriptors.Schema.{
  validate_artifacts, is_path_below, is_artifact_path, artifact_fields,
}
use runtime_lab_core.Descriptors.Validator.{TextTools, contains_forbidden_claim, item_claims}

-- A relative path without `..` under a root.
pub record IsBelow (path root : String) : Type 0 where
  pub relative : PosixPath.is_absolute (PosixPath.parse path) ≡ false
  pub inside : contains (PosixPath.parts (PosixPath.parse path)) ".." ≡ false
  pub below : PosixPath.is_relative_to path root ≡ true

-- Every item is an artifact with a path below the root.
pub AreArtifacts : String → Items → Type 0
AreArtifacts root nil = Unit
AreArtifacts root (cons v vs) =
    ((d : Fields) × (path : String) × (v ≡ obj d)
      × (get "logical_path" d ≡ str path)
      × IsBelow path root)
    × AreArtifacts root vs

-- `["a", ...]`, read back
are_texts-eq : (vs : Items) (ss : List String) → are_texts vs ss ≡ true → vs ≡ strings ss
are_texts-eq nil [] e = refl
are_texts-eq (cons v vs) (s ∷ ss) e = ground (arith, e, is_str-eq v s, are_texts-eq vs ss)
are_texts-eq nil (s ∷ ss) e = absurd cc
are_texts-eq (cons v vs) [] e = absurd cc

pub is_texts-eq : (v : Value) (ss : List String) → is_texts v ss ≡ true → v ≡ arr (strings ss)
is_texts-eq (arr vs) ss e = ap arr (are_texts-eq vs ss e)
is_texts-eq _ ss e = absurd cc

is_path_below-IsBelow : (path root : String) → is_path_below path root ≡ true → IsBelow path root
unfolding is_path_below
is_path_below-IsBelow path root e = record {
  relative = ground (arith, e);
  inside = ground (arith, e);
  below = ground (arith, e);
}

-- A value that is not blank is a text.
nonblank_str : (v : Value) → is_nonblank v ≡ true → v ≡ str (text_or_empty v)
nonblank_str (str s) e = refl
nonblank_str _ e = absurd cc

is_artifact_path-below :
    (path root : String)
    → is_artifact_path path (arr (cons (str root) nil)) ≡ true
    → is_path_below path root ≡ true
unfolding is_artifact_path
is_artifact_path-below path root e = ground (arith, e)

module _ (limits : Fields) (root : String)
    (given : get "allowed_roots" limits ≡ arr (cons (str root) nil)) where
  pub validate_artifacts-AreArtifacts :
      (items : Items) → validate_artifacts (obj limits) items ≡ ok tt → AreArtifacts root items
  unfolding validate_artifacts AreArtifacts checked_get
  validate_artifacts-AreArtifacts nil e = tt
  validate_artifacts-AreArtifacts (cons (obj item) rest) e =
      let path = text_or_empty (get "logical_path" item) in
      let (_, e1) = require-pass (has_only artifact_fields item) _ _ e in
      let (named, e2) = require-pass (nonblank_at artifact_fields item) _ _ e1 in
      let (there, e3) = require-pass (is_artifact_path path (get "allowed_roots" limits)) _ _ e2 in
      (
        (
          item,
          path,
          refl,
          nonblank_str (get "logical_path" item) (ground (arith, named)),
          is_path_below-IsBelow path root (is_artifact_path-below path root (rw (sym given) there)),
        ),
        validate_artifacts-AreArtifacts rest e3,
      )
  validate_artifacts-AreArtifacts (cons _ rest) e = absurd cc

module _ (tools : TextTools) where
  -- A list of texts of which none makes a forbidden claim.
  pub IsModest : Value → Type 0
  IsModest v =
      (texts : List String) × (v ≡ arr (strings texts))
      × All (λ s. contains_forbidden_claim tools s ≡ false) texts

  item_claims-modest :
      (items : Items)
      → item_claims tools items ≡ ok tt
      → (texts : List String) × (items ≡ strings texts)
        × All (λ s. contains_forbidden_claim tools s ≡ false) texts
  item_claims-modest nil e = ([], refl, tt)
  item_claims-modest (cons (str s) rest) e = elim (Bool-cases (contains_forbidden_claim tools s)) [
    | inl claimed ↦ absurd (ground (arith, e, claimed))
    | inr modest ↦
        let (texts, same, free) = item_claims-modest rest (rw modest at e) in
        (s ∷ texts, ap (cons (str s)) same, (modest, free))
  ]
  item_claims-modest (cons _ rest) e = absurd cc

  pub value_claims-IsModest :
      (v : Value)
      → elim v [ arr items ↦ item_claims tools items | _ ↦ raise "TypeError" ] ≡ ok tt
      → IsModest v
  unfolding IsModest
  value_claims-IsModest (arr items) e =
      let (texts, same, free) = item_claims-modest items e in (texts, ap arr same, free)
  value_claims-IsModest _ e = absurd cc
