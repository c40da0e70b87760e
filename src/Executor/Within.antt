-- ===== src/Executor/Within.antt =====
-- Where the executor may write, and how its demands are read.
use runtime_lab_core.Prelude.{
  String, ◌≡◌, refl, Bool, true, false, not, none, List, map, contains, ok, >>=-eq-ok, ◌then_check◌,
  then_check-pass, Bool-cases, inl, inr, arith,
}
use runtime_lab_core.Json.{Fields}
use runtime_lab_core.PosixPath
use runtime_lab_core.Workspace.{normalize_path, has_traversal, within_any}
use runtime_lab_core.Executor.Paths.{
  pass, listed_paths, denied_error, root_error, requested_error, output_path_error,
}
use runtime_lab_core.Executor.Checks.{Check, demand}

-- Where a receipt lets an executor write: relative, without `..`, not denied, under one of its roots, and one of the
-- paths that were asked for.
pub record IsWithin (output : String) (receipt : Fields) : Type 0 where
  pub relative : PosixPath.is_absolute (PosixPath.parse output) ≡ false
  pub inside : has_traversal output ≡ false
  pub denied : List String
  pub denied_listed : listed_paths "denied_paths" receipt ≡ ok denied
  pub not_denied : contains (map normalize_path denied) (normalize_path output) ≡ false
  pub roots : List String
  pub roots_listed : listed_paths "allowed_roots" receipt ≡ ok roots
  pub rooted : within_any (normalize_path output) roots ≡ true
  pub requested : List String
  pub requested_listed : listed_paths "requested_paths" receipt ≡ ok requested
  pub asked : contains (map normalize_path requested) (normalize_path output) ≡ true

pass-true : (b : Bool) (error : String) → pass b error ≡ ok none → b ≡ true
pass-true true error e = refl
pass-true false error e = absurd cc

pub demand-true : (b : Bool) (code : String) → demand b code ≡ ok none → b ≡ true
demand-true true code e = refl
demand-true false code e = absurd cc

-- One demand of several.
pub demand-pass :
    (b : Bool) (code : String) (rest : Check)
    → (demand b code then_check rest) ≡ ok none
    → (b ≡ true) × (rest ≡ ok none)
demand-pass b code rest e =
    let (one, others) = then_check-pass (demand b code) rest e in (demand-true b code one, others)

not-true : (b : Bool) → not b ≡ true → b ≡ false
not-true false e = refl
not-true true e = absurd cc

listed-IsWithin :
    (output : String) (receipt : Fields)
    → PosixPath.is_absolute (PosixPath.parse output) ≡ false
    → has_traversal output ≡ false
    → (denied_error (normalize_path output) receipt
        then_check root_error (normalize_path output) receipt
        then_check requested_error (normalize_path output) receipt)
      ≡ ok none
    → IsWithin output receipt
unfolding denied_error root_error requested_error
listed-IsWithin output receipt relative inside e =
    let path = normalize_path output in
    let (e1, e2) = then_check-pass (denied_error path receipt) _ e in
    let (e3, e4) = then_check-pass (root_error path receipt) (requested_error path receipt) e2 in
    let (denied, denied_listed, p1) = >>=-eq-ok (listed_paths "denied_paths" receipt) _ e1 in
    let (roots, roots_listed, p2) = >>=-eq-ok (listed_paths "allowed_roots" receipt) _ e3 in
    let (requested, requested_listed, p3) =
      >>=-eq-ok (listed_paths "requested_paths" receipt) _ e4 in
    record {
      relative = relative;
      inside = inside;
      denied = denied;
      denied_listed = denied_listed;
      not_denied = not-true _ (pass-true (not (contains (map normalize_path denied) path)) _ p1);
      roots = roots;
      roots_listed = roots_listed;
      rooted = pass-true (within_any path roots) _ p2;
      requested = requested;
      requested_listed = requested_listed;
      asked = pass-true (contains (map normalize_path requested) path) _ p3;
    }

pub output_path_error-IsWithin :
    (output : String) (receipt : Fields)
    → output_path_error output receipt ≡ ok none
    → IsWithin output receipt
unfolding output_path_error
output_path_error-IsWithin output receipt e =
    elim (Bool-cases (PosixPath.is_absolute (PosixPath.parse output))) [
      | inl absolute ↦ absurd (ground (arith, rw (absolute, output_path_error) at e))
      | inr relative ↦ elim (Bool-cases (has_traversal output)) [
        | inl outside ↦ absurd (ground (arith, rw (relative, outside, output_path_error) at e))
        | inr inside ↦
            listed-IsWithin output receipt relative inside
              (rw (relative, inside, output_path_error) at e)
      ]
    ]
