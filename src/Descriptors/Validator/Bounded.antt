-- ===== src/Descriptors/Validator/Bounded.antt =====
-- The limits that a valid descriptor keeps to.
use runtime_lab_core.Prelude.{
  String, ◌≡◌, ◌&&◌, &&-eq-true, refl, sym, ◌∙◌, true, false, not, [], ◌∷◌, ok, raise, >>=-eq-ok,
  require-pass, arith, has_infix, starts_with,
}
use runtime_lab_core.Json.{
  Value, str, arr, obj, Items, nil, cons, Fields, strings, get, has, is_str, is_str-eq,
}
use runtime_lab_core.Json.Access.{is_texts, checked_get, has_any, has_all, has_only}
use runtime_lab_core.Hash.{Host}
use runtime_lab_core.Descriptors.Schema.{
  validate_schema_shape, validate_artifact_expectation, validate_artifacts,
  validate_required_string_fields, validate_text_list_fields, validate_nested_fields,
  forbidden_fields, allowed_fields, required_fields, get_or_empty,
}
use runtime_lab_core.Descriptors.Validator.{
  TextTools, field_claims, claims, boundary, capabilities, validate_descriptor, is_single_root,
}
use runtime_lab_core.Descriptors.Validator.Laws.{validate_descriptor-Passes, checked_get-eq-ok}
use runtime_lab_core.Descriptors.Validator.Parts.{
  AreArtifacts, IsModest, is_texts-eq, validate_artifacts-AreArtifacts, value_claims-IsModest,
}

-- A list of texts, if it is there, makes no forbidden claim.
pub IsModestAt : (tools : TextTools) (k : String) (payload : Fields) → Type 0
IsModestAt tools k payload = has k payload ≡ true → IsModest tools (get k payload)

-- The limits that a descriptor keeps to.
pub record IsBounded (tools : TextTools) (payload : Fields) : Type 0 where
  pub closed : has_only allowed_fields payload ≡ true
  pub clean : has_any forbidden_fields payload ≡ false
  pub action : get "action_type" payload ≡ str "write_text_artifact"
  pub root : String
  pub limits : Fields
  pub limited : get "workspace_boundary" payload ≡ obj limits
  pub single : get "allowed_roots" limits ≡ arr (cons (str root) nil)
  pub root_relative : starts_with root "/" ≡ false
  pub root_inside : has_infix root ".." ≡ false
  pub artifacts : Items
  pub declared : get "artifact_expectation" payload ≡ arr artifacts
  pub placed : AreArtifacts root artifacts
  pub authority : Fields
  pub authorised : get "authority_binding" payload ≡ obj authority
  pub granted : get "required_grants" authority ≡ arr (strings ("null_descriptor_scope" ∷ []))
  pub modest : IsModest tools (get "non_claims" payload)
  pub before : IsModestAt tools "preconditions" payload
  pub after : IsModestAt tools "postconditions" payload
  pub references : IsModestAt tools "compatibility_refs" payload
  pub noted : IsModestAt tools "notes" payload

is_single_root-root :
    (v : Value)
    → is_single_root v ≡ true
    → (root : String) × (v ≡ arr (cons (str root) nil))
      × (starts_with root "/" ≡ false)
      × (has_infix root ".." ≡ false)
unfolding is_single_root
is_single_root-root (arr (cons (str root) nil)) e =
    (root, refl, ground (arith, e), ground (arith, e))
is_single_root-root _ e = absurd cc

get_or_empty_present : (k : String) (d : Fields) → has k d ≡ true → get_or_empty k d ≡ get k d
get_or_empty_present k d e = rw e refl

-- The mapping under a key that is required.
obj-at :
    (k j : String) (payload : Fields) {v : Value}
    → has k payload ≡ true
    → checked_get j (get_or_empty k payload) ≡ ok v
    → (d : Fields) × (get k payload ≡ obj d) × (get j d ≡ v)
obj-at k j payload present e =
    let (d, is_obj, got) = checked_get-eq-ok j (get_or_empty k payload) e in
    (d, sym (get_or_empty_present k payload present) ∙ is_obj, got)

-- The single root, from the test of the boundary.
boundary-root :
    (payload : Fields)
    → has "workspace_boundary" payload ≡ true
    → boundary payload ≡ ok tt
    → (limits : Fields) × (root : String) × (get "workspace_boundary" payload ≡ obj limits)
      × (get "allowed_roots" limits ≡ arr (cons (str root) nil))
      × (starts_with root "/" ≡ false)
      × (has_infix root ".." ≡ false)
unfolding boundary
boundary-root payload present e =
    let (roots, roots_got, e1) =
      >>=-eq-ok (checked_get "allowed_roots" (get_or_empty "workspace_boundary" payload)) _ e in
    let (mode, _, e2) =
      >>=-eq-ok (checked_get "mode" (get_or_empty "workspace_boundary" payload)) _ e1 in
    let (tested, _) = require-pass (is_str mode "single_root" && is_single_root roots) _ _ e2 in
    let (limits, limited, at) =
      obj-at "workspace_boundary" "allowed_roots" payload present roots_got in
    let (root, one, relative, inside) =
      is_single_root-root roots
        (&&-eq-true (is_str mode "single_root") (is_single_root roots) tested).1 in
    (limits, root, limited, at ∙ one, relative, inside)

listed :
    (v limits : Value)
    → elim v [
      | arr items ↦ validate_artifacts limits items
      | _ ↦ raise "B1_DESCRIPTOR_INVALID_FIELD_TYPE"
    ]
      ≡ ok tt
    → (items : Items) × (v ≡ arr items) × (validate_artifacts limits items ≡ ok tt)
listed (arr items) limits e = (items, refl, e)
listed _ limits e = absurd cc

artifacts-placed :
    (payload limits : Fields) (root : String)
    → has "workspace_boundary" payload ≡ true
    → get "workspace_boundary" payload ≡ obj limits
    → get "allowed_roots" limits ≡ arr (cons (str root) nil)
    → validate_artifact_expectation payload ≡ ok tt
    → (items : Items) × (get "artifact_expectation" payload ≡ arr items) × AreArtifacts root items
unfolding validate_artifact_expectation
artifacts-placed payload limits root present limited single e =
    let (items, declared, passed) =
      listed (get "artifact_expectation" payload) (get_or_empty "workspace_boundary" payload) e in
    let same : get_or_empty "workspace_boundary" payload ≡ obj limits =
      get_or_empty_present "workspace_boundary" payload present ∙ limited in
    (items, declared, validate_artifacts-AreArtifacts limits root single items (rw same at passed))

-- The tests of the schema that the limits rest on.
shape-facts :
    (payload : Fields)
    → validate_schema_shape payload ≡ ok tt
    → (has_any forbidden_fields payload ≡ false)
      × (has_only allowed_fields payload ≡ true)
      × (has_all required_fields payload ≡ true)
      × (validate_artifact_expectation payload ≡ ok tt)
unfolding validate_schema_shape
shape-facts payload e =
    let (clean, e1) = require-pass (not (has_any forbidden_fields payload)) _ _ e in
    let (closed, e2) = require-pass (has_only allowed_fields payload) _ _ e1 in
    let (complete, e3) = require-pass (has_all required_fields payload) _ _ e2 in
    let (_, _, e4) = >>=-eq-ok (validate_required_string_fields payload) _ e3 in
    let (_, _, e5) = >>=-eq-ok (validate_text_list_fields payload) _ e4 in
    let (_, _, e6) = >>=-eq-ok (validate_nested_fields payload) _ e5 in
    let (_, placed, _) = >>=-eq-ok (validate_artifact_expectation payload) _ e6 in
    (ground (arith, clean), closed, complete, placed)

-- The grants and the action.
capabilities-facts :
    (payload : Fields)
    → has "authority_binding" payload ≡ true
    → capabilities payload ≡ ok tt
    → (get "action_type" payload ≡ str "write_text_artifact")
      × ((authority : Fields) × (get "authority_binding" payload ≡ obj authority)
          × (get "required_grants" authority ≡ arr (strings ("null_descriptor_scope" ∷ []))))
unfolding capabilities
capabilities-facts payload present e =
    let (grants, granted, e1) =
      >>=-eq-ok (checked_get "required_grants" (get_or_empty "authority_binding" payload)) _ e in
    let (actions, _, e2) =
      >>=-eq-ok (checked_get "allowed_actions" (get_or_empty "capability_boundary" payload)) _ e1 in
    let grants_given = is_texts grants ("null_descriptor_scope" ∷ []) in
    let actions_given = is_texts actions ("write_text_artifact" ∷ []) in
    let (matched, e3) = require-pass (grants_given && actions_given) _ _ e2 in
    let (acts, _) =
      require-pass (is_str (get "action_type" payload) "write_text_artifact") _ _ e3 in
    let (authority, authorised, at) =
      obj-at "authority_binding" "required_grants" payload present granted in
    (
      is_str-eq (get "action_type" payload) "write_text_artifact" acts,
      (
        authority,
        authorised,
        at
            ∙ is_texts-eq grants ("null_descriptor_scope" ∷ [])
                (&&-eq-true grants_given actions_given matched).0,
      ),
    )

module _ (tools : TextTools) where
  field_claims-IsModestAt :
      (k : String) (payload : Fields) {u : Unit {0}}
      → field_claims tools k payload ≡ ok u
      → IsModestAt tools k payload
  unfolding IsModestAt
  field_claims-IsModestAt k payload e present =
      value_claims-IsModest tools (get k payload) (rw present at e)

  claims-IsModestAt :
      (payload : Fields)
      → claims tools payload ≡ ok tt
      → IsModestAt tools "preconditions" payload
        × IsModestAt tools "postconditions" payload
        × IsModestAt tools "compatibility_refs" payload
        × IsModestAt tools "notes" payload
        × IsModestAt tools "non_claims" payload
  unfolding claims
  claims-IsModestAt payload e =
      let (_, f1, e1) = >>=-eq-ok (field_claims tools "preconditions" payload) _ e in
      let (_, f2, e2) = >>=-eq-ok (field_claims tools "postconditions" payload) _ e1 in
      let (_, f3, e3) = >>=-eq-ok (field_claims tools "compatibility_refs" payload) _ e2 in
      let (_, f4, e4) = >>=-eq-ok (field_claims tools "notes" payload) _ e3 in
      (
        field_claims-IsModestAt "preconditions" payload f1,
        field_claims-IsModestAt "postconditions" payload f2,
        field_claims-IsModestAt "compatibility_refs" payload f3,
        field_claims-IsModestAt "notes" payload f4,
        field_claims-IsModestAt "non_claims" payload e4,
      )

module _ (h : Host) (tools : TextTools) where
  -- A valid descriptor has none but the listed fields, none of the forbidden ones, the one action and its one grant;
  -- its workspace is one relative root without `..`, below which all of its artifacts lie; and none of the texts in its
  -- non-claims and, where they are there, its preconditions, postconditions, compatibility references and notes makes
  -- a forbidden claim.
  pub validate_descriptor-IsBounded :
      (payload valid : Fields)
      → validate_descriptor h tools (obj payload) ≡ ok valid
      → IsBounded tools payload
  unfolding IsModestAt
  validate_descriptor-IsBounded payload valid e =
      let (passed, _) = validate_descriptor-Passes h tools payload e in
      let (before, after, references, noted, modest) =
        claims-IsModestAt tools payload passed.claimed in
      let (clean, closed, complete, placed) = shape-facts payload passed.shaped in
      let at_boundary : has "workspace_boundary" payload ≡ true = ground (arith, complete) in
      let (limits, root, limited, single, relative, inside) =
        boundary-root payload at_boundary passed.bounded in
      let (items, declared, below) =
        artifacts-placed payload limits root at_boundary limited single placed in
      let (acts, (authority, authorised, granted)) =
        capabilities-facts payload (ground (arith, complete)) passed.capable in
      record {
        closed = closed;
        clean = clean;
        action = acts;
        root = root;
        limits = limits;
        limited = limited;
        single = single;
        root_relative = relative;
        root_inside = inside;
        artifacts = items;
        declared = declared;
        placed = below;
        authority = authority;
        authorised = authorised;
        granted = granted;
        modest = modest (ground (arith, complete));
        before = before;
        after = after;
        references = references;
        noted = noted;
      }
