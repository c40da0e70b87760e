-- ===== src/Authority/Bindings.antt =====
-- What a packet and a descriptor have to agree on: runtime_lab/authority/canonical.py, the readers of
-- runtime_lab/authority/verify.py, and `compute_descriptor_payload_hash` of runtime_lab/authority/packet.py.
pub mod Laws
use runtime_lab_core.Prelude.{
  String, Bool, true, false, ◌&&◌, ◌||◌, not, Option, none, some, List, [], ◌∷◌, ◌==◌, ◌<>◌,
  text_take, removeprefix, Result, ok, raise, ◌>>=◌, contains, sorted, str_le, is_nonempty,
  if◌then◌else◌,
}
use runtime_lab_core.Json.{
  Value, str, arr, obj, Items, nil, cons, Fields, end, field, get, pop, is_str,
}
use runtime_lab_core.Json.Access.{as_string_list, get_in, text_or_empty, has_only}
use runtime_lab_core.Hash.{Host, canonical_hash}
use runtime_lab_core.Descriptors.Schema.{allowed_fields}
use runtime_lab_core.Descriptors.Validator.{TextTools, validate_descriptor}

unfoldable pub packet_hash_payload : Fields → Fields
packet_hash_payload packet = pop "payload_hash" (pop "packet_id" packet)

-- `_payload_task_id`
unfoldable pub task_id_of : Fields → String
task_id_of payload = text_or_empty (get_in "task_id" (get "task_ref" payload))

-- The `roots` of `_payload_roots`, before they are sorted.
unfoldable pub workspace_roots : Fields → List String
workspace_roots payload = as_string_list (get_in "allowed_roots" (get "workspace_boundary" payload))

unfoldable pub payload_roots : Fields → List String
payload_roots payload = sorted (workspace_roots payload)

unfoldable pub packet_roots : Fields → List String
packet_roots packet =
    sorted (as_string_list (get_in "allowed_roots" (get "workspace_binding" packet)))

-- An artifact: its class and its path.
abbrev pub Artifact : Type 0
Artifact = String × String

-- The artifacts among the items, in their order.
abbrev pub artifact_items : Items → List Artifact
artifact_items nil = []
artifact_items (cons (obj d) vs) =
    let rest = artifact_items vs in
    elim (get "artifact_class" d) [
      | str name ↦ elim (get "logical_path" d) [ str path ↦ (name, path) ∷ rest | _ ↦ rest ]
      | _ ↦ rest
    ]
artifact_items (cons _ vs) = artifact_items vs

abbrev pub artifacts_of : Value → List Artifact
artifacts_of (arr vs) = artifact_items vs
artifacts_of _ = []

-- `key=lambda value: (value["artifact_class"], value["logical_path"])`
abbrev artifact_le : Artifact → Artifact → Bool
artifact_le a b = if a.0 == b.0 then str_le a.1 b.1 else str_le a.0 b.0

abbrev insert_artifact : Artifact → List Artifact → List Artifact
insert_artifact a [] = a ∷ []
insert_artifact a (b ∷ bs) =
    let rest = insert_artifact a bs in if artifact_le a b then a ∷ (b ∷ bs) else b ∷ rest

abbrev sort_artifacts : List Artifact → List Artifact
sort_artifacts [] = []
sort_artifacts (a ∷ r) = insert_artifact a (sort_artifacts r)

unfoldable pub payload_artifacts : Fields → List Artifact
payload_artifacts payload = sort_artifacts (artifacts_of (get "artifact_expectation" payload))

unfoldable pub packet_artifacts : Fields → List Artifact
packet_artifacts packet =
    sort_artifacts (artifacts_of (get_in "expected_artifacts" (get "artifact_binding" packet)))

-- `a == b` of the sorted artifacts
abbrev pub same_artifacts : List Artifact → List Artifact → Bool
same_artifacts [] [] = true
same_artifacts (a ∷ r) (b ∷ s) = a.0 == b.0 && (a.1 == b.1 && same_artifacts r s)
same_artifacts _ _ = false

-- `_descriptor_payload`
unfoldable pub descriptor_payload : Fields → Fields
descriptor_payload end = end
descriptor_payload (field k v r) =
    let rest = descriptor_payload r in if contains allowed_fields k then field k v rest else rest

-- The hash that a validated descriptor stores.
abbrev pub read_hash : Value → Result String
read_hash (str hash) =
    if is_nonempty hash then ok hash else raise "descriptor canonical hash missing"
read_hash _ = raise "descriptor canonical hash missing"

module _ (h : Host) (tools : TextTools) where
  unfoldable pub compute_descriptor_payload_hash : Fields → Result String
  compute_descriptor_payload_hash payload = do
    validated ← validate_descriptor h tools (obj (descriptor_payload payload))
    read_hash (get "canonical_hash" validated)

module _ (h : Host) where
  abbrev pub packet_hash : Fields → String
  packet_hash packet = canonical_hash h (obj (packet_hash_payload packet))

  -- `f"authpkt_{payload_hash.removeprefix('sha256:')[:16]}"`
  abbrev pub packet_id : Fields → String
  packet_id packet = "authpkt_" <> text_take 16 (removeprefix (packet_hash packet) "sha256:")
