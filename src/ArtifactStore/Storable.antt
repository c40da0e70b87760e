-- ===== src/ArtifactStore/Storable.antt =====
-- What the tests of `store_artifact` show together.
use runtime_lab_core.Prelude.{
  String, ◌≡◌, ◌≤◌, refl, true, false, Option, none, some, contains, arith, first_code,
}
use runtime_lab_core.Json.{Value, str, Fields, get, is_str, is_str-eq, is_text}
use runtime_lab_core.Json.Access.{text_or_empty, is_text-eq}
use runtime_lab_core.PosixPath
use runtime_lab_core.Hash.{Host}
use runtime_lab_core.ArtifactStore.Policy.{StorePolicy}
use runtime_lab_core.ArtifactStore.Checks.{
  byte_length, content_hash, request_code, binding_code, name_code, manifest_code, manifest_matches,
  content_code, has_traversal,
}

-- What a request shows under a policy: the bindings, a relative name without `..`, a manifest that repeats it, an allowed
-- type and media type, and a content within the limit with the expected hash.
pub record IsStorable (h : Host) (request : Fields) (policy : StorePolicy) : Type 0 where
  pub tasked : get "task_id" request ≡ str policy.task_id
  pub described : get "descriptor_hash" request ≡ str policy.descriptor_hash
  pub authorised : get "authority_receipt_hash" request ≡ str policy.authority_receipt_hash
  pub transacted :
      get "workspace_transaction_receipt_hash" request
      ≡ str policy.workspace_transaction_receipt_hash
  pub name : String
  pub named : get "artifact_name" request ≡ str name
  pub relative : PosixPath.is_absolute (PosixPath.parse name) ≡ false
  pub inside : has_traversal name ≡ false
  pub kind : String
  pub typed : get "artifact_type" request ≡ str kind
  pub type_allowed : contains policy.allowed_artifact_types kind ≡ true
  pub media : String
  pub media_typed : get "media_type" request ≡ str media
  pub media_allowed : contains policy.allowed_media_types media ≡ true
  pub declared : manifest_matches (get "manifest" request) request ≡ true
  pub content : String
  pub given : get "content" request ≡ str content
  pub within : byte_length content ≤ policy.max_size_bytes
  pub expected : get "expected_content_hash" request ≡ str (content_hash h content)

first_code-none : (a b : Option String) → first_code a b ≡ none → (a ≡ none) × (b ≡ none)
first_code-none none b e = (refl, e)
first_code-none (some code) b e = absurd cc

binding_code-passed :
    (request : Fields) (policy : StorePolicy)
    → binding_code request policy ≡ none
    → (is_str (get "task_id" request) policy.task_id ≡ true)
      × (is_str (get "descriptor_hash" request) policy.descriptor_hash ≡ true)
      × (is_str (get "authority_receipt_hash" request) policy.authority_receipt_hash ≡ true)
      × (is_str
            (get "workspace_transaction_receipt_hash" request)
            policy.workspace_transaction_receipt_hash
          ≡ true)
unfolding binding_code
binding_code-passed request policy e = ground (arith, e)

name_code-passed :
    (request : Fields)
    → name_code request ≡ none
    → (is_text (get "artifact_name" request) ≡ true)
      × (is_text (get "artifact_type" request) ≡ true)
      × (is_text (get "media_type" request) ≡ true)
      × (PosixPath.is_absolute (PosixPath.parse (text_or_empty (get "artifact_name" request)))
          ≡ false)
      × (has_traversal (text_or_empty (get "artifact_name" request)) ≡ false)
unfolding name_code
name_code-passed request e = ground (arith, e)

manifest_code-passed :
    (request : Fields) (policy : StorePolicy)
    → manifest_code request policy ≡ none
    → (manifest_matches (get "manifest" request) request ≡ true)
      × (contains policy.allowed_artifact_types (text_or_empty (get "artifact_type" request))
          ≡ true)
      × (contains policy.allowed_media_types (text_or_empty (get "media_type" request)) ≡ true)
unfolding manifest_code
manifest_code-passed request policy e = ground (arith, e)

content_code-passed :
    (h : Host) (request : Fields) (policy : StorePolicy) (v : Value)
    → content_code h request policy v ≡ none
    → (content : String) × (v ≡ str content)
      × (byte_length content ≤ policy.max_size_bytes)
      × (get "expected_content_hash" request ≡ str (content_hash h content))
unfolding content_code
content_code-passed h request policy (str content) e = (
  content,
  refl,
  ground (arith, e),
  is_str-eq (get "expected_content_hash" request) (content_hash h content) (ground (arith, e)),
)
content_code-passed h request policy _ e = absurd cc

pub request_code-IsStorable :
    (h : Host) (request : Fields) (policy : StorePolicy)
    → request_code h request policy ≡ none
    → IsStorable h request policy
unfolding request_code
request_code-IsStorable h request policy e =
    let (bound, e1) = first_code-none (binding_code request policy) _ e in
    let (named, e2) = first_code-none (name_code request) _ e1 in
    let (declared, filled) = first_code-none (manifest_code request policy) _ e2 in
    let (task, descriptor, authority, transaction) = binding_code-passed request policy bound in
    let (name, kind, media, relative, inside) = name_code-passed request named in
    let (matches, kind_allowed, media_allowed) = manifest_code-passed request policy declared in
    let (content, given, within, expected) =
      content_code-passed h request policy (get "content" request) filled in
    record {
      tasked = is_str-eq (get "task_id" request) policy.task_id task;
      described = is_str-eq (get "descriptor_hash" request) policy.descriptor_hash descriptor;
      authorised =
          is_str-eq (get "authority_receipt_hash" request) policy.authority_receipt_hash authority;
      transacted =
          is_str-eq (get "workspace_transaction_receipt_hash" request)
            policy.workspace_transaction_receipt_hash transaction;
      name = text_or_empty (get "artifact_name" request);
      named = is_text-eq (get "artifact_name" request) name;
      relative = relative;
      inside = inside;
      kind = text_or_empty (get "artifact_type" request);
      typed = is_text-eq (get "artifact_type" request) kind;
      type_allowed = kind_allowed;
      media = text_or_empty (get "media_type" request);
      media_typed = is_text-eq (get "media_type" request) media;
      media_allowed = media_allowed;
      declared = matches;
      content = content;
      given = given;
      within = within;
      expected = expected;
    }
