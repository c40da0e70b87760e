-- ===== src/Authority/Packet.antt =====
-- runtime_lab/authority/packet.py: `build_authority_packet` and what it takes of the descriptor.
pub mod Laws
use runtime_lab_core.Prelude.{
  String, Bool, Option, none, some, List, [], ◌∷◌, ◌<>◌, Result, ok, ◌>>=◌,
}
use runtime_lab_core.Json.{
  Value, null, str, arr, obj, Items, nil, cons, Fields, end, dict, strings, get, has, set,
}
use runtime_lab_core.Hash.{Host}
use runtime_lab_core.Descriptors.Validator.{TextTools}
use runtime_lab_core.Authority.Bindings.{
  Artifact, artifacts_of, task_id_of, workspace_roots, compute_descriptor_payload_hash, packet_hash,
  packet_id,
}

-- The keyword arguments of `build_authority_packet`; a `None` default is `none`.
pub record PacketOptions : Type 0 where
  pub issuer_identity_id : String
  pub issuer_role : String
  pub subject_actor_id : String
  pub subject_actor_type : String
  pub task_id : Option String
  pub decision_ref : Option String
  pub policy_epoch : String
  pub workspace_ref : Option String
  pub allowed_roots : Option (List String)
  pub expected_artifacts : Option (List Fields)
  pub capability_grants : Option (List Fields)
  pub not_before : Value
  pub expires_at : Value

abbrev pub default_options : PacketOptions
default_options = record {
  issuer_identity_id = "governance:runtime_lab";
  issuer_role = "governance_authority";
  subject_actor_id = "actor:local_runtime";
  subject_actor_type = "runtime_actor";
  task_id = none;
  decision_ref = none;
  policy_epoch = "r114";
  workspace_ref = none;
  allowed_roots = none;
  expected_artifacts = none;
  capability_grants = none;
  not_before = str "r114-local-epoch";
  expires_at = null;
}

abbrev pub or_else {ℓ} : {A : Type ℓ} → Option A → A → A
or_else none d = d
or_else (some a) d = a

abbrev pub objects : List Fields → Items
objects [] = nil
objects (d ∷ ds) = cons (obj d) (objects ds)

-- The `dict` of an artifact.
abbrev pub artifact_fields : Artifact → Fields
artifact_fields (name, path) = dict (("artifact_class", str name) ∷ ("logical_path", str path) ∷ [])

abbrev pub all_artifact_fields : List Artifact → List Fields
all_artifact_fields [] = []
all_artifact_fields (a ∷ r) = artifact_fields a ∷ all_artifact_fields r

-- `_artifact_expectations`
unfoldable pub artifact_expectations : Fields → List Fields
artifact_expectations payload =
    all_artifact_fields (artifacts_of (get "artifact_expectation" payload))

abbrev pub admission_capability_grant : Fields
admission_capability_grant =
    dict (("capability", str "admission.evaluate") ∷ ("scope", str "descriptor_intake_only") ∷ [])

-- `governance.get("decision_ref", "") if isinstance(governance, Mapping) else ""`
abbrev pub payload_decision : Value → Value
payload_decision (obj d) = elim (has "decision_ref" d) [
  | Bool.true ↦ get "decision_ref" d
  | Bool.false ↦ str ""
]
payload_decision _ = str ""

abbrev pub decision_value : Option String → Value → Value
decision_value none governance = payload_decision governance
decision_value (some decision) governance = str decision

-- The `dict` of the packet, before its id and its hash are set.
unfoldable pub packet_body : Fields → PacketOptions → String → Fields
packet_body payload options descriptor_hash = dict (
    ("schema_version", str "authority_packet.v1")
    ∷ ("packet_id", str "")
    ∷ (
      "issuer",
      obj (
          dict (
            ("identity_id", str options.issuer_identity_id)
            ∷ ("role", str options.issuer_role)
            ∷ [])),
    )
    ∷ (
      "subject",
      obj (
          dict (
            ("actor_id", str options.subject_actor_id)
            ∷ ("actor_type", str options.subject_actor_type)
            ∷ [])),
    )
    ∷ (
      "task_binding",
      obj (
          dict (
            ("task_id", str (or_else options.task_id (task_id_of payload)))
            ∷ ("descriptor_hash", str descriptor_hash)
            ∷ [])),
    )
    ∷ (
      "governance_binding",
      obj (
          dict (
            (
              "decision_ref",
              decision_value options.decision_ref (get "governance_requirements" payload),
            )
            ∷ ("policy_epoch", str options.policy_epoch)
            ∷ [])),
    )
    ∷ (
      "workspace_binding",
      obj (
          dict (
            (
              "workspace_ref",
              str (or_else options.workspace_ref ("workspace:" <> task_id_of payload)),
            )
            ∷ (
              "allowed_roots",
              arr (strings (or_else options.allowed_roots (workspace_roots payload))),
            )
            ∷ [])),
    )
    ∷ (
      "artifact_binding",
      obj (
          dict (
            (
              "expected_artifacts",
              arr (objects (or_else options.expected_artifacts (artifact_expectations payload))),
            )
            ∷ [])),
    )
    ∷ (
      "capability_grants",
      arr (objects (or_else options.capability_grants (admission_capability_grant ∷ []))),
    )
    ∷ ("not_before", options.not_before)
    ∷ ("expires_at", options.expires_at)
    ∷ ("payload_hash", str "")
    ∷ [])

module _ (h : Host) where
  -- `_complete_packet_hash`
  unfoldable pub complete_packet_hash : Fields → Fields
  complete_packet_hash packet =
      set "payload_hash" (str (packet_hash h packet))
        (set "packet_id" (str (packet_id h packet)) packet)

module _ (h : Host) (tools : TextTools) where
  unfoldable pub build_authority_packet : Fields → PacketOptions → Result Fields
  build_authority_packet payload options = do
    descriptor_hash ← compute_descriptor_payload_hash h tools payload
    ok (complete_packet_hash h (packet_body payload options descriptor_hash))
