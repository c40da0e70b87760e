-- ===== src/AgentLoop/Replay.antt =====
-- runtime_lab/agent_loop/replay.py: the replay manifest.
use runtime_lab_core.Prelude.{
  String, ◌≡◌, refl, Bool, true, false, ◌&&◌, ◌||◌, Option, List, [], ◌∷◌, ◌==◌, arith, eq_refl,
}
use runtime_lab_core.Json.{
  str, bool, arr, obj, Fields, dict, strings, sorted_entries, get, has, pop, set, is_str, or_value,
}
use runtime_lab_core.Hash.{Host, canonical_hash, is_nonempty-canonical_hash}
use runtime_lab_core.AgentLoop.Receipts.{optional_text}

-- The arguments of `build_replay_manifest`; the receipt hashes are given as a list.
pub record ManifestArguments : Type 0 where
  pub run_id : String
  pub base_commit : String
  pub inputs : Fields
  pub state_transition_hash : Option String
  pub ledger_tail_hash : Option String
  pub artifact_hashes : List (String × String)
  pub receipt_hashes : List String
  pub ledger_hash : Option String

-- The `dict` before its hash is set.
unfoldable pub manifest_body : ManifestArguments → Fields
manifest_body a = dict (
    ("schema_version", str "1.0")
    ∷ ("replay_version", str "agent_loop_replay.v0")
    ∷ ("milestone", str "R128_SUPERVISED_LOCAL_AGENT_LOOP_V0_LOCAL_VALIDATION")
    ∷ ("run_id", str a.run_id)
    ∷ ("base_commit", str a.base_commit)
    ∷ ("inputs", obj a.inputs)
    ∷ ("state_transition_hash", optional_text a.state_transition_hash)
    ∷ ("artifact_hashes", obj (sorted_entries a.artifact_hashes))
    ∷ ("receipt_hashes", arr (strings a.receipt_hashes))
    ∷ (
      "ledger_tail_hash",
      or_value (optional_text a.ledger_tail_hash) (optional_text a.ledger_hash),
    )
    ∷ ("replay_scope", str "local_deterministic_artifact_replay")
    ∷ (
      "non_claim_boundary",
      obj (
          dict (
            ("remote_replay", bool false)
            ∷ ("remote_sealed_pass", bool false)
            ∷ ("scientific_reproducibility", bool false)
            ∷ ("production_readiness", bool false)
            ∷ [])),
    )
    ∷ [])

module _ (h : Host) where
  unfoldable pub build_replay_manifest : ManifestArguments → Fields
  unfolding manifest_body
  build_replay_manifest a =
      set "replay_manifest_hash" (str (canonical_hash h (obj (manifest_body a)))) (manifest_body a)

  unfoldable pub verify_replay_manifest : Fields → Bool
  verify_replay_manifest manifest =
      (has "replay_hash" manifest || has "replay_manifest_hash" manifest)
      && is_str (or_value (get "replay_manifest_hash" manifest) (get "replay_hash" manifest))
          (canonical_hash h (obj (pop "replay_manifest_hash" (pop "replay_hash" manifest))))

  -- A built manifest verifies, and the hash that it stores is that of the manifest without it.
  pub build_replay_manifest-verify :
      (a : ManifestArguments)
      → (verify_replay_manifest (build_replay_manifest a) ≡ true)
        × (get "replay_manifest_hash" (build_replay_manifest a)
            ≡ str (canonical_hash h (obj (manifest_body a))))
  unfolding verify_replay_manifest build_replay_manifest has get pop set ◌==◌
  build_replay_manifest-verify a = (
    ground (
      arith,
      eq_refl (canonical_hash h (obj (manifest_body a))),
      is_nonempty-canonical_hash h (obj (manifest_body a)),
    ),
    refl,
  )
