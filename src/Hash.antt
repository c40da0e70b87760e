-- ===== src/Hash.antt =====
-- `canonical_hash`: runtime_lab/authority/canonical.py over runtime_lab/common/deterministic.py, and the
-- equal one of runtime_lab/agent_loop/receipts.py. `hashlib.sha256` and `json.dumps` are parameters.
pub mod Chain
pub mod Seal
use Prim.Native.String.{count}
use mathlib.Core.Bool.{false≢true}
use runtime_lab_core.Prelude.{
  ℕ, String, ◌≡◌, refl, ◌≢◌, Bool, true, false, ◌<>◌, starts_with, removeprefix, is_nonempty, arith,
  ◌=ℕ=◌, ◌&&◌, ap, sym,
}
use runtime_lab_core.Json.{Value, str}

-- What the code takes from Python: `sha256(text).hexdigest()` has 64 digits, `json.dumps` with sorted
-- keys, and `str(v)`, which is `v` itself for a text.
pub record Host : Type 0 where
  pub sha256_hex : String → String
  pub hex_length : (s : String) → count (sha256_hex s) ≡ 64
  pub dumps : Value → String
  pub to_str : Value → String
  pub to_str-str : (s : String) → to_str (str s) ≡ s

module _ (h : Host) where
  -- `f"sha256:{sha256_text(stable_json(value))}"`
  unfoldable pub canonical_hash : Value → String
  canonical_hash v = "sha256:" <> h.sha256_hex (h.dumps v)

-- `isinstance(v, str) and v.startswith("sha256:") and len(v.removeprefix("sha256:")) == 64`
unfoldable pub is_hash : Value → Bool
is_hash (str s) = starts_with s "sha256:" && (count (removeprefix s "sha256:") =ℕ= 64)
is_hash _ = false

module _ (h : Host) where
  -- What `canonical_hash` returns has the form that the ledger asks of a hash.
  pub is_hash-canonical_hash : (v : Value) → is_hash (str (canonical_hash h v)) ≡ true
  unfolding is_hash canonical_hash
  is_hash-canonical_hash v = ground (arith, h.hex_length (h.dumps v))

  pub starts_with-canonical_hash : (v : Value) → starts_with (canonical_hash h v) "sha256:" ≡ true
  unfolding canonical_hash
  starts_with-canonical_hash v = refl

  -- The mark of an empty chain is no hash.
  pub canonical_hash-ne-genesis : (v : Value) → canonical_hash h v ≢ "GENESIS"
  unfolding canonical_hash
  canonical_hash-ne-genesis v e = false≢true (sym (ap (λ s. starts_with s "sha256:") e))

  pub is_nonempty-canonical_hash : (v : Value) → is_nonempty (canonical_hash h v) ≡ true
  unfolding canonical_hash
  is_nonempty-canonical_hash v = refl
