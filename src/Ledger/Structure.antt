-- ===== src/Ledger/Structure.antt =====
-- Storing its hash in an event leaves it as well formed as it was.
use runtime_lab_core.Prelude.{
  String, ◌≡◌, refl, ◌∙◌, true, false, List, [], ◌∷◌, contains, ◌==◌, arith,
}
use runtime_lab_core.Json.{
  Value, null, bool, num, str, arr, obj, Fields, end, field, get, set, keys, get-set,
}
use runtime_lab_core.Ledger.Event.{
  base_event_fields, forbidden_event_fields, any_forbidden, any_unknown, required_error, all_hashes,
  required_receipts, event_required_receipt_hashes, required_strings, type_error,
  event_structure_error,
}

pub any_unknown-set :
    (k : String) (v : Value) (e : Fields)
    → contains base_event_fields k ≡ true
    → any_unknown (keys (set k v e)) ≡ any_unknown (keys e)
unfolding keys set
any_unknown-set k v end base = rw base refl
any_unknown-set k v (field j w r) base = ground (arith, any_unknown-set k v r base)

any_forbidden-set :
    (k : String) (v : Value) (e : Fields)
    → contains forbidden_event_fields k ≡ false
    → any_forbidden (keys (set k v e)) ≡ any_forbidden (keys e)
unfolding keys set
any_forbidden-set k v end allowed = rw allowed refl
any_forbidden-set k v (field j w r) allowed = ground (arith, any_forbidden-set k v r allowed)

pub get-set_ne :
    (k j : String) (v : Value) (e : Fields) → (j == k) ≡ false → get k (set j v e) ≡ get k e
get-set_ne k j v e differ = get-set k j v e ∙ rw differ refl

-- Setting a field changes no test of the others.
required_error-set :
    (j : String) (v : Value) (e : Fields) (ks : List String)
    → contains ks j ≡ false
    → required_error (set j v e) ks ≡ required_error e ks
required_error-set j v e [] _ = refl
required_error-set j v e (k ∷ ks) out =
    rw (get-set_ne k j v e (ground (arith, out)), required_error-set j v e ks (ground (arith, out)))
      refl

all_hashes-set :
    (j : String) (v : Value) (e : Fields) (ks : List String)
    → contains ks j ≡ false
    → all_hashes (set j v e) ks ≡ all_hashes e ks
all_hashes-set j v e [] _ = refl
all_hashes-set j v e (k ∷ ks) out =
    rw (get-set_ne k j v e (ground (arith, out)), all_hashes-set j v e ks (ground (arith, out)))
      refl

required_receipts-event_hash : (v : Value) → contains (required_receipts v) "event_hash" ≡ false
unfolding required_receipts event_required_receipt_hashes ◌==◌
required_receipts-event_hash (str t) = ground arith
required_receipts-event_hash null = refl
required_receipts-event_hash (bool _) = refl
required_receipts-event_hash (num _) = refl
required_receipts-event_hash (arr _) = refl
required_receipts-event_hash (obj _) = refl

type_error-set : (v : Value) (e : Fields) → type_error (set "event_hash" v e) ≡ type_error e
unfolding type_error ◌==◌
type_error-set v e =
    rw
      (
        get-set_ne "schema_version" "event_hash" v e refl,
        get-set_ne "event_type" "event_hash" v e refl,
        get-set_ne "descriptor_hash" "event_hash" v e refl,
        all_hashes-set "event_hash" v e (required_receipts (get "event_type" e))
            (required_receipts-event_hash _),
      )
      refl

event_hash_is_known :
    (contains base_event_fields "event_hash" ≡ true)
    × (contains forbidden_event_fields "event_hash" ≡ false)
    × (contains required_strings "event_hash" ≡ false)
unfolding base_event_fields forbidden_event_fields required_strings ◌==◌
event_hash_is_known = (refl, refl, refl)

-- Whether an event is well formed does not depend on the hash that it stores.
pub event_structure_error-set :
    (v : Value) (e : Fields)
    → event_structure_error (set "event_hash" v e) ≡ event_structure_error e
unfolding event_structure_error
event_structure_error-set v e =
    let (known, allowed, unread) = event_hash_is_known in
    ground (
      arith,
      any_forbidden-set "event_hash" v e allowed,
      any_unknown-set "event_hash" v e known,
      required_error-set "event_hash" v e required_strings unread,
      type_error-set v e,
    )
