-- ===== src/Tests/Fixtures.antt =====
-- A machine, requests and logs for the tests.
use runtime_lab_core.Prelude.{
  String, ◌≡◌, sym, ap, ◌∙◌, refl, true, false, none, some, List, [], ◌∷◌, ◌<>◌,
}
use runtime_lab_core.Json.{Value, null, bool, num, arr, obj, str, dict, get}
use runtime_lab_core.Hash.Chain.{IsReadBack}
use runtime_lab_core.Hash.{Host}
use runtime_lab_core.AgentLoop.Models.{
  AgentLoopRequest, supervised_apply, request_for, AgentLoopAuthority, authority_for,
}
use runtime_lab_core.AgentLoop.Policy.{Patterns}
use runtime_lab_core.AgentLoop.StateMachine.{Item, pair}
use runtime_lab_core.AgentLoop.Supervisor.{StepResult, Calls}

abbrev text_of : Value → String
text_of (str s) = s
text_of _ = ""

-- A text that tells a text from any other value.
abbrev mark : Value → String
mark (str s) = String.◌∷◌ "s" s
mark _ = ""

mark_injective : (v : Value) (s : String) → mark v ≡ mark (str s) → v ≡ str s
mark_injective (str t) s e = cc
mark_injective null s e = absurd cc
mark_injective (bool _) s e = absurd cc
mark_injective (num _) s e = absurd cc
mark_injective (arr _) s e = absurd cc
mark_injective (obj _) s e = absurd cc

abbrev written : String → Value → String
written k (obj a) = mark (get k a)
written k _ = ""

-- A machine whose texts of mappings show what is under one key. Its hash has 64 digits: that it is the same for every
-- text does not matter to the tests.
abbrev pub host_with : String → Host
host_with k = record {
  sha256_hex = λ _. "0123456789abcdef0123456789abcdef0123456789abcdef0123456789abcdef";
  hex_length = λ _. refl;
  dumps = written k;
  to_str = text_of;
  to_str-str = λ _. refl;
}

abbrev pub host : Host
host = host_with "previous_event_hash"

pub host_with-IsReadBack : (k : String) → IsReadBack (host_with k) k
host_with-IsReadBack k a b s e at = mark_injective (get k b) s (sym e ∙ ap mark at)

-- Regular expressions that find nothing.
abbrev pub no_matches : Patterns
no_matches = record {
  secret_like = λ _. false;
  unbounded = λ _. false;
  scope_escalation = λ _. false;
  model_tool_call = λ _. false;
}

abbrev pub authority : AgentLoopAuthority
authority = authority_for "task-1" "alice"

-- A supervised run with an approval.
abbrev pub approved_request : AgentLoopRequest
approved_request =
    let base = request_for "task-1" "run-1" supervised_apply "Fix the typo." in
    record base { approval_packet = some (dict (("approval_id", str "a-1") ∷ [])) }

abbrev accepted_step : String → StepResult
accepted_step name = record {
  accepted = true;
  rejection_codes = none;
  receipt_hash = "sha256:" <> name;
  artifact_hash = "sha256:artifact-" <> name;
  artifact_path = "/runs/" <> name;
  performed = true;
}

abbrev pub all_go_well : Calls
all_go_well = record {
  context = accepted_step "read" ∷ [];
  proposal = accepted_step "proposal";
  patch_apply = accepted_step "apply";
  test = accepted_step "tests";
  raises = λ _. none;
  utc_now = "2026-01-01T00:00:00Z";
  workspace_root_hash = "sha256:root";
  policy_hash = "sha256:policy";
}

-- The first two transitions of a run.
abbrev pub two_items : List Item
two_items = pair "TASK_RECEIVED" "check_authority" ∷ pair "AUTHORITY_CHECKED" "create_plan" ∷ []
