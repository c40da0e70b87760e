-- ===== src/Replay/Matched.antt =====
-- What it is that the events and the receipts of a replay agree with the expected state.
use runtime_lab_core.Prelude.{String, ◌≡◌, true, ◌||◌, List, [], ◌∷◌, All}
use runtime_lab_core.Json.{Fields, get}
use runtime_lab_core.Json.Access.{fields_of}
use runtime_lab_core.Json.Equality.{same_value}
use runtime_lab_core.Replay.Checks.{is_none, event_agrees, passes, graph_checks}

-- What an event may name: nothing that differs from the state.
abbrev pub event_fields : List String
event_fields =
    "task_id" ∷ "descriptor_hash" ∷ "authority_receipt_hash" ∷ "workspace_transaction_receipt_hash"
    ∷ "artifact_receipt_hash" ∷ "executor_receipt_hash" ∷ "validation_receipt_hash" ∷ []

abbrev pub NamesNothingElse : Fields → Fields → Type 0
NamesNothingElse expected event = All (λ k. event_agrees k event expected ≡ true) event_fields

-- A receipt of the graph, read as empty where there is none, has under `k` what the state has under `j`.
abbrev pub Names : Fields → Fields → String → String → String → Type 0
Names graph expected receipt k j =
    same_value (get k (fields_of (get receipt graph))) (get j expected) ≡ true

-- The same, or it has nothing there.
abbrev pub MayName : Fields → Fields → String → String → String → Type 0
MayName graph expected receipt k j =
    is_none (get k (fields_of (get receipt graph)))
      || same_value (get k (fields_of (get receipt graph))) (get j expected)
    ≡ true

-- The receipt names the task and the descriptor of the state, if any.
abbrev pub OfTask : Fields → Fields → String → Type 0
OfTask graph expected receipt =
    MayName graph expected receipt "task_id" "task_id"
    × MayName graph expected receipt "descriptor_hash" "descriptor_hash"

-- The receipts agree with the state, and so with each other.
pub record IsMatched (graph expected : Fields) : Type 0 where
  pub of_authority : Names graph expected "authority" "receipt_hash" "authority_receipt_hash"
  pub of_workspace :
      Names graph expected "workspace_transaction" "transaction_hash"
        "workspace_transaction_receipt_hash"
  pub of_artifact : Names graph expected "artifact" "receipt_hash" "artifact_receipt_hash"
  pub of_content : Names graph expected "artifact" "content_hash" "artifact_content_hash"
  pub of_executor : Names graph expected "executor" "receipt_hash" "executor_receipt_hash"
  pub of_output : Names graph expected "executor" "content_hash" "executor_output_hash"
  pub of_validation : MayName graph expected "validation" "receipt_hash" "validation_receipt_hash"
  pub tasks :
      OfTask graph expected "authority"
      × OfTask graph expected "workspace_transaction"
      × OfTask graph expected "artifact"
      × OfTask graph expected "executor"
  pub under_authority :
      MayName graph expected "workspace_transaction" "authority_receipt_hash"
        "authority_receipt_hash"
      × MayName graph expected "artifact" "authority_receipt_hash" "authority_receipt_hash"
      × MayName graph expected "executor" "authority_receipt_hash" "authority_receipt_hash"
  pub under_workspace :
      MayName graph expected "artifact" "workspace_transaction_receipt_hash"
        "workspace_transaction_receipt_hash"
      × MayName graph expected "executor" "workspace_transaction_receipt_hash"
          "workspace_transaction_receipt_hash"
  pub under_artifact :
      MayName graph expected "executor" "artifact_receipt_hash" "artifact_receipt_hash"
  pub under_executor :
      MayName graph expected "validation" "executor_receipt_hash" "executor_receipt_hash"

pub passes-IsMatched :
    (graph expected : Fields)
    → All (λ check. passes check graph expected ≡ true) graph_checks
    → IsMatched graph expected
passes-IsMatched graph expected
      (
        a,
        (
          at,
          (
            ad,
            (
              w,
              (
                wa,
                (
                  wt,
                  (
                    wd,
                    (
                      r,
                      (
                        ra,
                        (
                          rs,
                          (rc, (rt, (rd, (e, (ea, (ew, (er, (eo, (et, (ed, (v, (ve, _)))))))))))),
                        ),
                      ),
                    ),
                  ),
                ),
              ),
            ),
          ),
        ),
      ) =
    record {
      of_authority = a;
      of_workspace = w;
      of_artifact = r;
      of_content = rc;
      of_executor = e;
      of_output = eo;
      of_validation = v;
      tasks = ((at, ad), (wt, wd), (rt, rd), (et, ed));
      under_authority = (wa, ra, ea);
      under_workspace = (rs, ew);
      under_artifact = er;
      under_executor = ve;
    }

pub IsMatched-passes :
    (graph expected : Fields)
    → IsMatched graph expected
    → All (λ check. passes check graph expected ≡ true) graph_checks
IsMatched-passes graph expected m =
    let ((at, ad), (wt, wd), (rt, rd), (et, ed)) = m.tasks in
    let (wa, ra, ea) = m.under_authority in
    let (rs, ew) = m.under_workspace in
    (
      m.of_authority,
      (
        at,
        (
          ad,
          (
            m.of_workspace,
            (
              wa,
              (
                wt,
                (
                  wd,
                  (
                    m.of_artifact,
                    (
                      ra,
                      (
                        rs,
                        (
                          m.of_content,
                          (
                            rt,
                            (
                              rd,
                              (
                                m.of_executor,
                                (
                                  ea,
                                  (
                                    ew,
                                    (
                                      m.under_artifact,
                                      (
                                        m.of_output,
                                        (et, (ed, (m.of_validation, (m.under_executor, tt)))),
                                      ),
                                    ),
                                  ),
                                ),
                              ),
                            ),
                          ),
                        ),
                      ),
                    ),
                  ),
                ),
              ),
            ),
          ),
        ),
      ),
    )
