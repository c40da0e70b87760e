-- ===== src/AgentLoop/StateMachine/Order.antt =====
-- The order that the transition table imposes: which lists of transitions are accepted, that a log is
-- short, and that a patch is never applied before a human approval was verified.
use mathlib.Core.Bool.{false≢true}
use mathlib.Core.Path.{subst, ap, ◌∙◌}
use runtime_lab_core.Prelude.{
  ℕ, ◌+◌, ◌≤◌, ◌<◌, String, ◌≡◌, sym, ◌≢◌, ◌⊎◌, inl, inr, some, Bool, true, not, ◌||◌, List, [],
  ◌∷◌, ◌++◌, length, ok, lookup, lookup-Among, map, Bool-cases, Among, All, All-Among, Option-cases,
  ◌==◌, ==_iff, ==_refl, arith, if◌then◌else◌,
}
use runtime_lab_core.AgentLoop.StateMachine.{
  transitions, next_state, Item, pair, triple, check_item,
}

-- The table as a list of edges: state, transition and target.
abbrev row_edges : String → List (String × String) → List (String × (String × String))
row_edges s [] = []
row_edges s (e ∷ r) = (s, e) ∷ row_edges s r

abbrev table_edges : List (String × List (String × String)) → List (String × (String × String))
table_edges [] = []
table_edges ((s, row) ∷ r) = row_edges s row ++ table_edges r

Among-append_left : {A : Type 0} (a : A) (xs ys : List A) → Among a xs → Among a (xs ++ ys)
Among-append_left a (x ∷ xs) ys (inl here) = inl here
Among-append_left a (x ∷ xs) ys (inr there) = inr (Among-append_left a xs ys there)
Among-append_left a [] ys m = absurd m

Among-append_right : {A : Type 0} (a : A) (xs ys : List A) → Among a ys → Among a (xs ++ ys)
Among-append_right a [] ys m = m
Among-append_right a (x ∷ xs) ys m = inr (Among-append_right a xs ys m)

Among-row_edges :
    (s : String) (e : String × String) (row : List (String × String))
    → Among e row
    → Among (s, e) (row_edges s row)
Among-row_edges s e (x ∷ row) (inl here) = inl (ap (λ x. (s, x)) here)
Among-row_edges s e (x ∷ row) (inr there) = inr (Among-row_edges s e row there)
Among-row_edges s e [] m = absurd m

Among-table_edges :
    (s : String) (row : List (String × String)) (e : String × String)
    (table : List (String × List (String × String)))
    → Among (s, row) table
    → Among e row
    → Among (s, e) (table_edges table)
Among-table_edges s row e ((s', row') ∷ r) (inl here) m =
    subst (λ p. Among (s, e) (row_edges p.0 p.1 ++ table_edges r)) here
      (Among-append_left (s, e) (row_edges s row) (table_edges r) (Among-row_edges s e row m))
Among-table_edges s row e ((s', row') ∷ r) (inr there) m =
    Among-append_right (s, e) (row_edges s' row') (table_edges r)
      (Among-table_edges s row e r there m)
Among-table_edges s row e [] m _ = absurd m

-- A transition that the table allows is one of its edges.
next_state-Among :
    (s t u : String) → next_state s t ≡ ok u → Among (s, (t, u)) (table_edges transitions)
unfolding next_state
next_state-Among s t u e = elim (Option-cases (lookup s transitions)) [
  | inl unknown ↦ absurd (ground arith)
  | inr (row, found) ↦ elim (Option-cases (lookup t row)) [
    | inl unknown ↦ absurd (ground arith)
    | inr (v, at) ↦
        let same : v ≡ u = ground arith in
        Among-table_edges s row (t, u) transitions (lookup-Among s row transitions found)
          (lookup-Among t u row (at ∙ ap some same))
  ]
]

-- How far along the table a state stands.
abbrev position : String → List (String × List (String × String)) → ℕ
position s [] = 0
position s ((k, _) ∷ r) = if k == s then 0 else position s r + 1

unfoldable pub rank : String → ℕ
rank s = position s transitions

-- Every edge leads on, and none leads past the last state.
edges_ascend : All (λ e. (rank e.0 < rank e.1.1) × (rank e.1.1 ≤ 14)) (table_edges transitions)
unfolding rank ◌==◌
edges_ascend = omega arith

next_state-rank : (s t u : String) → next_state s t ≡ ok u → (rank s < rank u) × (rank u ≤ 14)
next_state-rank s t u e =
    All-Among (λ e. (rank e.0 < rank e.1.1) × (rank e.1.1 ≤ 14)) (s, (t, u))
      (table_edges transitions) edges_ascend (next_state-Among s t u e)

-- Only the verification of an approval leads to the state from which a patch may be applied.
abbrev approves : String × (String × String) → Bool
approves (s, (t, u)) = not (u == "HUMAN_APPROVAL_VERIFIED") || t == "verify_human_approval"

edges_approve : All (λ e. approves e ≡ true) (table_edges transitions)
unfolding ◌==◌
edges_approve = ground arith

next_state-approves :
    (s t : String) → next_state s t ≡ ok "HUMAN_APPROVAL_VERIFIED" → t ≡ "verify_human_approval"
next_state-approves s t e =
    let edge : (not ("HUMAN_APPROVAL_VERIFIED" == "HUMAN_APPROVAL_VERIFIED")
          || t == "verify_human_approval")
        ≡ true =
      All-Among (λ e. approves e ≡ true) (s, (t, "HUMAN_APPROVAL_VERIFIED"))
        (table_edges transitions) edges_approve (next_state-Among s t _ e) in
    ground (arith, edge, ==_iff t "verify_human_approval", ==_refl "HUMAN_APPROVAL_VERIFIED")

abbrev starts_apply : String × (String × String) → Bool
starts_apply (s, (t, u)) = not (t == "start_patch_apply") || s == "HUMAN_APPROVAL_VERIFIED"

edges_start_apply : All (λ e. starts_apply e ≡ true) (table_edges transitions)
unfolding ◌==◌
edges_start_apply = ground arith

next_state-starts_apply :
    (s u : String) → next_state s "start_patch_apply" ≡ ok u → s ≡ "HUMAN_APPROVAL_VERIFIED"
next_state-starts_apply s u e =
    let edge : (not ("start_patch_apply" == "start_patch_apply") || s == "HUMAN_APPROVAL_VERIFIED")
        ≡ true =
      All-Among (λ e. starts_apply e ≡ true) (s, ("start_patch_apply", u)) (table_edges transitions)
        edges_start_apply (next_state-Among s _ u e) in
    ground (arith, edge, ==_iff s "HUMAN_APPROVAL_VERIFIED", ==_refl "start_patch_apply")

-- The items name a walk through the table that begins at the state.
abbrev pub IsWalk : String → List Item → Type 0
IsWalk current [] = Unit
IsWalk current (item ∷ items) =
    (t u : String) × ((item ≡ pair current t) ⊎ (item ≡ triple current t u))
    × (next_state current t ≡ ok u)
    × IsWalk u items

-- The transition that an item asks for.
abbrev pub transition_of : Item → String
transition_of (pair _ t) = t
transition_of (triple _ t _) = t

pub check_item-IsStep :
    (c : String) (item : Item) (t u : String)
    → check_item c item ≡ ok (t, u)
    → ((item ≡ pair c t) ⊎ (item ≡ triple c t u)) × (next_state c t ≡ ok u)
unfolding check_item
check_item-IsStep c (pair s t') t u e = ground (arith, ==_iff s c)
check_item-IsStep c (triple s t' u') t u e = grind (arith, ==_iff s c, ==_iff)

pub check_item_of_step :
    (c : String) (item : Item) (t u : String)
    → (item ≡ pair c t) ⊎ (item ≡ triple c t u)
    → next_state c t ≡ ok u
    → check_item c item ≡ ok (t, u)
unfolding check_item
check_item_of_step c item t u (inl i) e = rw (i, e) (ground (arith, e, ==_refl c, ==_refl u))
check_item_of_step c item t u (inr i) e =
    rw (i, check_item) (ground (arith, e, ==_refl c, ==_refl u))

transition_of_step :
    (c : String) (item : Item) (t u : String)
    → (item ≡ pair c t) ⊎ (item ≡ triple c t u)
    → transition_of item ≡ t
transition_of_step c item t u (inl i) = ap transition_of i
transition_of_step c item t u (inr i) = ap transition_of i

pub walk_length :
    (s : String) (items : List Item) → IsWalk s items → rank s ≤ 14 → length items + rank s ≤ 14
walk_length s [] w h = omega arith
walk_length s (item ∷ items) (t, u, _, e, w) h =
    omega (arith, walk_length u items w (next_state-rank s t u e).1, next_state-rank s t u e)

pub walk_approved :
    (s : String) (before : List Item) (item : Item) (after : List Item)
    → s ≢ "HUMAN_APPROVAL_VERIFIED"
    → transition_of item ≡ "start_patch_apply"
    → IsWalk s (before ++ (item ∷ after))
    → Among "verify_human_approval" (map transition_of before)
walk_approved s [] item after h start (t, u, i, e, w) =
    let asked : t ≡ "start_patch_apply" = sym (transition_of_step s item t u i) ∙ start in
    absurd (h (next_state-starts_apply s u (subst (λ x. next_state s x ≡ ok u) asked e)))
walk_approved s (b ∷ before) item after h start (t, u, i, e, w) =
    elim (Bool-cases (u == "HUMAN_APPROVAL_VERIFIED")) [
      | inl same ↦
          let at = (==_iff u "HUMAN_APPROVAL_VERIFIED").0 same in
          let verifies = next_state-approves s t (subst (λ x. next_state s t ≡ ok x) at e) in
          inl (sym (transition_of_step s b t u i ∙ verifies))
      | inr other ↦
          let elsewhere = λ (p : u ≡ "HUMAN_APPROVAL_VERIFIED").
            false≢true (sym other ∙ (==_iff u "HUMAN_APPROVAL_VERIFIED").1 p) in
          inr (walk_approved u before item after elsewhere start w)
    ]
