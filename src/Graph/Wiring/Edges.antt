-- ===== src/Graph/Wiring/Edges.antt =====
-- What the router saw when it chose an edge, and the answer of `check`.
use labmate.Common.{
  ℕ, ◌≡◌, Bool, true, false, ◌&&◌, Option, some, List, [], ◌∷◌, Text, lookup, arith, ltb,
  Option-cases, Bool-cases, inl, inr, is_empty, ◌>>=◌,
}
use mathlib.Core.Path.{subst}
use labmate.Goals.{Goal, Tree, get_ready_goals, is_failed}
use labmate.Graph.{Limits}
use labmate.Graph.Check.{finalized, check, decide, finalize, select, holds_of, root_children}
use labmate.Graph.Check.Finalize.{final_answer_of-ne_nil}
use labmate.Graph.Routing.{
  State, Node, to_execute, to_reflect, to_approval, to_revise, to_end, is_truthy,
  is_awaiting_approval, router,
}
use labmate.Graph.Traversal.{descendants}

-- The current goal and what is known of it.
abbrev pub IsAt : {Score : Type 0} → (Goal → Bool) → State Score → Type 0
IsAt test s =
    (gid : Text) × (g : Goal) × (s.current_goal_id ≡ some gid)
    × (lookup gid s.goal_tree ≡ some g)
    × (test g ≡ true)

abbrev pub is_retryable : Limits → Goal → Bool
is_retryable l g = is_failed g.status && ltb g.attempts l.max_goal_attempts

-- What the router saw when it chose an edge.
abbrev pub Chosen : {Score : Type 0} → Limits → State Score → Node → Type 0
Chosen l s to_reflect = IsAt (is_retryable l) s
Chosen l s to_approval = IsAt (λ g. is_awaiting_approval g.status) s
Chosen l s to_execute =
    (g : Goal) × (gs : List Goal) × (get_ready_goals s.goal_tree ≡ some (g ∷ gs))
Chosen l s to_revise = Unit
Chosen l s to_end = Unit
Chosen l s _ = ⊥

router-ready :
    {Score : Type 0} (l : Limits) (s : State Score) (n : Node)
    → (get_ready_goals s.goal_tree >>= λ ready.
        some (elim ready [ [] ↦ to_end | _ ∷ _ ↦ to_execute ]))
      ≡ some n
    → Chosen l s n
router-ready l s n e = elim (Option-cases (get_ready_goals s.goal_tree)) [
  | inl raised ↦ absurd (ground arith)
  | inr (gs, ready) ↦ from_list gs ready
]
  where
    from_list : (gs : List Goal) → get_ready_goals s.goal_tree ≡ some gs → Chosen l s n
    from_list [] ready = let same : to_end ≡ n = ground arith in subst (Chosen l s) same tt
    from_list (g ∷ gs) ready =
        let same : to_execute ≡ n = ground arith in subst (Chosen l s) same (g, gs, ready)

pub router-Chosen :
    {Score : Type 0} (l : Limits) (s : State Score) (n : Node) → router l s ≡ some n → Chosen l s n
router-Chosen l s n e = elim (Bool-cases (is_truthy s.final_answer)) [
  | inl answered ↦
      let same : to_revise ≡ n = unfold router in ground arith in subst (Chosen l s) same tt
  | inr open_answer ↦ elim (Option-cases s.current_goal_id) [
    | inl no_goal ↦
        let same : to_end ≡ n = unfold router in ground arith in subst (Chosen l s) same tt
    | inr (gid, current) ↦ elim (Option-cases (lookup gid s.goal_tree)) [
      | inl missing ↦
          let same : to_end ≡ n = unfold router in ground arith in subst (Chosen l s) same tt
      | inr (g, found) ↦ elim (Bool-cases (is_retryable l g)) [
        | inl retry ↦
            let same : to_reflect ≡ n = unfold router in ground arith in
            subst (Chosen l s) same (gid, g, current, found, retry)
        | inr no_retry ↦ elim (Bool-cases (is_awaiting_approval g.status)) [
          | inl awaiting ↦
              let same : to_approval ≡ n = unfold router in ground arith in
              subst (Chosen l s) same (gid, g, current, found, awaiting)
          | inr settled ↦
              let from_ready : (do
                ready ← get_ready_goals s.goal_tree
                some (elim ready [ [] ↦ to_end | _ ∷ _ ↦ to_execute ]))
                  ≡ some n =
                unfold router in ground arith in
              router-ready l s n from_ready
        ]
      ]
    ]
  ]
]

finalize-some_answer :
    (l : Limits) (shown : ℕ → Text) (now : Text) (tree : Tree) (children : List Text) (tree' : Tree)
    (answer : Text) (error : Option Text)
    → finalize l shown now tree children ≡ some (finalized tree' answer error)
    → is_empty answer ≡ false
unfolding finalize
finalize-some_answer l shown now tree children tree' answer error e = ground (
  arith,
  final_answer_of-ne_nil tree children (select (holds_of (λ g. is_failed g.status) tree) children),
)

decide-some_answer :
    (l : Limits) (shown : ℕ → Text) (now : Text) (tree : Tree) (children : List Text) (tree' : Tree)
    (answer : Text) (error : Option Text)
    → decide l shown now tree children ≡ some (finalized tree' answer error)
    → is_empty answer ≡ false
unfolding decide
decide-some_answer l shown now tree children tree' answer error e =
    ground (arith, finalize-some_answer l shown now tree children tree' answer error)

pub check-some_answer :
    (l : Limits) (shown : ℕ → Text) (now : Text) (tree tree' : Tree) (answer : Text)
    (error : Option Text)
    → check l shown now tree ≡ some (finalized tree' answer error)
    → is_empty answer ≡ false
unfolding check
check-some_answer l shown now tree tree' answer error e =
    elim (Option-cases (descendants tree (root_children tree))) [
      | inl raised ↦ absurd (ground arith)
      | inr (children, below) ↦
          decide-some_answer l shown now tree children tree' answer error (ground arith)
    ]
