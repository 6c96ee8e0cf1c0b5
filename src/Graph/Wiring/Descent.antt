-- ===== src/Graph/Wiring/Descent.antt =====
-- What a position of the run still costs, and the step `check`.
use labmate.Common.{
  if◌then◌else◌, ℕ, ◌+◌, ◌*◌, ◌<◌, ◌≡◌, refl, false, Option, none, some, Text, arith, Option-cases,
  inl, inr, sym, ◌∙◌, is_empty, ap,
}
use mathlib.Core.Path.{subst}
use mathlib.Core.Option.{some-injective}
use labmate.Goals.{Tree, get_ready_goals}
use labmate.Graph.{Limits}
use labmate.Graph.Check.{Outcome, unchanged, deferred, finalized, check}
use labmate.Graph.Routing.{
  State, Node, to_plan, to_execute, to_check, to_reflect, to_approval, to_revise, to_end,
  is_awaiting_approval, commit_check, router,
}
use labmate.Graph.Wiring.{
  Settings, Place, at_execute, at_verify, at_check, at_reflect, at_approval, at_revise, at_end, Run,
  Position, Input, place_of, check_step,
}
use labmate.Graph.Wiring.Measure.{total_cost, IsMarked}
use labmate.Graph.Routing.Routes.{router_of_answer}
use labmate.Graph.Wiring.Edges.{IsAt, is_retryable, Chosen, router-Chosen, check-some_answer}

-- The steps that the run can still take.
abbrev pub potential : {Score : Type 0} → ℕ → Place → State Score → ℕ
potential most at_end s = 0
potential most at_revise s = 1
potential most at_reflect s = 8 * total_cost most s.goal_tree + 1
potential most at_approval s = 8 * total_cost most s.goal_tree + 1
potential most at_check s = 8 * total_cost most s.goal_tree + 2
potential most at_verify s = 8 * total_cost most s.goal_tree + 3
potential most at_execute s =
    8 * total_cost most s.goal_tree
    + (elim (get_ready_goals s.goal_tree) [ none ↦ 4 | some gs ↦ if is_empty gs then 4 else 0 ])
potential most _ s = 0

-- What is known of the run at each place.
abbrev pub IsGood : {Score : Type 0} → Limits → Place → Run Score → Type 0
IsGood l at_end r = Unit
IsGood l at_revise r = Unit
IsGood l at_reflect r = IsMarked r.core.goal_tree r.step_markers × IsAt (is_retryable l) r.core
IsGood l at_approval r =
    IsMarked r.core.goal_tree r.step_markers × IsAt (λ g. is_awaiting_approval g.status) r.core
IsGood l at_check r = IsMarked r.core.goal_tree r.step_markers
IsGood l at_verify r = IsMarked r.core.goal_tree r.step_markers
IsGood l at_execute r = IsMarked r.core.goal_tree r.step_markers
IsGood l _ r = ⊥

-- A step is down.
abbrev pub Descends : {Score : Type 0} → Limits → Place → Run Score → Position Score → Type 0
Descends l p r t =
    (potential l.max_goal_attempts t.place t.run.core < potential l.max_goal_attempts p r.core)
    × IsGood l t.place t.run

-- The edge that the router chose after `check`, which left the tree as it was.
routed :
    {Score : Type 0} (l : Limits) (r r' : Run Score) (n : Node)
    → IsMarked r.core.goal_tree r.step_markers
    → r'.core.goal_tree ≡ r.core.goal_tree
    → r'.step_markers ≡ r.step_markers
    → Chosen l r'.core n
    → Descends l at_check r (record { place = place_of n; run = r' })
unfolding place_of
routed l r r' to_reflect marks tree_is markers_is chosen = (
  omega (arith, ap (total_cost l.max_goal_attempts) tree_is),
  (rw (tree_is, markers_is) marks, chosen),
)
routed l r r' to_approval marks tree_is markers_is chosen = (
  omega (arith, ap (total_cost l.max_goal_attempts) tree_is),
  (rw (tree_is, markers_is) marks, chosen),
)
routed l r r' to_execute marks tree_is markers_is (g, gs, ready) = (
  rw ready (omega (arith, ap (total_cost l.max_goal_attempts) tree_is)),
  rw (tree_is, markers_is) marks,
)
routed l r r' to_revise marks tree_is markers_is chosen = (omega arith, tt)
routed l r r' to_end marks tree_is markers_is chosen = (omega arith, tt)
routed l r r' to_plan marks tree_is markers_is chosen = absurd chosen
routed l r r' to_check marks tree_is markers_is chosen = absurd chosen

outcome-Descends :
    {Score : Type 0} (l : Limits) (o : Outcome) (r : Run Score) (n : Node)
    → IsMarked r.core.goal_tree r.step_markers
    → ((tree : Tree) (answer : Text) (error : Option Text)
        → o ≡ finalized tree answer error
        → is_empty answer ≡ false)
    → router l (commit_check l o r.core) ≡ some n
    → Descends l at_check r
        (record { place = place_of n; run = record r { core = commit_check l o r.core } })
unfolding commit_check
outcome-Descends l unchanged r n marks answers e =
    routed l r _ n marks refl refl (router-Chosen l _ n e)
outcome-Descends l (deferred c) r n marks answers e =
    routed l r _ n marks refl refl (router-Chosen l _ n e)
outcome-Descends l (finalized tree answer error) r n marks answers e =
    let to_delivery = router_of_answer l _ answer refl (answers tree answer error refl) in
    let same : to_revise ≡ n = some-injective _ _ (sym to_delivery ∙ e) in
    subst
      (λ m. Descends l at_check r (record {
        place = place_of m;
        run = record r { core = commit_check l (finalized tree answer error) r.core };
      }))
      same (unfold place_of in (omega arith, tt))

module _ {Score : Type 0} (σ : Settings Score) where
  pub check_step-Descends :
      (i : Input Score) (r : Run Score) (t : Position Score)
      → IsMarked r.core.goal_tree r.step_markers
      → check_step σ i r ≡ some t
      → Descends σ.limits at_check r t
  check_step-Descends i r t marks e =
      elim (Option-cases (check σ.limits σ.shown i.now r.core.goal_tree)) [
        | inl raised ↦ absurd (unfold check_step in ground arith)
        | inr (o, checked) ↦
            elim (Option-cases (router σ.limits (commit_check σ.limits o r.core))) [
              | inl lost ↦ absurd (unfold check_step in ground arith)
              | inr (n, chosen) ↦
                  let same : record {
                    place = place_of n;
                    run = record r { core = commit_check σ.limits o r.core };
                  }
                      ≡ t =
                    unfold check_step in ground arith in
                  subst (Descends σ.limits at_check r) same (
                    outcome-Descends σ.limits o r n marks
                      (λ tree answer error is.
                        check-some_answer σ.limits σ.shown i.now r.core.goal_tree tree answer error
                          (checked ∙ ap some is))
                      chosen)
            ]
      ]
