-- ===== src/Graph/Routing/Routes.antt =====
-- Where the run goes after `check`.
use labmate.Common.{
  ℕ, ◌≡◌, ◌≢◌, refl, Bool, true, false, ◌||◌, Option, some, List, [], ◌∷◌, if◌then◌else◌, Text,
  codes, is_empty, lookup, any, all, arith, Option-cases, Bool-cases, inl, inr, ◌∙◌, text_eq,
}
use labmate.Goals.{Goal, Tree, is_failed}
use mathlib.Core.Path.{subst}
use labmate.Goals.Ready.{IsClosed, IsEligible, HasEligible, get_ready_goals-Selects}
use labmate.Graph.{Limits}
use labmate.Graph.Traversal.{descendants}
use labmate.Graph.Check.{
  root_children, holds_of, retryable_failed, ended, Outcome, deferred, finalized, decide, check,
}
use labmate.Graph.Check.Finalize.{Reports, decide_defers, decide_finalizes}
use labmate.Graph.Routing.{
  State, Node, to_reflect, to_revise, to_approval, to_execute, is_awaiting_approval, to_end,
  is_truthy, commit_check, router,
}

check_decides :
    (l : Limits) (shown : ℕ → Text) (now : Text) (tree : Tree) (children : List Text)
    → descendants tree (root_children tree) ≡ some children
    → check l shown now tree ≡ decide l shown now tree children
unfolding check
check_decides l shown now tree children e = rw e

holds_of-some :
    (test : Goal → Bool) (tree : Tree) (c : Text)
    → holds_of test tree c ≡ true
    → (g : Goal) × (lookup c tree ≡ some g) × (test g ≡ true)
unfolding holds_of
holds_of-some test tree c h = elim (Option-cases (lookup c tree)) [
  | inl missing ↦ absurd (ground arith)
  | inr (g, found) ↦ (g, found, ground arith)
]

HasEligible-ne_nil :
    (tree entries : Tree) (gs : List Goal) (k : Text) (g : Goal)
    → HasEligible tree entries gs
    → lookup k entries ≡ some g
    → IsEligible tree g
    → is_empty gs ≡ false
unfolding lookup
HasEligible-ne_nil tree [] gs k g h e eligible = cc
HasEligible-ne_nil tree ((j, x) ∷ rest) [] k g h e eligible = elim (Bool-cases (text_eq k j)) [
  | inl t ↦
      let same : g ≡ x = ground arith in absurd (h.0 (subst (λ y. IsEligible tree y) same eligible))
  | inr f ↦ HasEligible-ne_nil tree rest [] k g h.1 (ground arith) eligible
]
HasEligible-ne_nil tree ((j, x) ∷ rest) (y ∷ gs) k g h e eligible = refl

pub router_of_answer :
    {Score : Type 0} (l : Limits) (s : State Score) (answer : Text)
    → s.final_answer ≡ some answer
    → is_empty answer ≡ false
    → router l s ≡ some to_revise
unfolding router is_truthy
router_of_answer l s answer e h = ground arith

module _ {Score : Type 0} (l : Limits) (shown : ℕ → Text) (now : Text) where
  router_of_failed :
      (s : State Score) (c : Text) (g : Goal)
      → is_truthy s.final_answer ≡ false
      → s.current_goal_id ≡ some c
      → lookup c s.goal_tree ≡ some g
      → retryable_failed l g ≡ true
      → router l s ≡ some to_reflect
  unfolding router
  router_of_failed s c g no_answer current found h = ground arith

  -- While a descendant of the root is FAILED with attempts left and there is no answer yet, the
  -- run goes from `check` to `reflect`, with such a descendant as the current goal and the goals
  -- unchanged.
  pub retryable_failure_is_reflected :
      (s : State Score) (children : List Text)
      → is_truthy s.final_answer ≡ false
      → descendants s.goal_tree (root_children s.goal_tree) ≡ some children
      → any (holds_of (retryable_failed l) s.goal_tree) children ≡ true
      → (o : Outcome) × (check l shown now s.goal_tree ≡ some o)
        × (router l (commit_check l o s) ≡ some to_reflect)
        × ((commit_check l o s).goal_tree ≡ s.goal_tree)
        × (c : Text) × ((commit_check l o s).current_goal_id ≡ some c)
        × (holds_of (retryable_failed l) s.goal_tree c ≡ true)
  unfolding commit_check
  retryable_failure_is_reflected s children no_answer below h =
      let (c, defers, retryable, _) = decide_defers l shown now s.goal_tree children h in
      let (g, found, good) = holds_of-some (retryable_failed l) s.goal_tree c retryable in
      (
        deferred c,
        check_decides l shown now s.goal_tree children below ∙ defers,
        router_of_failed (record s { current_goal_id = some c }) c g no_answer refl found good,
        refl,
        c,
        refl,
        retryable,
      )

  -- Where the root is there and has a descendant, every descendant has ended or one has failed, and
  -- no failed one has attempts left, the run goes from `check` to `revise`. The answer is not empty;
  -- the root holds it as its result and is FAILED exactly if a descendant is, COMPLETED otherwise;
  -- and an error is set exactly if a descendant is FAILED.
  pub finished_run_is_delivered :
      (s : State Score) (children : List Text) (root : Goal)
      → lookup (codes "root") s.goal_tree ≡ some root
      → descendants s.goal_tree (root_children s.goal_tree) ≡ some children
      → is_empty children ≡ false
      → any (holds_of (retryable_failed l) s.goal_tree) children ≡ false
      → (all (holds_of ended s.goal_tree) children
          || any (holds_of (λ g. is_failed g.status) s.goal_tree) children)
        ≡ true
      → (tree' : Tree) × (answer : Text) × (error : Option Text) × (check l shown now s.goal_tree
          ≡ some (finalized tree' answer error))
        × Reports s.goal_tree children root now tree' answer error
        × (router l (commit_check l (finalized tree' answer error) s) ≡ some to_revise)
  finished_run_is_delivered s children root e below some_child no_retry over =
      let (tree', answer, error, done, good) =
        decide_finalizes l shown now s.goal_tree children root e some_child no_retry over in
      (
        tree',
        answer,
        error,
        check_decides l shown now s.goal_tree children below ∙ done,
        good,
        unfold commit_check in router_of_answer l _ answer refl good.some_answer,
      )

module _ {Score : Type 0} (l : Limits) where
  -- On a tree with no dangling child id and no answer yet, the router raises nothing, and it never
  -- ends the run at a known goal while some goal is PENDING with all its children COMPLETED.
  pub router_keeps_going :
      (s : State Score) (gid : Text) (g : Goal) (k : Text) (ready : Goal)
      → IsClosed s.goal_tree
      → is_truthy s.final_answer ≡ false
      → s.current_goal_id ≡ some gid
      → lookup gid s.goal_tree ≡ some g
      → lookup k s.goal_tree ≡ some ready
      → IsEligible s.goal_tree ready
      → (n : Node) × (router l s ≡ some n) × (n ≢ to_end)
  unfolding router
  router_keeps_going s gid g k ready closed no_answer current found known eligible =
      let (gs, is_some, good) = get_ready_goals-Selects s.goal_tree closed in
      let n : Node =
        if retryable_failed l g
        then to_reflect
        else if is_awaiting_approval g.status
        then to_approval
        else to_execute in
      (
        n,
        ground (arith, HasEligible-ne_nil s.goal_tree s.goal_tree gs k ready good.1 known eligible),
        ground arith,
      )
