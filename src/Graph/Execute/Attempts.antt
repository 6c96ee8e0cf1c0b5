-- ===== src/Graph/Execute/Attempts.antt =====
-- The attempts of failed goals: what bounds the retries.
use labmate.Common.{
  ℕ, ◌+◌, ◌-◌, ◌≤◌, ◌<◌, ◌≡◌, refl, false, ◌||◌, some, List, [], ◌∷◌, if◌then◌else◌, Text, lookup,
  insert, arith, text_eq, lookup-insert, lookup-insert_self, insert-insert_self, Option-cases, inl,
  inr, codes, ◌++◌, is_empty, ◌∙◌, ap, sym,
}
use mathlib.Core.Option.{some-injective}
use labmate.Goals.{completed, failed, Goal, Tree, update_status}
use labmate.Errors.{ErrorClass, classify_error}
use labmate.Graph.{Limits, classify_artifact}
use labmate.Graph.Execute.{
  WorkerResult, Progress, attempts_after, is_marked, apply_failure, apply_success, apply_result,
  apply_results, class_value,
}

-- A goal with attempts left has fewer left after a failure of any class, and none after a terminal
-- one.
pub attempts_after_bounds :
    (l : Limits) (cls : ErrorClass) (prior : ℕ)
    → prior < l.max_goal_attempts
    → (prior < attempts_after l cls prior) × (attempts_after l cls prior ≤ l.max_goal_attempts)
unfolding attempts_after
attempts_after_bounds l cls prior h = ground arith

-- The retries that the goals of the tree have left.
unfoldable pub retries_left : ℕ → Tree → ℕ
retries_left most [] = 0
retries_left most ((k, g) ∷ rest) = (most - g.attempts) + retries_left most rest

retries_left-insert :
    (most : ℕ) (k : Text) (g g' : Goal) (tree : Tree)
    → lookup k tree ≡ some g
    → retries_left most (insert k g' tree) + (most - g.attempts)
      ≡ retries_left most tree + (most - g'.attempts)
unfolding retries_left lookup insert
retries_left-insert most k g g' [] e = cc
retries_left-insert most k g g' ((j, w) ∷ rest) e =
    ground (arith, retries_left-insert most k g g' rest)

attempts_after_le :
    (l : Limits) (cls : ErrorClass) (prior : ℕ)
    → l.max_goal_attempts - attempts_after l cls prior ≤ l.max_goal_attempts - prior
unfolding attempts_after
attempts_after_le l cls prior = ground arith

module _ (lower : Text → Text) (l : Limits) (now : Text) where
  -- The goal of a failed result, after it.
  abbrev pub failed_goal : Goal → WorkerResult → Goal
  failed_goal g r =
      let cls = classify_error lower (some r.summary) in
      record g {
        error_class = some (class_value cls);
        attempts = attempts_after l cls g.attempts;
        status = failed;
        updated_at = some now;
        result = some r.summary;
        error = some r.summary;
      }

  pub apply_failure-known :
      (p : Progress) (r : WorkerResult) (g : Goal)
      → lookup r.id p.tree ≡ some g
      → apply_failure lower l now p r
        ≡ some (record p {
          tree = insert r.id (failed_goal g r) p.tree;
          error_class_seen = some (classify_error lower (some r.summary));
        })
  unfolding apply_failure update_status
  apply_failure-known p r g e = rw (e, lookup-insert_self {V = Goal}, insert-insert_self {V = Goal})

  pub apply_success-known :
      (p : Progress) (r : WorkerResult) (g : Goal)
      → lookup r.id p.tree ≡ some g
      → (p' : Progress) × (apply_success lower l now p r ≡ some p')
        × (p'.tree
            ≡ insert r.id
                (record g { status = completed; updated_at = some now; result = some r.summary })
                p.tree)
        × (p'.markers ≡ insert r.id (codes "completed") p.markers)
  unfolding apply_success update_status
  apply_success-known p r g e = (
    record p {
      tree =
          insert r.id
            (record g { status = completed; updated_at = some now; result = some r.summary })
            p.tree;
      markers = insert r.id (codes "completed") p.markers;
      last_artifact =
          if is_empty r.summary
          then p.last_artifact
          else record { kind = classify_artifact r.summary; payload = r.summary };
      tools = p.tools ++ r.tools_used;
      tests_passed = p.tests_passed || r.tests_passed;
    },
    rw e,
    refl,
    refl,
  )

  -- A failed result of a goal that is not marked completed and has attempts left: the goal is
  -- FAILED with the summary as its result and error, no other goal changes, the markers stay, and
  -- the tree has fewer retries left than before.
  pub failed_result_uses_a_retry :
      (p : Progress) (r : WorkerResult) (g : Goal) (k : Text)
      → is_marked r.id p.markers ≡ false
      → r.ok ≡ false
      → lookup r.id p.tree ≡ some g
      → g.attempts < l.max_goal_attempts
      → (p' : Progress) × (apply_result lower l now p r ≡ some p')
        × (lookup k p'.tree ≡ (if text_eq k r.id then some (failed_goal g r) else lookup k p.tree))
        × (p'.markers ≡ p.markers)
        × (retries_left l.max_goal_attempts p'.tree < retries_left l.max_goal_attempts p.tree)
  unfolding apply_result
  failed_result_uses_a_retry p r g k unmarked bad e h = (
    record p {
      tree = insert r.id (failed_goal g r) p.tree;
      error_class_seen = some (classify_error lower (some r.summary));
    },
    simp (unmarked, bad) (apply_failure-known p r g e),
    lookup-insert r.id k (failed_goal g r) p.tree,
    refl,
    omega (
      arith,
      retries_left-insert l.max_goal_attempts r.id g (failed_goal g r) p.tree e,
      attempts_after_bounds l (classify_error lower (some r.summary)) g.attempts h,
    ),
  )

  apply_failure-retries :
      (p : Progress) (r : WorkerResult) (p' : Progress)
      → apply_failure lower l now p r ≡ some p'
      → retries_left l.max_goal_attempts p'.tree ≤ retries_left l.max_goal_attempts p.tree
  apply_failure-retries p r p' e = elim (Option-cases (lookup r.id p.tree)) [
    | inl missing ↦ absurd (unfold apply_failure in ground arith)
    | inr (g, found) ↦
        let tree_is : p'.tree ≡ insert r.id (failed_goal g r) p.tree =
          ap Progress.tree (some-injective _ _ (sym e ∙ apply_failure-known p r g found)) in
        rw tree_is (
          omega (
            arith,
            retries_left-insert l.max_goal_attempts r.id g (failed_goal g r) p.tree found,
            attempts_after_le l (classify_error lower (some r.summary)) g.attempts,
          ))
  ]

  apply_success-retries :
      (p : Progress) (r : WorkerResult) (p' : Progress)
      → apply_success lower l now p r ≡ some p'
      → retries_left l.max_goal_attempts p'.tree ≤ retries_left l.max_goal_attempts p.tree
  apply_success-retries p r p' e = elim (Option-cases (lookup r.id p.tree)) [
    | inl missing ↦ absurd (unfold apply_success update_status in ground arith)
    | inr (g, found) ↦
        let (q, same, tree_is, _) = apply_success-known p r g found in
        let p'-is-q : p' ≡ q = some-injective _ _ (sym e ∙ same) in
        rw (p'-is-q, tree_is)
          (omega (arith, retries_left-insert l.max_goal_attempts r.id g _ p.tree found))
  ]

  apply_result-retries :
      (p : Progress) (r : WorkerResult) (p' : Progress)
      → apply_result lower l now p r ≡ some p'
      → retries_left l.max_goal_attempts p'.tree ≤ retries_left l.max_goal_attempts p.tree
  unfolding apply_result
  apply_result-retries p r p' e =
      ground (arith, apply_failure-retries p r p', apply_success-retries p r p')

  -- Whatever the results are, in any order and any number, the retries left do not grow.
  apply_results_retries :
      (p : Progress) (rs : List WorkerResult) (p' : Progress)
      → apply_results lower l now p rs ≡ some p'
      → retries_left l.max_goal_attempts p'.tree ≤ retries_left l.max_goal_attempts p.tree
  unfolding apply_results
  apply_results_retries p [] p' e = ground arith
  apply_results_retries p (r ∷ rs) p' e = elim (Option-cases (apply_result lower l now p r)) [
    | inl raised ↦ absurd (ground arith)
    | inr (q, first) ↦
        let rest : apply_results lower l now q rs ≡ some p' = rw first at e in
        omega (arith, apply_result-retries p r q first, apply_results_retries q rs p' rest)
  ]
