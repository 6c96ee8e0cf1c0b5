-- ===== src/Graph/Wiring/Livelock.antt =====
-- A goal that is marked completed and PENDING again: what `reflect` leaves of a goal that succeeded and
-- whose artifact the critique gate turned down.
use labmate.Common.{
  ℕ, ◌+◌, ◌*◌, ◌≡◌, refl, true, false, some, List, [], ◌∷◌, Text, lookup, arith, All, ltb, ◌∙◌,
  zero, suc, ap,
}
use mathlib.Core.Path.{subst}
use labmate.Goals.{pending, Goal, get_ready_goals}
use labmate.Graph.{Limits}
use labmate.Graph.Execute.{WorkerResult, Progress, is_marked, apply_result, apply_results}
use labmate.Graph.Check.{unchanged, check}
use labmate.Graph.Routing.{is_truthy, commit_check, router, verify, verify_router}
use labmate.Graph.Wiring.{
  Settings, at_execute, at_verify, at_check, Run, Position, Input, place_of, execute, verify_step,
  check_step, next_from, IsAnswer, no_progress, commit_execute, Trace, here, onward,
}

apply_results-marked :
    (lower : Text → Text) (l : Limits) (now : Text) (p : Progress) (rs : List WorkerResult)
    → All (λ r. is_marked r.id p.markers ≡ true) rs
    → apply_results lower l now p rs ≡ some p
unfolding apply_results apply_result
apply_results-marked lower l now p [] marked = refl
apply_results-marked lower l now p (r ∷ rs) (marked, more) =
    rw marked (apply_results-marked lower l now p rs more)

-- The current goal is ready and marked, nothing has failed, and there is no answer and no retry of
-- `verify` left.
pub record IsStuck {Score : Type 0} (σ : Settings Score) (i : Input Score) (r : Run Score)
    : Type 0 where
  pub gid : Text
  pub goal : Goal
  pub current : r.core.current_goal_id ≡ some gid
  pub found : lookup gid r.core.goal_tree ≡ some goal
  pub waiting : goal.status ≡ pending
  pub ready : List Goal
  pub has_ready : get_ready_goals r.core.goal_tree ≡ some (goal ∷ ready)
  pub unfinished : check σ.limits σ.shown i.now r.core.goal_tree ≡ some unchanged
  pub no_answer : is_truthy r.core.final_answer ≡ false
  pub no_retry : ltb r.core.verify_retries σ.limits.max_verify_retries ≡ false
  pub answers : IsAnswer r.core.goal_tree i.results
  pub marked : All (λ w. is_marked w.id r.step_markers ≡ true) i.results

module _ {Score : Type 0} (σ : Settings Score) (i : Input Score) where
  -- The run after `execute`, `verify` and `check`.
  once_more : Run Score → Run Score
  once_more r = (verify_step σ i (commit_execute (no_progress r) r)).run

  once_more-keeps :
      (r : Run Score)
      → ltb r.core.verify_retries σ.limits.max_verify_retries ≡ false
      → ((verify_step σ i (commit_execute (no_progress r) r)).place ≡ at_check)
        × ((once_more r).core.goal_tree ≡ r.core.goal_tree)
        × ((once_more r).core.current_goal_id ≡ r.core.current_goal_id)
        × ((once_more r).core.final_answer ≡ r.core.final_answer)
        × ((once_more r).core.verify_retries ≡ r.core.verify_retries)
        × ((once_more r).step_markers ≡ r.step_markers)
  unfolding once_more verify_step verify commit_execute verify_router place_of
  once_more-keeps r spent =
      (ground arith, ground arith, ground arith, ground arith, ground arith, ground arith)

  execute_marked :
      (r : Run Score)
      → IsStuck σ i r
      → execute σ i.now i.results r ≡ some (commit_execute (no_progress r) r)
  unfolding execute
  execute_marked r h =
      rw (
        h.has_ready,
        apply_results-marked σ.lower σ.limits i.now (no_progress r) i.results h.marked,
      )

  check_again :
      (r : Run Score)
      → IsStuck σ i r
      → check_step σ i r ≡ some (record { place = at_execute; run = r })
  unfolding check_step commit_check router place_of
  check_again r h =
      let current = h.current in
      let found = h.found in
      let waiting = h.waiting in
      let has_ready = h.has_ready in
      let unfinished = h.unfinished in let no_answer = h.no_answer in ground arith

  once_more-IsStuck : (r : Run Score) → IsStuck σ i r → IsStuck σ i (once_more r)
  once_more-IsStuck r h =
      let (_, tree_is, current_is, answer_is, retries_is, markers_is) =
        once_more-keeps r h.no_retry in
      record {
        gid = h.gid;
        goal = h.goal;
        current = current_is ∙ h.current;
        found = rw tree_is h.found;
        waiting = h.waiting;
        ready = h.ready;
        has_ready = rw tree_is h.has_ready;
        unfinished = rw tree_is h.unfinished;
        no_answer = rw answer_is h.no_answer;
        no_retry = rw retries_is h.no_retry;
        answers = rw tree_is h.answers;
        marked = rw markers_is h.marked;
      }

  verified_again :
      (r : Run Score)
      → IsStuck σ i r
      → next_from σ i at_verify (commit_execute (no_progress r) r)
        ≡ some (record { place = at_check; run = once_more r })
  unfolding next_from once_more
  verified_again r h =
      ap
        (λ p.
          some
            (record { place = p; run = (verify_step σ i (commit_execute (no_progress r) r)).run }))
        (once_more-keeps r h.no_retry).0

  executed_again :
      (r : Run Score)
      → IsStuck σ i r
      → next_from σ i at_execute r
        ≡ some (record { place = at_verify; run = commit_execute (no_progress r) r })
  unfolding next_from
  executed_again r h = rw (execute_marked r h)

  checked_again :
      (r : Run Score)
      → IsStuck σ i r
      → next_from σ i at_check (once_more r)
        ≡ some (record { place = at_execute; run = once_more r })
  unfolding next_from
  checked_again r h = check_again (once_more r) (once_more-IsStuck r h)

  -- One round in front of a run.
  once_more_path :
      (n : ℕ) (r : Run Score) (t : Position Score)
      → IsStuck σ i r
      → Trace σ n (record { place = at_execute; run = once_more r }) t
      → Trace σ (n + 1 + 1 + 1) (record { place = at_execute; run = r }) t
  once_more_path n r t h rest =
      onward i (λ at g gs ready. h.answers) (executed_again r h)
        (onward i (λ at. cc) (verified_again r h) (onward i (λ at. cc) (checked_again r h) rest))

  -- Where the current goal is marked completed and PENDING with its children COMPLETED, `check` waits,
  -- there is no answer yet and `verify` has no retry left, and the workers answer ready goals that are
  -- all marked, the run goes round without end: it has any number of rounds of three steps, after
  -- which it is at `execute` with the same tree and the same markers and no answer.
  pub marked_goal_never_settles :
      (n : ℕ) (r : Run Score)
      → IsStuck σ i r
      → (r' : Run Score) × Trace σ
          (3 * n)
          (record { place = at_execute; run = r })
          (record { place = at_execute; run = r' })
        × (r'.core.goal_tree ≡ r.core.goal_tree)
        × (r'.step_markers ≡ r.step_markers)
        × (is_truthy r'.core.final_answer ≡ false)
  marked_goal_never_settles zero r h = (r, here, refl, refl, h.no_answer)
  marked_goal_never_settles (suc n) r h =
      let (r', path, tree_is, markers_is, no_answer) =
        marked_goal_never_settles n (once_more r) (once_more-IsStuck r h) in
      let (_, tree_kept, _, _, _, markers_kept) = once_more-keeps r h.no_retry in
      let longer : Trace σ (3 * n + 1 + 1 + 1) (record { place = at_execute; run = r })
          (record { place = at_execute; run = r' }) =
        once_more_path (3 * n) r _ h path in
      (
        r',
        subst
            (λ k.
              Trace σ k (record { place = at_execute; run = r })
                (record { place = at_execute; run = r' }))
            (omega arith) longer,
        tree_is ∙ tree_kept,
        markers_is ∙ markers_kept,
        no_answer,
      )
