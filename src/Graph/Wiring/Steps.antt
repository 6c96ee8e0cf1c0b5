-- ===== src/Graph/Wiring/Steps.antt =====
-- The steps `execute`, `verify`, `reflect` and `approval` go down.
use labmate.Common.{
  if◌then◌else◌, ℕ, ◌+◌, ◌*◌, ◌≤◌, ◌<◌, ◌≡◌, refl, false, some, List, [], ◌∷◌, Text, lookup, insert,
  arith, Option-cases, inl, inr, ap,
}
use labmate.Goals.{
  pending, in_progress, blocked, Goal, Tree, get_ready_goals, is_completed, update_status, Status,
}
use labmate.Graph.{Limits, ArtifactType}
use labmate.Graph.Routing.{State, verify, verify_router, artifact_type}
use labmate.Graph.Reflection.{reflect, approval}
use labmate.Graph.Execute.{WorkerResult, apply_results}
use labmate.Graph.Wiring.{
  Settings, Place, at_execute, at_verify, at_check, at_reflect, at_approval, Run, Input, place_of,
  execute, verify_step, reflect_step, approval_step, IsAnswer, no_progress, commit_execute,
}
use labmate.Graph.Wiring.Measure.{
  cost, cost_of, total_cost, total_cost-insert, IsMarked, IsMarked-insert, apply_results_cheaper,
}
use labmate.Graph.Wiring.Descent.{potential, IsGood, Descends}

pub potential-at_execute :
    {Score : Type 0} (most : ℕ) (s : State Score)
    → potential most at_execute s ≤ 8 * total_cost most s.goal_tree + 4
potential-at_execute most s = elim (Option-cases (get_ready_goals s.goal_tree)) [
  | inl raised ↦ rw raised (omega arith)
  | inr (gs, ready) ↦ rw ready (ground arith)
]

-- A change of status of one goal that makes it cheaper and does not complete it.
restatus-Descends :
    {Score : Type 0} (l : Limits) (now gid : Text) (status : Status) (g : Goal) (tree' : Tree)
    (p : Place) (r r' : Run Score)
    → IsMarked r.core.goal_tree r.step_markers
    → lookup gid r.core.goal_tree ≡ some g
    → is_completed g.status ≡ false
    → is_completed status ≡ false
    → cost_of l.max_goal_attempts status g.attempts < cost l.max_goal_attempts g
    → potential l.max_goal_attempts p r.core
      ≡ 8 * total_cost l.max_goal_attempts r.core.goal_tree + 1
    → update_status now r.core.goal_tree gid status (λ x. x) ≡ some tree'
    → r'.core.goal_tree ≡ tree'
    → r'.step_markers ≡ r.step_markers
    → Descends l p r (record { place = at_execute; run = r' })
restatus-Descends l now gid status g tree' p r r' marks found open_goal still_open cheaper from e
      tree_is markers_is =
    let g' = record g { status = status; updated_at = some now } in
    let same : insert gid g' r.core.goal_tree ≡ r'.core.goal_tree =
      unfold update_status in ground arith in
    let marked : IsMarked (insert gid g' r.core.goal_tree) r.step_markers =
      rw still_open at
        (IsMarked-insert r.core.goal_tree r.step_markers gid g g' marks found open_goal) in
    (
      omega (
        arith,
        from,
        cheaper,
        potential-at_execute l.max_goal_attempts r'.core,
        ap (total_cost l.max_goal_attempts) same,
        total_cost-insert l.max_goal_attempts gid g g' r.core.goal_tree found,
      ),
      rw (← same, markers_is) marked,
    )

module _ {Score : Type 0} (σ : Settings Score) where
  execute_idle :
      (now : Text) (results : List WorkerResult) (r r' : Run Score)
      → IsMarked r.core.goal_tree r.step_markers
      → get_ready_goals r.core.goal_tree ≡ some []
      → execute σ now results r ≡ some r'
      → Descends σ.limits at_execute r (record { place = at_verify; run = r' })
  unfolding execute
  execute_idle now results r r' marks ready e =
      let same : r ≡ r' = ground arith in rw (← same, ready) (omega arith, marks)

  execute_ready :
      (now : Text) (results : List WorkerResult) (r r' : Run Score) (g : Goal) (gs : List Goal)
      → IsMarked r.core.goal_tree r.step_markers
      → get_ready_goals r.core.goal_tree ≡ some (g ∷ gs)
      → IsAnswer r.core.goal_tree results
      → execute σ now results r ≡ some r'
      → Descends σ.limits at_execute r (record { place = at_verify; run = r' })
  unfolding execute commit_execute
  execute_ready now results r r' g gs marks ready (some_result, waits) e =
      elim (Option-cases (apply_results σ.lower σ.limits now (no_progress r) results)) [
        | inl raised ↦ absurd (ground arith)
        | inr (p, applied) ↦
            let same : commit_execute p r ≡ r' = ground arith in
            let (less, marked) =
              apply_results_cheaper σ.lower σ.limits now results (no_progress r) p marks some_result
                waits applied in
            rw (← same, ready) (omega (arith, less), marked)
      ]

  pub execute-Descends :
      (now : Text) (results : List WorkerResult) (r r' : Run Score) (gs : List Goal)
      → IsMarked r.core.goal_tree r.step_markers
      → get_ready_goals r.core.goal_tree ≡ some gs
      → ((g : Goal) (rest : List Goal) → gs ≡ g ∷ rest → IsAnswer r.core.goal_tree results)
      → execute σ now results r ≡ some r'
      → Descends σ.limits at_execute r (record { place = at_verify; run = r' })
  execute-Descends now results r r' [] marks ready served e =
      execute_idle now results r r' marks ready e
  execute-Descends now results r r' (g ∷ gs) marks ready served e =
      execute_ready now results r r' g gs marks ready (served g gs refl) e

  verify_step_of_uncritiqued :
      (i : Input Score) (r : Run Score)
      → ((t : ArtifactType) → σ.critiqued t ≡ false)
      → ((verify_step σ i r).place ≡ at_check)
        × ((verify_step σ i r).run.core.goal_tree ≡ r.core.goal_tree)
        × ((verify_step σ i r).run.step_markers ≡ r.step_markers)
  unfolding verify_step verify verify_router place_of
  verify_step_of_uncritiqued i r off =
      let uncritiqued : σ.critiqued (artifact_type r.core.last_artifact) ≡ false = off _ in
      (rw uncritiqued (ground arith), rw uncritiqued, refl)

  pub verify_step-Descends :
      (i : Input Score) (r : Run Score)
      → ((t : ArtifactType) → σ.critiqued t ≡ false)
      → IsMarked r.core.goal_tree r.step_markers
      → Descends σ.limits at_verify r (verify_step σ i r)
  verify_step-Descends i r off marks =
      let (place_is, tree_is, markers_is) = verify_step_of_uncritiqued i r off in
      rw (place_is, tree_is, markers_is) (omega arith, marks)

  pub reflect_step-Descends :
      (i : Input Score) (r r' : Run Score)
      → IsGood σ.limits at_reflect r
      → reflect_step σ i r ≡ some r'
      → Descends σ.limits at_reflect r (record { place = at_execute; run = r' })
  reflect_step-Descends i r r' (marks, (gid, g, current, found, retry)) e =
      elim (Option-cases (update_status i.now r.core.goal_tree gid pending (λ x. x))) [
        | inl raised ↦ absurd (unfold reflect_step reflect in ground arith)
        | inr (tree', updated) ↦
            let same : (r'.core.goal_tree ≡ tree') × (r'.step_markers ≡ r.step_markers) =
              unfold reflect_step reflect in ground arith in
            restatus-Descends σ.limits i.now gid pending g tree' at_reflect r r' marks found
              (ground arith) refl (ground arith) refl updated same.0 same.1
      ]

  pub approval_step-Descends :
      (i : Input Score) (r r' : Run Score)
      → IsGood σ.limits at_approval r
      → approval_step σ i r ≡ some r'
      → Descends σ.limits at_approval r (record { place = at_execute; run = r' })
  approval_step-Descends i r r' (marks, (gid, g, current, found, awaiting)) e =
      let status = if i.approved then in_progress else blocked in
      elim (Option-cases (update_status i.now r.core.goal_tree gid status (λ x. x))) [
        | inl raised ↦ absurd (unfold approval_step approval in ground arith)
        | inr (tree', updated) ↦
            let same : (r'.core.goal_tree ≡ tree') × (r'.step_markers ≡ r.step_markers) =
              unfold approval_step approval in ground arith in
            restatus-Descends σ.limits i.now gid status g tree' at_approval r r' marks found
              (ground arith) (ground arith) (ground arith) refl updated same.0 same.1
      ]
