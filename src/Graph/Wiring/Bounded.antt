-- ===== src/Graph/Wiring/Bounded.antt =====
-- A run of the graph ends: from `execute` on, the tree bounds the number of steps.
use labmate.Common.{
  ℕ, ◌+◌, ◌*◌, ◌≤◌, ◌≡◌, refl, false, some, arith, Option-cases, inl, inr, sym, ◌∙◌, ap,
}
use mathlib.Core.Path.{subst}
use labmate.Goals.{get_ready_goals}
use labmate.Graph.{ArtifactType}
use labmate.Graph.Routing.{revise}
use labmate.Graph.Wiring.{
  Settings, Place, at_assess, at_plan, at_execute, at_verify, at_check, at_reflect, at_approval,
  at_revise, at_end, Run, Position, Input, execute, verify_step, reflect_step, approval_step,
  next_from, IsServed, Trace, here, onward,
}
use labmate.Graph.Wiring.Measure.{total_cost, IsMarked}
use labmate.Graph.Wiring.Descent.{potential, IsGood, Descends, check_step-Descends}
use labmate.Graph.Wiring.Steps.{
  potential-at_execute, execute-Descends, verify_step-Descends, reflect_step-Descends,
  approval_step-Descends,
}

module _ {Score : Type 0} (σ : Settings Score) where
  next-Descends :
      (i : Input Score) (p : Place) (r : Run Score) (t : Position Score)
      → ((a : ArtifactType) → σ.critiqued a ≡ false)
      → IsGood σ.limits p r
      → IsServed i (record { place = p; run = r })
      → next_from σ i p r ≡ some t
      → Descends σ.limits p r t
  next-Descends i at_assess r t off good served e = absurd good
  next-Descends i at_plan r t off good served e = absurd good
  next-Descends i at_execute r t off good served e =
      elim (Option-cases (execute σ i.now i.results r)) [
        | inl raised ↦ absurd (unfold next_from in ground arith)
        | inr (r', executed) ↦
            let same : record { place = at_verify; run = r' } ≡ t =
              unfold next_from in ground arith in
            elim (Option-cases (get_ready_goals r.core.goal_tree)) [
              | inl raised ↦ absurd (unfold execute in ground arith)
              | inr (gs, ready) ↦ rw (← same) (
                  execute-Descends σ i.now i.results r r' gs good ready
                    (λ g rest is. served refl g rest (ready ∙ ap some is)) executed)
            ]
      ]
  next-Descends i at_verify r t off good served e =
      let same : verify_step σ i r ≡ t = unfold next_from in ground arith in
      rw (← same) (verify_step-Descends σ i r off good)
  next-Descends i at_check r t off good served e =
      check_step-Descends σ i r t good (unfold next_from in e)
  next-Descends i at_reflect r t off good served e = elim (Option-cases (reflect_step σ i r)) [
    | inl raised ↦ absurd (unfold next_from in ground arith)
    | inr (r', reflected) ↦
        let same : record { place = at_execute; run = r' } ≡ t = unfold next_from in ground arith in
        rw (← same) (reflect_step-Descends σ i r r' good reflected)
  ]
  next-Descends i at_approval r t off good served e = elim (Option-cases (approval_step σ i r)) [
    | inl raised ↦ absurd (unfold next_from in ground arith)
    | inr (r', decided) ↦
        let same : record { place = at_execute; run = r' } ≡ t = unfold next_from in ground arith in
        rw (← same) (approval_step-Descends σ i r r' good decided)
  ]
  next-Descends i at_revise r t off good served e =
      elim (Option-cases (revise σ.limits i.now (some i.answer) r.core)) [
        | inl raised ↦ absurd (unfold next_from in ground arith)
        | inr (core, revised) ↦
            let same : record { place = at_end; run = record r { core = core } } ≡ t =
              unfold next_from in ground arith in
            rw (← same) (omega arith, tt)
      ]
  next-Descends i at_end r t off good served e = absurd (unfold next_from in ground arith)

  Trace-potential :
      (n : ℕ) (s t : Position Score)
      → ((a : ArtifactType) → σ.critiqued a ≡ false)
      → IsGood σ.limits s.place s.run
      → Trace σ n s t
      → n ≤ potential σ.limits.max_goal_attempts s.place s.run.core
  Trace-potential n s t off good here = omega arith
  Trace-potential n s t off good (onward {t = u} i served e rest) =
      let (less, good') = next-Descends i s.place s.run u off good served e in
      omega (arith, less, Trace-potential _ u t off good' rest)

  -- With the critique gate off, a run from `execute` whose COMPLETED goals are the marked ones, and
  -- whose workers answer the goals they get, takes at most as many steps as eight times the cost of
  -- its tree and four more. So it ends.
  pub graph_run_ends :
      (n : ℕ) (s t : Position Score)
      → ((a : ArtifactType) → σ.critiqued a ≡ false)
      → s.place ≡ at_execute
      → IsMarked s.run.core.goal_tree s.run.step_markers
      → Trace σ n s t
      → n ≤ 8 * total_cost σ.limits.max_goal_attempts s.run.core.goal_tree + 4
  graph_run_ends n s t off start marks path = omega (
    arith,
    Trace-potential n s t off (subst (λ p. IsGood σ.limits p s.run) (sym start) marks) path,
    ap (λ p. potential σ.limits.max_goal_attempts p s.run.core) start,
    potential-at_execute σ.limits.max_goal_attempts s.run.core,
  )
