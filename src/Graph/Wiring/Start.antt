-- ===== src/Graph/Wiring/Start.antt =====
-- From the first node: `assess_ambiguity`, `plan`, and the rest of the run.
use labmate.Common.{
  ℕ, ◌+◌, ◌*◌, ◌≤◌, ◌≡◌, refl, Bool, true, false, not, ◌||◌, Option, none, some, List, [], ◌∷◌,
  ◌++◌, Text, Dict, lookup, insert, arith, text_eq, lookup-insert, Option-cases, Bool-cases, inl,
  inr, ◌⊎◌, sym, ap, is_empty, strip,
}
use mathlib.Core.Option.{some-injective}
use labmate.Memory.Lines.{splitlines}
use labmate.Goals.{Goal, Tree, is_completed, new_goal, create_goal, add_child, update_status}
use labmate.Graph.{ArtifactType}
use labmate.Graph.Execute.{is_marked}
use labmate.Graph.Wiring.{
  Settings, at_assess, at_plan, at_execute, at_end, Run, Position, Input, place_of, assess_step,
  plan_step, next_from, Trace, here, onward,
}
use labmate.Graph.Wiring.Measure.{total_cost, IsMarked}
use labmate.Graph.Wiring.Bounded.{graph_run_ends}
use labmate.Graph.Routing.{State, to_end, to_execute, clarification_router, ambiguity_router}
use labmate.Graph.Planning.{RouteResult, add_subtasks, delegate, plan, assess_ambiguity}

-- No goal of the tree is COMPLETED.
abbrev pub IsFresh : Tree → Type 0
IsFresh tree = (k : Text) (g : Goal) → lookup k tree ≡ some g → is_completed g.status ≡ false

IsFresh-insert :
    (tree : Tree) (k : Text) (g : Goal)
    → IsFresh tree
    → is_completed g.status ≡ false
    → IsFresh (insert k g tree)
IsFresh-insert tree k g fresh unfinished j h seen = elim (Bool-cases (text_eq j k)) [
  | inl t ↦ let same : g ≡ h = ground (arith, lookup-insert k j g tree) in rw (← same) unfinished
  | inr f ↦ fresh j h (ground (arith, lookup-insert k j g tree))
]

IsFresh-add_child :
    (parent k : Text) (tree : Tree) → IsFresh tree → IsFresh (add_child parent k tree)
unfolding add_child
IsFresh-add_child parent k tree fresh = elim (Option-cases (lookup parent tree)) [
  | inl missing ↦ let same : add_child parent k tree ≡ tree = ground arith in rw same fresh
  | inr (p, found) ↦
      let p' = record p { children = p.children ++ k ∷ [] } in
      let same : add_child parent k tree ≡ insert parent p' tree = ground arith in
      rw same (IsFresh-insert tree parent p' fresh (fresh parent p found))
]

IsFresh-create_goal :
    (tree : Tree) (k parent desc : Text)
    → IsFresh tree
    → IsFresh (create_goal tree k (some parent) desc)
unfolding create_goal new_goal
IsFresh-create_goal tree k parent desc fresh =
    let added : IsFresh (insert k (new_goal k (some parent) desc) tree) =
      IsFresh-insert tree k (new_goal k (some parent) desc) fresh refl in
    elim (Bool-cases (is_empty parent)) [
      | inl t ↦ rw t added
      | inr f ↦ rw f (IsFresh-add_child parent k _ added)
    ]

IsFresh-add_subtasks :
    (shown : ℕ → Text) (root : Text) (i : ℕ) (lines : List Text) (tree : Tree)
    → IsFresh tree
    → IsFresh (add_subtasks shown root i lines tree)
unfolding add_subtasks
IsFresh-add_subtasks shown root i [] tree fresh = fresh
IsFresh-add_subtasks shown root i (line ∷ lines) tree fresh =
    elim (Bool-cases (is_empty (strip line))) [
      | inl t ↦ rw t (IsFresh-add_subtasks shown root (i + 1) lines tree fresh)
      | inr f ↦ rw f (
          IsFresh-add_subtasks shown root (i + 1) lines _
            (IsFresh-create_goal tree _ root (strip line) fresh))
    ]

module _ {Score : Type 0} where
  delegate-IsFresh :
      (root child : Text) (intents : List Text) (s s' : State Score)
      → IsFresh s.goal_tree
      → delegate root child intents s ≡ some s'
      → IsFresh s'.goal_tree
  unfolding delegate
  delegate-IsFresh root child [] s s' fresh e = cc
  delegate-IsFresh root child (intent ∷ more) s s' fresh e =
      let same : create_goal s.goal_tree child (some root) intent ≡ s'.goal_tree = ground arith in
      rw (← same) (IsFresh-create_goal s.goal_tree child root intent fresh)

  -- The answers of the plan, where the route is known: a direct answer or a fresh tree.
  abbrev IsPlanned : State Score → Type 0
  IsPlanned s = (s.direct_answer ≡ true) ⊎ IsFresh s.goal_tree

  decompose-IsPlanned :
      (shown : ℕ → Text) (root answer : Text) (s s' : State Score)
      → IsFresh s.goal_tree
      → some (record s {
        goal_tree = add_subtasks shown root 0 (splitlines (strip answer)) s.goal_tree;
      })
        ≡ some s'
      → IsPlanned s'
  decompose-IsPlanned shown root answer s s' fresh e =
      let same = ap State.goal_tree (some-injective _ _ e) in
      inr (
        rw (← same)
          (IsFresh-add_subtasks shown root 0 (splitlines (strip answer)) s.goal_tree fresh))

  -- `plan` answers the task itself, or leaves no goal COMPLETED.
  plan-IsFresh :
      (shown : ℕ → Text) (direct : Bool) (now : Text) (route : Option RouteResult)
      (has_doc_skills : Bool) (child answer : Text) (s s' : State Score)
      → IsFresh s.goal_tree
      → plan shown direct now route has_doc_skills child answer s ≡ some s'
      → IsPlanned s'
  plan-IsFresh shown direct now route has_doc_skills child answer s s' fresh e =
      elim (Option-cases s.current_goal_id) [
        | inl no_goal ↦ absurd (unfold plan in ground arith)
        | inr (root, current) ↦ elim (Option-cases (lookup root s.goal_tree)) [
          | inl missing ↦ absurd (unfold plan in ground arith)
          | inr (g, found) ↦ elim (Option-cases route) [
            | inl unrouted ↦
                decompose-IsPlanned shown root answer s s' fresh (unfold plan in ground arith)
            | inr (r, routed) ↦ elim (Bool-cases (not (is_empty r.skills) || has_doc_skills)) [
              | inl delegated ↦ inr (
                  delegate-IsFresh root child r.sub_intents s s' fresh
                    (unfold plan in ground arith))
              | inr unskilled ↦ elim (Bool-cases direct) [
                | inl answers ↦ inl (unfold plan update_status in ground arith)
                | inr decomposes ↦
                    decompose-IsPlanned shown root answer s s' fresh (unfold plan in ground arith)
              ]
            ]
          ]
        ]
      ]

-- With a question the run is at its end, waiting; without one it is at `plan`.
abbrev pub AsksOrGoesOn : {Score : Type 0} → Position Score → Option Text → Type 0
AsksOrGoesOn s none = s.place ≡ at_plan
AsksOrGoesOn s (some question) =
    (s.place ≡ at_end) × (s.run.core.awaiting_clarification ≡ true) × (is_empty question ≡ false)

module _ {Score : Type 0} (σ : Settings Score) where
  assess_step-keeps :
      (i : Input Score) (r : Run Score)
      → (((assess_step σ i r).place ≡ at_end) ⊎ ((assess_step σ i r).place ≡ at_plan))
        × ((assess_step σ i r).run.core.goal_tree ≡ r.core.goal_tree)
        × ((assess_step σ i r).run.step_markers ≡ r.step_markers)
  unfolding assess_step assess_ambiguity ambiguity_router place_of
  assess_step-keeps i r = (grind arith, ground arith, ground arith)

  -- Exactly if `assess_ambiguity` sets a question to ask, which is then not empty, the run waits for a
  -- clarification and ends; otherwise it goes to `plan`.
  asks_or_goes_on :
      (i : Input Score) (r : Run Score)
      → AsksOrGoesOn (assess_step σ i r) (assess_step σ i r).run.clarification_question
  unfolding assess_step assess_ambiguity ambiguity_router place_of
  asks_or_goes_on i r = grind arith

  clarified :
      (s : State Score)
      → (clarification_router σ.limits s ≡ to_end)
        ⊎ ((clarification_router σ.limits s ≡ to_execute) × (s.direct_answer ≡ false))
  unfolding clarification_router
  clarified s = grind arith

  IsFresh-IsMarked :
      (tree : Tree) (markers : Dict Text) → IsFresh tree → markers ≡ [] → IsMarked tree markers
  unfolding is_marked lookup
  IsFresh-IsMarked tree markers fresh e k g found = rw e (sym (fresh k g found))

  planned_goes_on :
      (r : Run Score) (core : State Score)
      → r.step_markers ≡ []
      → (core.direct_answer ≡ true) ⊎ IsFresh core.goal_tree
      → (clarification_router σ.limits core ≡ to_end)
        ⊎ ((clarification_router σ.limits core ≡ to_execute) × (core.direct_answer ≡ false))
      → (place_of (clarification_router σ.limits core) ≡ at_end)
        ⊎ ((place_of (clarification_router σ.limits core) ≡ at_execute)
            × IsMarked core.goal_tree r.step_markers)
  unfolding place_of
  planned_goes_on r core unmarked good (inl ends) = inl (rw ends)
  planned_goes_on r core unmarked (inl direct) (inr (goes, undirected)) = absurd (ground arith)
  planned_goes_on r core unmarked (inr fresh) (inr (goes, undirected)) =
      inr (rw goes, IsFresh-IsMarked core.goal_tree r.step_markers fresh unmarked)

  -- What `plan` leaves behind when the run goes on.
  plan_step-IsMarked :
      (i : Input Score) (r : Run Score) (t : Position Score)
      → IsFresh r.core.goal_tree
      → r.step_markers ≡ []
      → plan_step σ i r ≡ some t
      → (t.place ≡ at_end)
        ⊎ ((t.place ≡ at_execute) × IsMarked t.run.core.goal_tree t.run.step_markers)
  plan_step-IsMarked i r t fresh unmarked e =
      elim (Option-cases
        (plan σ.shown σ.direct_answers i.now i.route i.has_doc_skills i.child_id i.answer r.core)) [
          | inl raised ↦ absurd (unfold plan_step in ground arith)
          | inr (core, planned) ↦
              let same : record {
                place = place_of (clarification_router σ.limits core);
                run = record r { core = core };
              }
                  ≡ t =
                unfold plan_step in ground arith in
              let good =
                plan-IsFresh σ.shown σ.direct_answers i.now i.route i.has_doc_skills i.child_id
                  i.answer r.core core fresh planned in
              rw (← same) (planned_goes_on r core unmarked good (clarified core))
        ]

  -- A position is at its end after no step.
  Trace-at_end : (n : ℕ) (s t : Position Score) → s.place ≡ at_end → Trace σ n s t → n ≡ 0
  unfolding next_from
  Trace-at_end n s t e here = refl
  Trace-at_end n s t e (onward {t = u} i served step rest) = absurd (ground arith)

  -- A run from `plan`: it ends at once, or the tree that `plan` leaves bounds it.
  plan_path_ends :
      (n : ℕ) (s t : Position Score)
      → ((a : ArtifactType) → σ.critiqued a ≡ false)
      → s.place ≡ at_plan
      → IsFresh s.run.core.goal_tree
      → s.run.step_markers ≡ []
      → Trace σ n s t
      → (n ≤ 1)
        ⊎ ((u : Position Score) × Trace σ 1 s u
            × (u.place ≡ at_execute)
            × (n ≤ 8 * total_cost σ.limits.max_goal_attempts u.run.core.goal_tree + 5))
  plan_path_ends n s t off start fresh unmarked here = inl (omega arith)
  plan_path_ends n s t off start fresh unmarked (onward {t = u} i served step rest) =
      let planned : plan_step σ i s.run ≡ some u = unfold next_from in ground arith in
      elim (plan_step-IsMarked i s.run u fresh unmarked planned) [
        | inl ended ↦ inl (omega (arith, Trace-at_end _ u t ended rest))
        | inr (executes, marked) ↦ inr (
          u,
          onward i served step here,
          executes,
          omega (arith, graph_run_ends σ _ u t off executes marked rest),
        )
      ]

  -- With the critique gate off, from the first node, on a tree without COMPLETED goals and with no
  -- markers, and with workers that answer the goals they get: a run takes at most two steps, or the
  -- tree that `plan` leaves after two bounds it, by eight times its cost and six.
  pub graph_returns :
      (n : ℕ) (r : Run Score) (t : Position Score)
      → ((a : ArtifactType) → σ.critiqued a ≡ false)
      → IsFresh r.core.goal_tree
      → r.step_markers ≡ []
      → Trace σ n (record { place = at_assess; run = r }) t
      → (n ≤ 2)
        ⊎ ((u : Position Score) × Trace σ 2 (record { place = at_assess; run = r }) u
            × (u.place ≡ at_execute)
            × (n ≤ 8 * total_cost σ.limits.max_goal_attempts u.run.core.goal_tree + 6))
  graph_returns n r t off fresh unmarked here = inl (omega arith)
  graph_returns n r t off fresh unmarked (onward {t = u} i served step rest) =
      let same : assess_step σ i r ≡ u = unfold next_from in ground arith in
      let (goes, tree_is, markers_is) = assess_step-keeps i r in
      let fresh' : IsFresh u.run.core.goal_tree = rw (← same, tree_is) fresh in
      let unmarked' : u.run.step_markers ≡ [] = rw (← same, markers_is) unmarked in
      elim goes [
        | inl ends ↦ inl (omega (arith, Trace-at_end _ u t (rw (← same) ends) rest))
        | inr plans ↦ elim (plan_path_ends _ u t off (rw (← same) plans) fresh' unmarked' rest) [
          | inl early ↦ inl (omega (arith, early))
          | inr (v, path, executes, bound) ↦
              inr (v, onward i served step path, executes, omega (arith, bound))
        ]
      ]
