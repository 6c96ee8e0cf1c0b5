-- ===== src/Graph/Wiring/Measure.antt =====
-- What the goals of a tree still cost: every failure, success, reflection and decision lowers it.
use labmate.Common.{
  ℕ, ◌+◌, ◌-◌, ◌*◌, ◌≤◌, ◌<◌, ◌≡◌, refl, Bool, true, false, some, List, [], ◌∷◌, if◌then◌else◌,
  Text, Dict, lookup, insert, arith, text_eq, text_eq_iff, ltb, lookup-insert, All, All-map,
  Option-cases, Bool-cases, inl, inr, ap, sym, ◌∙◌, is_empty, codes,
}
use mathlib.Core.Option.{some-injective}
use labmate.Goals.{Status, pending, completed, failed, awaiting_approval, Goal, Tree, is_completed}
use labmate.Errors.{ErrorClass, classify_error}
use labmate.Graph.{Limits}
use labmate.Graph.Wiring.{IsWaiting}
use labmate.Graph.Execute.{
  WorkerResult, Progress, is_marked, attempts_after, apply_result, apply_results, apply_failure,
}
use labmate.Graph.Execute.Attempts.{
  failed_goal, apply_failure-known, apply_success-known, attempts_after_bounds,
}

-- The steps that a goal can still take, from the most attempts that a goal gets.
abbrev pub cost_of : ℕ → Status → ℕ → ℕ
cost_of most pending attempts = 2 * (most - attempts) + 1
cost_of most failed attempts = if ltb attempts most then 2 * (most - attempts) + 2 else 0
cost_of most awaiting_approval attempts = 1
cost_of most _ attempts = 0

abbrev pub cost : ℕ → Goal → ℕ
cost most g = cost_of most g.status g.attempts

unfoldable pub total_cost : ℕ → Tree → ℕ
total_cost most [] = 0
total_cost most ((k, g) ∷ rest) = cost most g + total_cost most rest

pub total_cost-insert :
    (most : ℕ) (k : Text) (g g' : Goal) (tree : Tree)
    → lookup k tree ≡ some g
    → total_cost most (insert k g' tree) + cost most g ≡ total_cost most tree + cost most g'
unfolding total_cost lookup insert
total_cost-insert most k g g' [] e = cc
total_cost-insert most k g g' ((j, w) ∷ rest) e = elim (Bool-cases (text_eq k j)) [
  | inl t ↦ let same : w ≡ g = ground arith in rw (t, same) (omega arith)
  | inr f ↦ rw f (omega (arith, total_cost-insert most k g g' rest (ground arith)))
]

-- A goal is marked completed exactly if it is COMPLETED.
abbrev pub IsMarked : Tree → Dict Text → Type 0
IsMarked tree markers =
    (k : Text) (g : Goal) → lookup k tree ≡ some g → is_marked k markers ≡ is_completed g.status

abbrev is_live : Status → Bool
is_live pending = true
is_live completed = true
is_live failed = true
is_live _ = false

-- The goal is there and its status is one that results leave.
abbrev IsLive : Tree → Text → Type 0
IsLive tree k = (g : Goal) × (lookup k tree ≡ some g) × (is_live g.status ≡ true)

is_marked-insert :
    (k j : Text) (markers : Dict Text)
    → is_marked j (insert k (codes "completed") markers)
      ≡ (if text_eq j k then true else is_marked j markers)
unfolding is_marked text_eq
is_marked-insert k j markers = ground (arith, lookup-insert k j (codes "completed") markers)

IsLive-insert :
    (tree : Tree) (k j : Text) (g : Goal)
    → is_live g.status ≡ true
    → IsLive tree j
    → IsLive (insert k g tree) j
IsLive-insert tree k j g live (h, found, good) = elim (Bool-cases (text_eq j k)) [
  | inl t ↦ (g, ground (arith, lookup-insert k j g tree), live)
  | inr f ↦ (h, ground (arith, lookup-insert k j g tree), good)
]

-- What a result leaves of the tree and the markers.
record Advances (most : ℕ) (p p' : Progress) (k : Text) : Type 0 where
  no_dearer : total_cost most p'.tree ≤ total_cost most p.tree
  cheaper :
      (g : Goal)
      → lookup k p.tree ≡ some g
      → g.status ≡ pending
      → total_cost most p'.tree < total_cost most p.tree
  marks : IsMarked p'.tree p'.markers
  lives : (j : Text) → IsLive p.tree j → IsLive p'.tree j

attempts_after-spent :
    (l : Limits) (cls : ErrorClass) (prior : ℕ)
    → l.max_goal_attempts ≤ prior
    → l.max_goal_attempts ≤ attempts_after l cls prior
unfolding attempts_after
attempts_after-spent l cls prior h = ground arith

-- From `g` to `g'` with another status and number of attempts.
cost_of-failed :
    (most prior attempts : ℕ) (status : Status)
    → is_live status ≡ true
    → is_completed status ≡ false
    → (prior < most → prior < attempts)
    → (most ≤ prior → most ≤ attempts)
    → (cost_of most failed attempts ≤ cost_of most status prior)
      × (status ≡ pending → cost_of most failed attempts < cost_of most status prior)
cost_of-failed most prior attempts pending live open_goal h k = (ground arith, λ e. ground arith)
cost_of-failed most prior attempts failed live open_goal h k = (ground arith, λ e. cc)
cost_of-failed most prior attempts _ live open_goal h k = absurd (ground arith)

failed_cost :
    (l : Limits) (lower : Text → Text) (now : Text) (g : Goal) (r : WorkerResult)
    → is_live g.status ≡ true
    → is_completed g.status ≡ false
    → (cost l.max_goal_attempts (failed_goal lower l now g r) ≤ cost l.max_goal_attempts g)
      × (g.status ≡ pending
          → cost l.max_goal_attempts (failed_goal lower l now g r) < cost l.max_goal_attempts g)
failed_cost l lower now g r live open_goal =
    let cls = classify_error lower (some r.summary) in
    cost_of-failed l.max_goal_attempts g.attempts (attempts_after l cls g.attempts) g.status live
      open_goal (λ h. (attempts_after_bounds l cls g.attempts h).0)
      (attempts_after-spent l cls g.attempts)

pub IsMarked-insert :
    (tree : Tree) (markers : Dict Text) (k : Text) (g g' : Goal)
    → IsMarked tree markers
    → lookup k tree ≡ some g
    → is_completed g.status ≡ false
    → IsMarked
        (insert k g' tree)
        (if is_completed g'.status then insert k (codes "completed") markers else markers)
IsMarked-insert tree markers k g g' marks found open_goal j h seen =
    elim (Bool-cases (text_eq j k)) [
      | inl t ↦
          let same : j ≡ k = (text_eq_iff j k).0 t in
          let is_g' : g' ≡ h = ground (arith, lookup-insert k j g' tree) in
          let before : is_marked k markers ≡ false = marks k g found ∙ open_goal in
          ground (arith, is_marked-insert k j markers)
      | inr f ↦
          let before : is_marked j markers ≡ is_completed h.status =
            marks j h (ground (arith, lookup-insert k j g' tree)) in
          ground (arith, is_marked-insert k j markers)
    ]

succeeded_cost :
    (l : Limits) (g : Goal)
    → is_live g.status ≡ true
    → is_completed g.status ≡ false
    → (0 ≤ cost l.max_goal_attempts g) × (g.status ≡ pending → 0 < cost l.max_goal_attempts g)
succeeded_cost l g live open_goal = (omega arith, λ e. rw e (omega arith))

-- A result that writes `g'` over the goal `g`, which is not COMPLETED.
Advances-insert :
    (most : ℕ) (p p' : Progress) (k : Text) (g g' : Goal)
    → IsMarked p.tree p.markers
    → lookup k p.tree ≡ some g
    → is_live g'.status ≡ true
    → (cost most g' ≤ cost most g) × (g.status ≡ pending → cost most g' < cost most g)
    → p'.tree ≡ insert k g' p.tree
    → p'.markers
      ≡ (if is_completed g'.status then insert k (codes "completed") p.markers else p.markers)
    → is_completed g.status ≡ false
    → Advances most p p' k
Advances-insert most p p' k g g' marks found live (le, lt) tree_is markers_is open_goal = record {
  no_dearer = rw tree_is (omega (arith, total_cost-insert most k g g' p.tree found, le));
  cheaper = λ h same waiting.
      let is_g : h ≡ g = some-injective _ _ (sym same ∙ found) in
      let less : cost most g' < cost most g = lt (ap Goal.status (sym is_g) ∙ waiting) in
      rw tree_is (omega (arith, total_cost-insert most k g g' p.tree found, less));
  marks = rw (tree_is, markers_is) (IsMarked-insert p.tree p.markers k g g' marks found open_goal);
  lives = λ j before. rw tree_is (IsLive-insert p.tree k j g' live before);
}

Advances-refl :
    (most : ℕ) (p : Progress) (k : Text)
    → IsMarked p.tree p.markers
    → is_marked k p.markers ≡ true
    → Advances most p p k
Advances-refl most p k marks marked = record {
  no_dearer = omega arith;
  cheaper = λ g found waiting. absurd (ground (arith, marks k g found));
  marks = marks;
  lives = λ j before. before;
}

module _ (lower : Text → Text) (l : Limits) (now : Text) where
  apply_result-Advances :
      (p : Progress) (r : WorkerResult) (p' : Progress)
      → IsMarked p.tree p.markers
      → IsLive p.tree r.id
      → apply_result lower l now p r ≡ some p'
      → Advances l.max_goal_attempts p p' r.id
  apply_result-Advances p r p' marks (g, found, live) e =
      elim (Bool-cases (is_marked r.id p.markers)) [
        | inl marked ↦
            let same : p ≡ p' = unfold apply_result in ground arith in
            rw (← same) (Advances-refl l.max_goal_attempts p r.id marks marked)
        | inr unmarked ↦
            let open_goal : is_completed g.status ≡ false = sym (marks r.id g found) ∙ unmarked in
            elim (Bool-cases r.ok) [
              | inl ok ↦
                  let (q, is_q, tree_is, markers_is) =
                    apply_success-known lower l now p r g found in
                  let same : q ≡ p' = unfold apply_result in ground arith in
                  rw (← same) (
                    Advances-insert l.max_goal_attempts p q r.id g
                      (record g {
                        status = completed;
                        updated_at = some now;
                        result = some r.summary;
                      })
                      marks found refl (succeeded_cost l g live open_goal) tree_is markers_is
                      open_goal)
              | inr bad ↦
                  let is_p' : apply_failure lower l now p r ≡ some p' =
                    unfold apply_result in ground arith in
                  let same : p' ≡ record p {
                    tree = insert r.id (failed_goal lower l now g r) p.tree;
                    error_class_seen = some (classify_error lower (some r.summary));
                  } =
                    some-injective _ _ (sym is_p' ∙ apply_failure-known lower l now p r g found) in
                  rw same (
                    Advances-insert l.max_goal_attempts p _ r.id g (failed_goal lower l now g r)
                      marks found refl (failed_cost l lower now g r live open_goal) refl refl
                      open_goal)
            ]
      ]

  apply_results-Advances :
      (rs : List WorkerResult) (p p' : Progress)
      → IsMarked p.tree p.markers
      → All (λ r. IsLive p.tree r.id) rs
      → apply_results lower l now p rs ≡ some p'
      → (total_cost l.max_goal_attempts p'.tree ≤ total_cost l.max_goal_attempts p.tree)
        × IsMarked p'.tree p'.markers
  apply_results-Advances [] p p' marks lives e =
      let same : p ≡ p' = unfold apply_results in ground arith in rw (← same) (omega arith, marks)
  apply_results-Advances (r ∷ rs) p p' marks lives e =
      elim (Option-cases (apply_result lower l now p r)) [
        | inl raised ↦ absurd (unfold apply_results in ground arith)
        | inr (q, first) ↦
            let rest : apply_results lower l now q rs ≡ some p' =
              unfold apply_results in ground arith in
            let step = apply_result-Advances p r q marks lives.0 first in
            let (le, marked) =
              apply_results-Advances rs q p' step.marks
                (All-map _ _ rs (λ x h. step.lives x.id h) lives.1) rest in
            (omega (arith, le, step.no_dearer), marked)
      ]

  -- Results of ready goals make the tree cheaper.
  pub apply_results_cheaper :
      (rs : List WorkerResult) (p p' : Progress)
      → IsMarked p.tree p.markers
      → is_empty rs ≡ false
      → All (λ r. IsWaiting p.tree r.id) rs
      → apply_results lower l now p rs ≡ some p'
      → (total_cost l.max_goal_attempts p'.tree < total_cost l.max_goal_attempts p.tree)
        × IsMarked p'.tree p'.markers
  apply_results_cheaper [] p p' marks some_result waits e = cc
  apply_results_cheaper (r ∷ rs) p p' marks some_result waits e =
      elim (Option-cases (apply_result lower l now p r)) [
        | inl raised ↦ absurd (unfold apply_results in ground arith)
        | inr (q, first) ↦
            let rest : apply_results lower l now q rs ≡ some p' =
              unfold apply_results in ground arith in
            let (g, found, eligible) = waits.0 in
            let live : (j : Text) → IsWaiting p.tree j → IsLive p.tree j =
              λ j (h, seen, waiting). (h, seen, rw waiting.is_waiting) in
            let step = apply_result-Advances p r q marks (live r.id waits.0) first in
            let (le, marked) =
              apply_results-Advances rs q p' step.marks
                (All-map _ _ rs (λ x h. step.lives x.id (live x.id h)) waits.1) rest in
            (omega (arith, le, step.cheaper g found eligible.is_waiting), marked)
      ]
