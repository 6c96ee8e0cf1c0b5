-- ===== src/Graph/Planning.antt =====
-- The nodes `assess_ambiguity` and `plan` of services/orchestrator/graph.py. What the model, the skill
-- router and the complexity classifier answer are inputs; the prompts and the events are left out.
use labmate.Common.{
  ℕ, ◌+◌, Bool, true, false, not, ◌&&◌, Option, none, some, List, [], ◌∷◌, ◌++◌, if◌then◌else◌,
  Text, codes, is_empty, strip, starts_with, drop, take, length, lookup, ◌>>=◌, ◌-◌, ends_with,
}
use labmate.Goals.{completed, Tree, create_goal, update_status}
use labmate.Graph.Routing.{State}
use labmate.Memory.Lines.{splitlines}

-- The JSON object of the triage, after the defaults: `ambiguity` is none if it is missing or no number.
pub record Triage (Score : Type 0) : Type 0 where
  pub ambiguity : Option Score
  pub blocking_question : Text

-- The verdict of `classify_complexity`, which is pure.
pub record Complexity : Type 0 where
  pub skip_ambiguity : Bool
  pub skip_verify : Bool

-- What `SkillRouter.route` returns.
pub record RouteResult : Type 0 where
  pub skills : List Text
  pub sub_intents : List Text

-- The answer of the model without its Markdown fence.
unfoldable pub unfence : Text → Text
unfence raw =
    let text = strip raw in
    let opened =
      if starts_with (codes "```json") text
      then drop 7 text
      else if starts_with (codes "```") text
      then drop 3 text
      else text in
    strip (if ends_with (codes "```") opened then take (length opened - 3) opened else opened)

-- `create_goal` for every line that is not blank, numbered by its line.
unfoldable pub add_subtasks : (ℕ → Text) → Text → ℕ → List Text → Tree → Tree
add_subtasks shown root i [] tree = tree
add_subtasks shown root i (line ∷ lines) tree = add_subtasks shown root (i + 1) lines (
    if is_empty (strip line)
    then tree
    else create_goal tree (root ++ (codes "_sub" ++ shown i)) (some root) (strip line))

module _ {Score : Type 0} where
  module _ (at_least : Score → Score → Bool) (zero_score ambiguity_threshold : Score)
      (parse : Text → Option (Triage Score)) where
    -- The score of the answer, 0.0 where there is none.
    unfoldable pub ambiguity_of : Text → Score
    ambiguity_of raw = elim (parse (unfence raw)) [
      | none ↦ zero_score
      | some t ↦ elim t.ambiguity [ none ↦ zero_score | some a ↦ a ]
    ]

    unfoldable pub question_of : Text → Text
    question_of raw = elim (parse (unfence raw)) [ none ↦ [] | some t ↦ t.blocking_question ]

    -- The state after `assess_ambiguity`, and the question to ask, if it is set.
    unfoldable pub assess_ambiguity : Complexity → Text → State Score → State Score × Option Text
    assess_ambiguity complexity raw s =
        let assessed = record s {
          ambiguity = ambiguity_of raw;
          skip_ambiguity = complexity.skip_ambiguity;
          skip_verify = complexity.skip_verify;
        } in
        let question =
          if is_empty (question_of raw)
          then codes "Could you clarify what you'd like me to do?"
          else question_of raw in
        if at_least (ambiguity_of raw) ambiguity_threshold && not complexity.skip_ambiguity
        then (record assessed { awaiting_clarification = true }, some question)
        else (assessed, none)

  -- The goal `child` for the first intent; an empty list is an IndexError.
  unfoldable pub delegate : Text → Text → List Text → State Score → Option (State Score)
  delegate root child [] s = none
  delegate root child (intent ∷ _) s = some (record s {
    goal_tree = create_goal s.goal_tree child (some root) intent;
    awaiting_clarification = false;
  })

  -- `route` is none without a skill router, or where it raises; `child` is the fresh id, `answer` what
  -- the model says, and `direct` is ENABLE_DIRECT_ANSWER_FASTPATH.
  unfoldable pub plan :
      (ℕ → Text)
      → Bool
      → Text
      → Option RouteResult
      → Bool
      → Text
      → Text
      → State Score
      → Option (State Score)
  plan shown direct now route has_doc_skills child answer s = do
    root ← s.current_goal_id
    _ ← lookup root s.goal_tree
    let decompose =
        some (record s {
          goal_tree = add_subtasks shown root 0 (splitlines (strip answer)) s.goal_tree;
        })
    elim route [
      | none ↦ decompose
      | some r ↦
          if not (is_empty r.skills)
          then delegate root child r.sub_intents s
          else if has_doc_skills
          then delegate root child r.sub_intents s
          else if direct
          then (do
            tree ←
                update_status now s.goal_tree root completed
                  (λ g. record g { result = some answer })
            some (record s { goal_tree = tree; final_answer = some answer; direct_answer = true }))
          else decompose
    ]
