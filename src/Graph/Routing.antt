-- ===== src/Graph/Routing.antt =====
-- The routers and the nodes `verify` and `revise`. A score is a float: its type and its comparisons
-- are parameters, so that no rounding is assumed.
pub mod Routes
pub mod Retries
pub mod Delivery
use labmate.Common.{
  ℕ, ◌+◌, Bool, true, false, not, ◌&&◌, ◌||◌, Option, none, some, List, [], ◌∷◌, ◌++◌,
  if◌then◌else◌, Text, codes, is_empty, strip, has_key, lookup, ltb, leb, ◌==◌, text_eq, ◌>>=◌,
}
use labmate.Goals.{
  Status, failed, awaiting_approval, Goal, Tree, update_status, get_ready_goals, is_failed,
}
use labmate.Graph.{Limits, Artifact, ArtifactType, code, writing, other}
use labmate.Graph.Check.{Outcome, unchanged, deferred, finalized}

-- The keys of the graph's state that the routers, `verify` and `revise` read. An Option is `none`
-- where the key is missing or its value is None.
pub record State (Score : Type 0) : Type 0 where
  pub goal_tree : Tree
  pub current_goal_id : Option Text
  pub final_answer : Option Text
  pub error : Option Text
  pub last_artifact : Option Artifact
  pub ambiguity : Score
  pub skip_ambiguity : Bool
  pub skip_verify : Bool
  pub awaiting_clarification : Bool
  pub direct_answer : Bool
  pub critique_score : Score
  pub critique_notes : Text
  pub verify_reflect : Option Bool
  pub verify_retries : ℕ
  pub finalize_revisions : ℕ
  pub revised : Bool

-- The nodes that an edge leads to.
pub data Node : Type 0 where
  to_plan to_execute to_check to_reflect to_approval to_revise to_end : Node

-- A text that is there and not empty.
unfoldable pub is_truthy : Option Text → Bool
is_truthy none = false
is_truthy (some t) = not (is_empty t)

-- `t or ""`
unfoldable pub text_of : Option Text → Text
text_of none = []
text_of (some t) = t

-- `t is not None`
abbrev pub is_there : Option Text → Bool
is_there none = false
is_there (some _) = true

abbrev pub is_awaiting_approval : Status → Bool
is_awaiting_approval awaiting_approval = true
is_awaiting_approval _ = false

-- What the critique skill answers: an exception, or a score that is no number; an answer that is
-- not ok, or carries no dict; or a score, if the dict has one, and notes.
pub data Reply (Score : Type 0) : Type 0 where
  raised : Reply Score
  no_critique : Reply Score
  critique : Option Score → Text → Reply Score

-- The type of the artifact to verify.
abbrev pub artifact_type : Option Artifact → ArtifactType
artifact_type none = other
artifact_type (some a) = a.kind

-- The root's result becomes the answer, where the tree has a root.
unfoldable pub mirror_answer : Text → Text → Tree → Option Tree
mirror_answer now answer tree = elim (lookup (codes "root") tree) [
  | none ↦ some tree
  | some root ↦
      update_status now tree (codes "root") root.status (λ g. record g { result = some answer })
]

abbrev pub had_side_effects : Option Artifact → Bool
had_side_effects none = false
had_side_effects (some a) = elim a.kind [ code ↦ true | writing ↦ false | other ↦ false ]

-- `should_revise` of finalize_revision.py
unfoldable pub should_revise : Text → Bool → ℕ → ℕ → Bool → Bool
should_revise final_answer side_effects attempts max_attempts errored =
    if errored
    then false
    else if side_effects
    then false
    else if is_empty (strip final_answer)
    then false
    else if max_attempts == 0
    then false
    else if leb max_attempts attempts
    then false
    else true

module _ {Score : Type 0} (l : Limits) where
  -- The keys that `check` returns, written over the state's.
  unfoldable pub commit_check : Outcome → State Score → State Score
  commit_check unchanged s = s
  commit_check (deferred c) s = record s { current_goal_id = some c }
  commit_check (finalized tree answer error) s = record s {
    goal_tree = tree;
    final_answer = some answer;
    current_goal_id = some (codes "root");
    error = elim error [ none ↦ s.error | some e ↦ some e ];
  }

  -- `none` is the KeyError of a goal with an unknown child.
  unfoldable pub router : State Score → Option Node
  router s = if is_truthy s.final_answer then some to_revise else elim s.current_goal_id [
    | none ↦ some to_end
    | some gid ↦ elim (lookup gid s.goal_tree) [
      | none ↦ some to_end
      | some g ↦
          if is_failed g.status && ltb g.attempts l.max_goal_attempts
          then some to_reflect
          else if is_awaiting_approval g.status
          then some to_approval
          else (do
            ready ← get_ready_goals s.goal_tree
            some (elim ready [ [] ↦ to_end | _ ∷ _ ↦ to_execute ]))
    ]
  ]

  unfoldable pub clarification_router : State Score → Node
  clarification_router s =
      if s.awaiting_clarification || (s.direct_answer || is_truthy s.final_answer)
      then to_end
      else to_execute

  module _ (at_least below : Score → Score → Bool)
      (one ambiguity_threshold critique_threshold : Score) where
    unfoldable pub ambiguity_router : State Score → Node
    ambiguity_router s =
        if s.skip_ambiguity
        then to_plan
        else if at_least s.ambiguity ambiguity_threshold
        then to_end
        else to_plan

    unfoldable pub verify_router : State Score → Node
    verify_router s = if s.skip_verify then to_check else elim s.verify_reflect [
      | some reflect ↦ if reflect then to_reflect else to_check
      | none ↦ if below s.critique_score critique_threshold then to_reflect else to_check
    ]

    unfoldable pub score_of : Reply Score → Score
    score_of raised = one
    score_of no_critique = one
    score_of (critique none notes) = one
    score_of (critique (some score) notes) = score

    unfoldable pub notes_of : Reply Score → Text
    notes_of raised = []
    notes_of no_critique = []
    notes_of (critique score notes) = notes

    -- `critiqued` is the membership in CRITIQUE_ARTIFACT_TYPES; `has_skills` is whether the orchestrator has a skill router.
    unfoldable pub verify : (ArtifactType → Bool) → Bool → Reply Score → State Score → State Score
    unfolding score_of notes_of
    verify critiqued has_skills reply s =
        if not (critiqued (artifact_type s.last_artifact)) || not has_skills
        then record s { critique_score = one; critique_notes = []; verify_reflect = some false }
        else let should_reflect =
            below (score_of reply) critique_threshold
            && ltb s.verify_retries l.max_verify_retries in
          record s {
            critique_score = score_of reply;
            critique_notes = notes_of reply;
            verify_reflect = some should_reflect;
            verify_retries = if should_reflect then s.verify_retries + 1 else s.verify_retries;
          }

  -- `reply` is what the model answers, `none` for None; the prompt is not modelled.
  unfoldable pub revise : Text → Option Text → State Score → Option (State Score)
  revise now reply s =
      let final_answer = text_of s.final_answer in
      let errored = is_there s.error in
      let revised = strip (text_of reply) in
      let out_answer = if is_empty revised then final_answer else revised in
      if not l.enable_finalize_revision
      then some s
      else if not (
          should_revise final_answer (had_side_effects s.last_artifact) s.finalize_revisions
            l.max_finalize_revisions errored)
      then some s
      else (do
        tree ← mirror_answer now out_answer s.goal_tree
        some (record s {
          goal_tree = tree;
          final_answer = some out_answer;
          finalize_revisions = s.finalize_revisions + 1;
          revised = not (is_empty revised) && not (text_eq revised final_answer);
        }))
