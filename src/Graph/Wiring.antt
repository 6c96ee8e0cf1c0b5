-- ===== src/Graph/Wiring.antt =====
-- `build_graph` and the node `execute` of services/orchestrator/graph.py: a run is a sequence of steps.
-- What the workers, the models and the user answer is the input of a step; a KeyError is `none`.
pub mod Measure
pub mod Edges
pub mod Descent
pub mod Steps
pub mod Bounded
pub mod Livelock
pub mod Start
mod Examples
use labmate.Common.{
  ℕ, ◌+◌, Bool, true, false, Option, none, some, List, [], ◌∷◌, ◌++◌, if◌then◌else◌, Text, Dict,
  lookup, ◌>>=◌, is_empty, ◌||◌, codes, ◌≡◌, All, ◌≢◌,
}
use labmate.Goals.{Goal, Tree, get_ready_goals}
use labmate.Goals.Ready.{IsEligible}
use labmate.Graph.{Limits, ArtifactType, other}
use labmate.Graph.Execute.{WorkerResult, Progress, class_value, apply_results}
use labmate.Graph.Check.{check}
use labmate.Graph.Reflection.{Entry, reflect, approval}
use labmate.Graph.Routing.{
  State, Node, to_plan, to_execute, to_check, to_reflect, to_approval, to_revise, to_end, Reply,
  commit_check, router, verify, verify_router, revise, ambiguity_router, clarification_router,
}
use labmate.Graph.Planning.{Triage, Complexity, RouteResult, assess_ambiguity, plan}

-- What the module reads from its environment and its settings. `lower` is `str.lower`, `shown` the
-- decimal of a number, `parse` reads the JSON of the triage, and the scores are floats.
pub record Settings (Score : Type 0) : Type 0 where
  pub limits : Limits
  pub direct_answers : Bool
  pub critiqued : ArtifactType → Bool
  pub lower : Text → Text
  pub shown : ℕ → Text
  pub parse : Text → Option (Triage Score)
  pub at_least : Score → Score → Bool
  pub below : Score → Score → Bool
  pub zero_score : Score
  pub one_score : Score
  pub ambiguity_threshold : Score
  pub critique_threshold : Score

-- The nodes of the graph, and END.
pub data Place : Type 0 where
  at_assess at_plan at_execute at_verify at_check at_reflect at_approval at_revise at_end : Place

-- The graph's state: the keys that the routers read, and those that they do not.
pub record Run (Score : Type 0) : Type 0 where
  pub core : State Score
  pub step_markers : Dict Text
  pub messages : List Entry
  pub error_class : Option Text
  pub tools_used : List Text
  pub tests_passed : Bool
  pub clarification_question : Option Text

pub record Position (Score : Type 0) : Type 0 where
  pub place : Place
  pub run : Run Score

-- What a step gets from outside. `answer` is what the model writes in this step, `child_id` the fresh
-- id of `plan`, `results` what `plan_and_dispatch` returns, `approved` the user's decision.
pub record Input (Score : Type 0) : Type 0 where
  pub now : Text
  pub answer : Text
  pub complexity : Complexity
  pub route : Option RouteResult
  pub has_doc_skills : Bool
  pub child_id : Text
  pub results : List WorkerResult
  pub has_skills : Bool
  pub critique : Reply Score
  pub approved : Bool

-- Where a conditional edge leads.
unfoldable pub place_of : Node → Place
place_of to_plan = at_plan
place_of to_execute = at_execute
place_of to_check = at_check
place_of to_reflect = at_reflect
place_of to_approval = at_approval
place_of to_revise = at_revise
place_of to_end = at_end

-- The state of the loop over the results before the first one.
abbrev pub no_progress : {Score : Type 0} → Run Score → Progress
no_progress r = record {
  tree = r.core.goal_tree;
  markers = r.step_markers;
  last_artifact = record { kind = other; payload = [] };
  error_class_seen = none;
  tools = [];
  tests_passed = false;
}

-- The keys that `execute` returns, written over the state's.
unfoldable pub commit_execute : {Score : Type 0} → Progress → Run Score → Run Score
commit_execute p r = record r {
  core = record r.core { goal_tree = p.tree; last_artifact = some p.last_artifact };
  step_markers = p.markers;
  error_class = elim p.error_class_seen [ none ↦ r.error_class | some c ↦ some (class_value c) ];
  tools_used = if is_empty p.tools then r.tools_used else p.tools;
  tests_passed = p.tests_passed || r.tests_passed;
}

module _ {Score : Type 0} (σ : Settings Score) where
  -- `assess_ambiguity`, and the edge out of it.
  unfoldable pub assess_step : Input Score → Run Score → Position Score
  assess_step i r =
      let (core, question) =
        assess_ambiguity σ.at_least σ.zero_score σ.ambiguity_threshold σ.parse i.complexity i.answer
          r.core in
      let n =
        ambiguity_router σ.limits σ.at_least σ.below σ.one_score σ.ambiguity_threshold
          σ.critique_threshold core in
      record {
        place = place_of n;
        run = record r { core = core; clarification_question = question };
      }

  -- `plan`, and the edge out of it.
  unfoldable pub plan_step : Input Score → Run Score → Option (Position Score)
  plan_step i r = do
    core ← plan σ.shown σ.direct_answers i.now i.route i.has_doc_skills i.child_id i.answer r.core
    let n = clarification_router σ.limits core
    some (record { place = place_of n; run = record r { core = core } })

  unfoldable pub execute : Text → List WorkerResult → Run Score → Option (Run Score)
  execute now results r = do
    ready ← get_ready_goals r.core.goal_tree
    elim ready [
      | [] ↦ some r
      | _ ∷ _ ↦ (do
        p ← apply_results σ.lower σ.limits now (no_progress r) results
        some (commit_execute p r))
    ]

  -- `verify`, and the edge out of it.
  unfoldable pub verify_step : Input Score → Run Score → Position Score
  verify_step i r =
      let core =
        verify σ.limits σ.at_least σ.below σ.one_score σ.ambiguity_threshold σ.critique_threshold
          σ.critiqued i.has_skills i.critique r.core in
      let n =
        verify_router σ.limits σ.at_least σ.below σ.one_score σ.ambiguity_threshold
          σ.critique_threshold core in
      record { place = place_of n; run = record r { core = core } }

  -- `check`, and the edge out of it.
  unfoldable pub check_step : Input Score → Run Score → Option (Position Score)
  check_step i r = do
    o ← check σ.limits σ.shown i.now r.core.goal_tree
    let core = commit_check σ.limits o r.core
    n ← router σ.limits core
    some (record { place = place_of n; run = record r { core = core } })

  -- The node `reflect` at the current goal.
  unfoldable pub reflect_step : Input Score → Run Score → Option (Run Score)
  reflect_step i r = do
    gid ← r.core.current_goal_id
    (tree, messages) ← reflect i.now gid i.answer r.core.goal_tree r.messages
    some (record r { core = record r.core { goal_tree = tree }; messages = messages })

  unfoldable pub approval_step : Input Score → Run Score → Option (Run Score)
  approval_step i r = do
    gid ← r.core.current_goal_id
    tree ← approval i.now gid i.approved r.core.goal_tree
    some (record r { core = record r.core { goal_tree = tree } })

  unfoldable pub next_from : Input Score → Place → Run Score → Option (Position Score)
  next_from i at_assess r = some (assess_step i r)
  next_from i at_plan r = plan_step i r
  next_from i at_execute r = do
    r' ← execute i.now i.results r
    some (record { place = at_verify; run = r' })
  next_from i at_verify r = some (verify_step i r)
  next_from i at_check r = check_step i r
  next_from i at_reflect r = do
    r' ← reflect_step i r
    some (record { place = at_execute; run = r' })
  next_from i at_approval r = do
    r' ← approval_step i r
    some (record { place = at_execute; run = r' })
  next_from i at_revise r = do
    core ← revise σ.limits i.now (some i.answer) r.core
    some (record { place = at_end; run = record r { core = core } })
  next_from i at_end r = none

  -- One step of the graph; none after the end.
  abbrev pub next : Input Score → Position Score → Option (Position Score)
  next i s = next_from i s.place s.run

-- The goal is in the tree, PENDING with its children COMPLETED.
abbrev pub IsWaiting : Tree → Text → Type 0
IsWaiting tree gid = (g : Goal) × (lookup gid tree ≡ some g) × IsEligible tree g

-- The results answer ready goals, and there is one.
abbrev pub IsAnswer : Tree → List WorkerResult → Type 0
IsAnswer tree results = (is_empty results ≡ false) × All (λ r. IsWaiting tree r.id) results

-- What is asked of the workers: where there are ready goals, `execute` gets results of such goals.
abbrev pub IsServed : {Score : Type 0} → Input Score → Position Score → Type 0
IsServed i s =
    s.place ≡ at_execute
    → (g : Goal) (gs : List Goal) → get_ready_goals s.run.core.goal_tree ≡ some (g ∷ gs)
    → IsAnswer s.run.core.goal_tree i.results

-- A run of so many steps.
pub data Trace {Score : Type 0} (σ : Settings Score)
    : ℕ → Position Score → Position Score → Type 0 where
  here : {s : Position Score} → Trace σ 0 s s
  onward :
      {n : ℕ} {s t u : Position Score} (i : Input Score)
      → IsServed i s
      → next σ i s ≡ some t
      → Trace σ n t u
      → Trace σ (n + 1) s u
