-- ===== src/Graph/Wiring/Examples.antt =====
-- Runs and instances for the wiring of the graph.
use labmate.Common.{
  ℕ, zero, suc, ◌>>=◌, ◌+◌, ◌*◌, ◌≤◌, ◌≡◌, refl, true, false, Option, none, some, [], ◌∷◌, Text,
  codes, lookup, arith, sym, ◌∙◌, ascii_lower, leb, ltb, ◌⊎◌, text_eq, insert, member,
}
use labmate.Goals.{
  pending, Goal, Tree, new_goal, get_ready_goals, ready_among, is_ready, children_completed,
  create_goal, add_child, update_status,
}
use labmate.Graph.{Limits}
use labmate.Graph.Execute.{apply_results, apply_result, is_marked, apply_success}
use labmate.Graph.Routing.{
  State, no_critique, critique, is_truthy, ambiguity_router, clarification_router, verify, score_of,
  verify_router,
}
use labmate.Graph.Planning.{assess_ambiguity, ambiguity_of, question_of, plan, delegate}
use labmate.Graph.Wiring.{
  Settings, at_assess, at_plan, at_execute, Run, Position, Input, next, Trace, here, onward,
  IsAnswer, next_from, assess_step, place_of, plan_step, execute, commit_execute, verify_step,
  reflect_step,
}
use labmate.Graph.Wiring.Measure.{total_cost}
use labmate.Graph.Wiring.Start.{IsFresh, graph_returns}
use labmate.Graph.Wiring.Livelock.{IsStuck, marked_goal_never_settles}
use labmate.Graph.Check.{check, decide, root_children, holds_of, first_of}
use labmate.Graph.Traversal.{
  descendants, walk, walk_fuel, unseen_children, push_children, sort_entries, insert_entry,
  is_before, entry_ids,
}
use labmate.Graph.Reflection.{reflect}

abbrev limits : Limits
limits = record {
  max_goal_attempts = 2;
  max_rate_limit_retries = 1;
  max_verify_retries = 1;
  max_finalize_revisions = 1;
  enable_finalize_revision = false;
}

-- Scores in percent; every triage reads as a clear task.
abbrev settings : Settings ℕ
settings = record {
  limits = limits;
  direct_answers = true;
  critiqued = λ _. false;
  lower = ascii_lower;
  shown = λ n. n ∷ [];
  parse = λ _. some (record { ambiguity = some 10; blocking_question = [] });
  at_least = λ a b. leb b a;
  below = ltb;
  zero_score = 0;
  one_score = 100;
  ambiguity_threshold = 60;
  critique_threshold = 90;
}

-- The task "fix" is delegated and done.
abbrev input : Input ℕ
input = record {
  now = codes "t";
  answer = codes "ok";
  complexity = record { skip_ambiguity = false; skip_verify = false };
  route = some (record { skills = codes "s" ∷ []; sub_intents = codes "fix" ∷ [] });
  has_doc_skills = false;
  child_id = codes "c";
  results =
      record {
        id = codes "c";
        summary = codes "done";
        ok = true;
        tools_used = [];
        tests_passed = false;
      }
      ∷ [];
  has_skills = true;
  critique = no_critique;
  approved = true;
}

abbrev first_tree : Tree
first_tree = (codes "root", new_goal (codes "root") none (codes "fix")) ∷ []

abbrev core_of : Tree → Text → State ℕ
core_of tree current = record {
  goal_tree = tree;
  current_goal_id = some current;
  final_answer = none;
  error = none;
  last_artifact = none;
  ambiguity = 0;
  skip_ambiguity = false;
  skip_verify = false;
  awaiting_clarification = false;
  direct_answer = false;
  critique_score = 100;
  critique_notes = [];
  verify_reflect = none;
  verify_retries = 0;
  finalize_revisions = 0;
  revised = false;
}

abbrev first_run : Run ℕ
first_run = record {
  core = core_of first_tree (codes "root");
  step_markers = [];
  messages = [];
  error_class = none;
  tools_used = [];
  tests_passed = false;
  clarification_question = none;
}

abbrev start : Position ℕ
start = record { place = at_assess; run = first_run }

first_tree-IsFresh : IsFresh first_tree
unfolding lookup new_goal
first_tree-IsFresh k g found = ground arith

-- The position after a step.
abbrev after : Position ℕ → Position ℕ
after s = elim (next settings input s) [ none ↦ s | some t ↦ t ]

first_step : next settings input start ≡ some (after start)
unfolding next_from
first_step = refl

second_step : next settings input (after start) ≡ some (after (after start))
unfolding next_from assess_step place_of ambiguity_router assess_ambiguity ambiguity_of plan_step
    plan lookup text_eq delegate
second_step = refl

third_step : next settings input (after (after start)) ≡ some (after (after (after start)))
unfolding next_from assess_step place_of ambiguity_router assess_ambiguity ambiguity_of plan_step
    plan lookup text_eq delegate clarification_router is_truthy create_goal add_child insert
    new_goal execute get_ready_goals ready_among is_ready children_completed apply_results
    apply_result is_marked apply_success update_status commit_execute question_of
third_step = refl

second_place : (after start).place ≡ at_plan
unfolding next_from assess_step place_of ambiguity_router assess_ambiguity ambiguity_of
second_place = refl

third_waits : IsAnswer (after (after start)).run.core.goal_tree input.results
unfolding next_from assess_step place_of ambiguity_router assess_ambiguity ambiguity_of plan_step
    plan lookup text_eq delegate clarification_router is_truthy create_goal add_child insert
    new_goal
third_waits = (
  refl,
  (
    (
      new_goal (codes "c") (some (codes "root")) (codes "fix"),
      refl,
      record { is_waiting = refl; children_done = tt },
    ),
    tt,
  ),
)

plan_is_not_execute : at_plan ≡ at_execute → ⊥
plan_is_not_execute e = cc

first_path : Trace settings 3 start (after (after (after start)))
first_path =
    onward input (λ at. cc) first_step
      (onward input (λ at. absurd (plan_is_not_execute (sym second_place ∙ at))) second_step
        (onward input (λ at g gs ready. third_waits) third_step here))

-- Two steps to a plan, and the work on it.
graph_returns_example :
    (3 ≤ 2)
    ⊎ ((u : Position ℕ) × Trace settings 2 start u
        × (u.place ≡ at_execute)
        × (3 ≤ 8 * total_cost 2 u.run.core.goal_tree + 6))
graph_returns_example =
    graph_returns settings 3 first_run (after (after (after start))) (λ a. refl) first_tree-IsFresh
      refl first_path

-- The goal "c" succeeded in its second attempt, and was reopened.
abbrev reopened : Goal
reopened = record {
  id = codes "c";
  parent_id = some (codes "root");
  children = [];
  description = codes "fix";
  status = pending;
  result = some (codes "done");
  error = none;
  attempts = 1;
  started_at = none;
  updated_at = some (codes "t");
  error_class = none;
}

abbrev tree_with : Goal → Tree
tree_with g =
    (
      codes "root",
      record (new_goal (codes "root") none (codes "fix")) { children = codes "c" ∷ [] },
    )
    ∷ (codes "c", g)
    ∷ []

abbrev stuck_run : Run ℕ
stuck_run = record first_run {
  core = record (core_of (tree_with reopened) (codes "c")) { verify_retries = 1 };
  step_markers = (codes "c", codes "completed") ∷ [];
}

stuck_run-IsStuck : IsStuck settings input stuck_run
unfolding lookup text_eq get_ready_goals ready_among is_ready children_completed new_goal is_marked
    is_truthy check decide root_children holds_of first_of descendants walk walk_fuel
    unseen_children push_children sort_entries insert_entry is_before entry_ids member
stuck_run-IsStuck = record {
  gid = codes "c";
  goal = reopened;
  current = refl;
  found = refl;
  waiting = refl;
  ready = [];
  has_ready = refl;
  unfinished = refl;
  no_answer = refl;
  no_retry = refl;
  answers = (refl, ((reopened, refl, record { is_waiting = refl; children_done = tt }), tt));
  marked = (refl, tt);
}

marked_goal_never_settles_example :
    (r' : Run ℕ) × Trace settings
      (3 * 9)
      (record { place = at_execute; run = stuck_run })
      (record { place = at_execute; run = r' })
    × (r'.core.goal_tree ≡ stuck_run.core.goal_tree)
    × (r'.step_markers ≡ stuck_run.step_markers)
    × (is_truthy r'.core.final_answer ≡ false)
marked_goal_never_settles_example =
    marked_goal_never_settles settings input 9 stuck_run stuck_run-IsStuck

-- The gate on: the goal "c", in its second attempt after a failure, succeeds, is turned down with a
-- low score, and is reopened by `reflect`, marked completed and PENDING.
abbrev strict : Settings ℕ
strict = record settings { critiqued = λ _. true }

abbrev critic : Input ℕ
critic = record input { critique = critique (some 10) [] }

abbrev retried_run : Run ℕ
retried_run = record first_run {
  core = core_of (tree_with (record reopened { result = none; updated_at = none })) (codes "c");
}

abbrev steps : ℕ → Position ℕ → Option (Position ℕ)
steps zero s = some s
steps (suc n) s = next strict critic s >>= λ t. steps n t

abbrev reached : Position ℕ
reached = elim (steps 3 (record { place = at_execute; run = retried_run })) [
  | none ↦ start
  | some t ↦ t
]

critique_reopens :
    (reached.place ≡ at_execute)
    × (reached.run.core.goal_tree ≡ stuck_run.core.goal_tree)
    × (reached.run.step_markers ≡ stuck_run.step_markers)
    × (reached.run.core.verify_retries ≡ 1)
    × (reached.run.core.current_goal_id ≡ some (codes "c"))
unfolding next_from execute get_ready_goals ready_among is_ready children_completed new_goal lookup
    text_eq apply_results apply_result is_marked apply_success update_status commit_execute insert
    verify_step verify score_of verify_router place_of reflect_step reflect
critique_reopens = (refl, refl, refl, refl, refl)
