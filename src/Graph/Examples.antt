-- ===== src/Graph/Examples.antt =====
-- Runs and instances for the nodes and routers of the graph.
use labmate.Common.{
  ℕ, ◌≤◌, ◌<◌, ◌≡◌, ◌↔◌, ◌≢◌, refl, Bool, true, false, Option, none, some, List, [], ◌∷◌,
  if◌then◌else◌, Text, codes, lookup, insert, has_key, member, text_eq, ascii_lower, arith, ltb,
  leb,
}
use labmate.Goals.{
  completed, failed, Goal, Tree, new_goal, get_ready_goals, ready_among, is_ready,
  children_completed,
}
use labmate.Errors.{classify_error}
use labmate.Graph.{Limits, ArtifactType, writing, other}
use labmate.Graph.Execute.{WorkerResult, Progress, is_marked, apply_result}
use labmate.Graph.Execute.Attempts.{retries_left, failed_goal, failed_result_uses_a_retry}
use labmate.Graph.Traversal.{
  descendants, push_children, walk, walk_fuel, sort_entries, insert_entry, is_before, entry_ids,
  unseen_children,
}
use labmate.Graph.Traversal.Exact.{IsBelow, descendants_exact}
use labmate.Graph.Check.{root_children, holds_of, retryable_failed, Outcome, finalized, check}
use labmate.Graph.Check.Finalize.{Reports}
use labmate.Graph.Routing.{
  State, Node, is_truthy, to_end, to_execute, to_reflect, to_revise, score_of, Reply, critique,
  commit_check, router, verify, revise,
}
use labmate.Graph.Routing.Routes.{
  retryable_failure_is_reflected, finished_run_is_delivered, router_keeps_going,
}
use labmate.Goals.Ready.{IsEligible}
use labmate.Graph.Routing.Retries.{Pass, reflections}
use labmate.Graph.Routing.Delivery.{IsDelivered, revise-IsDelivered}

abbrev limits : Limits
limits = record {
  max_goal_attempts = 3;
  max_rate_limit_retries = 3;
  max_verify_retries = 1;
  max_finalize_revisions = 1;
  enable_finalize_revision = true;
}

abbrev root_id : Text
root_id = codes "root"

abbrev c_id : Text
c_id = codes "c"

abbrev root : Goal
root = record (new_goal root_id none (codes "fix the bug")) { children = c_id ∷ [] }

-- A child that waits, one that failed once, and one that is done.
abbrev waiting : Goal
waiting = new_goal c_id (some root_id) (codes "find it")

abbrev tried : Goal
tried = record waiting { status = failed; attempts = 1; error = some (codes "oops") }

abbrev done : Goal
done = record waiting { status = completed; result = some (codes "line 7") }

abbrev tree_of : Goal → Tree
tree_of g = (root_id, root) ∷ (c_id, g) ∷ []

abbrev oops : WorkerResult
oops = record {
  id = c_id;
  summary = codes "oops";
  ok = false;
  tools_used = [];
  tests_passed = false;
}

abbrev start : Progress
start = record {
  tree = tree_of waiting;
  markers = [];
  last_artifact = record { kind = other; payload = [] };
  error_class_seen = none;
  tools = [];
  tests_passed = false;
}

abbrev noon : Text
noon = codes "noon"

failed_result_uses_a_retry_example :
    (p' : Progress) × (apply_result ascii_lower limits noon start oops ≡ some p')
    × (lookup root_id p'.tree ≡ (
        if text_eq root_id c_id
        then some (failed_goal ascii_lower limits noon waiting oops)
        else lookup root_id start.tree))
    × (p'.markers ≡ start.markers)
    × (retries_left 3 p'.tree < retries_left 3 start.tree)
unfolding lookup text_eq is_marked new_goal
failed_result_uses_a_retry_example =
    failed_result_uses_a_retry ascii_lower limits noon start oops waiting root_id refl refl refl
      (omega arith)

abbrev after_oops : Progress
after_oops = record start {
  tree = insert c_id (failed_goal ascii_lower limits noon waiting oops) (tree_of waiting);
  error_class_seen = some (classify_error ascii_lower (some (codes "oops")));
}

descendants_exact_example :
    (ids : List Text) × (descendants (tree_of tried) (c_id ∷ []) ≡ some ids)
    × ((c : Text)
        → (member c ids ≡ true)
          ↔ (IsBelow (tree_of tried) (c_id ∷ []) c × (has_key c (tree_of tried) ≡ true)))
descendants_exact_example = descendants_exact (tree_of tried) (c_id ∷ [])

-- Scores in hundredths.
abbrev state_of : Tree → State ℕ
state_of tree = record {
  goal_tree = tree;
  current_goal_id = some c_id;
  final_answer = none;
  error = none;
  last_artifact = some (record { kind = writing; payload = codes "draft" });
  ambiguity = 10;
  skip_ambiguity = false;
  skip_verify = false;
  awaiting_clarification = false;
  direct_answer = false;
  critique_score = 100;
  critique_notes = [];
  verify_reflect = none;
  verify_retries = 0;
  finalize_revisions = 0;
  revised = false;
}

abbrev shown : ℕ → Text
shown n = codes "some"

abbrev below_root : descendants (tree_of tried) (root_children (tree_of tried)) ≡ some (c_id ∷ [])
unfolding descendants push_children walk walk_fuel sort_entries insert_entry is_before entry_ids
    unseen_children root_children lookup text_eq new_goal member
below_root = refl

retryable_failure_is_reflected_example :
    (o : Outcome) × (check limits shown noon (tree_of tried) ≡ some o)
    × (router limits (commit_check limits o (state_of (tree_of tried))) ≡ some to_reflect)
    × ((commit_check limits o (state_of (tree_of tried))).goal_tree ≡ tree_of tried)
    × (c : Text) × ((commit_check limits o (state_of (tree_of tried))).current_goal_id ≡ some c)
    × (holds_of (retryable_failed limits) (tree_of tried) c ≡ true)
unfolding holds_of lookup text_eq new_goal is_truthy
retryable_failure_is_reflected_example =
    retryable_failure_is_reflected limits shown noon (state_of (tree_of tried)) (c_id ∷ []) refl
      below_root refl

-- A run whose only child is done.
abbrev finished : State ℕ
finished = state_of (tree_of done)

abbrev below_done : descendants (tree_of done) (root_children (tree_of done)) ≡ some (c_id ∷ [])
unfolding descendants push_children walk walk_fuel sort_entries insert_entry is_before entry_ids
    unseen_children root_children lookup text_eq new_goal member
below_done = refl

finished_run_is_delivered_example :
    (tree' : Tree) × (answer : Text) × (error : Option Text) × (check limits shown noon
        (tree_of done)
      ≡ some (finalized tree' answer error))
    × Reports (tree_of done) (c_id ∷ []) root noon tree' answer error
    × (router limits (commit_check limits (finalized tree' answer error) finished) ≡ some to_revise)
unfolding holds_of lookup text_eq new_goal
finished_run_is_delivered_example =
    finished_run_is_delivered limits shown noon finished (c_id ∷ []) root refl below_done refl refl
      refl

waiting-IsEligible : IsEligible (tree_of waiting) waiting
unfolding new_goal
waiting-IsEligible = record { is_waiting = refl; children_done = tt }

router_keeps_going_example :
    (n : Node) × (router limits (state_of (tree_of waiting)) ≡ some n) × (n ≢ to_end)
unfolding lookup text_eq new_goal is_truthy has_key
router_keeps_going_example =
    router_keeps_going limits (state_of (tree_of waiting)) c_id waiting c_id waiting
      ((refl, tt), (tt, tt)) refl refl refl refl waiting-IsEligible

waiting_child_is_executed : router limits (state_of (tree_of waiting)) ≡ some to_execute
unfolding router lookup text_eq get_ready_goals ready_among is_ready children_completed new_goal
    is_truthy
waiting_child_is_executed = refl

abbrev weak : Reply ℕ
weak = critique (some 40) (codes "thin")

abbrev pass : Pass ℕ
pass = record {
  artifact = some (record { kind = writing; payload = codes "draft" });
  has_skills = true;
  reply = weak;
}

abbrev every_type : ArtifactType → Bool
every_type t = true

abbrev at_least : ℕ → ℕ → Bool
at_least a b = leb b a

two_weak_passes_reflect_once :
    (reflections limits at_least ltb 100 60 90 every_type (pass ∷ pass ∷ []) finished).0 ≡ 1
unfolding reflections verify score_of
two_weak_passes_reflect_once = refl

-- The run with its answer delivered.
abbrev delivered : State ℕ
delivered = record finished {
  goal_tree =
      (root_id, record root { status = completed; result = some (codes "line 7") })
      ∷ (c_id, done)
      ∷ [];
  final_answer = some (codes "line 7");
}

revise-IsDelivered_example :
    (s' : State ℕ) × (revise limits noon (some (codes " line 8 ")) delivered ≡ some s')
    × IsDelivered s'
    × (s'.finalize_revisions ≤ 1)
unfolding lookup text_eq
revise-IsDelivered_example =
    revise-IsDelivered limits noon (some (codes " line 8 ")) delivered
      (record {
        answer = codes "line 7";
        answered = refl;
        some_text = refl;
        root = record root { status = completed; result = some (codes "line 7") };
        has_root = refl;
        mirrored = refl;
      })
      (omega arith)
