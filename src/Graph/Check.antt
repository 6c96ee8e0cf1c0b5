-- ===== src/Graph/Check.antt =====
-- The node `check`: it defers to `reflect`, waits, or finalizes the root. `shown` is the decimal of
-- a number, as `str` writes it; the events that the node emits change no state.
pub mod Finalize
use labmate.Common.{
  ℕ, Bool, true, false, not, ◌&&◌, ◌||◌, Option, none, some, List, [], ◌∷◌, ◌++◌, if◌then◌else◌,
  Text, codes, is_empty, Dict, lookup, ◌>>=◌, ltb, length, take, any, all, join,
}
use labmate.Goals.{Status, completed, failed, Goal, Tree, update_status, is_failed, is_completed}
use labmate.Graph.{Limits}
use labmate.Graph.Traversal.{descendants}

-- The child ids of "root", none if it is missing.
unfoldable pub root_children : Tree → List Text
root_children tree = elim (lookup (codes "root") tree) [ none ↦ [] | some g ↦ g.children ]

-- A test of the goal `c`, false if it is missing.
unfoldable pub holds_of : (Goal → Bool) → Tree → Text → Bool
holds_of test tree c = elim (lookup c tree) [ none ↦ false | some g ↦ test g ]

abbrev pub retryable_failed : Limits → Goal → Bool
retryable_failed l g = is_failed g.status && ltb g.attempts l.max_goal_attempts

abbrev pub ended : Goal → Bool
ended g = is_completed g.status || is_failed g.status

-- The first of the list that passes.
unfoldable pub first_of : (Text → Bool) → List Text → Option Text
first_of test [] = none
first_of test (c ∷ cs) = if test c then some c else first_of test cs

unfoldable pub select : (Text → Bool) → List Text → List Text
select test [] = []
select test (c ∷ cs) = let rest = select test cs in if test c then c ∷ rest else rest

-- A truthy `result`.
abbrev pub has_result : Goal → Bool
has_result g = elim g.result [ none ↦ false | some r ↦ not (is_empty r) ]

unfoldable pub result_entry : Tree → Text → Text
result_entry tree c = elim (lookup c tree) [
  | none ↦ []
  | some g ↦
      codes "**"
      ++ (take 80 g.description ++ (codes "**\n" ++ elim g.result [ none ↦ [] | some r ↦ r ]))
]

-- `(error or 'unknown')[:50]`
unfoldable pub short_error : Option Text → Text
short_error none = codes "unknown"
short_error (some e) = if is_empty e then codes "unknown" else take 50 e

unfoldable pub failure_entry : Tree → Text → Text
unfolding short_error
failure_entry tree c = elim (lookup c tree) [
  | none ↦ []
  | some g ↦ take 40 g.description ++ (codes " (error: " ++ (short_error g.error ++ codes ")"))
]

unfoldable pub map_text : (Text → Text) → List Text → List Text
map_text f [] = []
map_text f (c ∷ cs) = f c ∷ map_text f cs

unfoldable pub failure_summary : Tree → List Text → Text
failure_summary tree failures = join (codes "; ") (map_text (failure_entry tree) failures)

unfoldable pub final_answer_of : Tree → List Text → List Text → Text
final_answer_of tree children failures =
    let results = map_text (result_entry tree) (select (holds_of has_result tree) children) in
    let answer =
      if is_empty results then codes "Task completed." else join (codes "\n\n") results in
    if is_empty failures
    then answer
    else answer ++ (codes "\n\nFailed subtasks: " ++ failure_summary tree failures)

pub data Outcome : Type 0 where
  -- `{}`
  unchanged : Outcome
  -- The current goal becomes the failed one.
  deferred : Text → Outcome
  -- The tree, the answer and the error; the current goal becomes the root.
  finalized : Tree → Text → Option Text → Outcome

module _ (l : Limits) (shown : ℕ → Text) (now : Text) where
  -- The `error` of the result.
  unfoldable pub error_of : Tree → List Text → Option Text
  error_of tree failures =
      if is_empty failures
      then none
      else some (
          shown (length failures)
          ++ (codes " subtask(s) failed: " ++ failure_summary tree failures))

  unfoldable pub finalize : Tree → List Text → Option Outcome
  finalize tree children = do
    let failures = select (holds_of (λ g. is_failed g.status) tree) children
    let answer = final_answer_of tree children failures
    let status = if is_empty failures then completed else failed
    tree' ← update_status now tree (codes "root") status (λ x. record x { result = some answer })
    some (finalized tree' answer (error_of tree failures))

  -- The node after the walk.
  unfoldable pub decide : Tree → List Text → Option Outcome
  decide tree children =
      let retry = first_of (holds_of (retryable_failed l) tree) children in
      let all_ended = all (holds_of ended tree) children in
      let some_failed = any (holds_of (λ g. is_failed g.status) tree) children in
      if is_empty children then some unchanged else elim retry [
        | some c ↦ some (deferred c)
        | none ↦ if all_ended || some_failed then finalize tree children else some unchanged
      ]

  unfoldable pub check : Tree → Option Outcome
  unfolding root_children
  check tree = do children ← descendants tree (root_children tree); decide tree children
