-- ===== src/Graph/Execute.antt =====
-- The loop of `execute_node` over the results of the workers. The pause before a rate-limited retry
-- changes no state. `none` is the KeyError of a result for an unknown goal.
pub mod Attempts
use labmate.Common.{
  ℕ, ◌+◌, Bool, true, false, not, ◌&&◌, ◌||◌, Option, none, some, List, [], ◌∷◌, ◌++◌,
  if◌then◌else◌, Text, codes, is_empty, Dict, lookup, insert, ◌>>=◌, text_eq, leb, min,
}
use labmate.Goals.{Status, completed, failed, Goal, Tree, update_status}
use labmate.Errors.{
  ErrorClass, terminal_dependency, terminal_credential, terminal_network, rate_limited, transient,
  retryable, is_terminal, classify_error,
}
use labmate.Graph.{Limits, Artifact, ArtifactType, classify_artifact}

-- `Result` of coding_orchestrator.py, without `artifacts`, which this loop does not read.
pub record WorkerResult : Type 0 where
  pub id : Text
  pub summary : Text
  pub ok : Bool
  pub tools_used : List Text
  pub tests_passed : Bool

-- `cls.value`
unfoldable pub class_value : ErrorClass → Text
class_value terminal_dependency = codes "TERMINAL_DEPENDENCY"
class_value terminal_credential = codes "TERMINAL_CREDENTIAL"
class_value terminal_network = codes "TERMINAL_NETWORK"
class_value rate_limited = codes "RATE_LIMITED"
class_value transient = codes "TRANSIENT"
class_value retryable = codes "RETRYABLE"

-- What the loop updates.
pub record Progress : Type 0 where
  pub tree : Tree
  pub markers : Dict Text
  pub last_artifact : Artifact
  pub error_class_seen : Option ErrorClass
  pub tools : List Text
  pub tests_passed : Bool

-- `cls == ErrorClass.RATE_LIMITED`
abbrev pub is_rate_limited : ErrorClass → Bool
is_rate_limited rate_limited = true
is_rate_limited _ = false

-- The number of attempts of a goal after a failure of this class, from the number before.
unfoldable pub attempts_after : Limits → ErrorClass → ℕ → ℕ
unfolding is_terminal
attempts_after l cls prior =
    if is_terminal cls
    then l.max_goal_attempts
    else if is_rate_limited cls
    then (if leb (min l.max_rate_limit_retries l.max_goal_attempts) prior
        then l.max_goal_attempts
        else prior + 1)
    else prior + 1

-- `markers.get(gid) == "completed"`
unfoldable pub is_marked : Text → Dict Text → Bool
is_marked gid markers = elim (lookup gid markers) [
  | none ↦ false
  | some m ↦ text_eq m (codes "completed")
]

module _ (lower : Text → Text) (l : Limits) (now : Text) where
  -- The branch of a failed result.
  unfoldable pub apply_failure : Progress → WorkerResult → Option Progress
  apply_failure p r = do
    let cls = classify_error lower (some r.summary)
    g ← lookup r.id p.tree
    let g' = record g {
      error_class = some (class_value cls);
      attempts = attempts_after l cls g.attempts;
    }
    let tree = insert r.id g' p.tree
    tree' ←
        update_status now tree r.id failed
          (λ x. record x { result = some r.summary; error = some r.summary })
    some (record p { tree = tree'; error_class_seen = some cls })

  -- The branch of a result that is ok.
  unfoldable pub apply_success : Progress → WorkerResult → Option Progress
  apply_success p r = do
    tree' ← update_status now p.tree r.id completed (λ x. record x { result = some r.summary })
    some (record p {
      tree = tree';
      markers = insert r.id (codes "completed") p.markers;
      last_artifact =
          if is_empty r.summary
          then p.last_artifact
          else record { kind = classify_artifact r.summary; payload = r.summary };
      tools = p.tools ++ r.tools_used;
      tests_passed = p.tests_passed || r.tests_passed;
    })

  unfoldable pub apply_result : Progress → WorkerResult → Option Progress
  apply_result p r =
      if is_marked r.id p.markers
      then some p
      else if r.ok
      then apply_success p r
      else apply_failure p r

  unfoldable pub apply_results : Progress → List WorkerResult → Option Progress
  apply_results p [] = some p
  apply_results p (r ∷ rs) = apply_result p r >>= λ p'. apply_results p' rs
