-- ===== src/Graph.antt =====
-- services/orchestrator/graph.py: the nodes and routers of the goal graph.
pub mod Execute
pub mod Traversal
pub mod Check
pub mod Reflection
pub mod Routing
pub mod Planning
pub mod Wiring
mod Examples
use labmate.Common.{
  ℕ, Bool, true, false, ◌&&◌, ◌||◌, Option, none, some, List, [], ◌∷◌, Text, codes, contains_any,
  contains, strip, is_empty, if◌then◌else◌, ltb, length,
}

-- The limits that the module reads from the environment.
pub record Limits : Type 0 where
  pub max_goal_attempts : ℕ
  pub max_rate_limit_retries : ℕ
  pub max_verify_retries : ℕ
  pub max_finalize_revisions : ℕ
  pub enable_finalize_revision : Bool

pub data ArtifactType : Type 0 where
  code writing other : ArtifactType

pub record Artifact : Type 0 where
  pub kind : ArtifactType
  pub payload : Text

unfoldable pub code_markers : List Text
code_markers =
    codes "```"
    ∷ codes "def "
    ∷ codes "class "
    ∷ codes "import "
    ∷ codes "function "
    ∷ codes "=>"
    ∷ codes "};"
    ∷ codes "public "
    ∷ []

unfoldable pub classify_artifact : Text → ArtifactType
classify_artifact t =
    if is_empty t
    then other
    else if contains_any code_markers t
    then code
    else if ltb 200 (length (strip t))
    then writing
    else other
