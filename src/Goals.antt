-- ===== src/Goals.antt =====
-- services/orchestrator/types.py: the goal tree, a dict from ids to goals. `none` is a KeyError.
-- `now` is what `now_iso()` returns.
pub mod Ready
pub mod Updates
mod Examples
use labmate.Common.{
  ℕ, Bool, true, false, not, ◌&&◌, Option, none, some, List, [], ◌∷◌, ◌++◌, if◌then◌else◌, Text,
  is_empty, Dict, lookup, insert, has_key, ◌>>=◌,
}

pub data Status : Type 0 where
  pending in_progress completed failed blocked awaiting_approval : Status

abbrev pub is_pending : Status → Bool
is_pending pending = true
is_pending _ = false

abbrev pub is_completed : Status → Bool
is_completed completed = true
is_completed _ = false

abbrev pub is_failed : Status → Bool
is_failed failed = true
is_failed _ = false

-- `error_class` is the key that `execute` adds to a failed goal.
pub record Goal : Type 0 where
  pub id : Text
  pub parent_id : Option Text
  pub children : List Text
  pub description : Text
  pub status : Status
  pub result : Option Text
  pub error : Option Text
  pub attempts : ℕ
  pub started_at : Option Text
  pub updated_at : Option Text
  pub error_class : Option Text

abbrev pub Tree : Type 0
Tree = Dict Goal

-- The dict that `create_goal` stores.
unfoldable pub new_goal : Text → Option Text → Text → Goal
new_goal gid parent desc = record {
  id = gid;
  parent_id = parent;
  children = [];
  description = desc;
  status = pending;
  result = none;
  error = none;
  attempts = 0;
  started_at = none;
  updated_at = none;
  error_class = none;
}

-- `tree[parent_id]["children"].append(gid)`, if the parent is there.
unfoldable pub add_child : Text → Text → Tree → Tree
add_child parent gid tree = elim (lookup parent tree) [
  | none ↦ tree
  | some p ↦ insert parent (record p { children = p.children ++ gid ∷ [] }) tree
]

unfoldable pub create_goal : Tree → Text → Option Text → Text → Tree
unfolding new_goal add_child
create_goal tree gid none desc = insert gid (new_goal gid none desc) tree
create_goal tree gid (some parent) desc =
    let tree' = insert gid (new_goal gid (some parent) desc) tree in
    if is_empty parent then tree' else add_child parent gid tree'

-- `change` stands for the keyword arguments, which overwrite fields after the status is set.
unfoldable pub update_status : Text → Tree → Text → Status → (Goal → Goal) → Option Tree
update_status now tree gid status change = do
  g ← lookup gid tree
  some (insert gid (change (record g { status = status; updated_at = some now })) tree)

-- `all(tree[c]["status"] == COMPLETED for c in children)`, which stops at the first that is not.
unfoldable pub children_completed : Tree → List Text → Option Bool
children_completed tree [] = some true
children_completed tree (c ∷ cs) =
    let rest = children_completed tree cs in
    elim (lookup c tree) [
      | none ↦ none
      | some g ↦ if is_completed g.status then rest else some false
    ]

unfoldable pub is_ready : Tree → Goal → Option Bool
is_ready tree g = if is_pending g.status then children_completed tree g.children else some false

unfoldable pub ready_among : Tree → Tree → Option (List Goal)
unfolding is_ready
ready_among tree [] = some []
ready_among tree ((gid, g) ∷ rest) = do
  ready ← is_ready tree g
  later ← ready_among tree rest
  some (if ready then g ∷ later else later)

unfoldable pub get_ready_goals : Tree → Option (List Goal)
get_ready_goals tree = ready_among tree tree
