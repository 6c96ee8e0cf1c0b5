-- ===== src/Goals/Examples.antt =====
-- Runs and instances for the goal tree.
use labmate.Common.{
  ◌≡◌, refl, none, some, List, [], ◌∷◌, Text, codes, lookup, insert, has_key, text_eq,
}
use labmate.Goals.{
  Goal, Tree, new_goal, add_child, create_goal, get_ready_goals, is_ready, ready_among,
  children_completed,
}
use labmate.Goals.Ready.{Selects, get_ready_goals-Selects}

abbrev root_id : Text
root_id = codes "root"

abbrev root : Goal
root = new_goal root_id none (codes "fix the bug")

abbrev one_goal : Tree
one_goal = (root_id, root) ∷ []

abbrev root_over_child : Goal
root_over_child = record root { children = codes "c" ∷ [] }

abbrev child : Goal
child = new_goal (codes "c") (some root_id) (codes "find it")

abbrev two_goals : Tree
two_goals = (root_id, root_over_child) ∷ (codes "c", child) ∷ []

two_goals_created : create_goal one_goal (codes "c") (some root_id) (codes "find it") ≡ two_goals
unfolding create_goal new_goal add_child lookup insert text_eq
two_goals_created = refl

leaf_is_ready : get_ready_goals two_goals ≡ some (child ∷ [])
unfolding get_ready_goals ready_among is_ready children_completed lookup text_eq new_goal
leaf_is_ready = refl

get_ready_goals-Selects_example :
    (gs : List Goal) × (get_ready_goals two_goals ≡ some gs) × Selects two_goals two_goals gs
unfolding lookup text_eq new_goal has_key
get_ready_goals-Selects_example = get_ready_goals-Selects two_goals ((refl, tt), (tt, tt))
