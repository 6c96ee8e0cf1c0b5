-- ===== src/Checkpoint.antt =====
-- services/orchestrator/loop_checkpoint.py: the snapshot of a ReAct loop, its dict, and the store in
-- memory. An element of a list (a message or a text) and a float are of types left open.
pub mod Resume
mod Examples
use labmate.Common.{
  ℕ, Bool, true, false, Option, none, some, List, [], ◌∷◌, ◌++◌, if◌then◌else◌, Text, codes, Dict,
  lookup, insert, ◌>>=◌, text_eq, ◌==◌,
}

-- The values that a checkpoint's dict holds; numbers below 0 are never written.
pub data Value (Item F : Type 0) : Type 0 where
  null : Value Item F
  boolean : Bool → Value Item F
  whole : ℕ → Value Item F
  real : F → Value Item F
  string : Text → Value Item F
  items : List Item → Value Item F

pub record LoopCheckpoint (Item F : Type 0) : Type 0 where
  pub task_id : Text
  pub goal : Text
  pub messages : List Item
  pub used : ℕ
  pub absolute_turns : ℕ
  pub grace_used : Bool
  pub edited_files : List Item
  pub tests_passed : Bool
  pub verify_nudges_used : ℕ
  pub loop_signatures : List Item
  pub tools_used : List Item
  pub loaded_skills : List Item
  pub start_monotonic_offset : F
  pub turn : ℕ

-- Python's `int`, `float`, `list` and `bool`, `none` for a TypeError or a ValueError, and the float
-- 0.0.
pub record Builtins (Item F : Type 0) : Type 0 where
  pub to_int : Value Item F → Option ℕ
  pub to_float : Value Item F → Option F
  pub to_list : Value Item F → Option (List Item)
  pub truthy : Value Item F → Bool
  pub zero_point_zero : F

unfoldable pub checkpoint_version : ℕ
checkpoint_version = 1

module _ {Item F : Type 0} where
  unfoldable pub to_dict : LoopCheckpoint Item F → Dict (Value Item F)
  unfolding checkpoint_version
  to_dict cp =
      (codes "version", whole checkpoint_version)
      ∷ (codes "task_id", string cp.task_id)
      ∷ (codes "goal", string cp.goal)
      ∷ (codes "messages", items cp.messages)
      ∷ (codes "used", whole cp.used)
      ∷ (codes "absolute_turns", whole cp.absolute_turns)
      ∷ (codes "grace_used", boolean cp.grace_used)
      ∷ (codes "edited_files", items cp.edited_files)
      ∷ (codes "tests_passed", boolean cp.tests_passed)
      ∷ (codes "verify_nudges_used", whole cp.verify_nudges_used)
      ∷ (codes "loop_signatures", items cp.loop_signatures)
      ∷ (codes "tools_used", items cp.tools_used)
      ∷ (codes "loaded_skills", items cp.loaded_skills)
      ∷ (codes "start_monotonic_offset", real cp.start_monotonic_offset)
      ∷ (codes "turn", whole cp.turn)
      ∷ []

  -- A required key with a value of type str, and of type list.
  unfoldable pub required_text : Text → Dict (Value Item F) → Option Text
  required_text key d = elim (lookup key d) [
    | none ↦ none
    | some v ↦ elim v [
      | null ↦ none
      | boolean b ↦ none
      | whole n ↦ none
      | real f ↦ none
      | string s ↦ some s
      | items xs ↦ none
    ]
  ]

  unfoldable pub required_list : Text → Dict (Value Item F) → Option (List Item)
  required_list key d = elim (lookup key d) [
    | none ↦ none
    | some v ↦ elim v [
      | null ↦ none
      | boolean b ↦ none
      | whole n ↦ none
      | real f ↦ none
      | string s ↦ none
      | items xs ↦ some xs
    ]
  ]

module _ {Item F : Type 0} (py : Builtins Item F) where
  -- `int(d.get("version", -1)) != CHECKPOINT_VERSION` is false.
  unfoldable pub has_version : Dict (Value Item F) → Bool
  unfolding checkpoint_version
  has_version d = elim (lookup (codes "version") d) [
    | none ↦ false
    | some v ↦ elim (py.to_int v) [ none ↦ false | some n ↦ n == checkpoint_version ]
  ]

  unfoldable pub int_or_zero : Text → Dict (Value Item F) → Option ℕ
  int_or_zero key d = elim (lookup key d) [ none ↦ some 0 | some v ↦ py.to_int v ]

  unfoldable pub float_or_zero : Text → Dict (Value Item F) → Option F
  float_or_zero key d = elim (lookup key d) [
    | none ↦ some py.zero_point_zero
    | some v ↦ py.to_float v
  ]

  unfoldable pub bool_or_false : Text → Dict (Value Item F) → Bool
  bool_or_false key d = elim (lookup key d) [ none ↦ false | some v ↦ py.truthy v ]

  -- `list(d.get(key, []) or [])`
  unfoldable pub list_or_empty : Text → Dict (Value Item F) → Option (List Item)
  list_or_empty key d = elim (lookup key d) [
    | none ↦ some []
    | some v ↦ if py.truthy v then py.to_list v else some []
  ]

  unfoldable pub from_dict : Option (Dict (Value Item F)) → Option (LoopCheckpoint Item F)
  from_dict none = none
  from_dict (some d) =
      if has_version d
      then (do
        task_id ← required_text (codes "task_id") d
        goal ← required_text (codes "goal") d
        messages ← required_list (codes "messages") d
        used ← int_or_zero (codes "used") d
        absolute_turns ← int_or_zero (codes "absolute_turns") d
        edited_files ← list_or_empty (codes "edited_files") d
        verify_nudges_used ← int_or_zero (codes "verify_nudges_used") d
        loop_signatures ← list_or_empty (codes "loop_signatures") d
        tools_used ← list_or_empty (codes "tools_used") d
        loaded_skills ← list_or_empty (codes "loaded_skills") d
        start_monotonic_offset ← float_or_zero (codes "start_monotonic_offset") d
        turn ← int_or_zero (codes "turn") d
        some (record {
          task_id = task_id;
          goal = goal;
          messages = messages;
          used = used;
          absolute_turns = absolute_turns;
          grace_used = bool_or_false (codes "grace_used") d;
          edited_files = edited_files;
          tests_passed = bool_or_false (codes "tests_passed") d;
          verify_nudges_used = verify_nudges_used;
          loop_signatures = loop_signatures;
          tools_used = tools_used;
          loaded_skills = loaded_skills;
          start_monotonic_offset = start_monotonic_offset;
          turn = turn;
        }))
      else none

-- FakeCheckpointStore: a dict from task ids to the dicts of their checkpoints.
abbrev pub Store : Type 0 → Type 0 → Type 0
Store Item F = Dict (Dict (Value Item F))

module _ {Item F : Type 0} where
  unfoldable pub save : LoopCheckpoint Item F → Store Item F → Store Item F
  save cp mem = insert cp.task_id (to_dict cp) mem

  unfoldable pub load : Builtins Item F → Text → Store Item F → Option (LoopCheckpoint Item F)
  load py task_id mem = from_dict py (lookup task_id mem)

  unfoldable pub clear : Text → Store Item F → Store Item F
  clear task_id [] = []
  clear task_id ((k, d) ∷ mem) =
      let rest = clear task_id mem in if text_eq task_id k then rest else (k, d) ∷ rest
