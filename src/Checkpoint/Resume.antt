-- ===== src/Checkpoint/Resume.antt =====
-- That a saved loop resumes as it was.
use labmate.Common.{
  ℕ, ◌≡◌, refl, Bool, true, false, not, Option, none, some, List, [], ◌∷◌, ◌++◌, if◌then◌else◌,
  Text, codes, Dict, lookup, text_eq, text_eq_iff, lookup-insert, is_empty, append-nil, arith, ◌∙◌,
  ap,
}
use mathlib.Core.Path.{subst}
use labmate.Checkpoint.{
  Value, boolean, whole, real, items, LoopCheckpoint, Builtins, to_dict, from_dict, has_version,
  required_text, required_list, int_or_zero, float_or_zero, bool_or_false, list_or_empty, Store,
  save, load, clear, checkpoint_version,
}

-- What Python documents of its builtins on the values that to_dict writes.
pub record IsPython {Item F : Type 0} (py : Builtins Item F) : Type 0 where
  pub to_int-whole : (n : ℕ) → py.to_int (whole n) ≡ some n
  pub to_float-real : (f : F) → py.to_float (real f) ≡ some f
  pub to_list-items : (xs : List Item) → py.to_list (items xs) ≡ some xs
  pub truthy-boolean : (b : Bool) → py.truthy (boolean b) ≡ b
  pub truthy-items : (xs : List Item) → py.truthy (items xs) ≡ not (is_empty xs)

module _ {Item F : Type 0} (py : Builtins Item F) (python : IsPython py) where
  list_or_empty-items :
      (key : Text) (d : Dict (Value Item F)) (xs : List Item)
      → lookup key d ≡ some (items xs)
      → list_or_empty py key d ≡ some xs
  unfolding list_or_empty
  list_or_empty-items key d [] e = ground (arith, python.truthy-items [])
  list_or_empty-items key d (x ∷ xs) e =
      ground (arith, python.truthy-items (x ∷ xs), python.to_list-items (x ∷ xs))

  int_or_zero-whole :
      (key : Text) (d : Dict (Value Item F)) (n : ℕ)
      → lookup key d ≡ some (whole n)
      → int_or_zero py key d ≡ some n
  unfolding int_or_zero
  int_or_zero-whole key d n e = rw (e, int_or_zero) (python.to_int-whole n)

  float_or_zero-real :
      (key : Text) (d : Dict (Value Item F)) (f : F)
      → lookup key d ≡ some (real f)
      → float_or_zero py key d ≡ some f
  unfolding float_or_zero
  float_or_zero-real key d f e = rw (e, float_or_zero) (python.to_float-real f)

  bool_or_false-boolean :
      (key : Text) (d : Dict (Value Item F)) (b : Bool)
      → lookup key d ≡ some (boolean b)
      → bool_or_false py key d ≡ b
  unfolding bool_or_false
  bool_or_false-boolean key d b e = rw (e, bool_or_false) (python.truthy-boolean b)

  has_version-to_dict :
      (cp : LoopCheckpoint Item F) (more : Dict (Value Item F))
      → has_version py (to_dict cp ++ more) ≡ true
  unfolding has_version to_dict lookup text_eq checkpoint_version
  has_version-to_dict cp more = rw (python.to_int-whole 1)

  -- Reading the dict of a checkpoint, with any further keys after its own, gives the checkpoint
  -- back.
  pub from_dict-to_dict :
      (cp : LoopCheckpoint Item F) (more : Dict (Value Item F))
      → from_dict py (some (to_dict cp ++ more)) ≡ some cp
  unfolding from_dict
  from_dict-to_dict cp more =
      let d : Dict (Value Item F) = to_dict cp ++ more in
      let has_task_id : required_text (codes "task_id") d ≡ some cp.task_id =
        unfold required_text to_dict lookup text_eq in refl in
      let has_goal : required_text (codes "goal") d ≡ some cp.goal =
        unfold required_text to_dict lookup text_eq in refl in
      let has_messages : required_list (codes "messages") d ≡ some cp.messages =
        unfold required_list to_dict lookup text_eq in refl in
      simp (
        has_version-to_dict cp more,
        has_task_id,
        has_goal,
        has_messages,
        int_or_zero-whole (codes "used") d cp.used (unfold to_dict lookup text_eq in refl),
        int_or_zero-whole (codes "absolute_turns") d cp.absolute_turns
            (unfold to_dict lookup text_eq in refl),
        list_or_empty-items (codes "edited_files") d cp.edited_files
            (unfold to_dict lookup text_eq in refl),
        int_or_zero-whole (codes "verify_nudges_used") d cp.verify_nudges_used
            (unfold to_dict lookup text_eq in refl),
        list_or_empty-items (codes "loop_signatures") d cp.loop_signatures
            (unfold to_dict lookup text_eq in refl),
        list_or_empty-items (codes "tools_used") d cp.tools_used
            (unfold to_dict lookup text_eq in refl),
        list_or_empty-items (codes "loaded_skills") d cp.loaded_skills
            (unfold to_dict lookup text_eq in refl),
        float_or_zero-real (codes "start_monotonic_offset") d cp.start_monotonic_offset
            (unfold to_dict lookup text_eq in refl),
        int_or_zero-whole (codes "turn") d cp.turn (unfold to_dict lookup text_eq in refl),
        bool_or_false-boolean (codes "grace_used") d cp.grace_used
            (unfold to_dict lookup text_eq in refl),
        bool_or_false-boolean (codes "tests_passed") d cp.tests_passed
            (unfold to_dict lookup text_eq in refl),
      )

  lookup-clear :
      (t k : Text) (mem : Store Item F)
      → lookup k (clear t mem) ≡ (if text_eq k t then none else lookup k mem)
  unfolding clear lookup
  lookup-clear t k [] = ground arith
  lookup-clear t k ((j, d) ∷ mem) =
      ground (arith, lookup-clear t k mem, text_eq_iff k t, text_eq_iff t j, text_eq_iff k j)

  from_dict-if :
      (b : Bool) (o o' : Option (Dict (Value Item F)))
      → from_dict py (if b then o else o') ≡ (if b then from_dict py o else from_dict py o')
  from_dict-if true o o' = refl
  from_dict-if false o o' = refl

  stored_again : (cp : LoopCheckpoint Item F) → from_dict py (some (to_dict cp)) ≡ some cp
  stored_again cp =
      subst (λ d. from_dict py (some d) ≡ some cp) (append-nil (to_dict cp))
        (from_dict-to_dict cp [])

  -- After a save, the task's checkpoint is the saved one, whatever was stored before; after a clear
  -- it has none; and neither touches the checkpoint of another task.
  pub load-save-clear :
      (cp : LoopCheckpoint Item F) (k t : Text) (mem : Store Item F)
      → (load py k (save cp mem) ≡ (if text_eq k cp.task_id then some cp else load py k mem))
        × (load py k (clear t mem) ≡ (if text_eq k t then none else load py k mem))
  unfolding load save
  load-save-clear cp k t mem = (
    ap (from_dict py) (lookup-insert cp.task_id k (to_dict cp) mem)
        ∙ from_dict-if (text_eq k cp.task_id) (some (to_dict cp)) (lookup k mem)
        ∙ ap (λ o. if text_eq k cp.task_id then o else from_dict py (lookup k mem))
            (stored_again cp),
    ap (from_dict py) (lookup-clear t k mem)
        ∙ from_dict-if (text_eq k t) none (lookup k mem)
        ∙ (unfold from_dict in refl),
  )
