-- ===== src/Graph/Routing/Delivery.antt =====
-- The answer that `revise` delivers.
use labmate.Common.{
  ◌+◌, ◌≤◌, ◌≡◌, refl, Bool, true, false, not, ◌&&◌, Option, some, if◌then◌else◌, Text, codes,
  is_empty, strip, lookup, insert, lookup-insert_self, ltb, arith, inl, inr, Bool-cases, text_eq,
}
use labmate.Goals.{Goal, Tree, update_status}
use labmate.Graph.{Limits}
use labmate.Graph.Routing.{
  State, text_of, is_there, had_side_effects, should_revise, mirror_answer, revise,
}

-- The answer is there and not empty, and the root's result is the answer.
pub record IsDelivered {Score : Type 0} (s : State Score) : Type 0 where
  pub answer : Text
  pub answered : s.final_answer ≡ some answer
  pub some_text : is_empty answer ≡ false
  pub root : Goal
  pub has_root : lookup (codes "root") s.goal_tree ≡ some root
  pub mirrored : root.result ≡ some answer

-- The run may be revised: the gate is on, no error, no code artifact, and a revision is left.
abbrev pub may_revise : {Score : Type 0} → Limits → State Score → Bool
may_revise l s =
    l.enable_finalize_revision
    && (not (is_there s.error)
        && (not (had_side_effects s.last_artifact)
            && ltb s.finalize_revisions l.max_finalize_revisions))

mirror_answer-known :
    (now answer : Text) (tree : Tree) (root : Goal)
    → lookup (codes "root") tree ≡ some root
    → mirror_answer now answer tree
      ≡ some
          (insert (codes "root") (record root { updated_at = some now; result = some answer }) tree)
unfolding mirror_answer update_status
mirror_answer-known now answer tree root e = ground arith

-- The text that a revision leaves.
abbrev revised_text : Option Text → Text → Text
revised_text reply answer =
    if is_empty (strip (text_of reply)) then answer else strip (text_of reply)

revised_text-ne_nil :
    (reply : Option Text) (answer : Text)
    → is_empty answer ≡ false
    → is_empty (revised_text reply answer) ≡ false
revised_text-ne_nil reply answer h = ground arith

module _ {Score : Type 0} (l : Limits) (now : Text) where
  -- Where the gate is off, the run has an error, its last artifact is code, or no revision is left,
  -- the model's text changes nothing.
  unsafe_revision_changes_nothing :
      (reply : Option Text) (s : State Score)
      → may_revise l s ≡ false
      → revise l now reply s ≡ some s
  unfolding revise should_revise
  unsafe_revision_changes_nothing reply s h = ground arith

  revise-known :
      (reply : Option Text) (s : State Score) (answer : Text) (root : Goal)
      → may_revise l s ≡ true
      → s.final_answer ≡ some answer
      → is_empty (strip answer) ≡ false
      → lookup (codes "root") s.goal_tree ≡ some root
      → revise l now reply s
        ≡ some (record s {
          goal_tree =
              insert
                (codes "root")
                (record root { updated_at = some now; result = some (revised_text reply answer) })
                s.goal_tree;
          final_answer = some (revised_text reply answer);
          finalize_revisions = s.finalize_revisions + 1;
          revised =
              not (is_empty (strip (text_of reply)))
              && not (text_eq (strip (text_of reply)) answer);
        })
  unfolding revise
  revise-known reply s answer root may e some_text has_root =
      let enabled : l.enable_finalize_revision ≡ true = ground arith in
      let answers : text_of s.final_answer ≡ answer = unfold text_of in ground arith in
      let should : should_revise answer (had_side_effects s.last_artifact) s.finalize_revisions
            l.max_finalize_revisions (is_there s.error)
          ≡ true =
        unfold should_revise in ground arith in
      simp (
        enabled,
        answers,
        should,
        mirror_answer-known now (revised_text reply answer) s.goal_tree root has_root,
      )

  revise-blank :
      (reply : Option Text) (s : State Score) (answer : Text)
      → s.final_answer ≡ some answer
      → is_empty (strip answer) ≡ true
      → revise l now reply s ≡ some s
  unfolding revise should_revise text_of
  revise-blank reply s answer e blank = ground arith

  -- Whatever text the model answers, a delivered answer stays delivered: `revise` raises nothing, the
  -- answer is not empty, the root's result is the answer, and the revisions stay within their limit.
  pub revise-IsDelivered :
      (reply : Option Text) (s : State Score)
      → IsDelivered s
      → s.finalize_revisions ≤ l.max_finalize_revisions
      → (s' : State Score) × (revise l now reply s ≡ some s')
        × IsDelivered s'
        × (s'.finalize_revisions ≤ l.max_finalize_revisions)
  revise-IsDelivered reply s good bound = elim (Bool-cases (may_revise l s)) [
    | inr unsafe ↦ (s, unsafe_revision_changes_nothing reply s unsafe, good, bound)
    | inl may ↦ elim (Bool-cases (is_empty (strip good.answer))) [
      | inl blank ↦ (s, revise-blank reply s good.answer good.answered blank, good, bound)
      | inr text ↦ (
        _,
        revise-known reply s good.answer good.root may good.answered text good.has_root,
        record {
          answer = revised_text reply good.answer;
          answered = refl;
          some_text = revised_text-ne_nil reply good.answer good.some_text;
          root = record good.root {
            updated_at = some now;
            result = some (revised_text reply good.answer);
          };
          has_root = lookup-insert_self (codes "root") _ s.goal_tree;
          mirrored = refl;
        },
        ground arith,
      )
    ]
  ]
