-- ===== src/Graph/Check/Finalize.antt =====
-- When `check` defers, waits and finalizes, and what it reports.
use labmate.Common.{
  ℕ, ◌≡◌, refl, Bool, true, false, not, ◌||◌, Option, none, some, List, [], ◌∷◌, ◌++◌,
  if◌then◌else◌, Text, codes, is_empty, lookup, any, all, arith, member, text_eq_iff, Option-cases,
  inl, inr, lookup-insert_self, take, join, insert,
}
use labmate.Goals.{completed, failed, Goal, Tree, update_status, is_failed}
use labmate.Graph.{Limits}
use labmate.Graph.Check.{
  holds_of, retryable_failed, ended, first_of, select, has_result, result_entry, map_text,
  final_answer_of, deferred, finalized, finalize, decide, error_of,
}

first_of-any :
    (test : Text → Bool) (cs : List Text)
    → any test cs ≡ elim (first_of test cs) [ none ↦ false | some _ ↦ true ]
unfolding first_of
first_of-any test [] = refl
first_of-any test (c ∷ cs) = ground (arith, first_of-any test cs)

first_of-passes :
    (test : Text → Bool) (cs : List Text) (c : Text)
    → first_of test cs ≡ some c
    → (test c ≡ true) × (member c cs ≡ true)
unfolding first_of member
first_of-passes test [] c h = cc
first_of-passes test (x ∷ xs) c h = ground (arith, first_of-passes test xs c, text_eq_iff c x)

select-is_empty :
    (test : Text → Bool) (cs : List Text) → is_empty (select test cs) ≡ not (any test cs)
unfolding select
select-is_empty test [] = refl
select-is_empty test (c ∷ cs) = ground (arith, select-is_empty test cs)

select-passes : (test : Text → Bool) (cs : List Text) → all test (select test cs) ≡ true
unfolding select
select-passes test [] = refl
select-passes test (c ∷ cs) = ground (arith, select-passes test cs)

-- Every entry begins with two stars.
result_entry_of_some :
    (tree : Tree) (c : Text) (g : Goal)
    → lookup c tree ≡ some g
    → result_entry tree c
      ≡ codes "**"
        ++ (take 80 g.description ++ (codes "**\n" ++ elim g.result [ none ↦ [] | some r ↦ r ]))
unfolding result_entry
result_entry_of_some tree c g found = ground arith

result_entry-ne_nil :
    (tree : Tree) (c : Text)
    → holds_of has_result tree c ≡ true
    → is_empty (result_entry tree c) ≡ false
unfolding holds_of
result_entry-ne_nil tree c h = elim (Option-cases (lookup c tree)) [
  | inl missing ↦ ground arith
  | inr (g, found) ↦ rw (result_entry_of_some tree c g found)
]

ending_of_not :
    (b : Bool) → (if not b then completed else failed) ≡ (if b then failed else completed)
ending_of_not true = refl
ending_of_not false = refl

not-not : (b : Bool) → not (not b) ≡ b
not-not true = refl
not-not false = refl

is_empty-append : (s t : Text) → is_empty s ≡ false → is_empty (s ++ t) ≡ false
is_empty-append [] t h = cc
is_empty-append (a ∷ s) t h = refl

join-ne_nil :
    (sep p : Text) (ps : List Text) → is_empty p ≡ false → is_empty (join sep (p ∷ ps)) ≡ false
unfolding join
join-ne_nil sep p [] h = h
join-ne_nil sep p (q ∷ ps) h = is_empty-append p (sep ++ join sep (q ∷ ps)) h

answer-ne_nil :
    (tree : Tree) (cs : List Text)
    → all (holds_of has_result tree) cs ≡ true
    → is_empty (
        if is_empty (map_text (result_entry tree) cs)
        then codes "Task completed."
        else join (codes "\n\n") (map_text (result_entry tree) cs))
      ≡ false
unfolding map_text
answer-ne_nil tree [] h = refl
answer-ne_nil tree (c ∷ cs) h =
    join-ne_nil (codes "\n\n") (result_entry tree c) (map_text (result_entry tree) cs)
      (result_entry-ne_nil tree c (ground arith))

add_failures-ne_nil :
    (b : Bool) (s t : Text) → is_empty s ≡ false → is_empty (if b then s else s ++ t) ≡ false
add_failures-ne_nil true s t h = h
add_failures-ne_nil false s t h = is_empty-append s t h

-- The answer is never empty: it is what makes the router end the run.
pub final_answer_of-ne_nil :
    (tree : Tree) (children failures : List Text)
    → is_empty (final_answer_of tree children failures) ≡ false
unfolding final_answer_of
final_answer_of-ne_nil tree children failures = add_failures-ne_nil (is_empty failures) _ _ (
    answer-ne_nil tree (select (holds_of has_result tree) children)
      (select-passes (holds_of has_result tree) children))

-- What `check` reports of the descendants `children`: an answer that is not empty; the root FAILED
-- if one of them FAILED and COMPLETED if none did; and an error exactly if one of them FAILED.
pub record Reports (tree : Tree) (children : List Text) (root : Goal) (now : Text) (tree' : Tree)
    (answer : Text) (error : Option Text) : Type 0 where
  pub some_answer : is_empty answer ≡ false
  pub root_after :
      lookup (codes "root") tree'
      ≡ some (record root {
        status =
            if any (holds_of (λ g. is_failed g.status) tree) children then failed else completed;
        updated_at = some now;
        result = some answer;
      })
  pub has_error :
      elim error [ none ↦ false | some _ ↦ true ]
      ≡ any (holds_of (λ g. is_failed g.status) tree) children

module _ (l : Limits) (shown : ℕ → Text) (now : Text) where
  -- A failed descendant with attempts left is never passed over: `check` defers to one, which is
  -- FAILED with attempts left.
  pub decide_defers :
      (tree : Tree) (children : List Text)
      → any (holds_of (retryable_failed l) tree) children ≡ true
      → (c : Text) × (decide l shown now tree children ≡ some (deferred c))
        × (holds_of (retryable_failed l) tree c ≡ true)
        × (member c children ≡ true)
  unfolding decide
  decide_defers tree [] h = cc
  decide_defers tree (x ∷ xs) h =
      elim (Option-cases (first_of (holds_of (retryable_failed l) tree) (x ∷ xs))) [
        | inl none_passes ↦
            absurd (ground (arith, first_of-any (holds_of (retryable_failed l) tree) (x ∷ xs)))
        | inr (c, e) ↦
            let good = first_of-passes (holds_of (retryable_failed l) tree) (x ∷ xs) c e in
            (c, rw e, good.0, good.1)
      ]

  error_of-is_some :
      (tree : Tree) (failures : List Text)
      → elim (error_of l shown now tree failures) [ none ↦ false | some _ ↦ true ]
        ≡ not (is_empty failures)
  unfolding error_of
  error_of-is_some tree [] = refl
  error_of-is_some tree (c ∷ cs) = refl

  finalize-Reports :
      (tree : Tree) (children : List Text) (root : Goal)
      → lookup (codes "root") tree ≡ some root
      → (tree' : Tree) × (answer : Text) × (error : Option Text) × (finalize l shown now tree
            children
          ≡ some (finalized tree' answer error))
        × Reports tree children root now tree' answer error
  unfolding finalize update_status
  finalize-Reports tree children root e =
      let failures = select (holds_of (λ g. is_failed g.status) tree) children in
      let answer = final_answer_of tree children failures in
      (
        insert (codes "root")
            (record root {
              status = if is_empty failures then completed else failed;
              updated_at = some now;
              result = some answer;
            })
            tree,
        answer,
        error_of l shown now tree failures,
        rw e,
        record {
          some_answer = final_answer_of-ne_nil tree children failures;
          root_after = rw (
            lookup-insert_self (codes "root"),
            select-is_empty (holds_of (λ g. is_failed g.status) tree) children,
            ending_of_not,
          );
          has_error = rw (
            error_of-is_some tree failures,
            select-is_empty (holds_of (λ g. is_failed g.status) tree) children,
            not-not,
          );
        },
      )

  -- Where no failed descendant has attempts left and every descendant has ended or one has failed,
  -- `check` finalizes the root, and reports failures as failures.
  pub decide_finalizes :
      (tree : Tree) (children : List Text) (root : Goal)
      → lookup (codes "root") tree ≡ some root
      → is_empty children ≡ false
      → any (holds_of (retryable_failed l) tree) children ≡ false
      → (all (holds_of ended tree) children
          || any (holds_of (λ g. is_failed g.status) tree) children)
        ≡ true
      → (tree' : Tree) × (answer : Text) × (error : Option Text) × (decide l shown now tree children
          ≡ some (finalized tree' answer error))
        × Reports tree children root now tree' answer error
  unfolding decide
  decide_finalizes tree children root e some_child no_retry over =
      let (tree', answer, error, done, good) = finalize-Reports tree children root e in
      (
        tree',
        answer,
        error,
        ground (arith, done, first_of-any (holds_of (retryable_failed l) tree) children),
        good,
      )
