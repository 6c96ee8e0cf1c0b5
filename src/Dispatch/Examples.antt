-- ===== src/Dispatch/Examples.antt =====
-- Runs and instances for the dispatch.
use labmate.Common.{
  ℕ, ◌≤◌, ◌≡◌, refl, true, false, not, ◌&&◌, Option, none, some, List, [], ◌∷◌, if◌then◌else◌, Text,
  codes, take, length, ascii_lower, text_eq, ◌⊎◌,
}
use labmate.Guards.Completion.{is_punt_answer, asserts_success}
use labmate.Dispatch.{
  Pool, Answer, Happening, reserves, returns, dispatched, subtasks, run_pool, pool_step,
  workers_step, worker_step, results_after, reserve,
}
use labmate.Dispatch.Tokens.{IsAccounted, pool-IsAccounted}
use labmate.Dispatch.SkillFirst.{
  Payload, plain_text, SkillResult, skill_text, react_execute, skill_answer_is_honest,
}

abbrev goals : List (Text × Text)
goals = (codes "g1", codes "fix it") ∷ (codes "g2", codes "explain it") ∷ []

abbrev answer : Answer
answer = record { summary = codes "fixed"; ok = true; tools_used = []; tests_passed = true }

-- With 600 tokens the second goal cannot start, even after the first has succeeded.
abbrev happened : List (Text × Happening)
happened =
    (codes "g1", reserves)
    ∷ (codes "g2", reserves)
    ∷ (codes "g1", returns answer)
    ∷ (codes "g2", reserves)
    ∷ []

abbrev outcome : Option Pool
outcome = run_pool happened (dispatched 600 goals)

abbrev left_over : Option Pool → ℕ
left_over none = 0
left_over (some p) = p.remaining

second_goal_waits : left_over outcome ≡ 88
unfolding run_pool pool_step workers_step worker_step results_after reserve dispatched subtasks
    text_eq
second_goal_waits = refl

abbrev first_steps : List (Text × Happening)
first_steps = (codes "g1", reserves) ∷ []

abbrev after_first : Pool
after_first = elim (run_pool first_steps (dispatched 600 goals)) [
  | none ↦ dispatched 600 goals
  | some p ↦ p
]

first_steps_happen : run_pool first_steps (dispatched 600 goals) ≡ some after_first
unfolding run_pool pool_step workers_step worker_step results_after reserve dispatched subtasks
    text_eq
first_steps_happen = refl

pool-IsAccounted_example : IsAccounted 600 goals after_first
pool-IsAccounted_example = pool-IsAccounted 600 goals first_steps after_first first_steps_happen

abbrev skilled : SkillResult
skilled = record {
  ok = true;
  error = [];
  detail = [];
  result = plain_text (codes "The file has two functions.");
  skill_name = codes "code-review";
}

abbrev no_json : Payload → Text
no_json p = codes "{}"

abbrev routed : Answer
routed = react_execute no_json ascii_lower false false (some skilled) answer

abbrev shown_text : Text
shown_text = take 2000 (skill_text no_json skilled)

skill_answer_is_honest_example :
    (routed ≡ answer)
    ⊎ ((false ≡ false)
        × (routed.ok ≡ (
            true
            && (not (is_punt_answer ascii_lower shown_text)
                && not (asserts_success ascii_lower shown_text))))
        × ((if routed.ok then routed.summary else shown_text) ≡ shown_text)
        × (length routed.summary ≤ 2000)
        × (routed.tests_passed ≡ false))
skill_answer_is_honest_example =
    skill_answer_is_honest no_json ascii_lower false false skilled answer
