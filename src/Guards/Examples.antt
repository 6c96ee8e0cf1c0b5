-- ===== src/Guards/Examples.antt =====
-- Runs and instances for the guards.
use labmate.Common.{
  ℕ, ◌+◌, ◌≤◌, ◌≡◌, refl, true, false, none, some, List, [], ◌∷◌, ◌++◌, Text, codes, is_space,
  length, contains, starts_with, ascii_lower, strip, lstrip, rstrip, arith,
}
use labmate.Guards.Grounding.{marker, ground_tool_result}
use labmate.Guards.Grounding.Ends.{ground_tool_result_keeps_ends}
use labmate.Guards.Completion.{
  is_punt_answer, asserts_success, reconcile_ok, normalize, collapse, punt_phrases, success_phrases,
  claim_note,
}
use labmate.Guards.Outcome.{
  is_true, Report, Parsed, report, infra_markers, error_of, classify_report, classify_test_attempt,
  run_tests_passed, first_marker,
}
use labmate.Guards.Finish.{
  Policy, Verification, Returned, Event, edit, test, finish_call, run_events,
}
use labmate.Guards.Finish.Nudges.{finish_calls, goal_returns}

abbrev shown : ℕ → Text
shown n = codes "some"

abbrev long_text : Text
long_text = codes "abcdefgh"

ground_tool_result_keeps_ends_example :
    (head middle tail : Text) × (long_text ≡ head ++ (middle ++ tail))
    × (ground_tool_result shown long_text 5 ≡ head ++ (marker shown (length middle) ++ tail))
    × (1 ≤ length head)
    × (1 ≤ length tail)
    × (length head + length tail ≡ 5)
ground_tool_result_keeps_ends_example =
    ground_tool_result_keeps_ends shown long_text 5 (omega arith) (omega arith)

abbrev claim : Text
claim = codes "Done:  I fixed\nit."

unbacked_claim_is_gated : reconcile_ok ascii_lower true claim false ≡ (false, claim_note)
unfolding reconcile_ok is_punt_answer asserts_success normalize collapse contains punt_phrases
    success_phrases strip lstrip rstrip is_space starts_with ascii_lower
unbacked_claim_is_gated = refl

-- A suite that passes and prints the name of its file.
abbrev infra_suite : Report
infra_suite = record {
  error = none;
  raw = codes "tests/test_infra.py 3 passed";
  ok = is_true;
  exit_zero = true;
}

passing_suite_reads_as_failed :
    (run_tests_passed (report infra_suite) ≡ true)
    × ((classify_test_attempt ascii_lower (report infra_suite)).passed ≡ false)
unfolding run_tests_passed classify_test_attempt classify_report error_of contains starts_with
    ascii_lower first_marker infra_markers
passing_suite_reads_as_failed = (refl, refl)

abbrev policy : Policy
policy = record { max_nudges = 2; max_infra_errors = 2; expose_bug = false }

abbrev fresh : Verification
fresh = record {
  edited_files = [];
  tests_passed = false;
  nudges_used = 0;
  infra_error_streak = 0;
  last_infra_reason = [];
  bug_exposed = false;
}

abbrev stubborn : List Event
stubborn =
    edit (codes "a.py")
    ∷ finish_call (codes "done")
    ∷ finish_call (codes "done")
    ∷ finish_call (codes "done")
    ∷ []

goal_returns_example : (r : Returned) × (run_events ascii_lower policy stubborn fresh ≡ some r)
unfolding finish_calls
goal_returns_example = goal_returns ascii_lower policy stubborn fresh (omega arith) (omega arith)

abbrev green : Parsed
green = report (record { error = none; raw = codes "1 passed"; ok = is_true; exit_zero = true })

abbrev fixed_goal : List Event
fixed_goal = edit (codes "a.py") ∷ test green ∷ finish_call (codes "I fixed it") ∷ []

abbrev fixed_result : Returned
fixed_result = record { ok = true; summary = codes "I fixed it"; tests_passed = true }
