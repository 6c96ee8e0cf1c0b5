-- ===== src/Guards/Finish.antt =====
-- services/orchestrator/verification_stop.py, and what `_run_react_loop` of coding_orchestrator.py
-- does at a call of `finish`, at a test run and at an edit. The summary is the text of the argument.
-- The loop's other verifications, a pytest run through bash and an assertion that passes in the
-- sandbox, and its other ways to return are events with what they bring as an input; Loop/Calls and
-- Loop/Turn have them in full.
pub mod Nudges
pub mod Claims
use labmate.Common.{
  ℕ, ◌+◌, Bool, true, false, not, ◌&&◌, ◌||◌, Option, none, some, List, [], ◌∷◌, ◌++◌,
  if◌then◌else◌, Text, codes, is_empty, strip, take, ltb, leb, ◌==◌, join,
}
use labmate.Messages.Repair.Validate.{insert_sorted}
use labmate.Guards.Completion.{reconcile_ok}
use labmate.Guards.Outcome.{Parsed, TestOutcome, classify_test_attempt, run_tests_passed}

-- MAX_VERIFY_NUDGES, MAX_VERIFY_INFRA_ERRORS, and whether the goal is to expose a bug.
pub record Policy : Type 0 where
  pub max_nudges : ℕ
  pub max_infra_errors : ℕ
  pub expose_bug : Bool

-- The loop's variables.
pub record Verification : Type 0 where
  pub edited_files : List Text
  pub tests_passed : Bool
  pub nudges_used : ℕ
  pub infra_error_streak : ℕ
  pub last_infra_reason : Text
  pub bug_exposed : Bool

unfoldable pub needs_verification : List Text → Bool → ℕ → ℕ → ℕ → ℕ → Bool
needs_verification edited tests_passed nudges_used max_nudges streak cap =
    if is_empty edited
    then false
    else if tests_passed
    then false
    else if not (cap == 0) && leb cap streak
    then false
    else ltb nudges_used max_nudges

-- `sorted(names)`
unfoldable pub sorted_names : List Text → List Text
unfolding insert_sorted
sorted_names [] = []
sorted_names (f ∷ fs) = insert_sorted f (sorted_names fs)

unfoldable pub build_infra_unverified_note : List Text → Text → Text
unfolding sorted_names
build_infra_unverified_note edited reason =
    codes "NOTE: I edited "
    ++ ((if is_empty edited
          then codes "the files changed"
          else join (codes ", ") (sorted_names edited))
        ++ (codes " but could NOT verify the change — the test toolchain failed to run ("
            ++ (reason
                ++ codes
                    "). The edits are therefore UNVERIFIED; please run the test suite manually to confirm.")))

-- What the goal's loop returns.
pub record Returned : Type 0 where
  pub ok : Bool
  pub summary : Text
  pub tests_passed : Bool

pub data FinishResult : Type 0 where
  nudged : Verification → FinishResult
  returned : Returned → FinishResult

pub data Event : Type 0 where
  edit : Text → Event
  test : Parsed → Event
  -- A shell command or an assertion in the sandbox that counts as a passed test run.
  passed_run : Event
  finish_call : Text → Event
  -- The loop returns without `finish`: a reply without tool calls, a cut-off or a cancellation.
  ended : Returned → Event

module _ (lower : Text → Text) (p : Policy) where
  -- The summary with its annotation.
  unfoldable pub annotated : Text → Verification → Text
  annotated summary v =
      let cut = take 2000 summary in
      if not (is_empty v.edited_files)
        && (not v.tests_passed && leb p.max_infra_errors v.infra_error_streak)
      then strip (
          summary
          ++ (codes "\n\n" ++ build_infra_unverified_note v.edited_files v.last_infra_reason))
      else if p.expose_bug && (not (is_empty v.edited_files) && not v.tests_passed)
      then take 2000
          (cut ++ codes " [verification-stop: the test was NOT run to confirm it exposes the bug]")
      else if not (is_empty v.edited_files) && not v.tests_passed
      then take 2000 (
          cut
          ++ codes " [verification-stop: tests were NOT verified to pass within the nudge budget]")
      else cut

  -- What a `finish` that is not deferred returns.
  unfoldable pub verdict : Text → Verification → Returned
  verdict summary v =
      let (ok, note) = reconcile_ok lower true (annotated summary v) v.tests_passed in
      record {
        ok = ok;
        summary =
            if is_empty note
            then annotated summary v
            else take 2000 (annotated summary v ++ (codes " " ++ note));
        tests_passed = v.tests_passed;
      }

  -- The call of `finish`.
  unfoldable pub finish : Text → Verification → FinishResult
  finish summary v =
      if needs_verification v.edited_files v.tests_passed v.nudges_used p.max_nudges
        v.infra_error_streak p.max_infra_errors
      then nudged (record v { nudges_used = v.nudges_used + 1 })
      else returned (verdict summary v)

  -- A test run that failed shows the bug, where that is the goal.
  unfoldable pub exposes : TestOutcome → Bool
  exposes o = p.expose_bug && (o.ran && (not o.passed && not o.infra_error))

  -- A test result that counts as verification.
  unfoldable pub verifies : Parsed → Bool
  verifies result = run_tests_passed result || exposes (classify_test_attempt lower result)

  -- The accounting of a result of `run_tests`.
  unfoldable pub account : Parsed → Verification → Verification
  unfolding verifies
  account result v =
      let o = classify_test_attempt lower result in
      record v {
        tests_passed = v.tests_passed || verifies result;
        infra_error_streak =
            if o.infra_error
            then v.infra_error_streak + 1
            else if o.ran
            then 0
            else v.infra_error_streak;
        last_infra_reason = if o.infra_error then o.reason else v.last_infra_reason;
        bug_exposed = v.bug_exposed || exposes o;
      }

  -- The events of a goal, until it returns: by a `finish` that is not deferred, or without one.
  unfoldable pub run_events : List Event → Verification → Option Returned
  run_events [] v = none
  run_events (edit f ∷ es) v = run_events es (record v { edited_files = f ∷ v.edited_files })
  run_events (test result ∷ es) v = run_events es (account result v)
  run_events (passed_run ∷ es) v = run_events es (record v { tests_passed = true })
  run_events (ended r ∷ es) v = some r
  run_events (finish_call summary ∷ es) v = elim (finish summary v) [
    | nudged v' ↦ run_events es v'
    | returned r ↦ some r
  ]
