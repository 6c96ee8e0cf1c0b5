-- ===== src/Guards/Outcome.antt =====
-- services/orchestrator/test_outcome.py, and `_run_tests_passed` of coding_orchestrator.py. The JSON
-- of the result is read by Python's json; what it gives is a Parsed. `lower` is `str.lower`.
use labmate.Common.{
  Bool, true, false, not, ◌&&◌, Option, none, some, List, [], ◌∷◌, ◌++◌, if◌then◌else◌, Text, codes,
  is_empty, contains,
}

-- The value of "ok": True itself, another truthy value, or a falsy or missing one.
pub data Ok : Type 0 where
  is_true truthy falsy : Ok

-- `error` is `none` without the key, and `some []` for a falsy value; `raw` is `raw_output` or
-- `stdout` as text; `exit_zero` is whether "exit_code" equals 0.
pub record Report : Type 0 where
  pub error : Option Text
  pub raw : Text
  pub ok : Ok
  pub exit_zero : Bool

pub data Parsed : Type 0 where
  unparseable not_a_dict : Parsed
  report : Report → Parsed

pub record TestOutcome : Type 0 where
  pub ran : Bool
  pub passed : Bool
  pub infra_error : Bool
  pub reason : Text

abbrev pub is_ok : Ok → Bool
is_ok is_true = true
is_ok truthy = true
is_ok falsy = false

unfoldable pub infra_markers : List Text
infra_markers =
    codes "skill_unavailable"
    ∷ codes "dispatch_failed"
    ∷ codes "no test runner"
    ∷ codes "no bash runner"
    ∷ codes "not allowed"
    ∷ codes "timed out"
    ∷ codes "timeout"
    ∷ codes "no tests ran"
    ∷ codes "no tests collected"
    ∷ codes "command not found"
    ∷ codes "modulenotfounderror"
    ∷ []

unfoldable pub infra : Text → TestOutcome
infra reason = record { ran = false; passed = false; infra_error = true; reason = reason }

-- The first marker in the text.
unfoldable pub first_marker : List Text → Text → Option Text
first_marker [] low = none
first_marker (m ∷ ms) low = if contains m low then some m else first_marker ms low

-- A truthy "error".
unfoldable pub error_of : Report → Option Text
error_of r = elim r.error [ none ↦ none | some e ↦ if is_empty e then none else some e ]

module _ (lower : Text → Text) where
  unfoldable pub classify_report : Report → TestOutcome
  unfolding error_of infra
  classify_report r = elim (error_of r) [
    | some e ↦ infra e
    | none ↦
        if is_ok r.ok && not (contains (codes "infra") (lower r.raw))
        then record {
          ran = true;
          passed = true;
          infra_error = false;
          reason = codes "tests passed";
        }
        else elim (first_marker infra_markers (lower r.raw)) [
          | some m ↦ infra (codes "test toolchain error: " ++ m)
          | none ↦ record {
            ran = true;
            passed = false;
            infra_error = false;
            reason = codes "tests failed";
          }
        ]
  ]

  unfoldable pub classify_test_attempt : Parsed → TestOutcome
  unfolding infra
  classify_test_attempt unparseable = infra (codes "unparseable test result")
  classify_test_attempt not_a_dict = infra (codes "unexpected test result shape")
  classify_test_attempt (report r) = classify_report r

-- `_run_tests_passed`
unfoldable pub run_tests_passed : Parsed → Bool
run_tests_passed unparseable = false
run_tests_passed not_a_dict = false
run_tests_passed (report r) = elim r.error [
  | some e ↦ false
  | none ↦ elim r.ok [ is_true ↦ true | truthy ↦ r.exit_zero | falsy ↦ r.exit_zero ]
]
