-- ===== src/Guards/Completion/Honesty.antt =====
-- What the completion guard lets pass as a success.
use labmate.Common.{
  ◌≡◌, Bool, true, false, not, ◌&&◌, ◌||◌, Option, none, some, [], if◌then◌else◌, Text, is_empty,
  arith, Bool-cases, inl, inr, sym,
}
use labmate.Guards.Completion.{
  is_punt_answer, asserts_success, reconcile_ok, reconcile_final_answer, error_or, punt_note,
  claim_note,
}

-- A truthy error.
abbrev pub has_error : Option Text → Bool
has_error none = false
has_error (some e) = not (is_empty e)

error_or-has_error :
    (error : Option Text) (note : Text)
    → has_error (some (error_or error note)) ≡ (has_error error || (true && not false))
unfolding error_or
error_or-has_error error note = ground arith

module _ (lower : Text → Text) where
  -- An answer passes as a success exactly if it came as one, is no punt, and either claims no
  -- success or a test run passed; and there is a note exactly if the guard changed the flag.
  pub reconcile_ok_honest :
      (ok : Bool) (answer : Text) (tests_passed : Bool)
      → ((reconcile_ok lower ok answer tests_passed).0 ≡ (
          ok
          && (not (is_punt_answer lower answer)
              && (not (asserts_success lower answer) || tests_passed))))
        × (is_empty (reconcile_ok lower ok answer tests_passed).1
            ≡ (if ok then (reconcile_ok lower ok answer tests_passed).0 else true))
  unfolding reconcile_ok punt_note claim_note
  reconcile_ok_honest ok answer tests_passed = ground arith

  failure_stays :
      (error : Option Text) (answer : Text) (tests_passed : Bool)
      → reconcile_final_answer lower false error answer tests_passed ≡ (false, (error, []))
  unfolding reconcile_final_answer reconcile_ok
  failure_stays error answer tests_passed = ground arith

  success_stays :
      (error : Option Text) (answer : Text) (tests_passed : Bool)
      → (reconcile_ok lower true answer tests_passed).0 ≡ true
      → reconcile_final_answer lower true error answer tests_passed ≡ (true, (error, []))
  unfolding reconcile_final_answer reconcile_ok
  success_stays error answer tests_passed passes = ground arith

  downgraded :
      (error : Option Text) (answer : Text) (tests_passed : Bool)
      → (reconcile_ok lower true answer tests_passed).0 ≡ false
      → reconcile_final_answer lower true error answer tests_passed ≡ (
        false,
        (
          some (error_or error (reconcile_ok lower true answer tests_passed).1),
          (reconcile_ok lower true answer tests_passed).1,
        ),
      )
  unfolding reconcile_final_answer reconcile_ok
  downgraded error answer tests_passed fails = ground arith

  -- The check of the rendered answer sets the flag as `reconcile_ok` does, so it never turns a failure into a
  -- success; there is an error after it exactly if there was one or it downgraded the answer; and it
  -- changes nothing when it runs again on its own result.
  reconcile_final_answer_settles :
      (ok : Bool) (error : Option Text) (answer : Text) (tests_passed : Bool)
      → (ok' : Bool) × (error' : Option Text) × (note : Text) × (reconcile_final_answer lower ok
            error answer tests_passed
          ≡ (ok', (error', note)))
        × (ok' ≡ (reconcile_ok lower ok answer tests_passed).0)
        × (has_error error' ≡ (has_error error || (ok && not ok')))
        × (reconcile_final_answer lower ok' error' answer tests_passed ≡ (ok', (error', [])))
  reconcile_final_answer_settles false error answer tests_passed =
      let same = failure_stays error answer tests_passed in
      (false, error, [], same, unfold reconcile_ok in ground arith, ground arith, same)
  reconcile_final_answer_settles true error answer tests_passed =
      elim (Bool-cases (reconcile_ok lower true answer tests_passed).0) [
        | inl passes ↦
            let same = success_stays error answer tests_passed passes in
            (true, error, [], same, sym passes, ground arith, same)
        | inr fails ↦
            let note = (reconcile_ok lower true answer tests_passed).1 in
            let error' = some (error_or error note) in
            (
              false,
              error',
              note,
              downgraded error answer tests_passed fails,
              sym fails,
              error_or-has_error error note,
              failure_stays error' answer tests_passed,
            )
      ]

  -- An error from upstream that is not empty is kept.
  upstream_error_is_kept :
      (ok : Bool) (e : Text) (answer : Text) (tests_passed : Bool)
      → is_empty e ≡ false
      → (reconcile_final_answer lower ok (some e) answer tests_passed).1.0 ≡ some e
  unfolding reconcile_final_answer reconcile_ok error_or
  upstream_error_is_kept ok e answer tests_passed h = ground arith
