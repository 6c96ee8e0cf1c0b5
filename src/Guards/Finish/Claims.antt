-- ===== src/Guards/Finish/Claims.antt =====
-- What a goal's claim of success rests on.
use labmate.Common.{◌≡◌, true, false, not, ◌&&◌, Text, arith}
use labmate.Guards.Completion.{is_punt_answer, asserts_success, reconcile_ok, punt_note, claim_note}
use labmate.Guards.Finish.{Policy, Verification, verdict}

module _ (lower : Text → Text) (p : Policy) where
  -- A summary that is returned as a success is no punt, and claims success only after verification.
  pub verdict_honest :
      (summary : Text) (v : Verification)
      → (verdict lower p summary v).ok ≡ true
      → (is_punt_answer lower (verdict lower p summary v).summary ≡ false)
        × ((asserts_success lower (verdict lower p summary v).summary && not v.tests_passed)
            ≡ false)
  unfolding verdict reconcile_ok punt_note claim_note
  verdict_honest summary v h = ground arith
