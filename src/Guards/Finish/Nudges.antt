-- ===== src/Guards/Finish/Nudges.antt =====
-- That a goal cannot be nudged for ever.
use labmate.Common.{
  ℕ, ◌+◌, ◌≤◌, ◌<◌, ◌≡◌, ◌⊎◌, inl, inr, ◌∙◌, refl, some, List, [], ◌∷◌, Text, arith,
}
use labmate.Guards.Finish.{
  Policy, Verification, Returned, nudged, returned, Event, edit, test, finish_call, passed_run,
  ended, needs_verification, finish, account, run_events, verdict,
}

unfoldable pub finish_calls : List Event → ℕ
finish_calls [] = 0
finish_calls (edit f ∷ es) = finish_calls es
finish_calls (test result ∷ es) = finish_calls es
finish_calls (passed_run ∷ es) = finish_calls es
finish_calls (ended r ∷ es) = finish_calls es
finish_calls (finish_call summary ∷ es) = finish_calls es + 1

module _ (lower : Text → Text) (p : Policy) where
  account-nudges :
      (v : Verification) (result : _) → (account lower p result v).nudges_used ≡ v.nudges_used
  unfolding account
  account-nudges v result = refl

  pub finish-cases :
      (summary : Text) (v : Verification)
      → (finish lower p summary v ≡ returned (verdict lower p summary v))
        ⊎ ((finish lower p summary v ≡ nudged (record v { nudges_used = v.nudges_used + 1 }))
            × (v.nudges_used < p.max_nudges))
  unfolding finish needs_verification
  finish-cases summary v = ground arith

  pub run_events_of_returned :
      (summary : Text) (es : List Event) (v : Verification) (r : Returned)
      → finish lower p summary v ≡ returned r
      → run_events lower p (finish_call summary ∷ es) v ≡ some r
  unfolding run_events
  run_events_of_returned summary es v r done = ground arith

  pub run_events_of_nudged :
      (summary : Text) (es : List Event) (v v' : Verification)
      → finish lower p summary v ≡ nudged v'
      → run_events lower p (finish_call summary ∷ es) v ≡ run_events lower p es v'
  unfolding run_events
  run_events_of_nudged summary es v v' again = ground arith

  -- A goal within its nudges that calls `finish` more often than it has nudges left returns, whatever
  -- it edits and whatever its test runs give.
  pub goal_returns :
      (es : List Event) (v : Verification)
      → v.nudges_used ≤ p.max_nudges
      → p.max_nudges < v.nudges_used + finish_calls es
      → (r : Returned) × (run_events lower p es v ≡ some r)
  unfolding run_events finish_calls
  goal_returns [] v low high = absurd (omega arith)
  goal_returns (edit f ∷ es) v low high = goal_returns es _ low high
  goal_returns (test result ∷ es) v low high =
      goal_returns es (account lower p result v) (rw (account-nudges v result) low)
        (rw (account-nudges v result) high)
  goal_returns (passed_run ∷ es) v low high = goal_returns es _ low high
  goal_returns (ended r ∷ es) v low high = (r, refl)
  goal_returns (finish_call summary ∷ es) v low high = elim (finish-cases summary v) [
    | inl done ↦ (verdict lower p summary v, run_events_of_returned summary es v _ done)
    | inr (again, left) ↦
        let (r, done) =
          goal_returns es (record v { nudges_used = v.nudges_used + 1 }) (omega arith)
            (omega arith) in
        (r, run_events_of_nudged summary es v _ again ∙ done)
  ]
