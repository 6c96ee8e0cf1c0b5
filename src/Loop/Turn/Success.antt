-- ===== src/Loop/Turn/Success.antt =====
-- What a success of the loop rests on.
use labmate.Common.{
  ℕ, zero, suc, ◌+◌, ◌≡◌, Bool, true, false, not, ◌&&◌, ◌||◌, Option, none, some, List, [], ◌∷◌,
  ◌++◌, Text, any, arith,
}
use labmate.LoopDetection.{record_signature, repeat_limit_for}
use labmate.Messages.{Message}
use labmate.Guards.Completion.{is_punt_answer, asserts_success, reconcile_cutoff}
use labmate.Guards.Outcome.{classify_test_attempt}
use labmate.Guards.Finish.{Verification, finish, verifies, exposes, account}
use labmate.Guards.Finish.Claims.{verdict_honest}
use labmate.Loop.{
  tool_name, Config, Action, finish_with, load_skill, skill_tool, run_tests, write_file, run_bash,
  raising, plain, ToolCall, TurnInput, ModelReply, LoopState, LoopResult, answered, finished,
  cut_off, cancelled_by_user, looped, raised,
}
use labmate.Loop.Calls.{
  CallResult, next, last, done, dispatch, run_tool, run_finish, run_call, run_calls, account_bash,
}
use labmate.Loop.Turn.{
  TurnResult, continues, stops, admitted, refused, take_steers, admit, prepare, end_turn, react,
  turn, run, conclude, stop_on, assistant_message,
}

module _ (lower : Text → Text) (c : Config) where
  -- A call whose outcome counts as verification.
  unfoldable pub action_verifies : Action → Bool
  action_verifies (finish_with summary) = false
  action_verifies (load_skill skill loaded) = false
  action_verifies (skill_tool key verified edits) = verified
  action_verifies (run_tests none) = false
  action_verifies (run_tests (some result)) = verifies lower c.policy result
  action_verifies (write_file path) = false
  action_verifies (run_bash none) = false
  action_verifies (run_bash (some (passed, result))) =
      passed || exposes lower c.policy (classify_test_attempt lower result)
  action_verifies (raising error) = false
  action_verifies (plain name) = false

  abbrev pub call_verifies : ToolCall → Bool
  call_verifies call = action_verifies call.action

  -- A result that does not count unverified work as done: a summary of `finish` that is returned as
  -- a success is no punt and claims no success, and a cut-off is no success.
  abbrev pub claims_nothing : LoopResult → Bool
  claims_nothing (answered content) = true
  claims_nothing (finished r) =
      not r.ok || (not (is_punt_answer lower r.summary) && not (asserts_success lower r.summary))
  claims_nothing (cut_off ok summary tests_passed) = not ok && not tests_passed
  claims_nothing cancelled_by_user = true
  claims_nothing (looped reason name) = true
  claims_nothing raised = true

  abbrev is_unverified : LoopState → Bool
  is_unverified s = not s.verification.tests_passed

  abbrev call_unverified : CallResult → Bool
  call_unverified (next s) = is_unverified s
  call_unverified (last s) = is_unverified s
  call_unverified (done r) = claims_nothing r

  abbrev turn_unverified : TurnResult → Bool
  turn_unverified (continues s) = is_unverified s
  turn_unverified (stops r) = claims_nothing r

  module _ (nudge_of : Verification → Text) where
    dispatch-unverified :
        (a : Action) (s s' : LoopState)
        → action_verifies a ≡ false
        → is_unverified s ≡ true
        → dispatch lower c nudge_of a s ≡ some s'
        → is_unverified s' ≡ true
    unfolding dispatch account account_bash action_verifies
    dispatch-unverified a s s' h k e = ground arith

    run_tool-unverified :
        (call : ToolCall) (s : LoopState)
        → call_verifies call ≡ false
        → is_unverified s ≡ true
        → call_unverified (run_tool lower c nudge_of call s) ≡ true
    unfolding run_tool
    run_tool-unverified call s h k =
        let recorded =
          record_signature s.detector call.signature
            (some (repeat_limit_for c.repeat_limits (tool_name call.action))) in
        let s0 : LoopState = record s { detector = recorded.0 } in
        let unverified : (s' : LoopState)
            → dispatch lower c nudge_of call.action s0 ≡ some s'
            → is_unverified s' ≡ true =
          λ s' e. dispatch-unverified call.action s0 s' h k e in
        grind (arith, unverified)

    run_finish-unverified :
        (summary : Text) (call : ToolCall) (s : LoopState)
        → is_unverified s ≡ true
        → call_unverified (run_finish lower c nudge_of summary call s) ≡ true
    unfolding run_finish finish
    run_finish-unverified summary call s k =
        grind (arith, verdict_honest lower c.policy summary s.verification)

    run_call-unverified :
        (call : ToolCall) (s : LoopState)
        → call_verifies call ≡ false
        → is_unverified s ≡ true
        → call_unverified (run_call lower c nudge_of call s) ≡ true
    unfolding run_call
    run_call-unverified call s h k = grind (arith, run_tool-unverified call, run_finish-unverified)

    run_calls-unverified :
        (calls : List ToolCall) (names : List Text) (s : LoopState)
        → any call_verifies calls ≡ false
        → is_unverified s ≡ true
        → call_unverified (run_calls lower c nudge_of calls names s).1 ≡ true
    unfolding run_calls
    run_calls-unverified [] names s h k = k
    run_calls-unverified (call ∷ calls) names s h k =
        grind (arith, run_call-unverified call s, run_calls-unverified calls)

    stop_on-unverified :
        (reason : Text) (v : Verification)
        → not v.tests_passed ≡ true
        → claims_nothing (stop_on reason v) ≡ true
    unfolding stop_on reconcile_cutoff
    stop_on-unverified reason v h = ground arith

    end_turn-unverified :
        (shown : ℕ → Text) (reply : ModelReply) (names : List Text) (s : LoopState)
        → is_unverified s ≡ true
        → turn_unverified (end_turn shown c reply names s) ≡ true
    unfolding end_turn
    end_turn-unverified shown reply names s h =
        grind (arith, λ (reason : Text). stop_on-unverified reason s.verification h)

    conclude-unverified :
        (shown : ℕ → Text) (reply : ModelReply) (names : List Text) (o : CallResult)
        → call_unverified o ≡ true
        → turn_unverified (conclude shown c reply (names, o)) ≡ true
    unfolding conclude
    conclude-unverified shown reply names (next s) h = end_turn-unverified shown reply names s h
    conclude-unverified shown reply names (last s) h = end_turn-unverified shown reply names s h
    conclude-unverified shown reply names (done r) h = h

    react-unverified :
        (shown : ℕ → Text) (reply : ModelReply) (s : LoopState)
        → any call_verifies reply.calls ≡ false
        → is_unverified s ≡ true
        → turn_unverified (react lower shown c nudge_of reply s) ≡ true
    unfolding react
    react-unverified shown reply s h k =
        let asked : LoopState = record s {
          messages = s.messages ++ assistant_message reply ∷ [];
        } in
        let after = run_calls lower c nudge_of reply.calls [] asked in
        ground (
          arith,
          conclude-unverified shown reply after.0 after.1
              (run_calls-unverified reply.calls [] asked h k),
        )

    -- Before the model is asked, the verification state stays as it is.
    take_steers-verification :
        (steer : Option Text) (s : LoopState)
        → (take_steers c steer s).0.verification ≡ s.verification
    unfolding take_steers
    take_steers-verification steer s = ground arith

    admit-verification :
        (past : Bool) (s s' : LoopState)
        → admit past s ≡ admitted s'
        → s'.verification ≡ s.verification
    unfolding admit
    admit-verification past s s' e = ground arith

    admit-unverified :
        (past : Bool) (s : LoopState) (r : LoopResult)
        → is_unverified s ≡ true
        → admit past s ≡ refused r
        → claims_nothing r ≡ true
    unfolding admit
    admit-unverified past s r k e =
        grind (arith, λ (reason : Text). stop_on-unverified reason s.verification k)

    prepare-verification :
        (t : Option Text) (s : LoopState) → (prepare c t s).0.verification ≡ s.verification
    unfolding prepare
    prepare-verification t s = ground arith

    turn-unverified :
        (shown : ℕ → Text) (input : TurnInput) (s : LoopState)
        → ((ms : List Message) (reply : ModelReply)
            → input.model ms ≡ some reply
            → any call_verifies reply.calls ≡ false)
        → is_unverified s ≡ true
        → turn_unverified (turn lower shown c nudge_of input s) ≡ true
    unfolding turn
    turn-unverified shown input s h k =
        let (s1, to_inject) = take_steers c input.steer s in
        grind (
          arith,
          take_steers-verification input.steer s,
          admit-unverified input.past_deadline s1,
          admit-verification input.past_deadline s1,
          prepare-verification to_inject,
          react-unverified shown,
        )

    -- Where no call of any reply counts as verification and no test had passed before, the loop
    -- returns as a success neither a cut-off nor a summary of `finish` that claims success or is a
    -- punt.
    pub success_needs_verification :
        (shown : ℕ → Text) (world : ℕ → TurnInput) (fuel t : ℕ) (s : LoopState) (r : LoopResult)
        → ((n : ℕ) (ms : List Message) (reply : ModelReply)
            → (world n).model ms ≡ some reply
            → any call_verifies reply.calls ≡ false)
        → s.verification.tests_passed ≡ false
        → run lower shown c nudge_of fuel world t s ≡ some r
        → claims_nothing r ≡ true
    unfolding run
    success_needs_verification shown world zero t s r h k e = cc
    success_needs_verification shown world (suc fuel) t s r h k e =
        let asked : turn_unverified (turn lower shown c nudge_of (world t) s) ≡ true =
          turn-unverified shown (world t) s (h t) (ground arith) in
        grind (
          arith,
          asked,
          λ (s' : LoopState). success_needs_verification shown world fuel (t + 1) s' r h,
        )
