-- ===== src/Loop/Turn/Ending.antt =====
-- That the loop ends, whatever the model and the tools do.
use labmate.Common.{
  ℕ, zero, suc, ◌+◌, ◌*◌, ◌≤◌, ◌<◌, ◌≡◌, refl, Bool, Option, none, some, List, [], ◌∷◌, ◌++◌, Text,
  arith,
}
use labmate.Budget.{IterationBudget, refund, consume, grace, record_turn}
use labmate.Guards.Finish.{Verification}
use labmate.Loop.{
  Config, Action, finish_with, load_skill, skill_tool, run_tests, write_file, run_bash, raising,
  plain, ToolCall, TurnInput, ModelReply, LoopState, LoopResult,
}
use labmate.Loop.Calls.{
  CallResult, next, last, done, dispatch, run_tool, run_finish, run_call, run_calls,
}
use labmate.Loop.Turn.{
  continues, stops, admitted, take_steers, admit, prepare, end_turn, react, turn, run, conclude,
  assistant_message,
}

-- The ceiling of turns and the turns counted against it are the same.
pub record SameCeiling (b b' : IterationBudget) : Type 0 where
  pub same_max : b'.max_total ≡ b.max_total
  pub same_turns : b'.absolute_turns ≡ b.absolute_turns

refund-SameCeiling : (b : IterationBudget) → SameCeiling b (refund b)
unfolding refund
refund-SameCeiling b = ground arith

SameCeiling-trans : {a b d : IterationBudget} → SameCeiling a b → SameCeiling b d → SameCeiling a d
SameCeiling-trans h k = ground arith

-- The state that a call leaves, unless the loop ends with it.
abbrev pub left : CallResult → Option LoopState
left (next s) = some s
left (last s) = some s
left (done r) = none

module _ (lower : Text → Text) (c : Config) (nudge_of : Verification → Text) where
  abbrev SameAs : LoopState → LoopState → Type 0
  SameAs s s' = SameCeiling s.budget s'.budget

  dispatch-SameCeiling :
      (a : Action) (s s' : LoopState) → dispatch lower c nudge_of a s ≡ some s' → SameAs s s'
  unfolding dispatch
  dispatch-SameCeiling (finish_with summary) s s' e = ground arith
  dispatch-SameCeiling (load_skill skill loaded) s s' e =
      ground (arith, refund-SameCeiling s.budget)
  dispatch-SameCeiling (skill_tool none verified edits) s s' e = ground arith
  dispatch-SameCeiling (skill_tool (some key) verified edits) s s' e =
      ground (arith, refund-SameCeiling s.budget)
  dispatch-SameCeiling (run_tests none) s s' e = ground arith
  dispatch-SameCeiling (run_tests (some r)) s s' e = ground arith
  dispatch-SameCeiling (write_file none) s s' e = ground arith
  dispatch-SameCeiling (write_file (some path)) s s' e = ground arith
  dispatch-SameCeiling (run_bash none) s s' e = ground arith
  dispatch-SameCeiling (run_bash (some (p, r))) s s' e = ground arith
  dispatch-SameCeiling (raising error) s s' e = cc
  dispatch-SameCeiling (plain name) s s' e = ground arith

  run_tool-SameCeiling :
      (call : ToolCall) (s s' : LoopState)
      → left (run_tool lower c nudge_of call s) ≡ some s'
      → SameAs s s'
  unfolding run_tool
  run_tool-SameCeiling call s s' e = grind (arith, dispatch-SameCeiling call.action)

  run_finish-SameCeiling :
      (summary : Text) (call : ToolCall) (s s' : LoopState)
      → left (run_finish lower c nudge_of summary call s) ≡ some s'
      → SameAs s s'
  unfolding run_finish
  run_finish-SameCeiling summary call s s' e = ground arith

  run_call-SameCeiling :
      (call : ToolCall) (s s' : LoopState)
      → left (run_call lower c nudge_of call s) ≡ some s'
      → SameAs s s'
  unfolding run_call
  run_call-SameCeiling call s s' e =
      grind (arith, run_tool-SameCeiling call, run_finish-SameCeiling)

  run_calls-SameCeiling :
      (calls : List ToolCall) (names : List Text) (s s' : LoopState)
      → left (run_calls lower c nudge_of calls names s).1 ≡ some s'
      → SameAs s s'
  unfolding run_calls
  run_calls-SameCeiling [] names s s' e = ground arith
  run_calls-SameCeiling (call ∷ calls) names s s' e =
      grind (arith, run_call-SameCeiling call s, run_calls-SameCeiling calls)

  end_turn-SameCeiling :
      (shown : ℕ → Text) (reply : ModelReply) (names : List Text) (s s' : LoopState)
      → end_turn shown c reply names s ≡ continues s'
      → SameAs s s'
  unfolding end_turn
  end_turn-SameCeiling shown reply names s s' e = ground (arith, refund-SameCeiling s.budget)

  conclude-SameCeiling :
      (shown : ℕ → Text) (reply : ModelReply) (names : List Text) (o : CallResult)
      (s s' : LoopState)
      → ((m : LoopState) → left o ≡ some m → SameAs s m)
      → conclude shown c reply (names, o) ≡ continues s'
      → SameAs s s'
  unfolding conclude
  conclude-SameCeiling shown reply names (next m) s s' h e =
      ground (arith, h m refl, end_turn-SameCeiling shown reply names m s' e)
  conclude-SameCeiling shown reply names (last m) s s' h e =
      ground (arith, h m refl, end_turn-SameCeiling shown reply names m s' e)
  conclude-SameCeiling shown reply names (done r) s s' h e = cc

  react-SameCeiling :
      (shown : ℕ → Text) (reply : ModelReply) (s s' : LoopState)
      → react lower shown c nudge_of reply s ≡ continues s'
      → SameAs s s'
  unfolding react assistant_message
  react-SameCeiling shown reply s s' e =
      let asked : LoopState = record s { messages = s.messages ++ assistant_message reply ∷ [] } in
      let after = run_calls lower c nudge_of reply.calls [] asked in
      ground (
        arith,
        conclude-SameCeiling shown reply after.0 after.1 asked s'
            (run_calls-SameCeiling reply.calls [] asked),
      )

  prepare-SameCeiling : (t : Option Text) (s : LoopState) → SameAs s (prepare c t s).0
  unfolding prepare
  prepare-SameCeiling t s = ground arith

  admit-counts :
      (past : Bool) (s s' : LoopState)
      → admit past s ≡ admitted s'
      → (s'.budget.max_total ≡ s.budget.max_total)
        × ((s'.budget.absolute_turns ≡ s.budget.absolute_turns + 1)
            × s.budget.absolute_turns < 2 * s.budget.max_total)
  unfolding admit record_turn consume grace
  admit-counts past s s' e = ground arith

  take_steers-budget :
      (steer : Option Text) (s : LoopState) → (take_steers c steer s).0.budget ≡ s.budget
  unfolding take_steers
  take_steers-budget steer s = ground arith

  -- A turn that does not end the loop is one of the turns that the ceiling counts.
  turn-counts :
      (shown : ℕ → Text) (input : TurnInput) (s s' : LoopState)
      → turn lower shown c nudge_of input s ≡ continues s'
      → (s'.budget.max_total ≡ s.budget.max_total)
        × ((s'.budget.absolute_turns ≡ s.budget.absolute_turns + 1)
            × s.budget.absolute_turns < 2 * s.budget.max_total)
  unfolding turn
  turn-counts shown input s s' e =
      let (s1, to_inject) = take_steers c input.steer s in
      grind (
        arith,
        take_steers-budget input.steer s,
        admit-counts input.past_deadline s1,
        prepare-SameCeiling to_inject,
        react-SameCeiling shown,
      )

  -- From a state whose turns are within the ceiling of twice the budget's maximum, and with fuel for
  -- one turn more than the ceiling leaves, the loop returns, whatever the model, the tools and the
  -- channel do.
  pub loop_returns :
      (shown : ℕ → Text) (world : ℕ → TurnInput) (fuel t : ℕ) (s : LoopState)
      → s.budget.absolute_turns ≤ 2 * s.budget.max_total
      → 2 * s.budget.max_total < s.budget.absolute_turns + fuel
      → (r : LoopResult) × run lower shown c nudge_of fuel world t s ≡ some r
  unfolding run
  loop_returns shown world zero t s h k = absurd (omega arith)
  loop_returns shown world (suc fuel) t s h k =
      elim (turn lower shown c nudge_of (world t) s)
          as (λ r.
            turn lower shown c nudge_of (world t) s ≡ r
            → (o : LoopResult) × ((elim r [
              | stops q ↦ some q
              | continues s' ↦ run lower shown c nudge_of fuel world (t + 1) s'
            ])
                ≡ some o)) [
                  | stops r ↦ λ e. (r, refl)
                  | continues s' ↦ λ e.
                      loop_returns shown world fuel (t + 1) s'
                        (omega (arith, turn-counts shown (world t) s s' e))
                        (omega (arith, turn-counts shown (world t) s s' e))
                ]
        refl
