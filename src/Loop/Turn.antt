-- ===== src/Loop/Turn.antt =====
-- One turn of the loop, and the loop as a run of turns. `shown` is the decimal of a number, and
-- `world` gives what each turn receives.
pub mod Ending
pub mod Success
use labmate.Common.{
  ℕ, zero, suc, ◌+◌, ◌-◌, Bool, true, false, not, ◌&&◌, ◌||◌, Option, none, some, List, [], ◌∷◌,
  ◌++◌, if◌then◌else◌, Text, codes, is_empty, member, all, ltb, map, strip,
}
use labmate.Budget.{IterationBudget, refund, consume, grace, record_turn, refundable_tools}
use labmate.Messages.{Message, Content, Role, assistant}
use labmate.Messages.Repair.{sanitize_messages, content_str}
use labmate.Messages.Steer.{inject_steer}
use labmate.Guards.Breaker.{ProgressBreaker, step}
use labmate.Guards.Completion.{reconcile_cutoff}
use labmate.Guards.Finish.{Verification}
use labmate.Loop.{
  Config, ToolCall, TurnInput, ModelReply, LoopState, LoopResult, answered, cut_off,
  cancelled_by_user, raised,
}
use labmate.Loop.Calls.{CallResult, next, last, done, run_calls}

pub data TurnResult : Type 0 where
  continues : LoopState → TurnResult
  stops : LoopResult → TurnResult

-- The outcome of the checks before the model is asked.
pub data Admission : Type 0 where
  admitted : LoopState → Admission
  refused : LoopResult → Admission

-- The `return` of a guard that stops the loop.
unfoldable pub stop_on : Text → Verification → LoopResult
unfolding reconcile_cutoff
stop_on reason v =
    let (ok, summary) = reconcile_cutoff reason (not (is_empty v.edited_files)) v.tests_passed in
    cut_off ok summary v.tests_passed

-- What is read of the steers: a pre-written one is deferred; only where there is none to defer is
-- the one that this turn read taken up.
unfoldable pub take_steers : Config → Option Text → LoopState → LoopState × Option Text
take_steers c steer s = if not c.channel then (s, none) else elim s.pending_steer [
  | some p ↦ (s, steer)
  | none ↦ elim s.prewritten_steer [
    | some p ↦ (record s { pending_steer = some p; prewritten_steer = none }, none)
    | none ↦ (s, steer)
  ]
]

-- The deadline, the ceiling of turns, and the budget with its one grace turn.
unfoldable pub admit : Bool → LoopState → Admission
admit past_deadline s =
    let (counted, granted) = record_turn s.budget in
    let (spent, got) = consume counted in
    let (graced, extra) = grace spent in
    if past_deadline
    then refused (stop_on (codes "wall-clock deadline exceeded") s.verification)
    else if not granted
    then refused (stop_on (codes "absolute turn limit exceeded") s.verification)
    else if got
    then admitted (record s { budget = spent })
    else if extra
    then admitted (record s { budget = graced })
    else refused (stop_on (codes "budget exhausted") s.verification)

-- The steer of this turn: the deferred one from the second unit of the budget on, or else the one
-- that was just read. An empty one is not injected.
unfoldable pub steer_this_turn : Option Text → LoopState → Option Text
steer_this_turn to_inject s =
    let chosen : Option Text = elim s.pending_steer [
      | some p ↦ if ltb 0 (s.budget.used - 1) then some p else to_inject
      | none ↦ to_inject
    ] in
    elim chosen [ none ↦ none | some t ↦ if is_empty t then none else some t ]

-- The messages that the model is asked with, and the state without the deferred steer.
unfoldable pub prepare : Config → Option Text → LoopState → LoopState × List Message
prepare c to_inject s =
    let prompt : List Message = elim (steer_this_turn to_inject s) [
      | none ↦ s.messages
      | some t ↦ inject_steer c.repair s.messages t
    ] in
    (
      elim (steer_this_turn to_inject s) [ none ↦ s | some t ↦ record s { pending_steer = none } ],
      if c.repair then sanitize_messages prompt else prompt,
    )

unfoldable pub assistant_message : ModelReply → Message
assistant_message reply = record {
  role = assistant;
  content = reply.content;
  tool_calls = map (λ (call : ToolCall). call.call_id) reply.calls;
  tool_call_id = none;
  extra = [];
}

-- `_turn_made_progress`
unfoldable pub turn_made_progress : Bool → Text → Bool → Bool
turn_made_progress has_tool_calls content is_finish =
    is_finish || (has_tool_calls || not (is_empty (strip content)))

-- After the calls: the refund of an inspecting turn, and the breaker.
unfoldable pub end_turn : (ℕ → Text) → Config → ModelReply → List Text → LoopState → TurnResult
unfolding turn_made_progress content_str
end_turn shown c reply names s =
    let inspecting = not (is_empty names) && all (λ n. member n refundable_tools) names in
    let budget = if inspecting then refund s.budget else s.budget in
    let progress =
      turn_made_progress (not (is_empty reply.calls)) (content_str reply.content) false in
    let breaker = step progress (some c.noprogress_limit) s.breaker in
    let s' = record s { budget = budget; breaker = breaker } in
    if breaker.tripped
    then stops (
        stop_on
          (codes "no-progress breaker tripped ("
            ++ (shown breaker.consecutive ++ codes " consecutive idle turns)"))
          s.verification)
    else continues s'

-- What follows the calls.
unfoldable pub conclude : (ℕ → Text) → Config → ModelReply → List Text × CallResult → TurnResult
conclude shown c reply (names, next s) = end_turn shown c reply names s
conclude shown c reply (names, last s) = end_turn shown c reply names s
conclude shown c reply (names, done r) = stops r

module _ (lower : Text → Text) (shown : ℕ → Text) (c : Config)
    (nudge_of : Verification → Text) where
  -- The turn from the model's reply on.
  unfoldable pub react : ModelReply → LoopState → TurnResult
  unfolding assistant_message
  react reply s =
      let s' = record s { messages = s.messages ++ assistant_message reply ∷ [] } in
      if is_empty reply.calls
      then stops (answered reply.content)
      else conclude shown c reply (run_calls lower c nudge_of reply.calls [] s')

  unfoldable pub turn : TurnInput → LoopState → TurnResult
  turn input s =
      let (s1, to_inject) = take_steers c input.steer s in
      if c.channel && input.cancelled
      then stops cancelled_by_user
      else elim (admit input.past_deadline s1) [
        | refused r ↦ stops r
        | admitted s2 ↦ elim (input.model (prepare c to_inject s2).1) [
          | none ↦ stops raised
          | some reply ↦ react reply (prepare c to_inject s2).0
        ]
      ]

  -- The turns from number `t` on, at most `fuel` of them.
  unfoldable pub run : ℕ → (ℕ → TurnInput) → ℕ → LoopState → Option LoopResult
  run zero world t s = none
  run (suc fuel) world t s = elim (turn (world t) s) [
    | stops r ↦ some r
    | continues s' ↦ run fuel world (t + 1) s'
  ]
