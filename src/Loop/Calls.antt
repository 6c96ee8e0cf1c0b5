-- ===== src/Loop/Calls.antt =====
-- The loop over the tool calls of one turn.
use labmate.Common.{
  ◌+◌, Bool, true, false, not, ◌&&◌, ◌||◌, Option, none, some, List, [], ◌∷◌, ◌++◌, if◌then◌else◌,
  Text, codes, is_empty, member,
}
use labmate.Budget.{refund}
use labmate.LoopDetection.{record_signature, repeat_limit_for}
use labmate.Messages.{Message, text, tool, user}
use labmate.Guards.Outcome.{Parsed, classify_test_attempt}
use labmate.Guards.Finish.{Policy, Verification, nudged, returned, finish, account, exposes}
use labmate.Loop.{
  Config, Action, finish_with, load_skill, skill_tool, run_tests, write_file, run_bash, raising,
  plain, ToolCall, tool_name, LoopState, LoopResult, finished, looped, raised,
}

-- What a call leaves: the state for the next call; the state after the last call of the turn, which
-- a deferred `finish` makes; or the loop's result.
pub data CallResult : Type 0 where
  next : LoopState → CallResult
  last : LoopState → CallResult
  done : LoopResult → CallResult

-- The tool message of a call.
unfoldable pub tool_message : ToolCall → Text → Message
tool_message c content = record {
  role = tool;
  content = text content;
  tool_calls = [];
  tool_call_id = c.call_id;
  extra = [];
}

unfoldable pub nudge_message : Text → Message
nudge_message content = record {
  role = user;
  content = text content;
  tool_calls = [];
  tool_call_id = none;
  extra = [];
}

abbrev pub is_finish : Action → Bool
is_finish (finish_with summary) = true
is_finish _ = false

-- `is_repeat_load` of load_skill_guard.py, for a call of `load_skill`.
unfoldable pub is_repeat_load : Text → List Text → Bool
is_repeat_load name loaded_names = not (is_empty name) && member name loaded_names

unfoldable pub is_repeat_load_call : Action → List Text → Bool
unfolding is_repeat_load
is_repeat_load_call (load_skill skill loaded) names = is_repeat_load skill names
is_repeat_load_call _ names = false

-- The accounting of a pytest run through `run_bash`: like `account`, by `_run_bash_passed`.
unfoldable pub account_bash : (Text → Text) → Policy → Bool → Parsed → Verification → Verification
account_bash lower p passed result v =
    let o = classify_test_attempt lower result in
    record v {
      tests_passed = v.tests_passed || (passed || exposes lower p o);
      infra_error_streak =
          if o.infra_error
          then v.infra_error_streak + 1
          else if o.ran
          then 0
          else v.infra_error_streak;
      last_infra_reason = if o.infra_error then o.reason else v.last_infra_reason;
      bug_exposed = v.bug_exposed || exposes lower p o;
    }

-- `text` and `nudge_of` are the texts of the deferral and of the nudge, which the loop's choice does
-- not depend on.
module _ (lower : Text → Text) (c : Config) (nudge_of : Verification → Text) where
  -- The dispatch of a call other than `finish`, up to its tool message.
  unfoldable pub dispatch : Action → LoopState → Option LoopState
  unfolding is_repeat_load
  dispatch (finish_with summary) s = some s
  dispatch (load_skill skill loaded) s = some (
      if is_repeat_load skill s.loaded_skills
      then (if c.refund_repeat_load then record s { budget = refund s.budget } else s)
      else if loaded
      then record s { loaded_skills = skill ∷ s.loaded_skills }
      else s)
  dispatch (skill_tool none verified edits) s = some (record s {
    verification = record (s.verification) {
      tests_passed = s.verification.tests_passed || verified;
      edited_files = edits ++ s.verification.edited_files;
    };
  })
  dispatch (skill_tool (some key) verified edits) s = some (
      if member key s.seen_analysis then record s { budget = refund s.budget } else record s {
        seen_analysis = key ∷ s.seen_analysis;
        verification = record (s.verification) {
          tests_passed = s.verification.tests_passed || verified;
          edited_files = edits ++ s.verification.edited_files;
        };
      })
  dispatch (run_tests none) s = some s
  dispatch (run_tests (some result)) s =
      some (record s { verification = account lower c.policy result s.verification })
  dispatch (write_file none) s = some s
  dispatch (write_file (some path)) s = some (
      if is_empty path then s else record s {
        verification = record (s.verification) {
          edited_files = path ∷ s.verification.edited_files;
        };
      })
  dispatch (run_bash none) s = some s
  dispatch (run_bash (some (passed, result))) s =
      some (record s { verification = account_bash lower c.policy passed result s.verification })
  dispatch (raising error) s = none
  dispatch (plain name) s = some s

  -- A call that is not `finish`.
  unfoldable pub run_tool : ToolCall → LoopState → CallResult
  unfolding is_repeat_load_call tool_message
  run_tool call s =
      let (detector, halted) =
        record_signature s.detector call.signature
          (some (repeat_limit_for c.repeat_limits (tool_name call.action))) in
      let s' = record s { detector = detector } in
      if halted && not (is_repeat_load_call call.action s.loaded_skills)
      then done (looped detector.reason (tool_name call.action))
      else elim (dispatch call.action s') [
        | none ↦ done raised
        | some s'' ↦
            next (record s'' { messages = s''.messages ++ tool_message call call.output ∷ [] })
      ]

  -- A call of `finish`.
  unfoldable pub run_finish : Text → ToolCall → LoopState → CallResult
  unfolding tool_message nudge_message
  run_finish summary call s = elim (finish lower c.policy summary s.verification) [
    | returned r ↦ done (finished r)
    | nudged v ↦ last (record s {
      verification = v;
      messages =
          s.messages
          ++ (tool_message call (
                codes
                  "{\"finish_deferred\": true, \"reason\": \"verification required before completion\"}")
              ∷ nudge_message (nudge_of s.verification)
              ∷ []);
    })
  ]

  unfoldable pub run_call : ToolCall → LoopState → CallResult
  run_call call s =
      let s' = record s { tools_used = s.tools_used ++ tool_name call.action ∷ [] } in
      elim call.action [ finish_with summary ↦ run_finish summary call s | _ ↦ run_tool call s' ]

  -- The loop over the calls, with the names of the calls that were reached.
  unfoldable pub run_calls : List ToolCall → List Text → LoopState → List Text × CallResult
  run_calls [] names s = (names, next s)
  run_calls (call ∷ calls) names s =
      let names' = names ++ tool_name call.action ∷ [] in
      elim (run_call call s) as (λ r. List Text × CallResult) [
        | next s' ↦ run_calls calls names' s'
        | last s' ↦ (names', last s')
        | done r ↦ (names', done r)
      ]
