-- ===== src/Loop.antt =====
-- `_run_react_loop` of services/orchestrator/coding_orchestrator.py: what the loop keeps, what a turn
-- receives from outside, and what the loop returns.
pub mod Calls
pub mod Turn
pub mod Resume
mod Examples
use labmate.Common.{
  ℕ, Bool, true, false, not, ◌&&◌, ◌||◌, Option, none, some, List, [], ◌∷◌, ◌++◌, if◌then◌else◌,
  Text, codes, is_empty, take, join,
}
use labmate.Budget.{IterationBudget, new_budget}
use labmate.LoopDetection.{Reason, unset, repeat, cycle, LoopDetector, new_detector}
use labmate.LoopDetection
use labmate.Messages.{Message, Content}
use labmate.Guards.Breaker.{ProgressBreaker, new_breaker}
use labmate.Guards.Outcome.{Parsed}
use labmate.Guards.Finish.{Policy, Verification, Returned}

-- What is fixed for a goal: the limits of the guards, whether there is a channel for steers and
-- cancellation (an active task and Redis), whether message repair is enabled, and whether a repeated
-- `load_skill` gives its iteration back.
pub record Config : Type 0 where
  pub policy : Policy
  pub repeat_limits : LoopDetection.Limits
  pub noprogress_limit : ℕ
  pub channel : Bool
  pub repair : Bool
  pub refund_repeat_load : Bool

-- A tool call by what the loop does with it. The outcome of a tool that runs outside comes with it:
-- whether a skill was loaded; of a skill's tool, the key if it is a guarded analysis, whether the run
-- is an assertion that passed, and the files written; of `run_tests`, the result, if the runner
-- answered; of `write_file`, the path, if the read-back confirmed the write; of `run_bash` with
-- pytest, whether its text shows a pass and what its content reads as. `raising` is a skill's tool
-- whose dispatch raises, and `plain` any other tool.
pub data Action : Type 0 where
  finish_with : Text → Action
  load_skill : Text → Bool → Action
  skill_tool : Option Text → Bool → List Text → Action
  run_tests : Option Parsed → Action
  write_file : Option Text → Action
  run_bash : Option (Bool × Parsed) → Action
  raising : Text → Action
  plain : Text → Action

-- `tc` with its signature, and the text that its tool message gets.
pub record ToolCall : Type 0 where
  pub call_id : Option Text
  pub action : Action
  pub signature : Text
  pub output : Text

pub record ModelReply : Type 0 where
  pub content : Content
  pub calls : List ToolCall

-- `name`
unfoldable pub tool_name : Action → Text
tool_name (finish_with summary) = codes "finish"
tool_name (load_skill skill loaded) = codes "load_skill"
tool_name (skill_tool key verified edits) = codes "call_skill_tool"
tool_name (run_tests result) = codes "run_tests"
tool_name (write_file path) = codes "write_file"
tool_name (run_bash result) = codes "run_bash"
tool_name (raising error) = codes "call_skill_tool"
tool_name (plain name) = name

-- What one turn receives: the cancel flag, the steer that it reads, whether the deadline is past, and
-- the model, which is asked with the messages of the turn; `none` is an exception.
pub record TurnInput : Type 0 where
  pub cancelled : Bool
  pub steer : Option Text
  pub past_deadline : Bool
  pub model : List Message → Option ModelReply

pub record LoopState : Type 0 where
  pub messages : List Message
  pub budget : IterationBudget
  pub detector : LoopDetector
  pub breaker : ProgressBreaker
  pub verification : Verification
  pub loaded_skills : List Text
  pub seen_analysis : List Text
  pub tools_used : List Text
  pub prewritten_steer : Option Text
  pub pending_steer : Option Text

-- One constructor for each `return`: a reply without tool calls; a `finish`; a cut-off with the `ok`
-- and the summary of `reconcile_cutoff`; a cancellation; a detected loop; an exception.
pub data LoopResult : Type 0 where
  answered : Content → LoopResult
  finished : Returned → LoopResult
  cut_off : Bool → Text → Bool → LoopResult
  cancelled_by_user : LoopResult
  looped : Reason → Text → LoopResult
  raised : LoopResult

-- The value of "ok".
unfoldable pub result_ok : LoopResult → Bool
result_ok (answered content) = true
result_ok (finished r) = r.ok
result_ok (cut_off ok summary tests_passed) = ok
result_ok cancelled_by_user = false
result_ok (looped reason name) = false
result_ok raised = false

-- The state before the first turn of a goal that does not resume.
unfoldable pub initial : Config → ℕ → LoopDetector → List Message → Option Text → LoopState
initial c cap detector messages prewritten = record {
  messages = messages;
  budget = new_budget cap;
  detector = detector;
  breaker = new_breaker c.noprogress_limit;
  verification = record {
    edited_files = [];
    tests_passed = false;
    nudges_used = 0;
    infra_error_streak = 0;
    last_infra_reason = codes "test toolchain error";
    bug_exposed = false;
  };
  loaded_skills = [];
  seen_analysis = [];
  tools_used = [];
  prewritten_steer = prewritten;
  pending_steer = none;
}
