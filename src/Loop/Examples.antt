-- ===== src/Loop/Examples.antt =====
-- Runs and instances for the loop, and for its resumption, where floats are natural numbers of
-- seconds.
use labmate.Common.{
  ◌-◌, ℕ, zero, suc, ◌+◌, ◌≡◌, refl, Bool, true, false, not, ◌&&◌, ◌||◌, Option, none, some, List,
  [], ◌∷◌, ◌++◌, if◌then◌else◌, Text, codes, ascii_lower, any, is_empty, text_eq, arith,
}
use labmate.LoopDetection
use labmate.LoopDetection.{new_detector, record_signature, repeat_limit_for, is_repeat}
use labmate.Budget.{record_turn, consume, grace, new_budget, refund}
use labmate.Guards.Completion.{reconcile_cutoff}
use labmate.Guards.Breaker.{step}
use labmate.Messages.{Message, text, user}
use labmate.Guards.Finish.{Verification, finish, needs_verification}
use labmate.Loop.{
  Config, finish_with, write_file, run_bash, plain, ToolCall, TurnInput, ModelReply, LoopState,
  LoopResult, answered, finished, cut_off, initial,
}
use labmate.Loop.Resume.{Item, snapshot, rehydrate, carried_over, resume_after_crash}
use labmate.Checkpoint.{Value, boolean, whole, real, items, Builtins, save, load}
use labmate.Checkpoint.Resume.{IsPython}
use labmate.Loop.Calls.{run_calls, run_call, run_tool, run_finish, dispatch}
use labmate.Loop.Turn.{
  run, turn, take_steers, admit, prepare, steer_this_turn, react, end_turn, conclude, stop_on,
}
use labmate.Loop.Turn.Ending.{loop_returns}
use labmate.Loop.Turn.Success.{
  action_verifies, call_verifies, claims_nothing, success_needs_verification,
}

abbrev Doc : Type 0
Doc = Value Item ℕ

abbrev int_of : Doc → Option ℕ
int_of (whole n) = some n
int_of _ = none

abbrev float_of : Doc → Option ℕ
float_of (real f) = some f
float_of _ = none

abbrev list_of : Doc → Option (List Item)
list_of (items xs) = some xs
list_of _ = none

abbrev is_truthy : Doc → Bool
is_truthy (boolean b) = b
is_truthy (items xs) = not (is_empty xs)
is_truthy _ = true

abbrev py : Builtins Item ℕ
py = record {
  to_int = int_of;
  to_float = float_of;
  to_list = list_of;
  truthy = is_truthy;
  zero_point_zero = 0;
}

py-IsPython : IsPython py
py-IsPython = record {
  to_int-whole = λ n. refl;
  to_float-real = λ f. refl;
  to_list-items = λ xs. refl;
  truthy-boolean = λ b. refl;
  truthy-items = λ xs. refl;
}

abbrev config : Config
config = record {
  policy = record { max_nudges = 2; max_infra_errors = 2; expose_bug = false };
  repeat_limits = record { repeat_limit = 3; repeat_limit_mutating = 2 };
  noprogress_limit = 5;
  channel = false;
  repair = false;
  refund_repeat_load = true;
}

abbrev ask : Message
ask = record {
  role = user;
  content = text (codes "fix it");
  tool_calls = [];
  tool_call_id = none;
  extra = [];
}

abbrev start : LoopState
start = initial config 2 (new_detector 3 6) (ask ∷ []) none

abbrev no_text : Verification → Text
no_text v = []

abbrev no_digits : ℕ → Text
no_digits n = []

abbrev write_call : ToolCall
write_call = record {
  call_id = some (codes "1");
  action = write_file (some (codes "a.py"));
  signature = codes "w";
  output = codes "ok";
}

abbrev finish_call : ToolCall
finish_call = record {
  call_id = some (codes "2");
  action = finish_with (codes "Done: I fixed it");
  signature = codes "f";
  output = [];
}

-- A model that writes a file in the first turn and calls `finish` in every later one.
abbrev reply_at : ℕ → ModelReply
reply_at zero = record { content = text []; calls = write_call ∷ [] }
reply_at (suc n) = record { content = text []; calls = finish_call ∷ [] }

abbrev world : ℕ → TurnInput
world n = record {
  cancelled = false;
  steer = none;
  past_deadline = false;
  model = λ ms. some (reply_at n);
}

abbrev result : Option LoopResult
result = run ascii_lower no_digits config no_text 5 world 0 start

loop_is_cut_off : result ≡ some (cut_off false (codes "budget exhausted") false)
unfolding run turn take_steers admit record_turn consume grace new_budget prepare steer_this_turn
    react run_calls run_call run_tool run_finish dispatch finish needs_verification end_turn
    conclude record_signature repeat_limit_for stop_on reconcile_cutoff refund step initial
    is_repeat LoopDetection.should_break labmate.Common.member text_eq labmate.Loop.tool_name
    new_detector labmate.Budget.refundable_tools
loop_is_cut_off = refl

loop_returns_example : (r : LoopResult) × (result ≡ some r)
loop_returns_example =
    loop_returns ascii_lower config no_text no_digits world 5 0 start
      (unfold initial new_budget in omega arith) (unfold initial new_budget in omega arith)

replies_verify_nothing :
    (n : ℕ) (ms : List Message) (reply : ModelReply)
    → (world n).model ms ≡ some reply
    → any (call_verifies ascii_lower config) reply.calls ≡ false
unfolding action_verifies
replies_verify_nothing zero ms reply e = ground arith
replies_verify_nothing (suc n) ms reply e = ground arith

success_needs_verification_example :
    claims_nothing ascii_lower config (cut_off false (codes "budget exhausted") false) ≡ true
success_needs_verification_example =
    success_needs_verification ascii_lower config no_text no_digits world 5 0 start
      (cut_off false (codes "budget exhausted") false) replies_verify_nothing
      (unfold initial in refl) loop_is_cut_off

-- A loop that had used one unit of its budget.
abbrev later : LoopState
later = record start { budget = record (start.budget) { used = 1; absolute_turns = 1 } }

abbrev task_id : Text
task_id = codes "t1"

abbrev goal : Text
goal = codes "fix it"

abbrev another_goal : Text
another_goal = codes "explain it"

resume_after_crash_example :
    (rehydrate
        (λ a b. a - b)
        goal
        (load py task_id (save (snapshot task_id goal 3 later) []))
        start
        100
      ≡ (carried_over later start, 97))
    × (rehydrate
          (λ a b. a - b)
          another_goal
          (load py task_id (save (snapshot task_id goal 3 later) []))
          start
          100
        ≡ (start, 100))
resume_after_crash_example =
    resume_after_crash (λ a b. a - b) py py-IsPython task_id goal another_goal 3 100 later start []
      (unfold text_eq in refl)
