-- ===== src/Guards/Grounding.antt =====
-- services/orchestrator/tool_grounding.py. `shown` is the decimal of a number; a budget below 0 acts
-- as 0.
pub mod Ends
use labmate.Common.{
  ℕ, ◌+◌, ◌-◌, ◌/◌, Bool, ◌||◌, List, ◌++◌, if◌then◌else◌, Text, codes, take, drop, length, ltb,
  leb, ◌==◌,
}

-- `max(n, 1)`, as the two guards of the odd split write it.
unfoldable pub at_least_one : ℕ → ℕ
at_least_one n = if ltb n 1 then 1 else n

abbrev pub head_length : ℕ → ℕ
head_length budget = at_least_one (budget / 2)

abbrev pub tail_length : ℕ → ℕ
tail_length budget = at_least_one (budget - budget / 2)

-- The marker that reports the dropped characters.
unfoldable pub marker : (ℕ → Text) → ℕ → Text
marker shown dropped = codes "\n…[" ++ (shown dropped ++ codes " chars truncated]…\n")

unfoldable pub ground_tool_result : (ℕ → Text) → Text → ℕ → Text
ground_tool_result shown text budget =
    if (budget == 0) || leb (length text) budget
    then text
    else take (head_length budget) text
      ++ (marker shown (length text - head_length budget - tail_length budget)
          ++ drop (length text - tail_length budget) text)
