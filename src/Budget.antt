-- ===== src/Budget.antt =====
-- services/orchestrator/iteration_budget.py: the step counter of the ReAct loop. A method returns
-- the new counter with its answer. The lock makes every method atomic, so that threads interleave
-- whole calls: a run is a list of calls. A negative `max_total` answers as 0 does.
pub mod Accounting
mod Examples
use labmate.Common.{
  ℕ, ◌+◌, ◌-◌, ◌*◌, Bool, true, false, List, [], ◌∷◌, ◌++◌, ltb, leb, if◌then◌else◌, Text, codes,
}

-- `CHEAP_TOOLS`
unfoldable pub cheap_tools : List Text
cheap_tools = codes "read_file" ∷ codes "list_dir" ∷ codes "code_semantic_search" ∷ []

-- `REFUNDABLE_TOOLS`
unfoldable pub refundable_tools : List Text
unfolding cheap_tools
refundable_tools =
    cheap_tools
    ++ (codes "run_tests"
        ∷ codes "run_bash"
        ∷ codes "code_semantic_search"
        ∷ codes "memory_search"
        ∷ codes "session_search"
        ∷ [])

pub record IterationBudget : Type 0 where
  pub max_total : ℕ
  pub used : ℕ
  pub grace_used : Bool
  pub absolute_turns : ℕ

unfoldable pub new_budget : ℕ → IterationBudget
new_budget n = record { max_total = n; used = 0; grace_used = false; absolute_turns = 0 }

unfoldable pub consume : IterationBudget → IterationBudget × Bool
consume b = if leb b.max_total b.used then (b, false) else (record b { used = b.used + 1 }, true)

unfoldable pub refund : IterationBudget → IterationBudget
refund b = if ltb 0 b.used then record b { used = b.used - 1 } else b

unfoldable pub grace : IterationBudget → IterationBudget × Bool
grace b = if b.grace_used then (b, false) else (record b { grace_used = true }, true)

-- `max(0, self.max_total - self._used)`: subtraction on ℕ stops at 0.
unfoldable pub remaining : IterationBudget → ℕ
remaining b = b.max_total - b.used

unfoldable pub record_turn : IterationBudget → IterationBudget × Bool
record_turn b =
    if leb (2 * b.max_total) b.absolute_turns
    then (b, false)
    else (record b { absolute_turns = b.absolute_turns + 1 }, true)
