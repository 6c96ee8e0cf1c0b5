-- ===== src/Budget/Examples.antt =====
-- Runs and instances for the iteration budget.
use labmate.Common.{◌≡◌, refl, true, List, [], ◌∷◌}
use labmate.Budget.{new_budget, consume, refund, grace, record_turn}
use labmate.Budget.Accounting.{
  Call, consume_call, refund_call, grace_call, turn_call, run, Accounts, new_budget-IsValid,
  run-Accounts,
}

abbrev calls : List Call
calls =
    turn_call ∷ consume_call ∷ refund_call ∷ turn_call ∷ consume_call ∷ turn_call ∷ consume_call
    ∷ grace_call ∷ grace_call ∷ []

run-calls : run calls (new_budget 1) ≡ (
  record { max_total = 1; used = 1; grace_used = true; absolute_turns = 2 },
  record { consumed = 2; refunded = 1; graces = 1; turns = 2 },
)
unfolding run new_budget consume refund grace record_turn
run-calls = refl

run-Accounts_example :
    Accounts (new_budget 1) (run calls (new_budget 1)).0 (run calls (new_budget 1)).1
run-Accounts_example = run-Accounts calls (new_budget 1) (new_budget-IsValid 1)
