-- ===== src/Budget/Accounting.antt =====
-- What any sequence of calls of one budget adds up to.
use labmate.Common.{
  ℕ, ◌+◌, ◌-◌, ◌*◌, ◌≤◌, ◌≡◌, Bool, true, false, List, [], ◌∷◌, ltb, if◌then◌else◌, arith,
}
use labmate.Budget.{IterationBudget, new_budget, consume, refund, grace, remaining, record_turn}

pub data Call : Type 0 where
  consume_call refund_call grace_call turn_call : Call

-- The answers of a run: units consumed, units given back, grace turns and turns granted.
pub record Tally : Type 0 where
  pub consumed : ℕ
  pub refunded : ℕ
  pub graces : ℕ
  pub turns : ℕ

abbrev pub nothing : Tally
nothing = record { consumed = 0; refunded = 0; graces = 0; turns = 0 }

abbrev bit : Bool → ℕ
bit b = if b then 1 else 0

unfoldable pub run : List Call → IterationBudget → IterationBudget × Tally
run [] b = (b, nothing)
run (consume_call ∷ cs) b =
    let (b1, got) = consume b in
    let (b2, t) = run cs b1 in (b2, record t { consumed = t.consumed + bit got })
run (refund_call ∷ cs) b =
    let (b2, t) = run cs (refund b) in (b2, record t { refunded = t.refunded + bit (ltb 0 b.used) })
run (grace_call ∷ cs) b =
    let (b1, got) = grace b in
    let (b2, t) = run cs b1 in (b2, record t { graces = t.graces + bit got })
run (turn_call ∷ cs) b =
    let (b1, got) = record_turn b in
    let (b2, t) = run cs b1 in (b2, record t { turns = t.turns + bit got })

-- The counters never pass their limits.
pub record IsValid (b : IterationBudget) : Type 0 where
  pub within : b.used ≤ b.max_total
  pub turns_within : b.absolute_turns ≤ 2 * b.max_total

-- How a run from `b` ends: `e` is the budget after it, `t` the tally.
pub record Accounts (b e : IterationBudget) (t : Tally) : Type 0 where
  pub same_max : e.max_total ≡ b.max_total
  pub used_balance : e.used + t.refunded ≡ b.used + t.consumed
  pub used_within : e.used ≤ e.max_total
  pub turn_balance : e.absolute_turns ≡ b.absolute_turns + t.turns
  pub turn_ceiling : b.absolute_turns + t.turns ≤ 2 * b.max_total
  pub grace_once : t.graces + bit b.grace_used ≤ 1

pub new_budget-IsValid : (n : ℕ) → IsValid (new_budget n)
unfolding new_budget
new_budget-IsValid n = omega arith

bit_le_one : (c : Bool) → bit c ≤ 1
bit_le_one true = omega arith
bit_le_one false = omega arith

run-Accounts_step :
    (cs : List Call) (b : IterationBudget) → IsValid b → Accounts b (run cs b).0 (run cs b).1
unfolding run consume refund grace record_turn
run-Accounts_step [] b v = ground (arith, bit_le_one b.grace_used)
run-Accounts_step (consume_call ∷ cs) b v =
    let ih = run-Accounts_step cs (consume b).0 in ground (arith, ih)
run-Accounts_step (refund_call ∷ cs) b v =
    let ih = run-Accounts_step cs (refund b) in ground (arith, ih)
run-Accounts_step (grace_call ∷ cs) b v =
    let ih = run-Accounts_step cs (grace b).0 in ground (arith, ih)
run-Accounts_step (turn_call ∷ cs) b v =
    let ih = run-Accounts_step cs (record_turn b).0 in ground (arith, ih)

-- In every run of calls from a valid budget, in any order: the limit stays; what is used plus what
-- was given back is what was used before plus what was consumed; the use stays within the limit;
-- the absolute turns grow by exactly the turns granted and stay within twice the limit; and at most
-- one grace turn is granted, none if it was taken before.
pub run-Accounts :
    (cs : List Call) (b : IterationBudget) → IsValid b → Accounts b (run cs b).0 (run cs b).1
run-Accounts cs b v = run-Accounts_step cs b v

-- From a valid budget `consume` is refused exactly when nothing remains, and else takes one unit.
consume_iff_remaining :
    (b : IterationBudget)
    → IsValid b
    → ((consume b).1 ≡ ltb 0 (remaining b)) × (remaining (consume b).0 ≡ remaining b - 1)
unfolding consume remaining
consume_iff_remaining b v = ground arith
