-- ===== src/Guards/Breaker.antt =====
-- services/orchestrator/progress_breaker.py. Every method holds the lock and is one step here.
pub mod Streaks
use labmate.Common.{
  ℕ, ◌+◌, Bool, true, false, not, ◌&&◌, Option, none, some, List, [], ◌∷◌, if◌then◌else◌, leb, ltb,
}

pub record ProgressBreaker : Type 0 where
  pub default_cap : ℕ
  pub consecutive : ℕ
  pub tripped : Bool

unfoldable pub new_breaker : ℕ → ProgressBreaker
new_breaker cap = record { default_cap = cap; consecutive = 0; tripped = false }

-- The breaker after a turn, whose `consecutive` and `tripped` are the ProgressStep that is returned.
-- A cap below 0 acts as 0.
unfoldable pub step : Bool → Option ℕ → ProgressBreaker → ProgressBreaker
step made_progress cap b =
    let effective_cap = elim cap as (λ c. ℕ) [ none ↦ b.default_cap | some c ↦ c ] in
    let consecutive = if made_progress then 0 else b.consecutive + 1 in
    record b {
      consecutive = consecutive;
      tripped = ltb 0 effective_cap && leb effective_cap consecutive;
    }
