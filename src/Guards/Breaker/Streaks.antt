-- ===== src/Guards/Breaker/Streaks.antt =====
-- When the breaker trips.
use labmate.Common.{
  ℕ, ◌+◌, ◌≡◌, refl, Bool, ◌&&◌, none, List, [], ◌∷◌, if◌then◌else◌, leb, ltb, arith,
}
use labmate.Guards.Breaker.{ProgressBreaker, new_breaker, step}

-- The breaker after the turns, each with whether it made progress, the last turn first.
unfoldable pub after_turns : List Bool → ProgressBreaker → ProgressBreaker
after_turns [] b = b
after_turns (t ∷ ts) b = step t none (after_turns ts b)

-- The turns since the last progress.
unfoldable pub idle_turns : List Bool → ℕ
idle_turns [] = 0
idle_turns (t ∷ ts) = let rest = idle_turns ts in if t then 0 else rest + 1

after_turns-counts :
    (cap : ℕ) (ts : List Bool)
    → ((after_turns ts (new_breaker cap)).consecutive ≡ idle_turns ts)
      × ((after_turns ts (new_breaker cap)).default_cap ≡ cap)
unfolding after_turns idle_turns new_breaker step
after_turns-counts cap [] = (refl, refl)
after_turns-counts cap (t ∷ ts) = let (a, b) = after_turns-counts cap ts in (ground (arith, a), b)

-- Whatever the turns of a goal were, after at least one of them the breaker is tripped exactly if it
-- has a cap and the turns since the last progress have reached it.
breaker_trips_iff :
    (cap : ℕ) (t : Bool) (ts : List Bool)
    → (after_turns (t ∷ ts) (new_breaker cap)).tripped
      ≡ (ltb 0 cap && leb cap (idle_turns (t ∷ ts)))
unfolding after_turns idle_turns step
breaker_trips_iff cap t ts = let (a, b) = after_turns-counts cap ts in ground (arith, a, b)
