-- ===== src/SkillRouter/Examples.antt =====
-- Runs and instances for the skill router.
use labmate.Common.{
  text_eq, ◌≤◌, ◌≡◌, ◌↔◌, refl, none, some, List, [], ◌∷◌, Option, Text, codes, inl,
}
use labmate.SkillRouter.{select_from, present, route, select}
use labmate.SkillRouter.Votes.{occurrences}
use labmate.SkillRouter.Majority.{route_iff_majority}

abbrev picks : List (Option Text)
picks = some (codes "a") ∷ some (codes "b") ∷ some (codes "a") ∷ []

tiebreak_decides : select picks (some (codes "b")) ≡ some (codes "b")
unfolding select select_from present text_eq
tiebreak_decides = refl

route_iff_majority_example :
    ((route none (codes "task") picks).skills ≡ codes "a" ∷ [])
    ↔ (2 ≤ occurrences (codes "a") (present picks))
route_iff_majority_example =
    route_iff_majority none (codes "task") (codes "a") picks refl (inl refl)
