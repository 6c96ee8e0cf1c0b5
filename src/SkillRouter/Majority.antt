-- ===== src/SkillRouter/Majority.antt =====
-- The skill that `route` chooses is the one with a majority of the votes.
use labmate.Common.{
  ℕ, ◌+◌, ◌≤◌, ◌≡◌, ◌↔◌, ◌⊎◌, refl, Bool, true, false, Option, none, some, List, [], ◌∷◌,
  if◌then◌else◌, Text, Dict, lookup, text_eq, text_eq_iff, arith, length, Bool-cases, Option-cases,
  inl, inr, ap, has_key,
}
use mathlib.Core.Path.{subst}
use labmate.SkillRunner.{SkillMeta}
use labmate.SkillRouter.{
  ToolCall, select_attempts, sample_select, present, votes_of, count_votes, most_common_from,
  confidence_check, is_confident, route,
}
use labmate.SkillRouter.Votes.{
  occurrences, IsBounded, votes_of-count_votes, count_votes-IsBounded, most_common-IsBounded,
  most_common-votes_of, most_common-le,
}

-- What the check says of the picks: the winner has as many votes as it was picked, and none has more.
record IsWinner (ps : List Text) (w : Text × ℕ) : Type 0 where
  votes : w.1 ≡ occurrences w.0 ps
  most : (k : Text) → occurrences k ps ≤ w.1

counted : (k : Text) (ps : List Text) → votes_of k (count_votes ps []) ≡ occurrences k ps
unfolding lookup
counted k ps = omega (arith, votes_of-count_votes k ps [])

votes_of_entries :
    (k : Text) (e : Text × ℕ) (es : Dict ℕ) → votes_of k (e ∷ es) ≤ (most_common_from e es).1
unfolding lookup
votes_of_entries k e es = ground (arith, most_common-votes_of k e es, most_common-le e es)

most_common_from-IsWinner :
    (ps : List Text) (e : Text × ℕ) (es : Dict ℕ)
    → count_votes ps [] ≡ e ∷ es
    → IsWinner ps (most_common_from e es)
most_common_from-IsWinner ps e es is =
    let bounded : IsBounded (λ k. 0 + occurrences k ps) (e ∷ es) =
      subst (λ d. IsBounded (λ k. 0 + occurrences k ps) d) is
        (count_votes-IsBounded (λ _. 0) ps [] tt) in
    let at_most = most_common-IsBounded (λ k. 0 + occurrences k ps) e es bounded.0 bounded.1 in
    let most : (k : Text) → occurrences k ps ≤ (most_common_from e es).1 =
      λ k. omega (arith, votes_of_entries k e es, counted k ps, ap (votes_of k) is) in
    record { votes = omega (arith, at_most, most (most_common_from e es).0); most = most }

no_votes : (ps : List Text) (k : Text) → count_votes ps [] ≡ [] → occurrences k ps ≡ 0
unfolding lookup
no_votes ps k is = ground (arith, counted k ps, is)

two_of :
    (j k : Text) (ps : List Text)
    → text_eq j k ≡ false
    → occurrences j ps + occurrences k ps ≤ length ps
unfolding occurrences
two_of j k [] h = omega arith
two_of j k (p ∷ ps) h =
    ground (arith, two_of j k ps h, text_eq_iff j p, text_eq_iff k p, text_eq_iff j k)

length-present : (picks : List (Option Text)) → length (present picks) ≤ length picks
unfolding present
length-present [] = omega arith
length-present (none ∷ picks) = omega (arith, length-present picks)
length-present (some p ∷ picks) = omega (arith, length-present picks)

-- `route` when the gate lets the vote pass.
voted :
    (pregate : Option Bool) (task : Text) (picks : List (Option Text))
    → (pregate ≡ none) ⊎ (pregate ≡ some true)
    → route pregate task picks ≡ route none task picks
unfolding route
voted pregate task picks (inl e) = rw e
voted pregate task picks (inr e) = rw e

-- What `route` returns for the result of the check.
of_winner : Text → Option (Text × ℕ) → List Text
of_winner task none = []
of_winner task (some w) = if is_confident w.1 then w.0 ∷ [] else []

route-skills :
    (task : Text) (picks : List (Option Text))
    → (route none task picks).skills ≡ of_winner task (confidence_check picks)
unfolding route of_winner
route-skills task picks = elim (Option-cases (confidence_check picks)) [
  | inl none_voted ↦ ground arith
  | inr (w, won) ↦ ground arith
]

two_are_confident : (n : ℕ) → (is_confident n ≡ true) ↔ (2 ≤ n)
unfolding select_attempts
two_are_confident n = (λ h. ground arith, λ h. ground arith)

wins_only :
    (task k : Text) (ps : List Text) (w : Text × ℕ)
    → IsWinner ps w
    → of_winner task (some w) ≡ k ∷ []
    → 2 ≤ occurrences k ps
unfolding of_winner
wins_only task k ps w win e = elim (Bool-cases (is_confident w.1)) [
  | inl t ↦
      let same : w.0 ≡ k = ground arith in
      let two : 2 ≤ w.1 = (two_are_confident w.1).0 t in
      subst (λ x. 2 ≤ occurrences x ps) same (omega (arith, win.votes, two))
  | inr f ↦ absurd (ground arith)
]

wins_if :
    (task k : Text) (ps : List Text) (w : Text × ℕ)
    → length ps ≤ 3
    → IsWinner ps w
    → 2 ≤ occurrences k ps
    → of_winner task (some w) ≡ k ∷ []
unfolding of_winner
wins_if task k ps w few win two =
    let confident : is_confident w.1 ≡ true =
      (two_are_confident w.1).1 (omega (arith, two, win.most k)) in
    elim (Bool-cases (text_eq w.0 k)) [
      | inl t ↦ let same : w.0 ≡ k = (text_eq_iff w.0 k).0 t in ground arith
      | inr f ↦ absurd (omega (arith, two_of w.0 k ps f, win.votes, win.most k, two, few))
    ]

wins_iff :
    (task k : Text) (ps : List Text) (w : Text × ℕ)
    → length ps ≤ 3
    → IsWinner ps w
    → (of_winner task (some w) ≡ k ∷ []) ↔ (2 ≤ occurrences k ps)
wins_iff task k ps w few win = (wins_only task k ps w win, wins_if task k ps w few win)

majority_of_entries :
    (task k : Text) (ps : List Text) (es : Dict ℕ)
    → length ps ≤ 3
    → count_votes ps [] ≡ es
    → (of_winner task (elim es [ [] ↦ none | e ∷ rest ↦ some (most_common_from e rest) ]) ≡ k ∷ [])
      ↔ (2 ≤ occurrences k ps)
unfolding of_winner
majority_of_entries task k ps [] few is =
    (λ e. cc, λ two. absurd (omega (arith, two, no_votes ps k is)))
majority_of_entries task k ps (e ∷ es) few is =
    wins_iff task k ps (most_common_from e es) few (most_common_from-IsWinner ps e es is)

check_of :
    (picks : List (Option Text))
    → confidence_check picks ≡ elim (count_votes (present picks) []) [
      | [] ↦ none
      | e ∷ rest ↦ some (most_common_from e rest)
    ]
unfolding confidence_check
check_of picks = refl

-- Of three samples, `route` chooses a skill exactly if at least two of them picked it, unless the gate
-- finds no skill plausible.
pub route_iff_majority :
    (pregate : Option Bool) (task k : Text) (picks : List (Option Text))
    → length picks ≡ 3
    → (pregate ≡ none) ⊎ (pregate ≡ some true)
    → ((route pregate task picks).skills ≡ k ∷ []) ↔ (2 ≤ occurrences k (present picks))
route_iff_majority pregate task k picks three passes =
    rw (voted pregate task picks passes, route-skills task picks, check_of picks)
      (majority_of_entries task k (present picks) (count_votes (present picks) [])
        (omega (arith, length-present picks, three)) refl)

-- A sample picks only a skill of the catalog.
sample_select-has_key :
    (catalog : Dict SkillMeta) (tcs : List ToolCall) (name : Text)
    → sample_select catalog tcs ≡ some name
    → has_key name catalog ≡ true
unfolding sample_select
sample_select-has_key catalog [] name e = cc
sample_select-has_key catalog (tc ∷ tcs) name e =
    ground (arith, sample_select-has_key catalog tcs name)
