-- ===== src/Memory/Lines/Trim.antt =====
-- What the trimming keeps.
use labmate.Common.{
  ℕ, zero, suc, ◌≤◌, ◌<◌, ◌≡◌, ◌⊎◌, inl, inr, refl, true, not, ◌||◌, List, [], ◌∷◌, Text, is_empty,
  strip, join, leb, ltb, filter, drop, length, arith, Bool-cases, ap, ◌∙◌,
}
use labmate.Memory.Lines.{splitlines, evict, newline, trim_to_budget, core_cap, trim_core_memory}

-- What is left of `lines` after the eviction of the first `n`: it fits or is empty, and no more of
-- the lines would fit.
pub record IsLongestSuffix (size : List Text → ℕ) (budget : ℕ) (lines : List Text) (n : ℕ)
    : Type 0 where
  pub in_range : n ≤ length lines
  pub fits : (n ≡ length lines) ⊎ (size (drop n lines) ≤ budget)
  pub no_more : (m : ℕ) → m < n → budget < size (drop m lines)

too_many :
    (size : List Text → ℕ) (budget : ℕ) (l : Text) (ls : List Text) (n : ℕ)
    → ((m : ℕ) → m < n → budget < size (drop m ls))
    → budget < size (l ∷ ls)
    → (m : ℕ) → m < suc n
    → budget < size (drop m (l ∷ ls))
too_many size budget l ls n h over zero k = over
too_many size budget l ls n h over (suc m) k = h m (omega arith)

evict-drop :
    (size : List Text → ℕ) (budget : ℕ) (lines : List Text)
    → (n : ℕ) × (evict size budget lines ≡ drop n lines) × IsLongestSuffix size budget lines n
unfolding evict
evict-drop size budget [] = (
  0,
  refl,
  record { in_range = omega arith; fits = inl refl; no_more = λ m h. absurd (omega arith) },
)
evict-drop size budget (l ∷ ls) = elim (Bool-cases (ltb budget (size (l ∷ ls)))) [
  | inl over ↦
      let (n, is, longest) = evict-drop size budget ls in
      (
        suc n,
        ground arith,
        record {
          in_range = omega (arith, longest.in_range);
          fits = ground (arith, longest.fits);
          no_more = λ m h. too_many size budget l ls n longest.no_more (ground arith) m h;
        },
      )
  | inr under ↦ (
    0,
    ground arith,
    record {
      in_range = omega arith;
      fits = inr (ground arith);
      no_more = λ m h. absurd (omega arith);
    },
  )
]

evict_fits :
    (size : List Text → ℕ) (budget : ℕ) (lines : List Text)
    → size [] ≤ budget
    → size (evict size budget lines) ≤ budget
unfolding evict
evict_fits size budget [] h = h
evict_fits size budget (l ∷ ls) h = ground (arith, evict_fits size budget ls h)

untrimmed_fits :
    (token_count : Text → ℕ) (text : Text) (budget : ℕ)
    → token_count [] ≡ 0
    → (is_empty text || leb (token_count text) budget) ≡ true
    → token_count text ≤ budget
untrimmed_fits token_count [] budget nothing h = omega (arith, nothing)
untrimmed_fits token_count (c ∷ cs) budget nothing h = ground arith

-- Where the empty text has no tokens, a trimmed text fits the budget; and it is the whole text, or
-- the longest run of its last lines that fits, lines without characters left out.
pub trim_to_budget_fits :
    (token_count : Text → ℕ) (text : Text) (budget : ℕ)
    → token_count [] ≡ 0
    → (token_count (trim_to_budget token_count text budget) ≤ budget)
      × ((trim_to_budget token_count text budget ≡ text)
          ⊎ ((n : ℕ) × (trim_to_budget token_count text budget
                ≡ join newline (drop n (filter (λ line. not (is_empty line)) (splitlines text))))
              × IsLongestSuffix
                  (λ ls. token_count (join newline ls))
                  budget
                  (filter (λ line. not (is_empty line)) (splitlines text))
                  n))
unfolding trim_to_budget
trim_to_budget_fits token_count text budget nothing =
    let lines = filter (λ (line : Text). not (is_empty line)) (splitlines text) in
    let size : List Text → ℕ = λ ls. token_count (join newline ls) in
    let (n, is, longest) = evict-drop size budget lines in
    elim (Bool-cases (is_empty text || leb (token_count text) budget)) [
      | inl whole ↦
          let is_text : trim_to_budget token_count text budget ≡ text = ground arith in
          let fits : token_count text ≤ budget =
            untrimmed_fits token_count text budget nothing whole in
          (ground (arith, is_text, fits), inl is_text)
      | inr over ↦
          let is_cut : trim_to_budget token_count text budget
              ≡ join newline (evict size budget lines) =
            ground arith in
          let fits : size (evict size budget lines) ≤ budget =
            evict_fits size budget lines (unfold join in omega (arith, nothing)) in
          (ground (arith, is_cut, fits), inr (n, is_cut ∙ ap (join newline) is, longest))
    ]

-- Core memory keeps its first line that is not blank, the goal, and of the other lines the longest
-- run of last ones that fits with it; it fits the cap, or only the goal is left.
trim_core_memory_keeps_goal :
    (token_count : Text → ℕ) (text goal fact : Text) (facts : List Text)
    → filter (λ line. not (is_empty (strip line))) (splitlines text) ≡ goal ∷ fact ∷ facts
    → (n : ℕ) × (trim_core_memory token_count text ≡ join newline (goal ∷ drop n (fact ∷ facts)))
      × IsLongestSuffix (λ ls. token_count (join newline (goal ∷ ls))) core_cap (fact ∷ facts) n
unfolding trim_core_memory
trim_core_memory_keeps_goal token_count text goal fact facts e =
    let (n, is, longest) =
      evict-drop (λ ls. token_count (join newline (goal ∷ ls))) core_cap (fact ∷ facts) in
    (n, ground arith, longest)
