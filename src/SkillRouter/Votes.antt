-- ===== src/SkillRouter/Votes.antt =====
-- The winner of a vote has the most votes.
use labmate.Common.{
  ℕ, ◌+◌, ◌≤◌, ◌≡◌, Bool, true, false, List, [], ◌∷◌, if◌then◌else◌, Text, Dict, lookup, insert,
  text_eq, text_eq_iff, ltb, arith, All, All-map, lookup-insert, Bool-cases, inl, inr, sym,
}
use mathlib.Core.Path.{subst}
use labmate.SkillRouter.{votes_of, count_votes, most_common_from}

-- How often the skill was picked.
unfoldable pub occurrences : Text → List Text → ℕ
occurrences k [] = 0
occurrences k (p ∷ ps) = (if text_eq k p then 1 else 0) + occurrences k ps

-- No entry has more votes than `bound` says.
abbrev pub IsBounded : (Text → ℕ) → Dict ℕ → Type 0
IsBounded bound d = All (λ (e : Text × ℕ). e.1 ≤ bound e.0) d

votes_of-insert :
    (p k : Text) (n : ℕ) (d : Dict ℕ)
    → votes_of k (insert p n d) ≡ (if text_eq k p then n else votes_of k d)
votes_of-insert p k n d = ground (arith, lookup-insert p k n d)

pub votes_of-count_votes :
    (k : Text) (ps : List Text) (d : Dict ℕ)
    → votes_of k (count_votes ps d) ≡ votes_of k d + occurrences k ps
unfolding count_votes occurrences
votes_of-count_votes k [] d = omega arith
votes_of-count_votes k (p ∷ ps) d = ground (
  arith,
  votes_of-count_votes k ps (insert p (votes_of p d + 1) d),
  votes_of-insert p k (votes_of p d + 1) d,
  text_eq_iff k p,
)

votes_of-IsBounded :
    (bound : Text → ℕ) (k : Text) (d : Dict ℕ) → IsBounded bound d → votes_of k d ≤ bound k
unfolding lookup
votes_of-IsBounded bound k [] h = omega arith
votes_of-IsBounded bound k ((j, n) ∷ d) h = elim (Bool-cases (text_eq k j)) [
  | inl t ↦
      let same : k ≡ j = (text_eq_iff k j).0 t in
      let le : n ≤ bound k = subst (λ x. n ≤ bound x) (sym same) h.0 in ground (arith, le)
  | inr f ↦ ground (arith, votes_of-IsBounded bound k d h.1)
]

IsBounded-insert :
    (bound : Text → ℕ) (p : Text) (n : ℕ) (d : Dict ℕ)
    → n ≤ bound p
    → IsBounded bound d
    → IsBounded bound (insert p n d)
unfolding insert
IsBounded-insert bound p n [] le h = (le, tt)
IsBounded-insert bound p n ((j, m) ∷ d) le h = elim (Bool-cases (text_eq p j)) [
  | inl t ↦ let same : p ≡ j = (text_eq_iff p j).0 t in rw t (subst (λ x. n ≤ bound x) same le, h.1)
  | inr f ↦ rw f (h.0, IsBounded-insert bound p n d le h.1)
]

pub count_votes-IsBounded :
    (bound : Text → ℕ) (ps : List Text) (d : Dict ℕ)
    → IsBounded bound d
    → IsBounded (λ k. bound k + occurrences k ps) (count_votes ps d)
unfolding count_votes occurrences
count_votes-IsBounded bound [] d h = All-map _ _ d (λ e x. omega (arith, x)) h
count_votes-IsBounded bound (p ∷ ps) d h =
    let more : Text → ℕ = λ k. bound k + (if text_eq k p then 1 else 0) in
    let bounded : IsBounded more (insert p (votes_of p d + 1) d) =
      IsBounded-insert more p (votes_of p d + 1) d
        (ground (arith, votes_of-IsBounded bound p d h, text_eq_iff p p))
        (All-map _ _ d (λ e x. omega (arith, x)) h) in
    All-map _ _ _ (λ e x. omega (arith, x)) (count_votes-IsBounded more ps _ bounded)

if_le :
    (b : Bool) (bound : Text → ℕ) (x y : Text × ℕ)
    → x.1 ≤ bound x.0
    → y.1 ≤ bound y.0
    → (if b then y else x).1 ≤ bound (if b then y else x).0
if_le true bound x y h k = k
if_le false bound x y h k = h

-- The winner is an entry, and no entry and no skill has more votes.
pub most_common-IsBounded :
    (bound : Text → ℕ) (best : Text × ℕ) (d : Dict ℕ)
    → best.1 ≤ bound best.0
    → IsBounded bound d
    → (most_common_from best d).1 ≤ bound (most_common_from best d).0
unfolding most_common_from
most_common-IsBounded bound best [] h k = h
most_common-IsBounded bound best (e ∷ es) h k =
    most_common-IsBounded bound (if ltb best.1 e.1 then e else best) es
      (if_le (ltb best.1 e.1) bound best e h k.0) k.1

pub most_common-le : (best : Text × ℕ) (d : Dict ℕ) → best.1 ≤ (most_common_from best d).1
unfolding most_common_from
most_common-le best [] = omega arith
most_common-le best (e ∷ es) =
    let later = most_common-le (if ltb best.1 e.1 then e else best) es in
    let more : (best.1 ≤ (if ltb best.1 e.1 then e else best).1)
        × (e.1 ≤ (if ltb best.1 e.1 then e else best).1) =
      (ground arith, ground arith) in
    omega (arith, later, more.0)

pub most_common-votes_of :
    (k : Text) (best : Text × ℕ) (d : Dict ℕ) → votes_of k d ≤ (most_common_from best d).1
unfolding most_common_from lookup
most_common-votes_of k best [] = omega arith
most_common-votes_of k best (e ∷ es) =
    let later = most_common-le (if ltb best.1 e.1 then e else best) es in
    let rest = most_common-votes_of k (if ltb best.1 e.1 then e else best) es in
    let more : e.1 ≤ (if ltb best.1 e.1 then e else best).1 = ground arith in
    ground (arith, later, rest, more)
