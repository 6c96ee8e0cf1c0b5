-- ===== src/Guards/Grounding/Ends.antt =====
-- What grounding keeps of a text.
use labmate.Common.{
  ℕ, ap, zero, suc, ◌+◌, ◌-◌, ◌≤◌, ◌<◌, ◌≡◌, refl, [], ◌∷◌, ◌++◌, Text, take, drop, length, arith,
  length-take, length-drop, take-append-drop, sym, ◌∙◌,
}
use labmate.Guards.Grounding.{at_least_one, head_length, tail_length, marker, ground_tool_result}

drop_nil : (n : ℕ) → drop {A = ℕ} n [] ≡ []
drop_nil zero = refl
drop_nil (suc n) = refl

drop-drop : (m n : ℕ) (s : Text) → drop m (drop n s) ≡ drop (n + m) s
drop-drop m zero s = ground arith
drop-drop m (suc n) [] = ground (arith, drop_nil m, drop_nil (suc n + m))
drop-drop m (suc n) (c ∷ s) =
    let e : suc (n + m) ≡ suc n + m = omega arith in drop-drop m n s ∙ ap (λ k. drop k (c ∷ s)) e

-- A text is its first h characters, its last t and what lies between.
three_parts :
    (h t : ℕ) (s : Text)
    → h + t ≤ length s
    → s ≡ take h s ++ (take (length s - h - t) (drop h s) ++ drop (length s - t) s)
three_parts h t s fits =
    let k = length s - h - t in
    let e : h + k ≡ length s - t = ground arith in
    sym (take-append-drop h s)
    ∙ ap (λ r. take h s ++ r)
        (sym (take-append-drop k (drop h s))
          ∙ ap (λ r. take k (drop h s) ++ r) (drop-drop k h s ∙ ap (λ n. drop n s) e))

lengths_of :
    (budget : ℕ)
    → 2 ≤ budget
    → (1 ≤ head_length budget)
      × (1 ≤ tail_length budget)
      × (head_length budget + tail_length budget ≡ budget)
unfolding at_least_one
lengths_of budget h = ground arith

-- Where a text is longer than a budget of at least 2, it splits into a head, a middle and a tail,
-- and the result is the head, a marker that reports the length of the middle, and the tail; head
-- and tail have at least one character each and together exactly the budget's.
pub ground_tool_result_keeps_ends :
    (shown : ℕ → Text) (text : Text) (budget : ℕ)
    → 2 ≤ budget
    → budget < length text
    → (head middle tail : Text) × (text ≡ head ++ (middle ++ tail))
      × (ground_tool_result shown text budget ≡ head ++ (marker shown (length middle) ++ tail))
      × (1 ≤ length head)
      × (1 ≤ length tail)
      × (length head + length tail ≡ budget)
unfolding ground_tool_result
ground_tool_result_keeps_ends shown text budget h long =
    let a = head_length budget in
    let b = tail_length budget in
    let (low, high, sum) = lengths_of budget h in
    let fits : a + b ≤ length text = ground arith in
    (
      take a text,
      take (length text - a - b) (drop a text),
      drop (length text - b) text,
      three_parts a b text fits,
      ground (arith, length-take (length text - a - b) (drop a text), length-drop a text),
      ground (arith, length-take a text),
      ground (arith, length-drop (length text - b) text),
      ground (arith, length-take a text, length-drop (length text - b) text),
    )
