-- ===== src/LoopDetection/Repeats.antt =====
-- Slices, sets of signatures, and when the detector halts on a repeat or a cycle.
use labmate.Common.{
  ℕ, zero, suc, ◌+◌, ◌-◌, ◌*◌, ◌≤◌, ◌≡◌, ◌↔◌, refl, true, some, List, [], ◌∷◌, ◌++◌, length, drop,
  Text, text_eq_iff, member, arith, length-append, length-drop, All, ◌∙◌,
}
use mathlib.Core.Path.{subst}
use labmate.LoopDetection.{LoopDetector, last_slice, distinct, is_cycle, is_repeat, should_break}

module _ {ℓ} {A : Type ℓ} where
  pub drop-append : (k : ℕ) (xs ys : List A) → k ≤ length xs → drop k (xs ++ ys) ≡ drop k xs ++ ys
  drop-append zero xs ys h = refl
  drop-append (suc k) [] ys h = absurd (omega arith)
  drop-append (suc k) (x ∷ xs) ys h = drop-append k xs ys (omega arith)

  pub drop-append_long :
      (k j : ℕ) (xs ys : List A) → k ≡ length xs + j → drop k (xs ++ ys) ≡ drop j ys
  drop-append_long k j [] ys h = let e : k ≡ j = omega arith in rw e
  drop-append_long zero j (x ∷ xs) ys h = absurd (omega arith)
  drop-append_long (suc k) j (x ∷ xs) ys h = drop-append_long k j xs ys (omega arith)

  -- The last `n` elements lie in the second part, if that is long enough.
  pub last_slice-append :
      (n : ℕ) (xs ys : List A) → 1 ≤ n → n ≤ length ys → last_slice n (xs ++ ys) ≡ last_slice n ys
  unfolding last_slice
  last_slice-append n xs ys p h =
      let same : drop (length (xs ++ ys) - n) (xs ++ ys) ≡ drop (length ys - n) ys =
        drop-append_long _ _ xs ys (omega (arith, length-append xs ys)) in
      ground (arith, same)

  pub length-last_slice : (n : ℕ) (xs : List A) → length (last_slice n xs) ≤ length xs
  unfolding last_slice
  length-last_slice n xs = ground (arith, length-drop (length xs - n) xs)

pub member-distinct : (a : Text) (xs : List Text) → member a (distinct xs) ≡ member a xs
unfolding member distinct
member-distinct a [] = refl
member-distinct a (x ∷ xs) =
    ground (arith, member-distinct a xs, member-distinct x xs, text_eq_iff a x)

pub All-eq-member : (s a : Text) (xs : List Text) → All (λ t. t ≡ s) xs → member a xs ≡ true → a ≡ s
unfolding member
All-eq-member s a [] h m = cc
All-eq-member s a (x ∷ xs) h m = ground (arith, All-eq-member s a xs h.1, text_eq_iff a x)

pub All-eq_of_member :
    (s : Text) (xs : List Text) → ((a : Text) → member a xs ≡ true → a ≡ s) → All (λ t. t ≡ s) xs
unfolding member
All-eq_of_member s [] h = tt
All-eq_of_member s (x ∷ xs) h =
    (h x (ground (arith, text_eq_iff x x)), All-eq_of_member s xs (λ a m. h a (ground arith)))

pub distinct-All_eq : (s : Text) (xs : List Text) → All (λ t. t ≡ s) xs → distinct (s ∷ xs) ≡ s ∷ []
unfolding distinct member
distinct-All_eq s [] h = refl
distinct-All_eq s (x ∷ xs) h =
    let ih : distinct (s ∷ xs) ≡ s ∷ [] = distinct-All_eq s xs h.1 in
    rw h.0 (ground (arith, ih, text_eq_iff s s))

pub singleton_of_length : (ys : List Text) → length ys ≡ 1 → (s : Text) × (ys ≡ s ∷ [])
singleton_of_length [] h = absurd (omega arith)
singleton_of_length (y ∷ []) h = (y, refl)
singleton_of_length (y ∷ z ∷ ys) h = absurd (omega arith)

-- A set of one element: every member is that one.
pub member_of_singleton :
    (a : Text) (xs : List Text)
    → (one : length (distinct xs) ≡ 1) → member a xs ≡ true
    → a ≡ (singleton_of_length (distinct xs) one).0
unfolding member
member_of_singleton a xs one p =
    let there : member a ((singleton_of_length (distinct xs) one).0 ∷ []) ≡ true =
      subst (λ ys. member a ys ≡ true) (singleton_of_length (distinct xs) one).1
        (member-distinct a xs ∙ p) in
    ground (arith, there, text_eq_iff a (singleton_of_length (distinct xs) one).0)

length_pos : {A : Type 0} (xs : List A) → 1 ≤ length xs → (y : A) × (ys : List A) × (xs ≡ y ∷ ys)
length_pos [] h = absurd (omega arith)
length_pos (y ∷ ys) h = (y, ys, refl)

length-last_slice_exact :
    (n : ℕ) (xs : List Text) → 1 ≤ n → n ≤ length xs → length (last_slice n xs) ≡ n
unfolding last_slice
length-last_slice_exact n xs p h = ground (arith, length-drop (length xs - n) xs)

-- With at least `n` signatures recorded, the repeat test for `n` holds exactly when the last `n`
-- signatures are all one and the same.
pub is_repeat_iff :
    (d : LoopDetector) (n : ℕ)
    → 1 ≤ n
    → n ≤ length d.sigs
    → (is_repeat d n ≡ true) ↔ ((s : Text) × All (λ t. t ≡ s) (last_slice n d.sigs))
unfolding is_repeat
is_repeat_iff d n p h = (there, back)
  where
    there : is_repeat d n ≡ true → (s : Text) × All (λ t. t ≡ s) (last_slice n d.sigs)
    there e =
        let one : length (distinct (last_slice n d.sigs)) ≡ 1 = ground arith in
        (
          (singleton_of_length (distinct (last_slice n d.sigs)) one).0,
          All-eq_of_member _ (last_slice n d.sigs)
              (λ a m. member_of_singleton a (last_slice n d.sigs) one m),
        )

    back : (s : Text) × All (λ t. t ≡ s) (last_slice n d.sigs) → is_repeat d n ≡ true
    back (s, same) =
        let (y, ys, e) =
          length_pos (last_slice n d.sigs) (omega (arith, length-last_slice_exact n d.sigs p h)) in
        let same' : All (λ t. t ≡ s) (y ∷ ys) = rw e at same in
        let ys' : All (λ t. t ≡ y) ys = rw same'.0 same'.1 in rw (e, distinct-All_eq y ys ys') refl

pub cycle_long : (d : LoopDetector) → is_cycle d ≡ true → 2 * d.repeat_limit ≤ length d.sigs
unfolding is_cycle
cycle_long d c = ground (arith, length-last_slice d.cycle_window d.sigs)

-- `should_break` on a cycle: it halts the loop at every threshold up to twice the detector's own limit: the override for
-- mutating tools does not put it off.
pub cycle_halts :
    (d : LoopDetector) (n : ℕ)
    → 1 ≤ n
    → n ≤ 2 * d.repeat_limit
    → is_cycle d ≡ true
    → (should_break d (some n)).1 ≡ true
unfolding should_break
cycle_halts d n p h c = ground (arith, cycle_long d c)
