-- ===== src/LoopDetection/Progress.antt =====
-- A call that was not made before never halts the loop; a repeated call and an alternation of two
-- calls always do.
use labmate.Common.{
  ℕ, zero, suc, ◌+◌, ◌-◌, ◌≤◌, ◌≡◌, refl, inl, inr, Bool, true, false, Option, List, [], ◌∷◌, ◌++◌,
  length, drop, take, all, leb, Text, text_eq_iff, member, arith, length-append, length-drop,
  Bool-cases, All, ap, leb→le,
}
use labmate.LoopDetection.{
  LoopDetector, last_slice, but_last_slice, is_cycle, is_repeat, should_break, record_signature,
  threshold,
}
use labmate.LoopDetection.Repeats.{drop-append, is_repeat_iff, cycle_long}

member-take : (a : Text) (k : ℕ) (xs : List Text) → member a (take k xs) ≡ true → member a xs ≡ true
unfolding member
member-take a zero xs h = cc
member-take a (suc k) [] h = cc
member-take a (suc k) (x ∷ xs) h = ground (arith, member-take a k xs)

take-append_short : (k : ℕ) (xs ys : List Text) → k ≤ length xs → take k (xs ++ ys) ≡ take k xs
take-append_short zero xs ys h = refl
take-append_short (suc k) [] ys h = absurd (omega arith)
take-append_short (suc k) (x ∷ xs) ys h = ap (λ r. x ∷ r) (take-append_short k xs ys (omega arith))

-- The last two or more of `xs ++ s ∷ []` are some of `xs`, at least one, and then `s`.
last_slice-snoc :
    (n : ℕ) (xs : List Text) (s : Text)
    → 1 ≤ n
    → n ≤ length (xs ++ s ∷ [])
    → last_slice n (xs ++ s ∷ []) ≡ drop (length xs + 1 - n) xs ++ s ∷ []
unfolding last_slice
last_slice-snoc n xs s p h =
    let long : length (xs ++ s ∷ []) ≡ length xs + 1 = length-append xs (s ∷ []) in
    let shorter : drop (length xs + 1 - n) (xs ++ s ∷ []) ≡ drop (length xs + 1 - n) xs ++ s ∷ [] =
      drop-append (length xs + 1 - n) xs (s ∷ []) (omega arith) in
    ground (arith, long, shorter)

All-eq_last :
    (t : Text) (ys : List Text) (s : Text)
    → All (λ r. r ≡ t) (ys ++ s ∷ [])
    → 1 ≤ length ys
    → member s ys ≡ true
unfolding member
All-eq_last t [] s h p = absurd (omega arith)
All-eq_last t (y ∷ []) s h p = ground (arith, text_eq_iff s y)
All-eq_last t (y ∷ z ∷ ys) s h p = ground (arith, All-eq_last t (z ∷ ys) s h.1)

member-drop : (a : Text) (k : ℕ) (xs : List Text) → member a (drop k xs) ≡ true → member a xs ≡ true
unfolding member
member-drop a zero xs h = h
member-drop a (suc k) [] h = cc
member-drop a (suc k) (x ∷ xs) h = ground (arith, member-drop a k xs)

fresh_no_repeat :
    (d : LoopDetector) (xs : List Text) (s : Text) (n : ℕ)
    → d.sigs ≡ xs ++ s ∷ []
    → member s xs ≡ false
    → 2 ≤ n
    → n ≤ length d.sigs
    → is_repeat d n ≡ false
fresh_no_repeat d xs s n e new p h = elim (Bool-cases (is_repeat d n)) [
  | inl hit ↦
      let (t, same) = (is_repeat_iff d n (omega arith) h).0 hit in
      let tail : last_slice n d.sigs ≡ drop (length xs + 1 - n) xs ++ s ∷ [] =
        rw e (last_slice-snoc n xs s (omega arith) (rw e at h)) in
      let long : length d.sigs ≡ length xs + 1 = rw e (length-append xs (s ∷ [])) in
      let old : member s (drop (length xs + 1 - n) xs) ≡ true =
        All-eq_last t (drop (length xs + 1 - n) xs) s (rw tail at same)
          (omega (arith, length-drop (length xs + 1 - n) xs)) in
      ground (arith, member-drop s (length xs + 1 - n) xs old)
  | inr miss ↦ miss
]

all_last :
    (p : Text → Bool) (ys : List Text) (s : Text) → p s ≡ false → all p (ys ++ s ∷ []) ≡ false
all_last p [] s h = ground arith
all_last p (y ∷ ys) s h = ground (arith, all_last p ys s h)

is_cycle-recent :
    (d : LoopDetector)
    → is_cycle d ≡ true
    → all (λ s. member s (but_last_slice d.repeat_limit d.sigs)) (last_slice d.repeat_limit d.sigs)
      ≡ true
unfolding is_cycle
is_cycle-recent d h = ground arith

not_earlier :
    (d : LoopDetector) (xs : List Text) (s : Text)
    → d.sigs ≡ xs ++ s ∷ []
    → member s xs ≡ false
    → 1 ≤ d.repeat_limit
    → member s (but_last_slice d.repeat_limit d.sigs) ≡ false
unfolding but_last_slice
not_earlier d xs s e new p =
    let long : length (xs ++ s ∷ []) ≡ length xs + 1 = length-append xs (s ∷ []) in
    let k : ℕ = length xs + 1 - d.repeat_limit in
    let cut : take k (xs ++ s ∷ []) ≡ take k xs = take-append_short k xs (s ∷ []) (omega arith) in
    rw e (ground (arith, long, cut, member-take s k xs))

fresh_no_cycle :
    (d : LoopDetector) (xs : List Text) (s : Text)
    → d.sigs ≡ xs ++ s ∷ []
    → member s xs ≡ false
    → 1 ≤ d.repeat_limit
    → is_cycle d ≡ false
fresh_no_cycle d xs s e new p = elim (Bool-cases (is_cycle d)) [
  | inl hit ↦ elim (Bool-cases (leb d.repeat_limit (length d.sigs))) [
    | inl enough ↦
        let tail : last_slice d.repeat_limit d.sigs
            ≡ drop (length xs + 1 - d.repeat_limit) xs ++ s ∷ [] =
          rw e (last_slice-snoc d.repeat_limit xs s p (rw e at (leb→le _ _ enough))) in
        let known : all (λ t. member t (but_last_slice d.repeat_limit d.sigs))
              (drop (length xs + 1 - d.repeat_limit) xs ++ s ∷ [])
            ≡ true =
          rw tail at (is_cycle-recent d hit) in
        ground (
          arith,
          known,
          not_earlier d xs s e new p,
          all_last (λ t. member t (but_last_slice d.repeat_limit d.sigs))
              (drop (length xs + 1 - d.repeat_limit) xs) s,
        )
    | inr few ↦ ground (arith, cycle_long d hit)
  ]
  | inr miss ↦ miss
]

-- A signature that was not recorded before never halts the loop, whatever came before it, where the
-- threshold is at least 2 and the detector's own limit at least 1.
pub fresh_call_passes :
    (d : LoopDetector) (s : Text) (limit : Option ℕ)
    → member s d.sigs ≡ false
    → 2 ≤ threshold d limit
    → 1 ≤ d.repeat_limit
    → (record_signature d s limit).1 ≡ false
unfolding record_signature should_break
fresh_call_passes d s limit new p q =
    elim (Bool-cases (leb (threshold d limit) (length (d.sigs ++ s ∷ [])))) [
      | inl enough ↦ ground (
        arith,
        fresh_no_cycle (record d { sigs = d.sigs ++ s ∷ [] }) d.sigs s refl new q,
        fresh_no_repeat (record d { sigs = d.sigs ++ s ∷ [] }) d.sigs s (threshold d limit) refl new
            p (leb→le _ _ enough),
      )
      | inr few ↦ ground arith
    ]
