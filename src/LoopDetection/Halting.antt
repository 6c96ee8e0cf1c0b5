-- ===== src/LoopDetection/Halting.antt =====
-- What the detector always halts: the same call over and over, and two calls in turn.
use labmate.Common.{
  ℕ, zero, suc, ◌+◌, ◌-◌, ◌≤◌, ◌≡◌, refl, true, false, Option, List, [], ◌∷◌, ◌++◌, length, drop,
  take, all, Text, text_eq_iff, member, arith, length-append, All, All-append, append_assoc,
  append-nil, member-append, ap,
}
use labmate.LoopDetection.{
  LoopDetector, last_slice, but_last_slice, distinct, is_cycle, is_repeat, should_break,
  record_signature, threshold,
}
use labmate.LoopDetection.Progress.{fresh_call_passes}
use labmate.LoopDetection.Repeats.{last_slice-append, is_repeat_iff, cycle_halts}

All-drop : (s : Text) (k : ℕ) (xs : List Text) → All (λ t. t ≡ s) xs → All (λ t. t ≡ s) (drop k xs)
All-drop s zero xs h = h
All-drop s (suc k) [] h = h
All-drop s (suc k) (x ∷ xs) h = All-drop s k xs h.1

All-last_slice :
    (s : Text) (n : ℕ) (xs : List Text) → All (λ t. t ≡ s) xs → All (λ t. t ≡ s) (last_slice n xs)
unfolding last_slice
All-last_slice s n xs h = ground (arith, h, All-drop s (length xs - n) xs h)

-- If the signatures recorded last, as many as the threshold less one, are all `s`, then recording
-- `s` once more halts the loop, whatever was recorded before them.
repeated_call_halts :
    (d : LoopDetector) (s : Text) (limit : Option ℕ) (before same : List Text)
    → d.sigs ≡ before ++ same
    → All (λ t. t ≡ s) same
    → 1 ≤ threshold d limit
    → threshold d limit ≤ length same + 1
    → (record_signature d s limit).1 ≡ true
unfolding record_signature should_break
repeated_call_halts d s limit before same e h p q =
    let n : ℕ = threshold d limit in
    let after : LoopDetector = record d { sigs = d.sigs ++ s ∷ [] } in
    let split : after.sigs ≡ before ++ (same ++ s ∷ []) =
      rw e (append_assoc before same (s ∷ [])) in
    let long : length (same ++ s ∷ []) ≡ length same + 1 = length-append same (s ∷ []) in
    let total : length after.sigs ≡ length before + length (same ++ s ∷ []) =
      rw split (length-append before (same ++ s ∷ [])) in
    let tail : last_slice n after.sigs ≡ last_slice n (same ++ s ∷ []) =
      rw split (last_slice-append n before (same ++ s ∷ []) p (omega arith)) in
    let all_same : All (λ t. t ≡ s) (last_slice n after.sigs) =
      rw tail (All-last_slice s n _ (All-append (λ t. t ≡ s) same (s ∷ []) h (refl, tt))) in
    let hit : is_repeat after n ≡ true = (is_repeat_iff after n p (omega arith)).1 (s, all_same) in
    ground (arith, hit, total, long)

alternation : Text → Text → List Text
alternation a b = a ∷ b ∷ a ∷ b ∷ a ∷ b ∷ []

take-append_long :
    (k j : ℕ) (xs ys : List Text) → k ≡ length xs + j → take k (xs ++ ys) ≡ xs ++ take j ys
take-append_long k j [] ys h = let e : k ≡ j = omega arith in rw e
take-append_long zero j (x ∷ xs) ys h = absurd (omega arith)
take-append_long (suc k) j (x ∷ xs) ys h =
    ap (λ r. x ∷ r) (take-append_long k j xs ys (omega arith))

but_last_slice-append :
    (xs ys zs : List Text)
    → 1 ≤ length zs
    → but_last_slice (length zs) (xs ++ (ys ++ zs)) ≡ xs ++ ys
unfolding but_last_slice
but_last_slice-append xs ys zs p =
    let total : length (xs ++ ys ++ zs) ≡ length (xs ++ ys) + length zs =
      length-append (xs ++ ys) zs in
    let cut : take (length (xs ++ ys ++ zs) - length zs) (xs ++ ys ++ zs)
        ≡ (xs ++ ys) ++ take 0 zs =
      take-append_long _ 0 (xs ++ ys) zs (omega arith) in
    rw (← append_assoc xs ys zs) (ground (arith, cut, append-nil (xs ++ ys)))

distinct-alternation : (a b : Text) → length (distinct (alternation a b)) ≤ 2
unfolding alternation distinct member
distinct-alternation a b =
    ground (arith, text_eq_iff a a, text_eq_iff b b, text_eq_iff a b, text_eq_iff b a)

member_in_pair :
    (a b : Text) (before : List Text)
    → all (λ s. member s (before ++ a ∷ b ∷ a ∷ b ∷ [])) (a ∷ b ∷ []) ≡ true
unfolding member
member_in_pair a b before = ground (
  arith,
  member-append a before (a ∷ b ∷ a ∷ b ∷ []),
  member-append b before (a ∷ b ∷ a ∷ b ∷ []),
  text_eq_iff a a,
  text_eq_iff b b,
)

alternation-cycles :
    (d : LoopDetector) (before : List Text) (a b : Text)
    → d.sigs ≡ before ++ alternation a b
    → d.repeat_limit ≡ 2
    → d.cycle_window ≡ 6
    → is_cycle d ≡ true
unfolding alternation is_cycle
alternation-cycles d before a b e r w =
    let window : last_slice 6 (before ++ alternation a b) ≡ last_slice 6 (alternation a b) =
      last_slice-append 6 before (alternation a b) (omega arith) (omega arith) in
    let recent : last_slice 2 (before ++ alternation a b) ≡ last_slice 2 (alternation a b) =
      last_slice-append 2 before (alternation a b) (omega arith) (omega arith) in
    let earlier : but_last_slice 2 (before ++ alternation a b) ≡ before ++ a ∷ b ∷ a ∷ b ∷ [] =
      but_last_slice-append before (a ∷ b ∷ a ∷ b ∷ []) (a ∷ b ∷ []) (omega arith) in
    rw (e, r, w, window, recent, earlier, member_in_pair a b before)
      (ground (arith, distinct-alternation a b))

-- With the default limits (2, and a window of 6), two calls made in turn, three times each, halt
-- the loop at the sixth call at the latest, at every threshold from 1 to 4, whatever came before.
alternation_halts :
    (d : LoopDetector) (a b : Text) (limit : Option ℕ) (before : List Text)
    → d.sigs ≡ before ++ (a ∷ b ∷ a ∷ b ∷ a ∷ [])
    → d.repeat_limit ≡ 2
    → d.cycle_window ≡ 6
    → 1 ≤ threshold d limit
    → threshold d limit ≤ 4
    → (record_signature d b limit).1 ≡ true
unfolding alternation record_signature should_break
alternation_halts d a b limit before e r w p q =
    let after : LoopDetector = record d { sigs = d.sigs ++ b ∷ [] } in
    let split : after.sigs ≡ before ++ alternation a b =
      rw e (append_assoc before (a ∷ b ∷ a ∷ b ∷ a ∷ []) (b ∷ [])) in
    ground (
      arith,
      alternation-cycles after before a b split r w,
      cycle_halts after (threshold d limit) p,
    )

-- With the default limits (2, and a window of 6) and a threshold from 2 to 4: after two calls in turn,
-- A B A B A, whatever came before, the next B halts the loop, and a call that was not made before
-- does not.
pub alternation_halts_and_new_call_passes :
    (d : LoopDetector) (a b new : Text) (limit : Option ℕ) (before : List Text)
    → d.sigs ≡ before ++ (a ∷ b ∷ a ∷ b ∷ a ∷ [])
    → d.repeat_limit ≡ 2
    → d.cycle_window ≡ 6
    → 2 ≤ threshold d limit
    → threshold d limit ≤ 4
    → member new d.sigs ≡ false
    → ((record_signature d b limit).1 ≡ true) × ((record_signature d new limit).1 ≡ false)
alternation_halts_and_new_call_passes d a b new limit before e r w p q fresh = (
  alternation_halts d a b limit before e r w (omega arith) q,
  fresh_call_passes d new limit fresh p (omega arith),
)
