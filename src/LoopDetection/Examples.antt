-- ===== src/LoopDetection/Examples.antt =====
-- Runs and instances for the loop detector.
use labmate.Common.{
  ◌≡◌, refl, true, false, none, some, [], ◌∷◌, Text, codes, member, text_eq, arith,
}
use labmate.LoopDetection.{
  LoopDetector, repeat, new_detector, mutating_tools, is_repeat, should_break, record_signature,
  threshold, repeat_limit_for,
}
use labmate.LoopDetection.Halting.{alternation_halts_and_new_call_passes}

abbrev read : Text
read = codes "read"

abbrev grep : Text
grep = codes "grep"

abbrev mixed : LoopDetector
mixed = record (new_detector 2 6) { sigs = read ∷ grep ∷ read ∷ [] }

abbrev turns : LoopDetector
turns = record (new_detector 2 6) { sigs = read ∷ grep ∷ read ∷ grep ∷ read ∷ [] }

limit-write_file :
    repeat_limit_for (record { repeat_limit = 2; repeat_limit_mutating = 4 }) (codes "write_file")
    ≡ 4
unfolding repeat_limit_for mutating_tools member text_eq
limit-write_file = refl

second_read_halts :
    record_signature (record (new_detector 2 6) { sigs = read ∷ [] }) read none
    ≡ (record (new_detector 2 6) { sigs = read ∷ read ∷ []; reason = repeat }, true)
unfolding record_signature should_break threshold is_repeat new_detector member text_eq
second_read_halts = refl

alternation_halts_and_new_call_passes_example :
    ((record_signature turns grep (some 4)).1 ≡ true)
    × ((record_signature turns (codes "edit") (some 4)).1 ≡ false)
unfolding new_detector threshold member text_eq
alternation_halts_and_new_call_passes_example =
    alternation_halts_and_new_call_passes turns read grep (codes "edit") (some 4) [] refl refl refl
      (omega arith) (omega arith) refl
