-- ===== src/Messages/Repair/Sequence.antt =====
-- After the merge pass no two adjacent messages can be merged.
use labmate.Common.{◌≡◌, refl, inl, inr, false, List, [], ◌∷◌, Bool-cases}
use labmate.Messages.{Message}
use labmate.Messages.Repair.{merged, merges, merge_after, merge_adjacent}

-- `m` does not merge with the first message of the list.
abbrev pub IsApart : Message → List Message → Type 0
IsApart m [] = Unit
IsApart m (n ∷ ns) = merges m n ≡ false

abbrev pub IsSeparated : List Message → Type 0
IsSeparated [] = Unit
IsSeparated (m ∷ ms) = IsApart m ms × IsSeparated ms

merges-merged : (n prev m : Message) → merges n prev ≡ false → merges n (merged prev m) ≡ false
unfolding merges merged
merges-merged n prev m h = h

-- The first message of the result merges with what `prev` merges with.
IsApart-merge_after :
    (n prev : Message) (ms : List Message) → merges n prev ≡ false → IsApart n (merge_after prev ms)
unfolding merge_after
IsApart-merge_after n prev [] h = h
IsApart-merge_after n prev (m ∷ ms) h = elim (Bool-cases (merges prev m)) [
  | inl yes_ ↦ rw yes_ (IsApart-merge_after n (merged prev m) ms (merges-merged n prev m h))
  | inr no_ ↦ rw no_ h
]

pub merge_after-IsSeparated :
    (prev : Message) (ms : List Message) → IsSeparated (merge_after prev ms)
unfolding merge_after
merge_after-IsSeparated prev [] = (tt, tt)
merge_after-IsSeparated prev (m ∷ ms) = elim (Bool-cases (merges prev m)) [
  | inl joined ↦ rw joined (merge_after-IsSeparated (merged prev m) ms)
  | inr apart ↦ rw apart (IsApart-merge_after prev m ms apart, merge_after-IsSeparated m ms)
]

pub merge_adjacent-IsSeparated : (ms : List Message) → IsSeparated (merge_adjacent ms)
unfolding merge_adjacent
merge_adjacent-IsSeparated [] = tt
merge_adjacent-IsSeparated (m ∷ ms) = merge_after-IsSeparated m ms

pub merge_after_of_IsSeparated :
    (prev : Message) (ms : List Message) → IsSeparated (prev ∷ ms) → merge_after prev ms ≡ prev ∷ ms
unfolding merge_after
merge_after_of_IsSeparated prev [] h = refl
merge_after_of_IsSeparated prev (m ∷ ms) h = rw (h.0, merge_after_of_IsSeparated m ms h.1)

-- The merge pass leaves a separated list alone.
pub merge_adjacent_of_IsSeparated : (ms : List Message) → IsSeparated ms → merge_adjacent ms ≡ ms
unfolding merge_adjacent
merge_adjacent_of_IsSeparated [] h = refl
merge_adjacent_of_IsSeparated (m ∷ ms) h = merge_after_of_IsSeparated m ms h
