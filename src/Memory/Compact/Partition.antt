-- ===== src/Memory/Compact/Partition.antt =====
-- What a compaction summarizes and what stays recent.
use labmate.Common.{
  ℕ, ◌+◌, ◌-◌, ◌≤◌, ◌≡◌, refl, Bool, true, false, not, ◌&&◌, Option, some, List, [], ◌∷◌, ◌++◌,
  Text, is_empty, filter, arith, ap, ◌∙◌, append_assoc, sym, Bool-cases, inl, inr,
}
use labmate.Memory.Compact.{
  ChatTurn, SessionMemory, Write, Writes, Compaction, skipped, compacted, failed, keep_recent,
  block_size, is_after, last_seq, max_seq, is_eligible, to_compact, blocks_from, blocks,
  undo_summary, write_watermark, write_summary, merge_and_write, full_compact,
}

-- The turns that `_recent_turns` shows.
abbrev pub is_recent : SessionMemory → ChatTurn → Bool
is_recent m t = is_after m.watermark t.seq

-- The elements of the blocks, in order.
abbrev pub concat {ℓ} : {A : Type ℓ} → List (List A) → List A
concat [] = []
concat (b ∷ bs) = b ++ concat bs

blocks_from-concat {ℓ} :
    {A : Type ℓ} (room : ℕ) (block xs : List A) → concat (blocks_from room block xs) ≡ block ++ xs
unfolding blocks_from
blocks_from-concat room [] [] = refl
blocks_from-concat room (b ∷ bs) [] = refl
blocks_from-concat room block (x ∷ xs) = ground (
  arith,
  blocks_from-concat block_size [] xs,
  blocks_from-concat (room - 1) (block ++ x ∷ []) xs,
  append_assoc block (x ∷ []) xs,
)

-- The watermark and the memory after the writes.
module _ (seq : ℕ) where
  abbrev At : Compaction → Type 0
  At (compacted m) = m.watermark ≡ some seq
  At _ = Unit

  undo_summary-fails :
      (w : Write) (old : Text) (m m' : SessionMemory) → (undo_summary w old m ≡ compacted m') → ⊥
  unfolding undo_summary
  undo_summary-fails w old m m' e = ground arith

  write_summary-watermark :
      (w : Writes) (final : Text) (m m' : SessionMemory)
      → write_summary w final seq m ≡ compacted m'
      → m'.watermark ≡ some seq
  unfolding write_summary write_watermark undo_summary
  write_summary-watermark w final m m' e = ground arith

  merge_and_write-watermark :
      (upper : Text → Text) (shown : ℕ → Text) (llm : Text → Option Text) (w : Writes)
      (anchor new : Text) (c : Compaction) (m' : SessionMemory)
      → merge_and_write upper shown llm w anchor new seq c ≡ compacted m'
      → m'.watermark ≡ some seq
  unfolding merge_and_write
  merge_and_write-watermark upper shown llm w anchor new skipped m' e = cc
  merge_and_write-watermark upper shown llm w anchor new (failed m) m' e = cc
  merge_and_write-watermark upper shown llm w anchor new (compacted m) m' e =
      grind (arith, write_summary-watermark w)

max_seq-empty : (turns : List ChatTurn) → is_empty turns ≡ true → max_seq turns ≡ 0
unfolding max_seq
max_seq-empty [] h = refl
max_seq-empty (t ∷ ts) h = cc

-- The greatest `seq` of the turns that are eligible bounds them and is eligible itself.
max_seq-filter :
    (watermark : Option ℕ) (newest : ℕ) (turns : List ChatTurn)
    → is_empty (filter (is_eligible watermark newest) turns) ≡ false
    → (max_seq (filter (is_eligible watermark newest) turns) + keep_recent ≤ newest)
      × (is_after watermark (max_seq (filter (is_eligible watermark newest) turns)) ≡ true)
unfolding is_eligible max_seq is_after
max_seq-filter watermark newest [] h = ground arith
max_seq-filter watermark newest (t ∷ ts) h =
    let rest = filter (is_eligible watermark newest) ts in
    elim (Bool-cases (is_empty rest)) [
      | inl none_left ↦ ground (arith, max_seq-empty rest none_left)
      | inr some_left ↦ ground (arith, max_seq-filter watermark newest ts some_left)
    ]

-- Of the turns, those with a `seq` of at most the bound are the eligible ones.
filter-eligible :
    (watermark : Option ℕ) (newest bound : ℕ) (turns : List ChatTurn)
    → bound + keep_recent ≤ newest
    → max_seq (filter (is_eligible watermark newest) turns) ≤ bound
    → filter (is_eligible watermark newest) turns
      ≡ filter (λ t. is_after watermark t.seq && not (is_after (some bound) t.seq)) turns
unfolding is_eligible max_seq is_after
filter-eligible watermark newest bound [] h k = refl
filter-eligible watermark newest bound (t ∷ ts) h k =
    ground (arith, filter-eligible watermark newest bound ts h)

blocks-concat {ℓ} : {A : Type ℓ} (xs : List A) → concat (blocks xs) ≡ xs
unfolding blocks
blocks-concat xs = blocks_from-concat block_size [] xs

compact-watermark :
    (upper : Text → Text) (shown : ℕ → Text) (llm : Text → Option Text) (w : Writes)
    (turns : List ChatTurn) (m m' : SessionMemory)
    → full_compact upper shown llm w turns m ≡ compacted m'
    → (is_empty (to_compact m turns) ≡ false) × (m'.watermark ≡ some (max_seq (to_compact m turns)))
unfolding full_compact
compact-watermark upper shown llm w turns m m' e =
    grind
      (arith, merge_and_write-watermark (max_seq (to_compact m turns)) upper shown llm w m.anchor)

-- A compaction that succeeds leaves the last turns, fewer than `keep_recent` before the newest,
-- recent; what it splits into blocks and summarizes is exactly what was recent before and is not
-- any more.
pub compact_loses_no_turn :
    (upper : Text → Text) (shown : ℕ → Text) (llm : Text → Option Text) (w : Writes)
    (turns : List ChatTurn) (m m' : SessionMemory)
    → full_compact upper shown llm w turns m ≡ compacted m'
    → (seq : ℕ) × (m'.watermark ≡ some seq)
      × (seq + keep_recent ≤ last_seq turns)
      × (concat (blocks (to_compact m turns))
          ≡ filter (λ t. is_recent m t && not (is_recent m' t)) turns)
unfolding to_compact
compact_loses_no_turn upper shown llm w turns m m' e =
    let seq = max_seq (to_compact m turns) in
    let (some_left, watermark) = compact-watermark upper shown llm w turns m m' e in
    let (early, after) = max_seq-filter m.watermark (last_seq turns) turns some_left in
    (
      seq,
      watermark,
      early,
      blocks-concat (to_compact m turns)
          ∙ filter-eligible m.watermark (last_seq turns) seq turns early (omega arith)
          ∙ ap (λ u. filter (λ t. is_recent m t && not (is_after u t.seq)) turns) (sym watermark),
    )
