-- ===== src/Memory/Compact/Rollback.antt =====
-- What a compaction that fails leaves, and when none fails.
use labmate.Common.{
  ℕ, ◌<◌, ◌≡◌, ◌≢◌, ◌⊎◌, inl, inr, refl, true, false, Option, some, List, [], ◌∷◌, Text, is_empty,
  length, arith, Option-cases, Bool-cases,
}
use labmate.Memory.Compact.{
  ChatTurn, SessionMemory, Write, stored, refused, stored_then_raised, Writes, Compaction, skipped,
  compacted, failed, keep_recent, to_compact, blocks, write_anchor, undo_summary, write_watermark,
  write_summary, merge_and_write, full_compact, parallel_summarize, merge_old, merge_blocks,
  summaries, max_seq, block_prompt,
}

-- The failures that the rollback can undo: the watermark is not written by a call that raises, and
-- the old summary can be set back.
pub record CanUndo (w : Writes) : Type 0 where
  pub watermark_is_sure : w.watermark_write ≢ stored_then_raised
  pub summary_returns : w.summary_undo ≢ refused
  pub watermark_returns : w.watermark_undo ≢ refused

abbrev pub all_stored : Writes
all_stored = record {
  anchor_write = stored;
  summary_write = stored;
  summary_undo = stored;
  watermark_write = stored;
  watermark_undo = stored;
}

-- `m'` has the watermark and the summary of `m`, and its anchor, or `new` where there was none.
pub record IsRolledBack (new : Option Text) (m m' : SessionMemory) : Type 0 where
  pub same_watermark : m'.watermark ≡ m.watermark
  pub same_summary : m'.summary ≡ m.summary
  pub anchor_stays : (m'.anchor ≡ m.anchor) ⊎ ((m.anchor ≡ []) × (new ≡ some m'.anchor))

is_empty-nil : (t : Text) → is_empty t ≡ true → t ≡ []
is_empty-nil [] h = refl
is_empty-nil (c ∷ t) h = cc

write_anchor-IsRolledBack :
    (w : Write) (new : Text) (m m' : SessionMemory)
    → (write_anchor w new m ≡ compacted m') ⊎ (write_anchor w new m ≡ failed m')
    → IsRolledBack (some new) m m'
unfolding write_anchor
write_anchor-IsRolledBack w new m m' e = record {
  same_watermark = ground arith;
  same_summary = ground arith;
  anchor_stays = elim (Bool-cases (is_empty m.anchor)) [
    | inl no_anchor ↦ ground (arith, is_empty-nil m.anchor no_anchor)
    | inr there ↦ inl (ground arith)
  ];
}

write_summary-undone :
    (w : Writes) (final : Text) (seq : ℕ) (m m' : SessionMemory)
    → CanUndo w
    → write_summary w final seq m ≡ failed m'
    → m' ≡ m
unfolding write_summary write_watermark undo_summary
write_summary-undone w final seq m m' can e =
    ground (arith, can.watermark_is_sure, can.summary_returns, can.watermark_returns)

module _ (upper : Text → Text) (shown : ℕ → Text) (llm : Text → Option Text) where
  merge_and_write-undone :
      (w : Writes) (anchor new : Text) (seq : ℕ) (c : Compaction) (m' : SessionMemory)
      → CanUndo w
      → merge_and_write upper shown llm w anchor new seq c ≡ failed m'
      → (c ≡ compacted m') ⊎ (c ≡ failed m')
  unfolding merge_and_write
  merge_and_write-undone w anchor new seq skipped m' can e = cc
  merge_and_write-undone w anchor new seq (failed m) m' can e = inr e
  merge_and_write-undone w anchor new seq (compacted m) m' can e =
      grind (arith, λ (final : Text). write_summary-undone w final seq m m' can)

  -- A compaction that fails, by an exception of the model or of a write, leaves the watermark and the
  -- summary as they were, and an anchor that was there. Where there was none, the anchor may be the
  -- summary of the turns that were to be compacted. This holds of failures that the rollback can undo.
  pub failed_compact_rolls_back :
      (w : Writes) (turns : List ChatTurn) (m m' : SessionMemory)
      → CanUndo w
      → full_compact upper shown llm w turns m ≡ failed m'
      → IsRolledBack (parallel_summarize upper shown llm m.anchor (to_compact m turns)) m m'
  unfolding full_compact
  failed_compact_rolls_back w turns m m' can e =
      let old = to_compact m turns in
      elim (Option-cases (parallel_summarize upper shown llm m.anchor old)) [
        | inl silent ↦
            let same : m ≡ m' = ground arith in
            record {
              same_watermark = ground arith;
              same_summary = ground arith;
              anchor_stays = inl (ground arith);
            }
        | inr (new, answered) ↦
            let anchored = write_anchor w.anchor_write new m in
            rw answered (
              write_anchor-IsRolledBack w.anchor_write new m m' (
                ground
                  (arith, merge_and_write-undone w m.anchor new (max_seq old) anchored m' can)))
      ]

  summaries_answered :
      (anchor : Text) (bs : List (List ChatTurn))
      → ((p : Text) → (r : Text) × (llm p ≡ some r))
      → (ss : List Text) × (summaries upper shown llm anchor bs ≡ some ss)
  unfolding summaries
  summaries_answered anchor [] h = ([], refl)
  summaries_answered anchor (b ∷ bs) h =
      let (s, is) = h (block_prompt upper shown llm anchor b) in
      let (ss, are) = summaries_answered anchor bs h in (s ∷ ss, ground arith)

  merge_blocks_answered :
      (anchor : Text) (ss : List Text)
      → ((p : Text) → (r : Text) × (llm p ≡ some r))
      → (r : Text) × (merge_blocks upper shown llm anchor ss ≡ some r)
  unfolding merge_blocks
  merge_blocks_answered anchor [] h = h _
  merge_blocks_answered anchor (s ∷ []) h = (s, refl)
  merge_blocks_answered anchor (s ∷ (s' ∷ ss)) h = h _

  merge_old_answered :
      (anchor old new : Text)
      → ((p : Text) → (r : Text) × (llm p ≡ some r))
      → (r : Text) × (merge_old upper shown llm anchor old new ≡ some r)
  unfolding merge_old
  merge_old_answered anchor [] new h = (new, refl)
  merge_old_answered anchor (c ∷ cs) new h = h _

  all_written :
      (anchor new final : Text) (seq : ℕ) (m : SessionMemory)
      → merge_old upper shown llm anchor m.summary new ≡ some final
      → (m' : SessionMemory) × (merge_and_write upper shown llm all_stored anchor new seq
            (write_anchor stored new m)
          ≡ compacted m')
  unfolding merge_and_write write_anchor write_summary write_watermark
  all_written anchor new final seq m e = elim (Bool-cases (is_empty m.anchor)) [
    | inl fresh ↦ (record m { anchor = new; summary = final; watermark = some seq }, ground arith)
    | inr there ↦ (record m { summary = final; watermark = some seq }, ground arith)
  ]

  -- Where the model answers and no write raises, a session with more turns than are kept and with
  -- one to compact is compacted.
  pub compact_succeeds :
      (turns : List ChatTurn) (m : SessionMemory)
      → ((p : Text) → (r : Text) × (llm p ≡ some r))
      → keep_recent < length turns
      → is_empty (to_compact m turns) ≡ false
      → (m' : SessionMemory) × (full_compact upper shown llm all_stored turns m ≡ compacted m')
  unfolding full_compact
  compact_succeeds turns m h long some_left =
      let old = to_compact m turns in
      let (ss, are) = summaries_answered m.anchor (blocks old) h in
      let (new, is) = merge_blocks_answered m.anchor ss h in
      let (final, merged) = merge_old_answered m.anchor m.summary new h in
      let summarized : parallel_summarize upper shown llm m.anchor old ≡ some new =
        unfold parallel_summarize in ground arith in
      let (m', done) = all_written m.anchor new final (max_seq old) m merged in
      (m', ground (arith, summarized, done))
