-- ===== src/Memory/Compact.antt =====
-- The compaction of a session: `_parallel_summarize`, `full_compact` and the turns that stay recent.
-- A key of Redis that is missing reads as the empty text. `turns` are the documents of `chat_turns`
-- in ascending order of `seq`. The extraction of reflections and the event, which change nothing
-- here, are left out.
pub mod Partition
pub mod Rollback
use labmate.Common.{
  ℕ, zero, suc, ◌+◌, ◌-◌, Bool, true, false, not, ◌&&◌, ◌||◌, Option, none, some, List, [], ◌∷◌,
  ◌++◌, if◌then◌else◌, Text, codes, is_empty, length, join, leb, ltb, ◌==◌, filter, max, map, ◌>>=◌,
}
use labmate.Memory.Lines.{newline}

pub record ChatTurn : Type 0 where
  pub seq : ℕ
  pub role : Text
  pub text : Text

-- `summary:`, `anchor:` and `summarized_through:` of the session.
pub record SessionMemory : Type 0 where
  pub summary : Text
  pub anchor : Text
  pub watermark : Option ℕ

-- What becomes of a write to Redis: it raises, before or after the value was stored, or it does not.
pub data Write : Type 0 where
  stored refused stored_then_raised : Write

pub record Writes : Type 0 where
  pub anchor_write : Write
  pub summary_write : Write
  pub summary_undo : Write
  pub watermark_write : Write
  pub watermark_undo : Write

pub data Compaction : Type 0 where
  skipped : Compaction
  compacted : SessionMemory → Compaction
  failed : SessionMemory → Compaction

unfoldable pub keep_recent : ℕ
keep_recent = 15

unfoldable pub block_size : ℕ
block_size = 20

-- `seq > watermark`, where no watermark counts as -1.
unfoldable pub is_after : Option ℕ → ℕ → Bool
is_after none seq = true
is_after (some w) seq = ltb w seq

-- `all_turns[-1]["seq"]`
unfoldable pub last_seq : List ChatTurn → ℕ
last_seq [] = 0
last_seq (t ∷ []) = t.seq
last_seq (t ∷ (u ∷ ts)) = last_seq (u ∷ ts)

-- `max([t["seq"] for t in turns])`
unfoldable pub max_seq : List ChatTurn → ℕ
max_seq [] = 0
max_seq (t ∷ ts) = max t.seq (max_seq ts)

-- After the watermark, and `keep_recent` or more before the last turn.
unfoldable pub is_eligible : Option ℕ → ℕ → ChatTurn → Bool
unfolding keep_recent
is_eligible watermark newest t = is_after watermark t.seq && leb (t.seq + keep_recent) newest

unfoldable pub to_compact : SessionMemory → List ChatTurn → List ChatTurn
to_compact m turns = filter (is_eligible m.watermark (last_seq turns)) turns

-- The blocks of the rest of a list; `block` is the current one, with `room` elements to go.
unfoldable pub blocks_from {ℓ} : {A : Type ℓ} → ℕ → List A → List A → List (List A)
unfolding block_size
blocks_from room block [] = if is_empty block then [] else block ∷ []
blocks_from room block (x ∷ xs) =
    let full = block ++ x ∷ [] in
    let closed = full ∷ blocks_from block_size [] xs in
    let wider = blocks_from (room - 1) full xs in if leb room 1 then closed else wider

unfoldable pub blocks {ℓ} : {A : Type ℓ} → List A → List (List A)
unfolding block_size
blocks xs = blocks_from block_size [] xs

unfoldable pub anchor_section : Text → Text
anchor_section anchor =
    if is_empty anchor
    then []
    else codes "FIXED CONTEXT (always preserve):\n" ++ (anchor ++ codes "\n\n")

unfoldable pub separator : Text
separator = codes "\n\n---\n\n"

-- "Step 6"
unfoldable pub write_anchor : Write → Text → SessionMemory → Compaction
write_anchor w new m = if not (is_empty m.anchor) then compacted m else elim w [
  | stored ↦ compacted (record m { anchor = new })
  | refused ↦ failed m
  | stored_then_raised ↦ failed (record m { anchor = new })
]

-- The summary is set back, unless Redis refuses.
unfoldable pub undo_summary : Write → Text → SessionMemory → Compaction
undo_summary refused old m = failed m
undo_summary stored old m = failed (record m { summary = old })
undo_summary stored_then_raised old m = failed (record m { summary = old })

-- "Step 9"; `old` is the summary to set back.
unfoldable pub write_watermark : Writes → Text → ℕ → SessionMemory → Compaction
write_watermark w old seq m = elim w.watermark_write [
  | stored ↦ compacted (record m { watermark = some seq })
  | refused ↦ undo_summary w.watermark_undo old m
  | stored_then_raised ↦ undo_summary w.watermark_undo old (record m { watermark = some seq })
]

-- "Step 8" and "Step 9"
unfoldable pub write_summary : Writes → Text → ℕ → SessionMemory → Compaction
write_summary w final seq m = elim w.summary_write [
  | stored ↦ write_watermark w m.summary seq (record m { summary = final })
  | refused ↦ undo_summary w.summary_undo m.summary m
  | stored_then_raised ↦ undo_summary w.summary_undo m.summary (record m { summary = final })
]

-- The turns as "ROLE: text" lines; `upper` is Python's `str.upper`.
unfoldable pub history : (Text → Text) → List ChatTurn → Text
history upper turns =
    join newline (map (λ (t : ChatTurn). upper t.role ++ (codes ": " ++ t.text)) turns)

-- `shown` is the decimal of a number, and `llm` the model, `none` where
-- it raises.
module _ (upper : Text → Text) (shown : ℕ → Text) (llm : Text → Option Text) where
  unfoldable pub block_prompt : Text → List ChatTurn → Text
  unfolding anchor_section history
  block_prompt anchor block =
      codes "Summarise the following conversation segment concisely.\n"
      ++ (codes
            "Preserve all decisions, key facts, file paths, error messages, and unresolved tasks.\n"
          ++ (codes "Discard greetings, repetitions, and small-talk.\n"
              ++ (anchor_section anchor
                  ++ (codes "SEGMENT:\n" ++ (history upper block ++ codes "\n\nSUMMARY:")))))

  unfoldable pub merge_prompt : Text → Text → Text
  unfolding anchor_section
  merge_prompt anchor segments =
      codes "Merge the following segment summaries into one coherent summary.\n"
      ++ (codes "Resolve duplicates. Preserve key facts, decisions, file paths, and open tasks.\n"
          ++ (codes "Maintain chronological order.\n"
              ++ (anchor_section anchor
                  ++ (codes "SEGMENTS:\n" ++ (segments ++ codes "\n\nMERGED SUMMARY:")))))

  -- The summaries of all blocks, if the model raises for none.
  unfoldable pub summaries : Text → List (List ChatTurn) → Option (List Text)
  summaries anchor [] = some []
  summaries anchor (block ∷ rest) = do
    s ← llm (block_prompt anchor block)
    ss ← summaries anchor rest
    some (s ∷ ss)

  unfoldable pub segments_from : ℕ → List Text → List Text
  segments_from i [] = []
  segments_from i (s ∷ ss) =
      (codes "Segment " ++ (shown (i + 1) ++ (codes ":\n" ++ s))) ∷ segments_from (i + 1) ss

  unfoldable pub merge_blocks : Text → List Text → Option Text
  unfolding segments_from separator
  merge_blocks anchor [] = llm (merge_prompt anchor [])
  merge_blocks anchor (s ∷ []) = some s
  merge_blocks anchor (s ∷ (s' ∷ ss)) =
      llm (merge_prompt anchor (join separator (segments_from 0 (s ∷ s' ∷ ss))))

  unfoldable pub parallel_summarize : Text → List ChatTurn → Option Text
  parallel_summarize anchor turns = do ss ← summaries anchor (blocks turns); merge_blocks anchor ss

  -- The new summary with the old one, if there is one.
  unfoldable pub merge_old : Text → Text → Text → Option Text
  merge_old anchor old new =
      if is_empty old
      then some new
      else llm (
          merge_prompt anchor
            (codes "Segment 1:\n" ++ (old ++ (codes "\n\n---\n\nSegment 2:\n" ++ new))))

  -- From "Step 7" on; `anchor` is the one that was loaded.
  unfoldable pub merge_and_write : Writes → Text → Text → ℕ → Compaction → Compaction
  merge_and_write w anchor new seq skipped = skipped
  merge_and_write w anchor new seq (failed m) = failed m
  merge_and_write w anchor new seq (compacted m) = elim (merge_old anchor m.summary new) [
    | none ↦ failed m
    | some final ↦ write_summary w final seq m
  ]

  unfoldable pub full_compact : Writes → List ChatTurn → SessionMemory → Compaction
  full_compact w turns m =
      let old = to_compact m turns in
      if leb (length turns) keep_recent || is_empty old
      then skipped
      else elim (parallel_summarize m.anchor old) [
        | none ↦ failed m
        | some new ↦
            merge_and_write w m.anchor new (max_seq old) (write_anchor w.anchor_write new m)
      ]
