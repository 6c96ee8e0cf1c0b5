-- ===== src/Memory/Examples.antt =====
-- Runs and instances for the memory: a token is a character, and the model repeats its prompt.
use labmate.Common.{
  ℕ, zero, suc, ◌+◌, ◌≤◌, ◌≡◌, ◌⊎◌, refl, false, not, ◌&&◌, Option, none, some, List, [], ◌∷◌, Text,
  codes, is_empty, is_space, length, strip, lstrip, rstrip, drop, filter, join, ascii_lower, map,
  ltb, ◌-◌, arith,
}
use labmate.Memory.Lines.{splitlines, lines_from, is_line_end}
use labmate.Memory.Compact.{
  ChatTurn, SessionMemory, Write, stored, refused, Writes, Compaction, compacted, failed,
  to_compact, blocks, keep_recent, last_seq, parallel_summarize, max_seq, is_eligible, is_after,
  full_compact,
}
use labmate.Memory.Compact.Partition.{is_recent, concat, compact_loses_no_turn}
use labmate.Memory.Compact.Rollback.{
  CanUndo, IsRolledBack, all_stored, failed_compact_rolls_back, compact_succeeds,
}
use labmate.Memory.Context.{Slots, Chunk, build_context}
use labmate.Memory.Retrieve.{Scores, Hits, all_docs_from, hybrid_retrieve, shortlist}
use labmate.Memory.Retrieve.Packed.{AreRetrieved, hybrid_retrieve-AreRetrieved}
use labmate.Memory.Context.Budget.{FitsBudget, build_context_fits}

abbrev notes : Text
notes = codes "goal\n\nfact one\r\nfact two"

lines_of_notes : splitlines notes ≡ codes "goal" ∷ [] ∷ codes "fact one" ∷ codes "fact two" ∷ []
unfolding splitlines lines_from is_line_end
lines_of_notes = refl

-- Turns with the numbers from `n` on.
abbrev turns_from : ℕ → ℕ → List ChatTurn
turns_from n zero = []
turns_from n (suc k) =
    record { seq = n; role = codes "user"; text = codes "x" } ∷ turns_from (n + 1) k

abbrev turns : List ChatTurn
turns = turns_from 0 17

abbrev fresh : SessionMemory
fresh = record { summary = []; anchor = []; watermark = none }

abbrev echo : Text → Option Text
echo p = some p

abbrev silent : Text → Option Text
silent p = none

abbrev shown : ℕ → Text
shown n = codes "1"

turn_is_left : is_empty (to_compact fresh turns) ≡ false
unfolding to_compact is_eligible is_after last_seq keep_recent
turn_is_left = refl

compaction_is_done :
    (m' : SessionMemory) × (full_compact ascii_lower shown echo all_stored turns fresh
      ≡ compacted m')
compaction_is_done =
    compact_succeeds ascii_lower shown echo turns fresh (λ p. (p, refl))
      (unfold keep_recent in omega arith) turn_is_left

compact_loses_no_turn_example :
    (seq : ℕ) × (compaction_is_done.0.watermark ≡ some seq)
    × (seq + keep_recent ≤ last_seq turns)
    × (concat (blocks (to_compact fresh turns))
        ≡ filter (λ t. is_recent fresh t && not (is_recent compaction_is_done.0 t)) turns)
compact_loses_no_turn_example =
    compact_loses_no_turn ascii_lower shown echo all_stored turns fresh compaction_is_done.0
      compaction_is_done.1

-- The write of the watermark raises, after the new summary was stored.
abbrev no_watermark : Writes
no_watermark = record all_stored { watermark_write = refused }

no_watermark-CanUndo : CanUndo no_watermark
no_watermark-CanUndo = record {
  watermark_is_sure = λ e. ground (arith, e);
  summary_returns = λ e. ground (arith, e);
  watermark_returns = λ e. ground (arith, e);
}

abbrev held : SessionMemory
held = record { summary = codes "old"; anchor = codes "key"; watermark = none }

abbrev brief : Text → Option Text
brief p = some (codes "new")

summary_is_set_back : full_compact ascii_lower shown brief no_watermark turns held ≡ failed held
unfolding full_compact keep_recent to_compact is_eligible is_after last_seq parallel_summarize
    labmate.Memory.Compact.summaries blocks labmate.Memory.Compact.blocks_from
    labmate.Memory.Compact.merge_blocks labmate.Memory.Compact.merge_and_write
    labmate.Memory.Compact.write_anchor labmate.Memory.Compact.merge_old
    labmate.Memory.Compact.write_summary labmate.Memory.Compact.write_watermark
    labmate.Memory.Compact.undo_summary
summary_is_set_back = refl

failed_compact_rolls_back_example :
    IsRolledBack
      (parallel_summarize ascii_lower shown brief held.anchor (to_compact held turns))
      held
      held
failed_compact_rolls_back_example =
    failed_compact_rolls_back ascii_lower shown brief no_watermark turns held held
      no_watermark-CanUndo summary_is_set_back

abbrev slots : Slots
slots = record {
  effective = 100;
  rag_slot = 30;
  summary_slot = 10;
  anchor_slot = 3;
  recent_slot = 30;
}

abbrev one_chunk : ℕ → List Chunk
one_chunk n = record { id = codes "m1"; text = codes "fact" } ∷ []

build_context_fits_example : FitsBudget length slots notes (codes "be brief") (codes "agent") (
    build_context ascii_lower ascii_lower length slots one_chunk turns fresh notes
      (codes "be brief")
      (codes "agent"))
build_context_fits_example =
    build_context_fits ascii_lower ascii_lower length refl slots one_chunk turns fresh notes
      (codes "be brief") (codes "agent")

-- Scores are natural numbers, and earlier ranks have larger shares.
abbrev scores : Scores ℕ
scores = record {
  zero_score = 0;
  add = λ a b. a + b;
  rank_share = λ rank. 100 - rank;
  above = λ a b. ltb b a;
}

abbrev hits : List (Hits ℕ)
hits =
    record {
      ids = codes "m1" ∷ codes "m2" ∷ [];
      docs = codes "short" ∷ codes "a longer fact" ∷ [];
      bm25 = 1 ∷ 2 ∷ [];
    }
    ∷ []

abbrev by_length : List Text → List ℕ
by_length docs = map length docs

abbrev retrieved : List Chunk
retrieved = hybrid_retrieve scores length by_length 50 8 15 hits

longer_is_first : map Chunk.id retrieved ≡ codes "m2" ∷ []
unfolding hybrid_retrieve shortlist labmate.Common.insert labmate.Common.text_eq
    labmate.Common.lookup
longer_is_first = refl

hybrid_retrieve-AreRetrieved_example : AreRetrieved length 15 8 (all_docs_from hits []) retrieved
hybrid_retrieve-AreRetrieved_example =
    hybrid_retrieve-AreRetrieved scores length by_length 50 8 15 hits (omega arith, tt)
