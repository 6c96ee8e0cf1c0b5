-- ===== src/Memory/Context.antt =====
-- The context of one step of the agent: `build_context`, `conversation_context` and what they are
-- made of. `slot`s are the budget's, which the source computes from shares in floating point.
-- `retrieve` is `hybrid_retrieve` for the current task.
pub mod Budget
use labmate.Common.{
  ℕ, zero, suc, ◌+◌, ◌-◌, ◌*◌, Bool, true, false, not, ◌&&◌, ◌||◌, Option, none, some, List, [],
  ◌∷◌, ◌++◌, if◌then◌else◌, Text, codes, is_empty, is_space, strip, length, drop, join, member, leb,
  ltb, filter, min, map,
}
use labmate.LoopDetection.{distinct}
use labmate.Memory.Lines.{trim_to_budget}
use labmate.Memory.Compact.{ChatTurn, SessionMemory, is_after, history}

pub record Slots : Type 0 where
  pub effective : ℕ
  pub rag_slot : ℕ
  pub summary_slot : ℕ
  pub anchor_slot : ℕ
  pub recent_slot : ℕ

pub record Chunk : Type 0 where
  pub id : Text
  pub text : Text

pub record AssembledContext : Type 0 where
  pub agent_instructions : Text
  pub system_prompt : Text
  pub core_memory : Text
  pub anchor_buffer : Text
  pub recent_turns : Text
  pub retrieved_context : Text
  pub summary_buffer : Text
  pub total_tokens : ℕ

unfoldable pub blank_line : Text
blank_line = codes "\n\n"

unfoldable pub as_prompt : AssembledContext → Text
unfolding blank_line
as_prompt ctx = join blank_line (
    filter (λ part. not (is_empty part))
      (ctx.agent_instructions ∷ ctx.system_prompt ∷ ctx.core_memory ∷ ctx.anchor_buffer
        ∷ ctx.retrieved_context ∷ ctx.summary_buffer ∷ ctx.recent_turns ∷ []))

-- The words of the rest of a text; `word` is what was read of the current one.
unfoldable pub words_from : Text → Text → List Text
words_from word [] = if is_empty word then [] else word ∷ []
words_from word (c ∷ cs) =
    let ended = words_from [] cs in
    let more = words_from (word ++ c ∷ []) cs in
    if is_space c then (if is_empty word then ended else word ∷ ended) else more

-- `{w for w in text.split() if len(w) > 3}`
unfoldable pub long_words : Text → List Text
unfolding words_from distinct
long_words text = distinct (filter (λ w. ltb 3 (length w)) (words_from [] text))

-- `_anchor_diverges`; `lower` is `str.lower`. The quotient is below 0.60 exactly if five times the
-- common words are fewer than three times the anchor's.
unfoldable pub anchor_diverges : (Text → Text) → Text → Text → Bool
unfolding long_words
anchor_diverges lower anchor summary =
    let anchor_words = long_words (lower (strip anchor)) in
    let summary_words = long_words (lower (strip summary)) in
    let common = filter (λ w. member w summary_words) anchor_words in
    if is_empty (strip anchor)
    then false
    else if is_empty (strip summary)
    then true
    else if is_empty anchor_words
    then false
    else ltb (5 * length common) (3 * length anchor_words)

unfoldable pub key_facts : Text
key_facts = codes "KEY FACTS (anchored, always relevant):\n"

-- `_recent_turns`, where `turns` is in ascending order of `seq`: of the turns after the watermark the
-- last 50, trimmed.
unfoldable pub recent_text : (Text → Text) → (Text → ℕ) → List ChatTurn → SessionMemory → ℕ → Text
recent_text upper token_count turns m budget =
    let found = filter (λ (t : ChatTurn). is_after m.watermark t.seq) turns in
    trim_to_budget token_count (history upper (drop (length found - 50) found)) budget

-- The anchor's part of the context, with the tokens that remain.
unfoldable pub anchor_part : (Text → Text) → (Text → ℕ) → Slots → Text → Text → ℕ → Text
unfolding key_facts
anchor_part lower token_count b anchor summary remaining =
    let body = trim_to_budget token_count anchor (min b.anchor_slot remaining) in
    if anchor_diverges lower anchor summary && not (is_empty body) then key_facts ++ body else []

module _ (lower upper : Text → Text) (token_count : Text → ℕ) where
  unfoldable pub build_context :
      Slots
      → (ℕ → List Chunk)
      → List ChatTurn
      → SessionMemory
      → Text
      → Text
      → Text
      → AssembledContext
  unfolding blank_line
  build_context b retrieve turns m core system_prompt agent_instructions =
      let pinned = token_count agent_instructions + token_count system_prompt + token_count core in
      let left = b.effective - pinned in
      let rag = join blank_line (map Chunk.text (retrieve (min b.rag_slot left))) in
      let left_rag = left - token_count rag in
      let summary = trim_to_budget token_count m.summary (min b.summary_slot left_rag) in
      let left_summary = left_rag - token_count summary in
      let anchor = anchor_part lower token_count b m.anchor summary left_summary in
      let left_anchor =
        if is_empty anchor then left_summary else left_summary - token_count anchor in
      let recent = recent_text upper token_count turns m (min b.recent_slot left_anchor) in
      let ctx : AssembledContext = record {
        agent_instructions = agent_instructions;
        system_prompt = system_prompt;
        core_memory = core;
        anchor_buffer = anchor;
        recent_turns = recent;
        retrieved_context = rag;
        summary_buffer = summary;
        total_tokens = 0;
      } in
      record ctx { total_tokens = token_count (as_prompt ctx) }

  -- `conversation_context`, without its exceptions, which give the empty text; `budget` is the
  -- argument or its default.
  unfoldable pub conversation_context : ℕ → List ChatTurn → SessionMemory → Text → Text
  unfolding key_facts blank_line
  conversation_context budget turns m session_id =
      let anchor =
        if not (is_empty m.anchor) && anchor_diverges lower m.anchor m.summary
        then key_facts ++ m.anchor
        else [] in
      let recent = recent_text upper token_count turns m budget in
      if is_empty session_id
      then []
      else join blank_line (filter (λ part. not (is_empty part)) (m.summary ∷ anchor ∷ recent ∷ []))
