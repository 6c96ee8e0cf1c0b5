-- ===== src/Memory/Context/Budget.antt =====
-- How the assembled context fits the budget.
use labmate.Common.{
  ℕ, ◌+◌, ◌-◌, ◌≤◌, ◌≡◌, refl, List, [], ◌∷◌, Text, is_empty, min, max, map, arith, if◌then◌else◌,
  join,
}
use labmate.Memory.Lines.{trim_to_budget}
use labmate.Memory.Lines.Trim.{trim_to_budget_fits}
use labmate.Memory.Compact.{ChatTurn, SessionMemory}
use labmate.Memory.Context.{
  blank_line, Slots, Chunk, AssembledContext, anchor_part, recent_text, build_context,
}

-- The tokens of all parts but the recent turns.
abbrev pub tokens_before : (Text → ℕ) → AssembledContext → ℕ
tokens_before token_count ctx =
    token_count ctx.agent_instructions
    + token_count ctx.system_prompt
    + token_count ctx.core_memory
    + token_count ctx.retrieved_context
    + token_count ctx.summary_buffer
    + token_count ctx.anchor_buffer

-- The pinned parts are as they were given, the summary and the recent turns fit their slots, and the
-- recent turns fit what the other parts leave of the budget; where those exceed it, there are none.
pub record FitsBudget (token_count : Text → ℕ) (b : Slots)
    (core system_prompt agent_instructions : Text) (ctx : AssembledContext) : Type 0 where
  pub same_instructions : ctx.agent_instructions ≡ agent_instructions
  pub same_prompt : ctx.system_prompt ≡ system_prompt
  pub same_core : ctx.core_memory ≡ core
  pub summary_fits : token_count ctx.summary_buffer ≤ b.summary_slot
  pub recent_fit : token_count ctx.recent_turns ≤ b.recent_slot
  pub all_fit :
      tokens_before token_count ctx + token_count ctx.recent_turns
      ≤ max b.effective (tokens_before token_count ctx)

module _ (lower upper : Text → Text) (token_count : Text → ℕ) (nothing : token_count [] ≡ 0) where
  recent_text_fits :
      (turns : List ChatTurn) (m : SessionMemory) (budget : ℕ)
      → token_count (recent_text upper token_count turns m budget) ≤ budget
  unfolding recent_text
  recent_text_fits turns m budget = (trim_to_budget_fits token_count _ budget nothing).0

  empty_costs_nothing :
      (part : Text) (left : ℕ)
      → (if is_empty part then left else left - token_count part) ≡ left - token_count part
  empty_costs_nothing [] left = omega (arith, nothing)
  empty_costs_nothing (c ∷ cs) left = refl

  -- Where the empty text has no tokens, an assembled context keeps its pinned parts, its summary and
  -- recent turns fit their slots, and all its parts together have no more tokens than the budget; or
  -- the parts other than the recent turns have more already, and the recent turns none.
  pub build_context_fits :
      (b : Slots) (retrieve : ℕ → List Chunk) (turns : List ChatTurn) (m : SessionMemory)
      (core system_prompt agent_instructions : Text)
      → FitsBudget token_count b core system_prompt agent_instructions (
          build_context lower upper token_count b retrieve turns m core system_prompt
            agent_instructions)
  unfolding build_context
  build_context_fits b retrieve turns m core system_prompt agent_instructions =
      let pinned = token_count agent_instructions + token_count system_prompt + token_count core in
      let left = b.effective - pinned in
      let rag = join blank_line (map Chunk.text (retrieve (min b.rag_slot left))) in
      let left_rag = left - token_count rag in
      let summary_budget = min b.summary_slot left_rag in
      let summary = trim_to_budget token_count m.summary summary_budget in
      let left_summary = left_rag - token_count summary in
      let anchor = anchor_part lower token_count b m.anchor summary left_summary in
      let left_anchor =
        if is_empty anchor then left_summary else left_summary - token_count anchor in
      let recent_budget = min b.recent_slot left_anchor in
      let summarized : token_count summary ≤ summary_budget =
        (trim_to_budget_fits token_count m.summary summary_budget nothing).0 in
      let shown : token_count (recent_text upper token_count turns m recent_budget)
          ≤ recent_budget =
        recent_text_fits turns m recent_budget in
      record {
        same_instructions = refl;
        same_prompt = refl;
        same_core = refl;
        summary_fits = omega (arith, summarized);
        recent_fit = omega (arith, shown);
        all_fit = omega (arith, shown, empty_costs_nothing anchor left_summary);
      }
