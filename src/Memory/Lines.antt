-- ===== src/Memory/Lines.antt =====
-- The trimming of texts by whole lines, oldest first. `token_count` is the tokenizer's.
pub mod Trim
use labmate.Common.{
  ℕ, ◌+◌, Bool, true, false, not, ◌&&◌, ◌||◌, List, [], ◌∷◌, ◌++◌, if◌then◌else◌, Text, codes,
  is_empty, is_space, strip, join, leb, ltb, ◌==◌, filter,
}

-- The characters at which Python's `str.splitlines` ends a line.
unfoldable pub is_line_end : ℕ → Bool
is_line_end c =
    (leb 10 c && leb c 13) || ((leb 28 c && leb c 30) || (c == 133 || (c == 8232 || c == 8233)))

-- The lines of the rest of a text; `line` is what was read of the current one, and `after_cr` says
-- whether a carriage return was the last character, with which a line feed makes one line end.
unfoldable pub lines_from : Bool → Text → Text → List Text
unfolding is_line_end
lines_from after_cr line [] = if is_empty line then [] else line ∷ []
lines_from after_cr line (c ∷ cs) =
    let skip = lines_from false line cs in
    let ended = lines_from (c == 13) [] cs in
    let more = lines_from false (line ++ c ∷ []) cs in
    if after_cr && c == 10 then skip else if is_line_end c then line ∷ ended else more

-- `text.splitlines()`
unfoldable pub splitlines : Text → List Text
splitlines text = lines_from false [] text

-- `while lines and size(lines) > budget: lines.pop(0)`
unfoldable pub evict : (List Text → ℕ) → ℕ → List Text → List Text
evict size budget [] = []
evict size budget (l ∷ ls) =
    let rest = evict size budget ls in if ltb budget (size (l ∷ ls)) then rest else l ∷ ls

abbrev pub newline : Text
newline = codes "\n"

-- `_trim_to_budget`
unfoldable pub trim_to_budget : (Text → ℕ) → Text → ℕ → Text
trim_to_budget token_count text budget =
    let lines = filter (λ line. not (is_empty line)) (splitlines text) in
    if is_empty text || leb (token_count text) budget
    then text
    else join newline (evict (λ ls. token_count (join newline ls)) budget lines)

abbrev pub core_cap : ℕ
core_cap = 3000

-- `_trim_core_memory`, from the text that is stored to the one that is stored next.
unfoldable pub trim_core_memory : (Text → ℕ) → Text → Text
trim_core_memory token_count text =
    elim (filter (λ line. not (is_empty (strip line))) (splitlines text)) [
      | [] ↦ text
      | pinned ∷ evictable ↦
          if is_empty evictable
          then text
          else join newline
              (pinned ∷ evict (λ ls. token_count (join newline (pinned ∷ ls))) core_cap evictable)
    ]
