-- ===== src/Messages/Repair.antt =====
-- services/orchestrator/message_repair.py. A set of ids is a list, newest first.
pub mod Validate
pub mod Sequence
pub mod Orphans
pub mod Stability
pub mod Contents
mod Examples
use labmate.Common.{
  ℕ, ◌+◌, Bool, true, false, not, ◌&&◌, Option, none, some, List, [], ◌∷◌, ◌++◌, if◌then◌else◌,
  Text, codes, member, is_empty,
}
use labmate.Messages.{
  Role, system, user, assistant, tool, other, Content, absent, text, value, Message, is_user,
  is_assistant, is_tool,
}

-- The ids that the calls add to the set.
unfoldable pub declare_ids : List (Option Text) → List Text → List Text
declare_ids [] ids = ids
declare_ids (none ∷ calls) ids = declare_ids calls ids
declare_ids (some tid ∷ calls) ids = declare_ids calls (tid ∷ ids)

-- `_declared_tool_call_ids`, from the set `ids`.
unfoldable pub declared_tool_call_ids : List Message → List Text → List Text
declared_tool_call_ids [] ids = ids
declared_tool_call_ids (m ∷ ms) ids =
    declared_tool_call_ids ms (if is_assistant m.role then declare_ids m.tool_calls ids else ids)

-- `tid in declared_so_far`: None never is.
unfoldable pub is_declared : Option Text → List Text → Bool
is_declared none ids = false
is_declared (some tid) ids = member tid ids

-- The loop of `_drop_orphan_tool_results`, from the set `ids`.
unfoldable pub drop_orphans : List Text → List Message → List Message
drop_orphans ids [] = []
drop_orphans ids (m ∷ ms) =
    let rest =
      drop_orphans (if is_assistant m.role then declare_ids m.tool_calls ids else ids) ms in
    if is_tool m.role && not (is_declared m.tool_call_id ids) then rest else m ∷ rest

unfoldable pub content_str : Content → Text
content_str absent = []
content_str (text s) = s
content_str (value s) = s

unfoldable pub is_mergeable_assistant : Message → Bool
is_mergeable_assistant m = is_assistant m.role && is_empty m.tool_calls

-- The message that the run of `prev` and `m` becomes.
unfoldable pub merged : Message → Message → Message
unfolding content_str
merged prev m = record prev {
  content = text (content_str prev.content ++ (codes "\n" ++ content_str m.content));
}

-- The two tests of the merge loop.
unfoldable pub merges : Message → Message → Bool
unfolding is_mergeable_assistant
merges prev m =
    if is_user m.role && is_user prev.role
    then true
    else is_assistant m.role && (is_mergeable_assistant prev && is_mergeable_assistant m)

-- The loop of `_merge_adjacent_same_role`; `prev` is `out[-1]`.
unfoldable pub merge_after : Message → List Message → List Message
merge_after prev [] = prev ∷ []
merge_after prev (m ∷ ms) =
    let joined = merge_after (merged prev m) ms in
    let apart = merge_after m ms in if merges prev m then joined else prev ∷ apart

unfoldable pub merge_adjacent : List Message → List Message
merge_adjacent [] = []
merge_adjacent (m ∷ ms) = merge_after m ms

unfoldable pub sanitize_messages : List Message → List Message
sanitize_messages ms = merge_adjacent (drop_orphans [] ms)
