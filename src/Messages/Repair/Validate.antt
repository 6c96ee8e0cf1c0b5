-- ===== src/Messages/Repair/Validate.antt =====
-- `validate_messages`: the problems of a message list, in the order in which they are reported.
use labmate.Common.{
  ℕ, ◌+◌, Bool, false, ◌&&◌, Option, none, some, List, [], ◌∷◌, ◌++◌, if◌then◌else◌, Text, member,
  is_empty, map, text_lt,
}
use labmate.Messages.{Role, user, assistant, tool, Message, is_assistant, is_user}
use labmate.Messages.Repair.{declare_ids, is_declared, is_mergeable_assistant}

-- The reports; the texts that the source formats are these constructors.
pub data Problem : Type 0 where
  adjacent_assistant : ℕ → Problem
  orphaned : Option Text → ℕ → Problem
  adjacent_user : ℕ → Problem
  dangling : Text → Problem

-- Into a sorted list, if it is not there.
unfoldable pub insert_sorted : Text → List Text → List Text
insert_sorted s [] = s ∷ []
insert_sorted s (t ∷ ts) =
    let rest = insert_sorted s ts in
    if text_lt s t then s ∷ t ∷ ts else if text_lt t s then t ∷ rest else t ∷ ts

-- `sorted(declared_so_far - answered)`
unfoldable pub sorted_difference : List Text → List Text → List Text
unfolding insert_sorted text_lt
sorted_difference [] answered = []
sorted_difference (tid ∷ ids) answered =
    let rest = sorted_difference ids answered in
    if member tid answered then rest else insert_sorted tid rest

-- What the loop carries from message to message.
pub record Scan : Type 0 where
  pub declared : List Text
  pub answered : List Text
  pub prev : Option Message

-- `answered.add(tid)`
unfoldable pub add_answer : Option Text → List Text → List Text
add_answer none ids = ids
add_answer (some tid) ids = tid ∷ ids

-- The assistant branch's test: `prev_role` is assistant, `m` is plain text, and the message before
-- has no tool calls.
unfoldable pub is_second_plain : Option Message → Message → Bool
unfolding is_mergeable_assistant
is_second_plain none m = false
is_second_plain (some p) m =
    is_assistant p.role && (is_mergeable_assistant m && is_empty p.tool_calls)

unfoldable pub is_after_user : Option Message → Bool
is_after_user none = false
is_after_user (some p) = is_user p.role

-- One round of the loop: the reports and the new state.
unfoldable pub scan_message : Role → Scan → ℕ → Message → List Problem × Scan
unfolding is_second_plain is_after_user add_answer
scan_message assistant s idx m = (
  if is_second_plain s.prev m then adjacent_assistant idx ∷ [] else [],
  record s { declared = declare_ids m.tool_calls s.declared; prev = some m },
)
scan_message tool s idx m =
    if is_declared m.tool_call_id s.declared
    then ([], record s { answered = add_answer m.tool_call_id s.answered; prev = some m })
    else (orphaned m.tool_call_id idx ∷ [], record s { prev = some m })
scan_message user s idx m =
    (if is_after_user s.prev then adjacent_user idx ∷ [] else [], record s { prev = some m })
scan_message _ s idx m = ([], record s { prev = some m })

unfoldable pub scan : Scan → ℕ → List Message → List Problem
scan s idx [] = map dangling (sorted_difference s.declared s.answered)
scan s idx (m ∷ ms) = let (found, s') = scan_message m.role s idx m in found ++ scan s' (idx + 1) ms

unfoldable pub validate_messages : List Message → List Problem
validate_messages ms = scan (record { declared = []; answered = []; prev = none }) 0 ms
