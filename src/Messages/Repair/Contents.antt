-- ===== src/Messages/Repair/Contents.antt =====
-- What the repair keeps: the system message at the head, the messages of other roles, the declared
-- tool results, and every text of the user.
use labmate.Common.{
  ◌≡◌, refl, Bool, true, false, ◌||◌, List, [], ◌∷◌, ◌++◌, if◌then◌else◌, arith, Text, codes, ap,
  append_assoc, ◌∙◌,
}
use labmate.Messages.{Role, system, Message, is_user, is_assistant, is_tool}
use labmate.Messages.Repair.{
  is_mergeable_assistant, merged, merges, merge_after, merge_adjacent, drop_orphans, declare_ids,
  sanitize_messages, content_str,
}

abbrev is_system : Role → Bool
is_system system = true
is_system _ = false

merge_after-system :
    (m : Message) (ns : List Message) → m.role ≡ system → merge_after m ns ≡ m ∷ merge_adjacent ns
unfolding merge_after merge_adjacent merges is_mergeable_assistant
merge_after-system m [] h = refl
merge_after-system m (n ∷ ns) h = ground arith

drop_orphans-system :
    (m : Message) (ms : List Message)
    → m.role ≡ system
    → drop_orphans [] (m ∷ ms) ≡ m ∷ drop_orphans [] ms
unfolding drop_orphans
drop_orphans-system m ms h = ground arith

-- A system message at the head stays there unchanged, and the rest is repaired by itself.
sanitize_messages-system :
    (m : Message) (ms : List Message)
    → m.role ≡ system
    → sanitize_messages (m ∷ ms) ≡ m ∷ sanitize_messages ms
unfolding sanitize_messages
sanitize_messages-system m ms h =
    ap merge_adjacent (drop_orphans-system m ms h)
    ∙ (unfold merge_adjacent in merge_after-system m (drop_orphans [] ms) h)

-- The messages of the system role and of roles that the repair does not know.
unfoldable pub bystanders : List Message → List Message
bystanders [] = []
bystanders (m ∷ ms) =
    let rest = bystanders ms in
    if is_user m.role || (is_assistant m.role || is_tool m.role) then rest else m ∷ rest

bystanders-merge_after :
    (prev : Message) (ms : List Message) → bystanders (merge_after prev ms) ≡ bystanders (prev ∷ ms)
unfolding merge_after bystanders merges merged is_mergeable_assistant
bystanders-merge_after prev [] = refl
bystanders-merge_after prev (m ∷ ms) =
    ground (arith, bystanders-merge_after (merged prev m) ms, bystanders-merge_after m ms)

-- The user's words, each message's followed by a line end.
unfoldable pub user_text : List Message → Text
unfolding content_str
user_text [] = []
user_text (m ∷ ms) =
    let rest = user_text ms in
    if is_user m.role then content_str m.content ++ (codes "\n" ++ rest) else rest

user_text-merge_after :
    (prev : Message) (ms : List Message) → user_text (merge_after prev ms) ≡ user_text (prev ∷ ms)
unfolding merge_after user_text merges merged is_mergeable_assistant
user_text-merge_after prev [] = refl
user_text-merge_after prev (m ∷ ms) = ground (
  arith,
  user_text-merge_after (merged prev m) ms,
  user_text-merge_after m ms,
  append_assoc (content_str prev.content) (codes "\n" ++ content_str m.content)
      (codes "\n" ++ user_text ms),
)

bystanders-drop_orphans :
    (ids : List Text) (ms : List Message) → bystanders (drop_orphans ids ms) ≡ bystanders ms
unfolding drop_orphans bystanders
bystanders-drop_orphans ids [] = refl
bystanders-drop_orphans ids (m ∷ ms) = ground (
  arith,
  bystanders-drop_orphans (if is_assistant m.role then declare_ids m.tool_calls ids else ids) ms,
)

user_text-drop_orphans :
    (ids : List Text) (ms : List Message) → user_text (drop_orphans ids ms) ≡ user_text ms
unfolding drop_orphans user_text
user_text-drop_orphans ids [] = refl
user_text-drop_orphans ids (m ∷ ms) = ground (
  arith,
  user_text-drop_orphans (if is_assistant m.role then declare_ids m.tool_calls ids else ids) ms,
)

bystanders-merge_adjacent : (ms : List Message) → bystanders (merge_adjacent ms) ≡ bystanders ms
unfolding merge_adjacent
bystanders-merge_adjacent [] = refl
bystanders-merge_adjacent (m ∷ ms) = bystanders-merge_after m ms

user_text-merge_adjacent : (ms : List Message) → user_text (merge_adjacent ms) ≡ user_text ms
unfolding merge_adjacent
user_text-merge_adjacent [] = refl
user_text-merge_adjacent (m ∷ ms) = user_text-merge_after m ms

-- The repair keeps every message of the system role and of unknown roles, unchanged and in order,
-- and every word of the user, in order, where a line end stands after each message's text.
pub sanitize_messages_keeps :
    (ms : List Message)
    → (bystanders (sanitize_messages ms) ≡ bystanders ms)
      × (user_text (sanitize_messages ms) ≡ user_text ms)
unfolding sanitize_messages
sanitize_messages_keeps ms = (
  bystanders-merge_adjacent (drop_orphans [] ms) ∙ bystanders-drop_orphans [] ms,
  user_text-merge_adjacent (drop_orphans [] ms) ∙ user_text-drop_orphans [] ms,
)
