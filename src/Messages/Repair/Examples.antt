-- ===== src/Messages/Repair/Examples.antt =====
-- Runs and instances for the message repair.
use labmate.Common.{◌≡◌, refl, none, some, List, [], ◌∷◌, Text, codes, All, member, text_eq}
use labmate.Messages.{Role, system, user, assistant, tool, Message, text}
use labmate.Messages.Repair.{
  sanitize_messages, merge_adjacent, merge_after, merges, merged, drop_orphans, declare_ids,
  is_declared, content_str, is_mergeable_assistant,
}
use labmate.Messages.Repair.Validate.{
  orphaned, adjacent_user, validate_messages, scan, scan_message, sorted_difference,
}
use labmate.Messages.Repair.Stability.{IsDangling, validate-sanitize}
use labmate.Messages.Repair.Contents.{sanitize_messages_keeps, bystanders, user_text}

abbrev plain : Role → Text → Message
plain r s = record { role = r; content = text s; tool_calls = []; tool_call_id = none; extra = [] }

abbrev result_of : Text → Text → Message
result_of tid s = record (plain tool s) { tool_call_id = some tid }

abbrev calling : Text → Message
calling tid = record (plain assistant []) { tool_calls = some tid ∷ [] }

abbrev chat : List Message
chat =
    plain system (codes "s")
    ∷ plain user (codes "a")
    ∷ plain user (codes "b")
    ∷ result_of (codes "7") (codes "early")
    ∷ calling (codes "7")
    ∷ result_of (codes "7") (codes "late")
    ∷ []

sanitize-chat :
    sanitize_messages chat
    ≡ plain system (codes "s")
      ∷ plain user (codes "a\nb")
      ∷ calling (codes "7")
      ∷ result_of (codes "7") (codes "late")
      ∷ []
unfolding sanitize_messages merge_adjacent merge_after merges merged drop_orphans declare_ids
    is_declared content_str is_mergeable_assistant member text_eq
sanitize-chat = refl

validate-chat : validate_messages chat ≡ adjacent_user 2 ∷ orphaned (some (codes "7")) 3 ∷ []
unfolding validate_messages scan scan_message sorted_difference declare_ids is_declared member
    text_eq
validate-chat = refl

validate-sanitize_example : All IsDangling (validate_messages (sanitize_messages chat))
validate-sanitize_example = validate-sanitize chat

sanitize_messages_keeps_example :
    (bystanders (sanitize_messages chat) ≡ bystanders chat)
    × (user_text (sanitize_messages chat) ≡ user_text chat)
sanitize_messages_keeps_example = sanitize_messages_keeps chat
