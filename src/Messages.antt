-- ===== src/Messages.antt =====
-- The chat messages that the orchestrator sends to the inference server.
pub mod Repair
pub mod Steer
mod Examples
use labmate.Common.{Bool, List, Option, none, some, Text, is_empty, not, ◌&&◌, true, false}

-- `m.get("role")`; `other` is any other string, or none.
pub data Role : Type 0 where
  system user assistant tool other : Role

-- `m.get("content")`: missing or None, a string, or another value, with what `str` makes of it.
pub data Content : Type 0 where
  absent : Content
  text : Text → Content
  value : Text → Content

-- A message dict. Of a tool call only the id is read; `extra` stands for the keys that are copied
-- along unread.
pub record Message : Type 0 where
  pub role : Role
  pub content : Content
  pub tool_calls : List (Option Text)
  pub tool_call_id : Option Text
  pub extra : List Text

abbrev pub is_user : Role → Bool
is_user user = true
is_user _ = false

abbrev pub is_assistant : Role → Bool
is_assistant assistant = true
is_assistant _ = false

abbrev pub is_tool : Role → Bool
is_tool tool = true
is_tool _ = false
