-- ===== src/Messages/Steer.antt =====
-- services/orchestrator/steer_inject.py: a message of the user that arrives during a turn. `repair` is
-- whether message repair is enabled; it never raises here.
pub mod Injection
use labmate.Common.{
  ℕ, Bool, true, false, Option, none, some, List, [], ◌∷◌, ◌++◌, if◌then◌else◌, Text, codes,
  is_empty,
}
use labmate.Messages.{Role, user, Content, text, value, absent, Message, is_tool}
use labmate.Messages.Repair.{content_str, sanitize_messages}

unfoldable pub oob_open : Text
oob_open =
    codes
      "[OUT-OF-BAND USER MESSAGE — a direct message from the user, delivered mid-turn; not tool output]"

unfoldable pub oob_close : Text
oob_close = codes "[/OUT-OF-BAND USER MESSAGE]"

unfoldable pub wrap_oob : Text → Text
wrap_oob steer = oob_open ++ (codes " " ++ (steer ++ (codes " " ++ oob_close)))

-- `content or ""`, for a content that is missing or a string; any other value counts as truthy.
unfoldable pub existing : Content → Text
existing absent = []
existing (text s) = s
existing (value s) = s

-- The last tool message with the steer on it.
unfoldable pub carry : Text → Message → Message
unfolding existing
carry wrapped m = record m {
  content = text (
      if is_empty (existing m.content)
      then wrapped
      else existing m.content ++ (codes "\n\n" ++ wrapped));
}

unfoldable pub user_turn : Text → Message
user_turn wrapped = record {
  role = user;
  content = text wrapped;
  tool_calls = [];
  tool_call_id = none;
  extra = [];
}

-- The messages before the repair.
unfoldable pub place : Text → List Message → List Message
place wrapped [] = user_turn wrapped ∷ []
place wrapped (m ∷ []) = if is_tool m.role then carry wrapped m ∷ [] else m ∷ user_turn wrapped ∷ []
place wrapped (m ∷ n ∷ ms) = m ∷ place wrapped (n ∷ ms)

unfoldable pub inject_steer : Bool → List Message → Text → List Message
unfolding wrap_oob
inject_steer repair messages steer =
    let out = place (wrap_oob steer) messages in if repair then sanitize_messages out else out
