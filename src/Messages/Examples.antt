-- ===== src/Messages/Examples.antt =====
-- Runs and instances for the injected steer.
use labmate.Common.{◌≡◌, refl, false, none, some, [], ◌∷◌, codes, length, ◌++◌}
use labmate.Messages.{tool, assistant, Message, text}
use labmate.Messages.Repair.Validate.{validate_messages}
use labmate.Messages.Steer.{inject_steer, place, wrap_oob}
use labmate.Messages.Steer.Injection.{text_before, steer_rides_on_tool}

abbrev asked : Message
asked = record {
  role = assistant;
  content = text [];
  tool_calls = some (codes "7") ∷ [];
  tool_call_id = none;
  extra = [];
}

abbrev answer : Message
answer = record {
  role = tool;
  content = text (codes "late");
  tool_calls = [];
  tool_call_id = some (codes "7");
  extra = [];
}

steer_adds_no_message : length (inject_steer false (asked ∷ answer ∷ []) (codes "stop")) ≡ 2
unfolding inject_steer place
steer_adds_no_message = refl

steer_rides_on_tool_example :
    (inject_steer false (asked ∷ answer ∷ []) (codes "stop")
      ≡ asked
        ∷ record answer { content = text (text_before answer.content ++ wrap_oob (codes "stop")) }
        ∷ [])
    × (validate_messages (inject_steer false (asked ∷ answer ∷ []) (codes "stop"))
        ≡ validate_messages (asked ∷ answer ∷ []))
steer_rides_on_tool_example = steer_rides_on_tool (asked ∷ []) answer (codes "stop") refl
