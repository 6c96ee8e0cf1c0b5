-- ===== src/Messages/Steer/Injection.antt =====
-- That a steer on a tool turn leaves the conversation as valid as it was.
use labmate.Common.{
  ℕ, ◌+◌, ◌≡◌, refl, Bool, true, false, List, [], ◌∷◌, ◌++◌, Text, map, Bool-cases, inl, inr, ap,
  ◌∙◌, append_assoc, is_empty, codes, if◌then◌else◌,
}
use labmate.Messages.{Role, system, user, assistant, tool, other, Message, is_tool, Content, text}
use labmate.Messages.Repair.Validate.{
  dangling, Scan, scan_message, scan, validate_messages, sorted_difference,
}
use labmate.Messages.Repair.{is_declared}
use labmate.Messages.Steer.{carry, existing, place, wrap_oob, inject_steer}

-- The last message is a tool message.
unfoldable pub ends_in_tool : List Message → Bool
ends_in_tool [] = false
ends_in_tool (m ∷ []) = is_tool m.role
ends_in_tool (m ∷ n ∷ ms) = ends_in_tool (n ∷ ms)

is_tool-true : (r : Role) → is_tool r ≡ true → r ≡ tool
is_tool-true tool h = refl
is_tool-true system h = cc
is_tool-true user h = cc
is_tool-true assistant h = cc
is_tool-true other h = cc

-- A last tool message counts by its call id alone.
scan-last :
    (s : Scan) (i : ℕ) (m m' : Message)
    → m'.tool_call_id ≡ m.tool_call_id
    → ((scan_message tool s i m').0
        ++ map dangling (
            sorted_difference
              (scan_message tool s i m').1.declared
              (scan_message tool s i m').1.answered))
      ≡ ((scan_message tool s i m).0
          ++ map dangling (
              sorted_difference
                (scan_message tool s i m).1.declared
                (scan_message tool s i m).1.answered))
unfolding scan_message
scan-last s i m m' same = rw same (elim (Bool-cases (is_declared m.tool_call_id s.declared)) [
  | inl known ↦ rw known
  | inr unknown ↦ rw unknown
])

scan-place :
    (w : Text) (s : Scan) (i : ℕ) (ms : List Message)
    → ends_in_tool ms ≡ true
    → scan s i (place w ms) ≡ scan s i ms
unfolding scan place carry ends_in_tool
scan-place w s i [] h = cc
scan-place w s i (m ∷ []) h =
    rw (h, is_tool-true m.role h)
      (scan-last s i (record m { role = tool }) (record (carry w m) { role = tool }) refl)
scan-place w s i (m ∷ n ∷ ms) h =
    ap (λ r. (scan_message m.role s i m).0 ++ r)
      (scan-place w (scan_message m.role s i m).1 (i + 1) (n ∷ ms) h)

-- The text that a message has before a steer, with the empty line that follows it.
abbrev pub text_before : Content → Text
text_before c = if is_empty (existing c) then [] else existing c ++ codes "\n\n"

carry_lem :
    (w : Text) (m : Message) → carry w m ≡ record m { content = text (text_before m.content ++ w) }
unfolding carry
carry_lem w m = elim (Bool-cases (is_empty (existing m.content))) [
  | inl none_there ↦ rw none_there refl
  | inr there ↦ rw there (rw (append_assoc (existing m.content) (codes "\n\n") w) refl)
]

place-append :
    (w : Text) (ms : List Message) (m : Message)
    → is_tool m.role ≡ true
    → place w (ms ++ m ∷ []) ≡ ms ++ carry w m ∷ []
unfolding place
place-append w [] m h = rw h refl
place-append w (x ∷ []) m h = rw h refl
place-append w (x ∷ y ∷ ms) m h = ap (λ r. x ∷ r) (place-append w (y ∷ ms) m h)

ends_in_tool-append :
    (ms : List Message) (m : Message) → ends_in_tool (ms ++ m ∷ []) ≡ is_tool m.role
unfolding ends_in_tool
ends_in_tool-append [] m = refl
ends_in_tool-append (x ∷ []) m = refl
ends_in_tool-append (x ∷ y ∷ ms) m = ends_in_tool-append (y ∷ ms) m

-- Where the last message is a tool message and repair is off, a steer adds no message and changes
-- none but the last, whose text keeps what it said and ends in the marked steer; and the validator
-- finds the same problems after the steer as before it.
pub steer_rides_on_tool :
    (ms : List Message) (m : Message) (steer : Text)
    → is_tool m.role ≡ true
    → (inject_steer false (ms ++ m ∷ []) steer
        ≡ ms ++ record m { content = text (text_before m.content ++ wrap_oob steer) } ∷ [])
      × (validate_messages (inject_steer false (ms ++ m ∷ []) steer)
          ≡ validate_messages (ms ++ m ∷ []))
unfolding validate_messages inject_steer
steer_rides_on_tool ms m steer h = (
  place-append (wrap_oob steer) ms m h ∙ ap (λ n. ms ++ n ∷ []) (carry_lem (wrap_oob steer) m),
  scan-place (wrap_oob steer) _ _ (ms ++ m ∷ []) (ends_in_tool-append ms m ∙ h),
)
