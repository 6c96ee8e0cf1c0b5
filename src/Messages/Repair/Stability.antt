-- ===== src/Messages/Repair/Stability.antt =====
-- What `validate_messages` says of repaired messages, and what the repair leaves alone.
use labmate.Common.{
  ℕ, ◌+◌, ◌≡◌, ◌↔◌, refl, false, not, ◌&&◌, Option, none, some, List, [], ◌∷◌, arith, Text, All,
  All-append_left, All-append_right, map,
}
use labmate.Messages.{Message, is_tool}
use labmate.Messages.Repair.{
  is_mergeable_assistant, merges, drop_orphans, is_declared, sanitize_messages,
}
use labmate.Messages.Repair.Validate.{
  Problem, dangling, Scan, scan_message, scan, validate_messages,
}
use labmate.Messages.Repair.Sequence.{
  IsSeparated, merge_adjacent-IsSeparated, merge_adjacent_of_IsSeparated,
}
use labmate.Messages.Repair.Orphans.{
  ids_after, IsAnswering, sanitize_messages-IsAnswering, drop_orphans_of_IsAnswering,
}

-- A call that no tool message answered: the one report that the repair does not remove.
abbrev pub IsDangling : Problem → Type 0
IsDangling (dangling tid) = Unit
IsDangling _ = ⊥

abbrev AfterPrev : Option Message → List Message → Type 0
AfterPrev _ [] = Unit
AfterPrev none (m ∷ ms) = Unit
AfterPrev (some p) (m ∷ ms) = merges p m ≡ false

All-dangling : (ids : List Text) → All IsDangling (map dangling ids)
All-dangling [] = tt
All-dangling (tid ∷ ids) = (tt, All-dangling ids)

-- One round on a message that is in order: nothing is reported.
scan_message-clean :
    (s : Scan) (idx : ℕ) (m : Message) (ms : List Message)
    → AfterPrev s.prev (m ∷ ms)
    → (is_tool m.role && not (is_declared m.tool_call_id s.declared)) ≡ false
    → (scan_message m.role s idx m).0 ≡ []
unfolding scan_message merges is_mergeable_assistant
scan_message-clean s idx m ms a h = ground arith

scan_message-next :
    (s : Scan) (idx : ℕ) (m : Message)
    → ((scan_message m.role s idx m).1.declared ≡ ids_after m s.declared)
      × ((scan_message m.role s idx m).1.prev ≡ some m)
unfolding scan_message
scan_message-next s idx m = (ground arith, ground arith)

dirty-apart :
    (o : Option Message) (s : Scan) (idx : ℕ) (m : Message) (ms : List Message)
    → s.prev ≡ o
    → All IsDangling (scan_message m.role s idx m).0
    → AfterPrev o (m ∷ ms)
unfolding scan_message merges is_mergeable_assistant
dirty-apart none s idx m ms e h = tt
dirty-apart (some p) s idx m ms e h = ground arith

-- And the other way round: where nothing but dangling is reported, the message is in order.
scan_message-dirty :
    (s : Scan) (idx : ℕ) (m : Message) (ms : List Message)
    → All IsDangling (scan_message m.role s idx m).0
    → AfterPrev s.prev (m ∷ ms)
      × ((is_tool m.role && not (is_declared m.tool_call_id s.declared)) ≡ false)
unfolding scan_message merges is_mergeable_assistant
scan_message-dirty s idx m ms h = (dirty-apart s.prev s idx m ms refl h, ground arith)

scan-clean :
    (s : Scan) (idx : ℕ) (ms : List Message)
    → AfterPrev s.prev ms
    → IsSeparated ms
    → IsAnswering s.declared ms
    → All IsDangling (scan s idx ms)
unfolding scan
scan-clean s idx [] a p q = All-dangling _
scan-clean s idx (m ∷ ms) a p q =
    let next = scan_message-next s idx m in
    rw (scan_message-clean s idx m ms a q.0)
      (scan-clean (scan_message m.role s idx m).1 (idx + 1) ms (rw next.1 p.0) p.1 (rw next.0 q.1))

scan-dirty :
    (s : Scan) (idx : ℕ) (ms : List Message)
    → All IsDangling (scan s idx ms)
    → AfterPrev s.prev ms × IsSeparated ms × IsAnswering s.declared ms
unfolding scan
scan-dirty s idx [] h = (tt, tt, tt)
scan-dirty s idx (m ∷ ms) h =
    let next = scan_message-next s idx m in
    let here = scan_message-dirty s idx m ms (All-append_left IsDangling _ _ h) in
    let later =
      scan-dirty (scan_message m.role s idx m).1 (idx + 1) ms (All-append_right IsDangling _ _ h) in
    (here.0, (rw next.1 at later.0, later.1), (here.1, rw next.0 at later.2))

-- After the repair `validate_messages` reports no orphaned result and no adjacent messages of one
-- role, whatever the messages were: it reports at most calls without an answer.
pub validate-sanitize :
    (ms : List Message) → All IsDangling (validate_messages (sanitize_messages ms))
unfolding validate_messages
validate-sanitize ms =
    let out = sanitize_messages ms in
    scan-clean (record { declared = []; answered = []; prev = none }) 0 out (none-after out)
      (unfold sanitize_messages in merge_adjacent-IsSeparated (drop_orphans [] ms))
      (sanitize_messages-IsAnswering ms)
  where
    none-after : (ns : List Message) → AfterPrev none ns
    none-after [] = tt
    none-after (n ∷ ns) = tt

sanitize_of_clean :
    (ms : List Message) → All IsDangling (validate_messages ms) → sanitize_messages ms ≡ ms
unfolding validate_messages sanitize_messages
sanitize_of_clean ms h =
    let parts = scan-dirty (record { declared = []; answered = []; prev = none }) 0 ms h in
    rw (drop_orphans_of_IsAnswering [] ms parts.2) (merge_adjacent_of_IsSeparated ms parts.1)

-- The repair leaves a list of messages as it is exactly when `validate_messages` reports nothing of
-- it but calls without an answer.
sanitize_messages_fixed_iff :
    (ms : List Message) → (sanitize_messages ms ≡ ms) ↔ All IsDangling (validate_messages ms)
sanitize_messages_fixed_iff ms = (λ e. rw e at (validate-sanitize ms), sanitize_of_clean ms)

-- A second repair changes nothing.
sanitize_messages_idempotent :
    (ms : List Message) → sanitize_messages (sanitize_messages ms) ≡ sanitize_messages ms
sanitize_messages_idempotent ms = sanitize_of_clean (sanitize_messages ms) (validate-sanitize ms)
