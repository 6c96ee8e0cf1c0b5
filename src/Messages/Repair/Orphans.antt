-- ===== src/Messages/Repair/Orphans.antt =====
-- After the repair every tool message answers a call that an earlier assistant message declared.
use labmate.Common.{
  ◌≡◌, refl, inl, inr, true, false, not, ◌&&◌, List, [], ◌∷◌, if◌then◌else◌, Bool-cases, arith,
  Text,
}
use labmate.Messages.{Message, is_assistant, is_tool}
use labmate.Messages.Repair.{
  is_mergeable_assistant, merged, merges, merge_after, merge_adjacent, drop_orphans, declare_ids,
  is_declared, sanitize_messages,
}

-- The ids that are declared after `m`.
abbrev pub ids_after : Message → List Text → List Text
ids_after m ids = if is_assistant m.role then declare_ids m.tool_calls ids else ids

-- From the declared ids on, every tool message has a declared id.
abbrev pub IsAnswering : List Text → List Message → Type 0
IsAnswering ids [] = Unit
IsAnswering ids (m ∷ ms) =
    ((is_tool m.role && not (is_declared m.tool_call_id ids)) ≡ false)
    × IsAnswering (ids_after m ids) ms

tool_declares_nothing :
    (m : Message) (ids : List Text) → is_tool m.role ≡ true → ids_after m ids ≡ ids
tool_declares_nothing m ids h = ground arith

ids_after-merged :
    (ids : List Text) (prev m : Message)
    → merges prev m ≡ true
    → ids_after m (ids_after prev ids) ≡ ids_after (merged prev m) ids
unfolding merges merged is_mergeable_assistant declare_ids
ids_after-merged ids prev m h = ground arith

merged-IsAnswering :
    (ids : List Text) (prev m : Message) (ms : List Message)
    → merges prev m ≡ true
    → IsAnswering ids (prev ∷ m ∷ ms)
    → IsAnswering ids (merged prev m ∷ ms)
merged-IsAnswering ids prev m ms joined h =
    (unfold merged in h.0, rw (ids_after-merged ids prev m joined) at h.1.1)

drop_orphans-IsAnswering :
    (ids : List Text) (ms : List Message) → IsAnswering ids (drop_orphans ids ms)
unfolding drop_orphans
drop_orphans-IsAnswering ids [] = tt
drop_orphans-IsAnswering ids (m ∷ ms) =
    elim (Bool-cases (is_tool m.role && not (is_declared m.tool_call_id ids))) [
      | inl orphan ↦
          rw (orphan, tool_declares_nothing m ids (ground arith)) (drop_orphans-IsAnswering ids ms)
      | inr kept ↦ rw kept (kept, drop_orphans-IsAnswering (ids_after m ids) ms)
    ]

pub drop_orphans_of_IsAnswering :
    (ids : List Text) (ms : List Message) → IsAnswering ids ms → drop_orphans ids ms ≡ ms
unfolding drop_orphans
drop_orphans_of_IsAnswering ids [] h = refl
drop_orphans_of_IsAnswering ids (m ∷ ms) h =
    rw (h.0, drop_orphans_of_IsAnswering (ids_after m ids) ms h.1)

merge_after-IsAnswering :
    (ids : List Text) (prev : Message) (ms : List Message)
    → IsAnswering ids (prev ∷ ms)
    → IsAnswering ids (merge_after prev ms)
unfolding merge_after
merge_after-IsAnswering ids prev [] h = h
merge_after-IsAnswering ids prev (m ∷ ms) h = elim (Bool-cases (merges prev m)) [
  | inl joined ↦
      rw joined
        (merge_after-IsAnswering ids (merged prev m) ms (merged-IsAnswering ids prev m ms joined h))
  | inr apart ↦ rw apart (h.0, merge_after-IsAnswering (ids_after prev ids) m ms h.1)
]

pub sanitize_messages-IsAnswering : (ms : List Message) → IsAnswering [] (sanitize_messages ms)
unfolding sanitize_messages merge_adjacent
sanitize_messages-IsAnswering ms =
    elim_messages (drop_orphans [] ms) (drop_orphans-IsAnswering [] ms)
  where
    elim_messages : (ns : List Message) → IsAnswering [] ns → IsAnswering [] (merge_adjacent ns)
    elim_messages [] h = h
    elim_messages (n ∷ ns) h = merge_after-IsAnswering [] n ns h
