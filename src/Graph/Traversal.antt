-- ===== src/Graph/Traversal.antt =====
-- The walk of `check` over the descendants of the root, and their order. The stack has its top at
-- the head. The walk is on fuel; `Reach` shows that the fuel given is enough.
pub mod Reach
pub mod Exact
use labmate.Common.{
  ℕ, zero, suc, ◌+◌, ◌≤◌, ◌<◌, ◌≡◌, refl, Bool, true, false, not, ◌&&◌, ◌||◌, Option, none, some,
  List, [], ◌∷◌, ◌++◌, if◌then◌else◌, Text, Dict, lookup, length, reverse, map, member, arith,
  Option-cases, Bool-cases, inl, inr, text_eq, text_eq_iff, length-append, text_lt, ltb, codes,
}
use labmate.Goals.{Goal, Tree}

abbrev pub Entry : Type 0
Entry = ℕ × Text

-- `stack.extend((depth, gc) for gc in children)`
unfoldable pub push_children : ℕ → List Text → List Entry → List Entry
push_children depth [] stack = stack
push_children depth (c ∷ cs) stack = push_children depth cs ((depth, c) ∷ stack)

-- The `while stack` loop: the descendants in the order of the visits, with their depths.
unfoldable pub walk : ℕ → Tree → List Entry → List Text → Option (List Entry)
walk fuel tree [] seen = some []
walk zero tree (e ∷ stack) seen = none
walk (suc fuel) tree ((depth, cid) ∷ stack) seen =
    let skip = walk fuel tree stack seen in
    let visit =
      λ (g : Goal). walk fuel tree (push_children (depth + 1) g.children stack) (cid ∷ seen) in
    elim (lookup cid tree) [
      | none ↦ skip
      | some g ↦ elim (member cid seen) [
        | true ↦ skip
        | false ↦ elim (visit g) [ none ↦ none | some found ↦ some ((depth, cid) ∷ found) ]
      ]
    ]

-- The key `(-depth, id)` of one entry is smaller.
unfoldable pub is_before : Entry → Entry → Bool
is_before (d, c) (d', c') = if ltb d' d then true else if ltb d d' then false else text_lt c c'

-- `descendants.sort(...)`: a stable insertion sort.
unfoldable pub insert_entry : Entry → List Entry → List Entry
unfolding is_before
insert_entry e [] = e ∷ []
insert_entry e (x ∷ xs) =
    let rest = insert_entry e xs in if is_before x e then x ∷ rest else e ∷ x ∷ xs

unfoldable pub sort_entries : List Entry → List Entry
unfolding insert_entry
sort_entries [] = []
sort_entries (e ∷ es) = insert_entry e (sort_entries es)

unfoldable pub entry_ids : List Entry → List Text
entry_ids [] = []
entry_ids ((d, c) ∷ es) = c ∷ entry_ids es

-- The children of the goals that are not seen yet.
unfoldable pub unseen_children : Tree → List Text → ℕ
unseen_children [] seen = 0
unseen_children ((k, g) ∷ rest) seen =
    (if member k seen then 0 else length g.children) + unseen_children rest seen

-- Every entry of the stack, and every child of every goal, is popped once at most.
unfoldable pub walk_fuel : Tree → List Entry → ℕ
walk_fuel tree stack = length stack + unseen_children tree []

unfoldable pub descendants : Tree → List Text → Option (List Text)
unfolding walk sort_entries entry_ids walk_fuel push_children
descendants tree roots =
    let stack = push_children 1 roots [] in
    elim (walk (walk_fuel tree stack) tree stack []) [
      | none ↦ none
      | some found ↦ some (entry_ids (sort_entries found))
    ]
