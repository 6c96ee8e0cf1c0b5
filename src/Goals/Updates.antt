-- ===== src/Goals/Updates.antt =====
-- What `create_goal` and `update_status` do to the tree.
use labmate.Common.{
  ◌≡◌, inl, inr, true, false, ◌||◌, Option, none, some, List, [], ◌∷◌, ◌++◌, if◌then◌else◌, Text,
  is_empty, Dict, lookup, insert, has_key, arith, All, Option-cases, Bool-cases, text_eq,
  text_eq_iff, keys, has_key-lookup, lookup-insert, keys-insert,
}
use mathlib.Core.Path.{subst, sym}
use labmate.Goals.{Status, Goal, Tree, new_goal, add_child, create_goal, update_status}
use labmate.Goals.Ready.{IsClosed, IsClosedIn}

pub has_key-insert {ℓ} :
    {V : Type ℓ} (k j : Text) (v : V) (d : Dict V)
    → has_key j (insert k v d) ≡ (text_eq j k || has_key j d)
unfolding has_key insert
has_key-insert k j v [] = ground arith
has_key-insert k j v ((i, w) ∷ d) =
    ground (arith, text_eq_iff k i, text_eq_iff j i, text_eq_iff j k, has_key-insert k j v d)

-- The tree has the keys of another and more.
abbrev pub Extends : Tree → Tree → Type 0
Extends tree tree' = (k : Text) → has_key k tree ≡ true → has_key k tree' ≡ true

All-Extends :
    (tree tree' : Tree) (cs : List Text)
    → Extends tree tree'
    → All (λ c. has_key c tree ≡ true) cs
    → All (λ c. has_key c tree' ≡ true) cs
All-Extends tree tree' [] e h = tt
All-Extends tree tree' (c ∷ cs) e h = (e c h.0, All-Extends tree tree' cs e h.1)

IsClosedIn-Extends :
    (tree tree' entries : Tree)
    → Extends tree tree'
    → IsClosedIn tree entries
    → IsClosedIn tree' entries
IsClosedIn-Extends tree tree' [] e h = tt
IsClosedIn-Extends tree tree' ((k, g) ∷ rest) e h =
    (All-Extends tree tree' g.children e h.0, IsClosedIn-Extends tree tree' rest e h.1)

IsClosedIn-insert :
    (tree entries : Tree) (k : Text) (g : Goal)
    → All (λ c. has_key c tree ≡ true) g.children
    → IsClosedIn tree entries
    → IsClosedIn tree (insert k g entries)
unfolding insert
IsClosedIn-insert tree [] k g h p = (h, tt)
IsClosedIn-insert tree ((j, w) ∷ rest) k g h p = elim (Bool-cases (text_eq k j)) [
  | inl same ↦ rw same (h, p.1)
  | inr apart ↦ rw apart (p.0, IsClosedIn-insert tree rest k g h p.1)
]

IsClosedIn-lookup :
    (tree entries : Tree) (k : Text) (g : Goal)
    → IsClosedIn tree entries
    → lookup k entries ≡ some g
    → All (λ c. has_key c tree ≡ true) g.children
unfolding lookup
IsClosedIn-lookup tree [] k g h e = cc
IsClosedIn-lookup tree ((j, w) ∷ rest) k g h e = elim (Bool-cases (text_eq k j)) [
  | inl same ↦ let here : w ≡ g = ground arith in rw here at h.0
  | inr apart ↦ IsClosedIn-lookup tree rest k g h.1 (ground arith)
]

insert-Extends : (k : Text) (g : Goal) (tree : Tree) → Extends tree (insert k g tree)
insert-Extends k g tree j h = ground (arith, has_key-insert k j g tree)

-- Storing a goal whose children are all there keeps the tree closed.
insert-IsClosed :
    (k : Text) (g : Goal) (tree : Tree)
    → All (λ c. has_key c (insert k g tree) ≡ true) g.children
    → IsClosed tree
    → IsClosed (insert k g tree)
insert-IsClosed k g tree h p =
    IsClosedIn-insert (insert k g tree) tree k g h
      (IsClosedIn-Extends tree (insert k g tree) tree (insert-Extends k g tree) p)

All-snoc :
    (tree : Tree) (cs : List Text) (c : Text)
    → All (λ x. has_key x tree ≡ true) cs
    → has_key c tree ≡ true
    → All (λ x. has_key x tree ≡ true) (cs ++ c ∷ [])
All-snoc tree [] c h p = (p, tt)
All-snoc tree (x ∷ cs) c h p = (h.0, All-snoc tree cs c h.1 p)

add_child_of_some :
    (parent gid : Text) (tree : Tree) (p : Goal)
    → lookup parent tree ≡ some p
    → add_child parent gid tree
      ≡ insert parent (record p { children = p.children ++ gid ∷ [] }) tree
unfolding add_child
add_child_of_some parent gid tree p e = ground arith

add_child_of_none :
    (parent gid : Text) (tree : Tree) → lookup parent tree ≡ none → add_child parent gid tree ≡ tree
unfolding add_child
add_child_of_none parent gid tree e = ground arith

add_child-IsClosed :
    (parent gid : Text) (tree : Tree)
    → IsClosed tree
    → has_key gid tree ≡ true
    → IsClosed (add_child parent gid tree)
add_child-IsClosed parent gid tree h p = elim (Option-cases (lookup parent tree)) [
  | inl missing ↦ rw (add_child_of_none parent gid tree missing) h
  | inr (g, found) ↦
      let g' : Goal = record g { children = g.children ++ gid ∷ [] } in
      let old : All (λ c. has_key c tree ≡ true) (g.children ++ gid ∷ []) =
        All-snoc tree g.children gid (IsClosedIn-lookup tree tree parent g h found) p in
      rw (add_child_of_some parent gid tree g found) (
        insert-IsClosed parent g' tree
          (All-Extends tree (insert parent g' tree) _ (insert-Extends parent g' tree) old) h)
]

-- A tree without dangling child ids has none after `create_goal`, for any id and any parent.
create_goal-IsClosed :
    (tree : Tree) (gid : Text) (parent : Option Text) (desc : Text)
    → IsClosed tree
    → IsClosed (create_goal tree gid parent desc)
unfolding create_goal
create_goal-IsClosed tree gid none desc h = insert-IsClosed gid (new_goal gid none desc) tree tt h
create_goal-IsClosed tree gid (some parent) desc h =
    let g : Goal = new_goal gid (some parent) desc in
    let base : IsClosed (insert gid g tree) = insert-IsClosed gid g tree tt h in
    let there : has_key gid (insert gid g tree) ≡ true =
      ground (arith, has_key-insert gid gid g tree, text_eq_iff gid gid) in
    elim (Bool-cases (is_empty parent)) [
      | inl e ↦ rw e base
      | inr e ↦ rw e (add_child-IsClosed parent gid (insert gid g tree) base there)
    ]

-- Creating a goal under another, existing goal: the new goal is PENDING with no children and no
-- attempts, its id is appended to the parent's children, and no other goal changes.
create_goal_under :
    (tree : Tree) (gid parent desc : Text) (p : Goal) (k : Text)
    → lookup parent tree ≡ some p
    → text_eq parent gid ≡ false
    → is_empty parent ≡ false
    → lookup k (create_goal tree gid (some parent) desc) ≡ (
        if text_eq k gid
        then some (new_goal gid (some parent) desc)
        else if text_eq k parent
        then some (record p { children = p.children ++ gid ∷ [] })
        else lookup k tree)
unfolding create_goal
create_goal_under tree gid parent desc p k found apart named =
    let g : Goal = new_goal gid (some parent) desc in
    let kept : lookup parent (insert gid g tree) ≡ some p =
      rw (lookup-insert gid parent g tree, apart) found in
    rw
      (named, add_child_of_some parent gid (insert gid g tree) p kept, lookup-insert, lookup-insert)
      (ground (arith, text_eq_iff k gid, text_eq_iff k parent, text_eq_iff parent gid))

-- `update_status` of a known goal raises nothing, sets the status, the time and the given fields,
-- leaves every other goal as it was, and keeps the ids and their order.
update_status_known :
    (now : Text) (tree : Tree) (gid k : Text) (s : Status) (change : Goal → Goal) (g : Goal)
    → lookup gid tree ≡ some g
    → (tree' : Tree) × (update_status now tree gid s change ≡ some tree')
      × (keys tree' ≡ keys tree)
      × (lookup k tree' ≡ (
          if text_eq k gid
          then some (change (record g { status = s; updated_at = some now }))
          else lookup k tree))
unfolding update_status
update_status_known now tree gid k s change g found = (
  insert gid (change (record g { status = s; updated_at = some now })) tree,
  rw found,
  keys-insert gid _ tree (ground (arith, has_key-lookup gid tree)),
  lookup-insert gid k _ tree,
)

pub update_status-IsClosed :
    (now : Text) (tree : Tree) (gid : Text) (s : Status) (change : Goal → Goal) (g : Goal)
    → ((x : Goal) → (change x).children ≡ x.children)
    → lookup gid tree ≡ some g
    → IsClosed tree
    → (tree' : Tree) × (update_status now tree gid s change ≡ some tree') × IsClosed tree'
unfolding update_status
update_status-IsClosed now tree gid s change g same found h =
    let g' : Goal = change (record g { status = s; updated_at = some now }) in
    let kept : All (λ c. has_key c (insert gid g' tree) ≡ true) g'.children =
      subst (λ cs. All (λ c. has_key c (insert gid g' tree) ≡ true) cs)
        (sym (same (record g { status = s; updated_at = some now })))
        (All-Extends tree (insert gid g' tree) g.children (insert-Extends gid g' tree)
          (IsClosedIn-lookup tree tree gid g h found)) in
    (insert gid g' tree, rw found, insert-IsClosed gid g' tree kept h)
