-- ===== src/Goals/Ready.antt =====
-- Which goals are ready.
use labmate.Common.{
  ◌≡◌, refl, inl, inr, ◌⊎◌, Bool, true, false, some, List, [], ◌∷◌, if◌then◌else◌, Text, lookup,
  has_key, arith, All, Option-cases, Bool-cases, has_key-lookup,
}
use labmate.Goals.{
  pending, completed, Goal, Tree, is_pending, is_completed, children_completed, is_ready,
  ready_among, get_ready_goals,
}

-- Every child id of every goal of the list is a key of the tree.
abbrev pub IsClosedIn : Tree → Tree → Type 0
IsClosedIn tree [] = Unit
IsClosedIn tree ((gid, g) ∷ rest) =
    All (λ c. has_key c tree ≡ true) g.children × IsClosedIn tree rest

abbrev pub IsClosed : Tree → Type 0
IsClosed tree = IsClosedIn tree tree

-- The status of the goal `c` is COMPLETED.
abbrev pub IsDone : Tree → Text → Type 0
IsDone tree c = (g : Goal) × (lookup c tree ≡ some g) × (g.status ≡ completed)

-- What makes a goal eligible.
pub record IsEligible (tree : Tree) (g : Goal) : Type 0 where
  pub is_waiting : g.status ≡ pending
  pub children_done : All (IsDone tree) g.children

children_completed-total :
    (tree : Tree) (cs : List Text)
    → All (λ c. has_key c tree ≡ true) cs
    → (b : Bool) × (children_completed tree cs ≡ some b)
unfolding children_completed
children_completed-total tree [] h = (true, refl)
children_completed-total tree (c ∷ cs) h =
    let (b, rest) = children_completed-total tree cs h.1 in
    elim (Option-cases (lookup c tree)) [
      | inl missing ↦ ground (arith, has_key-lookup c tree)
      | inr (g, found) ↦ (if is_completed g.status then b else false, ground arith)
    ]

children_completed-true :
    (tree : Tree) (cs : List Text) → children_completed tree cs ≡ some true → All (IsDone tree) cs
unfolding children_completed
children_completed-true tree [] h = tt
children_completed-true tree (c ∷ cs) h = elim (Option-cases (lookup c tree)) [
  | inl missing ↦ ground arith
  | inr (g, found) ↦ ((g, found, ground arith), children_completed-true tree cs (ground arith))
]

children_completed_of :
    (tree : Tree) (cs : List Text) → All (IsDone tree) cs → children_completed tree cs ≡ some true
unfolding children_completed
children_completed_of tree [] h = refl
children_completed_of tree (c ∷ cs) ((g, found, done), rest) =
    ground (arith, children_completed_of tree cs rest)

is_ready-total :
    (tree : Tree) (g : Goal)
    → All (λ c. has_key c tree ≡ true) g.children
    → (b : Bool) × (is_ready tree g ≡ some b)
unfolding is_ready
is_ready-total tree g h =
    let (b, done) = children_completed-total tree g.children h in
    (if is_pending g.status then b else false, ground arith)

is_ready-true : (tree : Tree) (g : Goal) → is_ready tree g ≡ some true → IsEligible tree g
unfolding is_ready
is_ready-true tree g h = record {
  is_waiting = ground arith;
  children_done = children_completed-true tree g.children (ground arith);
}

is_ready_of : (tree : Tree) (g : Goal) → IsEligible tree g → is_ready tree g ≡ some true
unfolding is_ready
is_ready_of tree g h = ground (arith, children_completed_of tree g.children h.children_done)

-- `g` is one of the goals of the list.
abbrev pub IsAmong : Goal → List Goal → Type 0
IsAmong g [] = ⊥
IsAmong g (x ∷ xs) = (x ≡ g) ⊎ IsAmong g xs

-- Of the entries of a dict, the eligible ones are in the list.
abbrev pub HasEligible : Tree → Tree → List Goal → Type 0
HasEligible tree [] gs = Unit
HasEligible tree ((gid, g) ∷ rest) gs =
    (IsEligible tree g → IsAmong g gs) × HasEligible tree rest gs

HasEligible-more :
    (tree entries : Tree) (g : Goal) (gs : List Goal)
    → HasEligible tree entries gs
    → HasEligible tree entries (g ∷ gs)
HasEligible-more tree [] g gs h = tt
HasEligible-more tree ((gid, x) ∷ rest) g gs h =
    (λ e. inr (h.0 e), HasEligible-more tree rest g gs h.1)

-- What `get_ready_goals` returns from some of the entries.
abbrev pub Selects : Tree → Tree → List Goal → Type 0
Selects tree entries gs = All (IsEligible tree) gs × HasEligible tree entries gs

ready_among-Selects :
    (tree entries : Tree)
    → IsClosedIn tree entries
    → (gs : List Goal) × (ready_among tree entries ≡ some gs) × Selects tree entries gs
unfolding ready_among
ready_among-Selects tree [] h = ([], refl, (tt, tt))
ready_among-Selects tree ((gid, g) ∷ rest) h =
    let (gs, e, good) = ready_among-Selects tree rest h.1 in
    let (b, ready) = is_ready-total tree g h.0 in
    elim (Bool-cases b) [
      | inl t ↦
          let eligible : is_ready tree g ≡ some true = rw (← t) ready in
          (
            g ∷ gs,
            ground arith,
            (
              (is_ready-true tree g eligible, good.0),
              (λ _. inl refl, HasEligible-more tree rest g gs good.1),
            ),
          )
      | inr f ↦ (gs, ground arith, (good.0, (λ e. ground (arith, is_ready_of tree g e), good.1)))
    ]

-- Where no child id dangles, `get_ready_goals` raises nothing, every goal that it returns is PENDING
-- with all its children COMPLETED, and every such goal of the tree is returned.
pub get_ready_goals-Selects :
    (tree : Tree)
    → IsClosed tree
    → (gs : List Goal) × (get_ready_goals tree ≡ some gs) × Selects tree tree gs
unfolding get_ready_goals
get_ready_goals-Selects tree h = ready_among-Selects tree tree h
