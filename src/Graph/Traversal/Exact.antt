-- ===== src/Graph/Traversal/Exact.antt =====
-- `descendants` returns exactly the goals below the roots.
use labmate.Common.{
  ℕ, zero, suc, ◌+◌, ◌≡◌, ◌↔◌, refl, true, ◌||◌, some, List, [], ◌∷◌, Text, lookup, member, arith,
  Option-cases, All, Bool-cases, inl, inr, text_eq, text_eq_iff, has_key, has_key-lookup, sym, ◌∙◌,
}
use mathlib.Core.Path.{subst}
use mathlib.Core.Option.{some-injective}
use native.Mathlib.Nat.{le_refl}
use labmate.Goals.{Goal, Tree}
use labmate.Graph.Traversal.{
  Entry, push_children, walk, insert_entry, sort_entries, entry_ids, walk_fuel, descendants,
}
use labmate.Graph.Traversal.Reach.{
  walk-returns, walk-Covers, Covers, IsCovered, HasCoveredChildren, AllCovered-push_children,
}

-- A goal below the roots: a root, or a child of a goal below the roots.
pub data IsBelow (tree : Tree) (roots : List Text) : Text → Type 0 where
  root : (c : Text) → member c roots ≡ true → IsBelow tree roots c
  child :
      (p c : Text) (g : Goal)
      → IsBelow tree roots p
      → lookup p tree ≡ some g
      → member c g.children ≡ true
      → IsBelow tree roots c

module _ (tree : Tree) (roots : List Text) where
  abbrev AllBelow : List Entry → Type 0
  AllBelow [] = Unit
  AllBelow ((d, c) ∷ es) = IsBelow tree roots c × AllBelow es

  AllBelow-push_children :
      (depth : ℕ) (cs : List Text) (stack : List Entry)
      → ((c : Text) → member c cs ≡ true → IsBelow tree roots c)
      → AllBelow stack
      → AllBelow (push_children depth cs stack)
  unfolding push_children member
  AllBelow-push_children depth [] stack h k = k
  AllBelow-push_children depth (c ∷ cs) stack h k =
      AllBelow-push_children depth cs ((depth, c) ∷ stack) (λ x m. h x (ground arith))
        (h c (ground (arith, text_eq_iff c c)), k)

  walk-AllBelow :
      (fuel : ℕ) (stack : List Entry) (seen : List Text) (found : List Entry)
      → walk fuel tree stack seen ≡ some found
      → AllBelow stack
      → AllBelow found
  unfolding walk
  walk-AllBelow zero [] seen found e h = subst AllBelow (some-injective [] found e) tt
  walk-AllBelow (suc fuel) [] seen found e h = subst AllBelow (some-injective [] found e) tt
  walk-AllBelow zero (x ∷ stack) seen found e h = cc
  walk-AllBelow (suc fuel) ((depth, cid) ∷ stack) seen found e h =
      elim (Option-cases (lookup cid tree)) [
        | inl missing ↦ walk-AllBelow fuel stack seen found (ground arith) h.1
        | inr (g, known) ↦ elim (Bool-cases (member cid seen)) [
          | inl old ↦ walk-AllBelow fuel stack seen found (ground arith) h.1
          | inr new ↦
              let next = push_children (depth + 1) g.children stack in
              elim (Option-cases (walk fuel tree next (cid ∷ seen))) [
                | inl stopped ↦ absurd (ground arith)
                | inr (later, visit) ↦
                    let same : found ≡ (depth, cid) ∷ later = ground arith in
                    subst AllBelow (sym same) (
                      h.0,
                      walk-AllBelow fuel next (cid ∷ seen) later visit (
                          AllBelow-push_children (depth + 1) g.children stack
                            (λ c m. child cid c g h.0 known m) h.1),
                    )
              ]
        ]
      ]

  member-AllBelow :
      (es : List Entry) (c : Text)
      → AllBelow es
      → member c (entry_ids es) ≡ true
      → IsBelow tree roots c
  unfolding member entry_ids
  member-AllBelow [] c h m = cc
  member-AllBelow ((d, x) ∷ es) c h m = elim (Bool-cases (text_eq c x)) [
    | inl same ↦ subst (IsBelow tree roots) (sym ((text_eq_iff c x).0 same)) h.0
    | inr apart ↦ member-AllBelow es c h.1 (ground arith)
  ]

member-entry_ids-insert :
    (e : Entry) (es : List Entry) (c : Text)
    → member c (entry_ids (insert_entry e es)) ≡ (text_eq c e.1 || member c (entry_ids es))
unfolding member entry_ids insert_entry
member-entry_ids-insert e [] c = refl
member-entry_ids-insert e (x ∷ xs) c = ground (arith, member-entry_ids-insert e xs c)

member-entry_ids-sort :
    (es : List Entry) (c : Text) → member c (entry_ids (sort_entries es)) ≡ member c (entry_ids es)
unfolding member entry_ids sort_entries
member-entry_ids-sort [] c = refl
member-entry_ids-sort ((d, x) ∷ es) c =
    ground (arith, member-entry_ids-insert (d, x) (sort_entries es) c, member-entry_ids-sort es c)

member-All {ℓ} :
    (P : Text → Type ℓ) (cs : List Text) (c : Text) → All P cs → member c cs ≡ true → P c
unfolding member
member-All P [] c h m = cc
member-All P (x ∷ xs) c h m = elim (Bool-cases (text_eq c x)) [
  | inl same ↦ subst P (sym ((text_eq_iff c x).0 same)) h.0
  | inr apart ↦ member-All P xs c h.1 (ground arith)
]

IsCovered-child :
    (tree : Tree) (found es : List Entry) (p c : Text) (g : Goal)
    → HasCoveredChildren tree [] found es
    → member p (entry_ids es) ≡ true
    → lookup p tree ≡ some g
    → member c g.children ≡ true
    → IsCovered tree [] found c
unfolding member entry_ids
IsCovered-child tree found [] p c g h m e k = cc
IsCovered-child tree found ((d, x) ∷ es) p c g h m e k = elim (Bool-cases (text_eq p x)) [
  | inl same ↦
      member-All (IsCovered tree [] found) g.children c
        (h.0 g (subst (λ y. lookup y tree ≡ some g) ((text_eq_iff p x).0 same) e)) k
  | inr apart ↦ IsCovered-child tree found es p c g h.1 (ground arith) e k
]

below_is_found :
    (tree : Tree) (roots : List Text) (found : List Entry) (c : Text)
    → Covers tree (push_children 1 roots []) [] found
    → IsBelow tree roots c
    → has_key c tree ≡ true
    → member c (entry_ids found) ≡ true
unfolding member
below_is_found tree roots found c covers (root _ m) k =
    let (kids, _) = AllCovered-push_children tree [] found 1 roots [] covers.0 in
    member-All (IsCovered tree [] found) roots c kids m k
below_is_found tree roots found c covers (child p _ g b known m) k =
    IsCovered-child tree found found p c g covers.1
      (below_is_found tree roots found p covers b (ground (arith, has_key-lookup p tree))) known m k

abbrev AllKnown : Tree → List Entry → Type 0
AllKnown tree [] = Unit
AllKnown tree ((d, c) ∷ es) = (has_key c tree ≡ true) × AllKnown tree es

walk-AllKnown :
    (fuel : ℕ) (tree : Tree) (stack : List Entry) (seen : List Text) (found : List Entry)
    → walk fuel tree stack seen ≡ some found
    → AllKnown tree found
unfolding walk
walk-AllKnown zero tree [] seen found e = subst (AllKnown tree) (some-injective [] found e) tt
walk-AllKnown (suc fuel) tree [] seen found e = subst (AllKnown tree) (some-injective [] found e) tt
walk-AllKnown zero tree (x ∷ stack) seen found e = cc
walk-AllKnown (suc fuel) tree ((depth, cid) ∷ stack) seen found e =
    elim (Option-cases (lookup cid tree)) [
      | inl missing ↦ walk-AllKnown fuel tree stack seen found (ground arith)
      | inr (g, known) ↦ elim (Bool-cases (member cid seen)) [
        | inl old ↦ walk-AllKnown fuel tree stack seen found (ground arith)
        | inr new ↦
            let next = push_children (depth + 1) g.children stack in
            elim (Option-cases (walk fuel tree next (cid ∷ seen))) [
              | inl stopped ↦ absurd (ground arith)
              | inr (later, visit) ↦
                  let same : found ≡ (depth, cid) ∷ later = ground arith in
                  subst (AllKnown tree) (sym same) (
                    ground (arith, has_key-lookup cid tree),
                    walk-AllKnown fuel tree next (cid ∷ seen) later visit,
                  )
            ]
      ]
    ]

member-AllKnown :
    (tree : Tree) (es : List Entry) (c : Text)
    → AllKnown tree es
    → member c (entry_ids es) ≡ true
    → has_key c tree ≡ true
unfolding member entry_ids
member-AllKnown tree [] c h m = cc
member-AllKnown tree ((d, x) ∷ es) c h m =
    ground (arith, text_eq_iff c x, member-AllKnown tree es c h.1)

-- On every tree, cyclic ones and ones with dangling child ids included, the walk ends, and it
-- returns exactly the ids that are keys of the tree and lie below the given roots.
pub descendants_exact :
    (tree : Tree) (roots : List Text)
    → (ids : List Text) × (descendants tree roots ≡ some ids)
      × ((c : Text) → (member c ids ≡ true) ↔ (IsBelow tree roots c × (has_key c tree ≡ true)))
unfolding descendants
descendants_exact tree roots =
    let stack = push_children 1 roots [] in
    let (found, done) =
      walk-returns (walk_fuel tree stack) tree stack [] (unfold walk_fuel in le_refl _) in
    let covers = walk-Covers (walk_fuel tree stack) tree stack [] found done in
    let below =
      walk-AllBelow tree roots (walk_fuel tree stack) stack [] found done
        (AllBelow-push_children tree roots 1 roots [] (λ c m. root c m) tt) in
    let known = walk-AllKnown (walk_fuel tree stack) tree stack [] found done in
    (
      entry_ids (sort_entries found),
      ground (arith, done),
      λ c. (
        (λ m.
            let m' : member c (entry_ids found) ≡ true = sym (member-entry_ids-sort found c) ∙ m in
            (member-AllBelow tree roots found c below m', member-AllKnown tree found c known m')),
        (λ h. member-entry_ids-sort found c ∙ below_is_found tree roots found c covers h.0 h.1),
      ),
    )
