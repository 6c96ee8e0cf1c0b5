-- ===== src/Graph/Traversal/Reach.antt =====
-- The walk finds the goals below the root, all of them and nothing else.
use labmate.Common.{
  ℕ, zero, suc, ◌+◌, ◌≤◌, ◌≡◌, refl, true, false, ◌||◌, some, List, [], ◌∷◌, Text, lookup, length,
  member, arith, Option-cases, All, Bool-cases, inl, inr, text_eq_iff, has_key, has_key-lookup, sym,
  ◌∙◌,
}
use mathlib.Core.Path.{subst}
use mathlib.Core.Option.{some-injective}
use labmate.Goals.{Goal, Tree}
use labmate.Graph.Traversal.{Entry, push_children, walk, entry_ids, unseen_children}

length-push_children :
    (depth : ℕ) (cs : List Text) (stack : List Entry)
    → length (push_children depth cs stack) ≡ length cs + length stack
unfolding push_children
length-push_children depth [] stack = omega arith
length-push_children depth (c ∷ cs) stack =
    omega (arith, length-push_children depth cs ((depth, c) ∷ stack))

unseen_children-le :
    (tree : Tree) (cid : Text) (seen : List Text)
    → unseen_children tree (cid ∷ seen) ≤ unseen_children tree seen
unfolding unseen_children member
unseen_children-le [] cid seen = omega arith
unseen_children-le ((k, g) ∷ rest) cid seen = ground (arith, unseen_children-le rest cid seen)

-- Seeing a goal takes its children off the count.
unseen_children-visit :
    (tree : Tree) (cid : Text) (g : Goal) (seen : List Text)
    → lookup cid tree ≡ some g
    → member cid seen ≡ false
    → unseen_children tree (cid ∷ seen) + length g.children ≤ unseen_children tree seen
unfolding unseen_children member lookup
unseen_children-visit [] cid g seen e h = cc
unseen_children-visit ((k, w) ∷ rest) cid g seen e h = ground (
  arith,
  unseen_children-visit rest cid g seen,
  unseen_children-le rest cid seen,
  text_eq_iff k cid,
  text_eq_iff cid k,
)

pub walk-returns :
    (fuel : ℕ) (tree : Tree) (stack : List Entry) (seen : List Text)
    → length stack + unseen_children tree seen ≤ fuel
    → (found : List Entry) × (walk fuel tree stack seen ≡ some found)
unfolding walk
walk-returns zero tree [] seen h = ([], refl)
walk-returns (suc fuel) tree [] seen h = ([], refl)
walk-returns zero tree (e ∷ stack) seen h = absurd (omega arith)
walk-returns (suc fuel) tree ((depth, cid) ∷ stack) seen h =
    let (skipped, skip) = walk-returns fuel tree stack seen (omega arith) in
    elim (Option-cases (lookup cid tree)) [
      | inl missing ↦ (skipped, ground arith)
      | inr (g, known) ↦ elim (Bool-cases (member cid seen)) [
        | inl old ↦ (skipped, ground arith)
        | inr new ↦
            let (found, visit) =
              walk-returns fuel tree (push_children (depth + 1) g.children stack) (cid ∷ seen) (
                omega (
                  arith,
                  length-push_children (depth + 1) g.children stack,
                  unseen_children-visit tree cid g seen known new,
                )) in
            ((depth, cid) ∷ found, ground arith)
      ]
    ]

-- A goal of the tree is among those seen before or found.
abbrev pub IsCovered : Tree → List Text → List Entry → Text → Type 0
IsCovered tree seen found c =
    has_key c tree ≡ true → (member c seen || member c (entry_ids found)) ≡ true

-- So are the children of every goal that was found.
abbrev pub HasCoveredChildren : Tree → List Text → List Entry → List Entry → Type 0
HasCoveredChildren tree seen found [] = Unit
HasCoveredChildren tree seen found ((d, c) ∷ es) =
    ((g : Goal) → lookup c tree ≡ some g → All (IsCovered tree seen found) g.children)
    × HasCoveredChildren tree seen found es

abbrev pub AllCovered : Tree → List Text → List Entry → List Entry → Type 0
AllCovered tree seen found [] = Unit
AllCovered tree seen found ((d, c) ∷ es) =
    IsCovered tree seen found c × AllCovered tree seen found es

pub AllCovered-push_children :
    (tree : Tree) (seen : List Text) (found : List Entry) (depth : ℕ) (cs : List Text)
    (stack : List Entry)
    → AllCovered tree seen found (push_children depth cs stack)
    → All (IsCovered tree seen found) cs × AllCovered tree seen found stack
unfolding push_children
AllCovered-push_children tree seen found depth [] stack h = (tt, h)
AllCovered-push_children tree seen found depth (c ∷ cs) stack h =
    let (later, here) = AllCovered-push_children tree seen found depth cs ((depth, c) ∷ stack) h in
    ((here.0, later), here.1)

-- Seen with `c` and found, or seen and found with `c`: the same goals.
IsCovered-move :
    (tree : Tree) (seen : List Text) (found : List Entry) (d : ℕ) (c x : Text)
    → IsCovered tree (c ∷ seen) found x
    → IsCovered tree seen ((d, c) ∷ found) x
unfolding member entry_ids
IsCovered-move tree seen found d c x h k = ground (arith, h k)

All-move :
    (tree : Tree) (seen : List Text) (found : List Entry) (d : ℕ) (c : Text) (cs : List Text)
    → All (IsCovered tree (c ∷ seen) found) cs
    → All (IsCovered tree seen ((d, c) ∷ found)) cs
All-move tree seen found d c [] h = tt
All-move tree seen found d c (x ∷ xs) h =
    (IsCovered-move tree seen found d c x h.0, All-move tree seen found d c xs h.1)

AllCovered-move :
    (tree : Tree) (seen : List Text) (found : List Entry) (d : ℕ) (c : Text) (es : List Entry)
    → AllCovered tree (c ∷ seen) found es
    → AllCovered tree seen ((d, c) ∷ found) es
AllCovered-move tree seen found d c [] h = tt
AllCovered-move tree seen found d c ((k, x) ∷ xs) h =
    (IsCovered-move tree seen found d c x h.0, AllCovered-move tree seen found d c xs h.1)

HasCoveredChildren-move :
    (tree : Tree) (seen : List Text) (found : List Entry) (d : ℕ) (c : Text) (es : List Entry)
    → HasCoveredChildren tree (c ∷ seen) found es
    → HasCoveredChildren tree seen ((d, c) ∷ found) es
HasCoveredChildren-move tree seen found d c [] h = tt
HasCoveredChildren-move tree seen found d c ((k, x) ∷ xs) h = (
  λ g e. All-move tree seen found d c g.children (h.0 g e),
  HasCoveredChildren-move tree seen found d c xs h.1,
)

-- What a walk from the stack has covered.
abbrev pub Covers : Tree → List Entry → List Text → List Entry → Type 0
Covers tree stack seen found =
    AllCovered tree seen found stack × HasCoveredChildren tree seen found found

visit-Covers :
    (tree : Tree) (depth : ℕ) (cid : Text) (g : Goal) (stack : List Entry) (seen : List Text)
    (found : List Entry)
    → lookup cid tree ≡ some g
    → Covers tree (push_children (depth + 1) g.children stack) (cid ∷ seen) found
    → Covers tree ((depth, cid) ∷ stack) seen ((depth, cid) ∷ found)
visit-Covers tree depth cid g stack seen found known (on_stack, closed) =
    let (kids, rest) =
      AllCovered-push_children tree (cid ∷ seen) found (depth + 1) g.children stack on_stack in
    (
      (self, AllCovered-move tree seen found depth cid stack rest),
      (
        (λ g' e.
            subst (λ (x : Goal). All (IsCovered tree seen ((depth, cid) ∷ found)) x.children)
              (some-injective g g' (sym known ∙ e))
              (All-move tree seen found depth cid g.children kids)),
        HasCoveredChildren-move tree seen found depth cid found closed,
      ),
    )
  where
    self : IsCovered tree seen ((depth, cid) ∷ found) cid
    self k = unfold entry_ids member in ground (arith, text_eq_iff cid cid)

pub walk-Covers :
    (fuel : ℕ) (tree : Tree) (stack : List Entry) (seen : List Text) (found : List Entry)
    → walk fuel tree stack seen ≡ some found
    → Covers tree stack seen found
unfolding walk
walk-Covers zero tree [] seen found e =
    subst (λ fs. Covers tree [] seen fs) (some-injective [] found e) (tt, tt)
walk-Covers (suc fuel) tree [] seen found e =
    subst (λ fs. Covers tree [] seen fs) (some-injective [] found e) (tt, tt)
walk-Covers zero tree (x ∷ stack) seen found e = cc
walk-Covers (suc fuel) tree ((depth, cid) ∷ stack) seen found e =
    elim (Option-cases (lookup cid tree)) [
      | inl missing ↦
          let rest = walk-Covers fuel tree stack seen found (ground arith) in
          (((λ k. ground (arith, has_key-lookup cid tree)), rest.0), rest.1)
      | inr (g, known) ↦ elim (Bool-cases (member cid seen)) [
        | inl old ↦
            let rest = walk-Covers fuel tree stack seen found (ground arith) in
            (((λ k. ground arith), rest.0), rest.1)
        | inr new ↦
            elim (Option-cases
              (walk fuel tree (push_children (depth + 1) g.children stack) (cid ∷ seen))) [
                | inl stopped ↦ absurd (ground arith)
                | inr (later, visit) ↦
                    let same : found ≡ (depth, cid) ∷ later = ground arith in
                    subst (λ fs. Covers tree ((depth, cid) ∷ stack) seen fs) (sym same)
                      (visit-Covers tree depth cid g stack seen later known (
                        walk-Covers fuel tree (push_children (depth + 1) g.children stack)
                          (cid ∷ seen) later visit))
              ]
      ]
    ]
