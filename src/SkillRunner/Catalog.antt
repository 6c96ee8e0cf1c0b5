-- ===== src/SkillRunner/Catalog.antt =====
-- What `discover` puts in the catalog.
use labmate.Common.{
  ◌≡◌, refl, Bool, true, false, Option, none, some, List, [], ◌∷◌, ◌++◌, if◌then◌else◌, Text, Dict,
  lookup, insert, has_key, text_eq, text_eq_iff, arith, Option-cases, Bool-cases, inl, inr,
  lookup-insert, has_key-lookup, ◌∙◌, ap, sym, is_empty, All, All-map, All-append,
}
use labmate.SkillRunner.{
  FilePath, Files, SkillMeta, Runner, tier_names, within, meta_of, nonempty, index, is_skipped,
  index_all, index_roots, discover,
}

-- The entries of the files of one root, in their order.
unfoldable pub entries_in : Files → Text → FilePath → List FilePath → List SkillMeta
entries_in fs tier root [] = []
entries_in fs tier root (f ∷ files) =
    let rest = entries_in fs tier root files in
    if is_skipped f
    then rest
    else elim (meta_of fs tier root f) [ none ↦ rest | some meta ↦ meta ∷ rest ]

-- The entries of all roots, those of the first root first.
unfoldable pub entries : Files → List Text → List FilePath → List SkillMeta
entries fs [] roots = []
entries fs (tier ∷ tiers) [] = []
entries fs (tier ∷ tiers) (root ∷ roots) =
    elim (fs.listing root) [ none ↦ [] | some files ↦ entries_in fs tier root files ]
    ++ entries fs tiers roots

-- The first entry with the name.
unfoldable pub first_named : Text → List SkillMeta → Option SkillMeta
first_named name [] = none
first_named name (m ∷ ms) = if text_eq name m.name then some m else first_named name ms

-- `a`, or `b` where there is no `a`.
abbrev pub or_else : Option SkillMeta → Option SkillMeta → Option SkillMeta
or_else none b = b
or_else (some a) b = some a

first_named-append :
    (name : Text) (ms ns : List SkillMeta)
    → first_named name (ms ++ ns) ≡ or_else (first_named name ms) (first_named name ns)
unfolding first_named
first_named-append name [] ns = refl
first_named-append name (m ∷ ms) ns = ground (arith, first_named-append name ms ns)

or_else_assoc : (a b c : Option SkillMeta) → or_else (or_else a b) c ≡ or_else a (or_else b c)
or_else_assoc none b c = refl
or_else_assoc (some a) b c = refl

lookup-add :
    (name : Text) (m : SkillMeta) (catalog : Dict SkillMeta)
    → lookup name (if has_key m.name catalog then catalog else insert m.name m catalog)
      ≡ or_else (lookup name catalog) (if text_eq name m.name then some m else none)
lookup-add name m catalog = ground (
  arith,
  has_key-lookup m.name catalog,
  text_eq_iff name m.name,
  lookup-insert m.name name m catalog,
)

or_else-none : (a : Option SkillMeta) → a ≡ or_else a none
or_else-none none = refl
or_else-none (some a) = refl

or_else_if :
    (b : Bool) (m : SkillMeta) (o : Option SkillMeta)
    → or_else (if b then some m else none) o ≡ (if b then some m else o)
or_else_if true m o = refl
or_else_if false m o = refl

lookup-index_all :
    (fs : Files) (tier : Text) (root : FilePath) (name : Text) (files : List FilePath)
    (catalog : Dict SkillMeta)
    → lookup name (index_all fs tier root files catalog)
      ≡ or_else (lookup name catalog) (first_named name (entries_in fs tier root files))
unfolding index_all entries_in first_named
lookup-index_all fs tier root name [] catalog = elim (Option-cases (lookup name catalog)) [
  | inl missing ↦ rw missing
  | inr (m, found) ↦ rw found
]
lookup-index_all fs tier root name (f ∷ files) catalog = elim (Bool-cases (is_skipped f)) [
  | inl skipped ↦ rw skipped (lookup-index_all fs tier root name files catalog)
  | inr kept ↦ elim (Option-cases (meta_of fs tier root f)) [
    | inl unfit ↦
        let same : index fs tier root f catalog ≡ catalog = unfold index in ground arith in
        rw (kept, same, unfit) (lookup-index_all fs tier root name files catalog)
    | inr (m, fits) ↦
        let added = if has_key m.name catalog then catalog else insert m.name m catalog in
        let rest = first_named name (entries_in fs tier root files) in
        let same : index fs tier root f catalog ≡ added = unfold index in ground arith in
        rw (kept, same, fits)
          (lookup-index_all fs tier root name files added
            ∙ rw (lookup-add name m catalog) (
                or_else_assoc (lookup name catalog) (if text_eq name m.name then some m else none)
                  rest)
            ∙ ap (or_else (lookup name catalog)) (or_else_if (text_eq name m.name) m rest))
  ]
]

lookup-index_roots :
    (fs : Files) (name : Text) (tiers : List Text) (roots : List FilePath)
    (catalog : Dict SkillMeta)
    → lookup name (index_roots fs tiers roots catalog)
      ≡ or_else (lookup name catalog) (first_named name (entries fs tiers roots))
unfolding index_roots entries first_named
lookup-index_roots fs name [] roots catalog = or_else-none (lookup name catalog)
lookup-index_roots fs name (tier ∷ tiers) [] catalog = or_else-none (lookup name catalog)
lookup-index_roots fs name (tier ∷ tiers) (root ∷ roots) catalog =
    elim (Option-cases (fs.listing root)) [
      | inl missing ↦ rw missing (lookup-index_roots fs name tiers roots catalog)
      | inr (files, listed) ↦
          let here = entries_in fs tier root files in
          let rest = entries fs tiers roots in
          rw listed (
            lookup-index_roots fs name tiers roots (index_all fs tier root files catalog)
            ∙ rw (lookup-index_all fs tier root name files catalog) (
                or_else_assoc (lookup name catalog) (first_named name here) (first_named name rest))
            ∙ ap (or_else (lookup name catalog)) (sym (first_named-append name here rest)))
    ]

-- What an entry of the catalog satisfies.
pub record IsListed (fs : Files) (roots : List FilePath) (m : SkillMeta) : Type 0 where
  pub file : FilePath
  pub unskipped : is_skipped file ≡ false
  pub is_file : fs.resolve file ≡ m.path
  pub confined : within fs m.path roots ≡ true
  pub named : is_empty m.name ≡ false
  pub described : is_empty m.description ≡ false

confined_among :
    (fs : Files) (path : FilePath) (roots : List FilePath) (root : FilePath)
    → within fs path (root ∷ []) ≡ true
    → within fs path (root ∷ roots) ≡ true
unfolding within
confined_among fs path roots root h = ground arith

confined_later :
    (fs : Files) (path : FilePath) (roots : List FilePath) (root : FilePath)
    → within fs path roots ≡ true
    → within fs path (root ∷ roots) ≡ true
unfolding within
confined_later fs path roots root h = ground arith

meta_of-IsListed :
    (fs : Files) (tier : Text) (root file : FilePath) (m : SkillMeta)
    → is_skipped file ≡ false
    → meta_of fs tier root file ≡ some m
    → IsListed fs (root ∷ []) m
unfolding meta_of nonempty
meta_of-IsListed fs tier root file m kept e = record {
  file = file;
  unskipped = kept;
  is_file = ground arith;
  confined = ground arith;
  named = ground arith;
  described = ground arith;
}

IsListed-later :
    (fs : Files) (root : FilePath) (roots : List FilePath) (m : SkillMeta)
    → IsListed fs roots m
    → IsListed fs (root ∷ roots) m
IsListed-later fs root roots m h = record {
  file = h.file;
  unskipped = h.unskipped;
  is_file = h.is_file;
  confined = confined_later fs m.path roots root h.confined;
  named = h.named;
  described = h.described;
}

IsListed-among :
    (fs : Files) (root : FilePath) (roots : List FilePath) (m : SkillMeta)
    → IsListed fs (root ∷ []) m
    → IsListed fs (root ∷ roots) m
IsListed-among fs root roots m h = record {
  file = h.file;
  unskipped = h.unskipped;
  is_file = h.is_file;
  confined = confined_among fs m.path roots root h.confined;
  named = h.named;
  described = h.described;
}

entries_in-All :
    (fs : Files) (tier : Text) (root : FilePath) (files : List FilePath)
    → All (IsListed fs (root ∷ [])) (entries_in fs tier root files)
unfolding entries_in
entries_in-All fs tier root [] = tt
entries_in-All fs tier root (f ∷ files) = elim (Bool-cases (is_skipped f)) [
  | inl skipped ↦ rw skipped (entries_in-All fs tier root files)
  | inr kept ↦ elim (Option-cases (meta_of fs tier root f)) [
    | inl unfit ↦ rw (kept, unfit) (entries_in-All fs tier root files)
    | inr (m, fits) ↦
        rw (kept, fits)
          (meta_of-IsListed fs tier root f m kept fits, entries_in-All fs tier root files)
  ]
]

entries-All :
    (fs : Files) (tiers : List Text) (roots : List FilePath)
    → All (IsListed fs roots) (entries fs tiers roots)
unfolding entries
entries-All fs [] roots = tt
entries-All fs (tier ∷ tiers) [] = tt
entries-All fs (tier ∷ tiers) (root ∷ roots) =
    let later =
      All-map _ _ (entries fs tiers roots) (IsListed-later fs root roots)
        (entries-All fs tiers roots) in
    elim (Option-cases (fs.listing root)) [
      | inl missing ↦ rw missing later
      | inr (files, listed) ↦ rw listed (
          All-append _ (entries_in fs tier root files) (entries fs tiers roots)
            (All-map _ _ (entries_in fs tier root files) (IsListed-among fs root roots)
              (entries_in-All fs tier root files))
            later)
    ]

first_named-All :
    (Q : SkillMeta → Type 0) (name : Text) (ms : List SkillMeta) (m : SkillMeta)
    → All Q ms
    → first_named name ms ≡ some m
    → Q m × (m.name ≡ name)
unfolding first_named
first_named-All Q name [] m h e = cc
first_named-All Q name (x ∷ ms) m h e = elim (Bool-cases (text_eq name x.name)) [
  | inl t ↦
      let same : x ≡ m = ground arith in rw (← same) (h.0, sym ((text_eq_iff name x.name).0 t))
  | inr f ↦ first_named-All Q name ms m h.1 (ground arith)
]

-- The entry that a name stands for, if it stands for one.
abbrev pub IsFound : Files → List FilePath → Text → Option SkillMeta → Type 0
IsFound fs roots name none = Unit
IsFound fs roots name (some m) = IsListed fs roots m × (m.name ≡ name)

first_named-IsFound :
    (fs : Files) (roots : List FilePath) (name : Text) (ms : List SkillMeta)
    → All (IsListed fs roots) ms
    → IsFound fs roots name (first_named name ms)
first_named-IsFound fs roots name ms h = elim (Option-cases (first_named name ms)) [
  | inl missing ↦ rw missing tt
  | inr (m, found) ↦ rw found (first_named-All (IsListed fs roots) name ms m h found)
]

-- After `discover` a name stands for the first entry with that name, in the order of the roots and of
-- the files in each. That entry has this name, a description, and a file that lies in a root and in no
-- skipped directory, such as the one of unreviewed proposals.
pub discover_takes_first :
    (fs : Files) (r : Runner) (name : Text)
    → (lookup name (discover fs r).catalog ≡ first_named name (entries fs tier_names r.roots))
      × IsFound fs r.roots name (lookup name (discover fs r).catalog)
unfolding discover
discover_takes_first fs r name =
    let first : lookup name (discover fs r).catalog
        ≡ first_named name (entries fs tier_names r.roots) =
      unfold lookup in lookup-index_roots fs name tier_names r.roots [] in
    let named =
      first_named-IsFound fs r.roots name (entries fs tier_names r.roots)
        (entries-All fs tier_names r.roots) in
    (first, rw first named)
