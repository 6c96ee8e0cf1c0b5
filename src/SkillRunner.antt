-- ===== src/SkillRunner.antt =====
-- services/skill_runner/skill_runner.py: the catalog of skills and their activation. A path is the
-- list of its parts. The files are a parameter of each call, so that they may change between calls.
pub mod Catalog
pub mod Activation
pub mod Prompt
mod Examples
use labmate.Common.{
  ℕ, ◌+◌, Bool, true, false, not, ◌&&◌, ◌||◌, Option, none, some, List, [], ◌∷◌, if◌then◌else◌,
  Text, codes, is_empty, Dict, lookup, insert, has_key, any, member, text_eq, text_lt, ltb,
}

abbrev pub FilePath : Type 0
FilePath = List Text

-- What `frontmatter.parse` gives of a file: the keys name and description, and the body.
pub record Document : Type 0 where
  pub name : Option Text
  pub description : Option Text
  pub body : Text

-- The files: `resolve` follows links, `listing` is the sorted `rglob("SKILL.md")` of a directory, none
-- where there is no directory, and `parse` is none where reading or parsing raises.
pub record Files : Type 0 where
  pub resolve : FilePath → FilePath
  pub listing : FilePath → Option (List FilePath)
  pub parse : FilePath → Option Document

pub record SkillMeta : Type 0 where
  pub name : Text
  pub description : Text
  pub path : FilePath
  pub tier : Text

pub record Runner : Type 0 where
  pub roots : List FilePath
  pub catalog : Dict SkillMeta
  pub loaded : Dict Text
  pub max_chain : ℕ
  pub activations : ℕ

unfoldable pub tier_names : List Text
tier_names = codes "project" ∷ codes "personal" ∷ codes "bundled" ∷ []

unfoldable pub skipped_parts : List Text
skipped_parts = codes "node_modules" ∷ codes ".git" ∷ codes "dist" ∷ codes ".proposed" ∷ []

-- `real.is_relative_to(root)`
unfoldable pub is_relative_to : FilePath → FilePath → Bool
is_relative_to path [] = true
is_relative_to [] (r ∷ root) = false
is_relative_to (p ∷ path) (r ∷ root) = text_eq p r && is_relative_to path root

unfoldable pub within : Files → FilePath → List FilePath → Bool
within fs path roots = any (λ r. is_relative_to (fs.resolve path) (fs.resolve r)) roots

-- A text that is there and not empty.
unfoldable pub nonempty : Option Text → Option Text
nonempty none = none
nonempty (some t) = if is_empty t then none else some t

-- The entry of a file, if it belongs in the catalog: it lies in its root, it parses, and it has a name
-- and a description.
unfoldable pub meta_of : Files → Text → FilePath → FilePath → Option SkillMeta
meta_of fs tier root skill_md =
    let real = fs.resolve skill_md in
    if not (within fs real (root ∷ [])) then none else elim (fs.parse real) [
      | none ↦ none
      | some doc ↦ elim (nonempty doc.name) [
        | none ↦ none
        | some name ↦ elim (nonempty doc.description) [
          | none ↦ none
          | some desc ↦ some (record { name = name; description = desc; path = real; tier = tier })
        ]
      ]
    ]

-- `_index`: the first entry of a name stays.
unfoldable pub index : Files → Text → FilePath → FilePath → Dict SkillMeta → Dict SkillMeta
index fs tier root skill_md catalog = elim (meta_of fs tier root skill_md) [
  | none ↦ catalog
  | some meta ↦ if has_key meta.name catalog then catalog else insert meta.name meta catalog
]

abbrev pub is_skipped : FilePath → Bool
is_skipped path = any (λ p. member p skipped_parts) path

-- The loop over the files of one root.
unfoldable pub index_all : Files → Text → FilePath → List FilePath → Dict SkillMeta → Dict SkillMeta
index_all fs tier root [] catalog = catalog
index_all fs tier root (f ∷ files) catalog =
    index_all fs tier root files (if is_skipped f then catalog else index fs tier root f catalog)

-- The loop over the roots with their tiers, which ends with the shorter list.
unfoldable pub index_roots : Files → List Text → List FilePath → Dict SkillMeta → Dict SkillMeta
index_roots fs [] roots catalog = catalog
index_roots fs (tier ∷ tiers) [] catalog = catalog
index_roots fs (tier ∷ tiers) (root ∷ roots) catalog =
    index_roots fs tiers roots (elim (fs.listing root) [
      | none ↦ catalog
      | some files ↦ index_all fs tier root files catalog
    ])

unfoldable pub discover : Files → Runner → Runner
discover fs r = record r { catalog = index_roots fs tier_names r.roots [] }

unfoldable pub reset_activations : Runner → Runner
reset_activations r = record r { activations = 0 }

unfoldable pub reload_catalog : Files → Runner → Runner
reload_catalog = discover

-- The answer to `load_skill`; `raised` is an exception of reading the file.
pub data Response : Type 0 where
  limit_reached raised : Response
  unknown_skill : Text → List Text → Response
  already_loaded : Text → Response
  not_confined : Text → Response
  skill_body : Text → Text → Response

-- `sorted(names)`
unfoldable pub insert_name : Text → List Text → List Text
insert_name n [] = n ∷ []
insert_name n (m ∷ ms) = let rest = insert_name n ms in if text_lt m n then m ∷ rest else n ∷ m ∷ ms

unfoldable pub sort_names : List Text → List Text
sort_names [] = []
sort_names (n ∷ ns) = insert_name n (sort_names ns)

abbrev pub names_of : Dict SkillMeta → List Text
names_of [] = []
names_of ((k, m) ∷ catalog) = k ∷ names_of catalog

-- The answer to a load within the limit, and the body to remember.
unfoldable pub activate : Files → Runner → Text → Response
activate fs r name = elim (lookup name r.catalog) [
  | none ↦ unknown_skill name (sort_names (names_of r.catalog))
  | some meta ↦
      if has_key name r.loaded
      then already_loaded name
      else if not (within fs meta.path r.roots)
      then not_confined name
      else elim (fs.parse meta.path) [ none ↦ raised | some doc ↦ skill_body name doc.body ]
]

-- The runner after an answer.
unfoldable pub remember : Response → Runner → Runner
remember (skill_body name body) r = record r { loaded = insert name body r.loaded }
remember _ r = r

unfoldable pub load_skill : Files → Text → Runner → Runner × Response
load_skill fs name r =
    let counted = record r { activations = r.activations + 1 } in
    if ltb r.max_chain counted.activations
    then (counted, limit_reached)
    else (remember (activate fs counted name) counted, activate fs counted name)
