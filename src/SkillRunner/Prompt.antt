-- ===== src/SkillRunner/Prompt.antt =====
-- The catalog as the prompt and the tool schema show it.
use labmate.Common.{
  ◌+◌, ◌<◌, ◌≡◌, ◌⊎◌, refl, true, false, not, ◌||◌, ◌&&◌, Option, none, some, List, [], ◌∷◌, ◌++◌,
  if◌then◌else◌, Text, codes, Dict, lookup, has_key, member, text_eq, text_eq_iff, text_lt, ltb,
  starts_with, contains, filter, join, take, words, arith, Option-cases, Bool-cases, inl, inr,
  has_key-lookup, ap, sym, ◌∙◌, ◌>>=◌,
}
use labmate.SkillRunner.{
  Files, SkillMeta, Runner, already_loaded, skill_body, within, insert_name, sort_names, names_of,
  activate, load_skill, Document,
}

-- `text.split(sep)[0]`
unfoldable pub before : Text → Text → Text
before sep [] = []
before sep (c ∷ s) = let rest = before sep s in if starts_with sep (c ∷ s) then [] else c ∷ rest

unfoldable pub first_sentence : Text → Text
first_sentence description =
    if contains (codes ". ") description
    then before (codes ". ") description ++ codes "."
    else if contains (codes ".") description
    then before (codes ".") description ++ codes "."
    else join (codes " ") (take 12 (words description))

-- `none` is the ValueError of an unknown mode.
unfoldable pub render_catalog_line : Text → Text → Text → Option Text
render_catalog_line name description mode =
    if text_eq mode (codes "full")
    then some (codes "- " ++ (name ++ (codes ": " ++ description)))
    else if text_eq mode (codes "terse")
    then some (codes "- " ++ (name ++ (codes ": " ++ first_sentence description)))
    else if text_eq mode (codes "names")
    then some (codes "- " ++ name)
    else none

-- `sorted(metas, key=name)`
unfoldable pub insert_meta : SkillMeta → List SkillMeta → List SkillMeta
insert_meta m [] = m ∷ []
insert_meta m (x ∷ xs) =
    let rest = insert_meta m xs in if text_lt x.name m.name then x ∷ rest else m ∷ x ∷ xs

unfoldable pub sort_metas : List SkillMeta → List SkillMeta
sort_metas [] = []
sort_metas (m ∷ ms) = insert_meta m (sort_metas ms)

abbrev pub metas_of : Dict SkillMeta → List SkillMeta
metas_of [] = []
metas_of ((k, m) ∷ catalog) = m ∷ metas_of catalog

unfoldable pub render_all : Text → List SkillMeta → Option (List Text)
render_all mode [] = some []
render_all mode (m ∷ ms) = do
  line ← render_catalog_line m.name m.description mode
  rest ← render_all mode ms
  some (line ∷ rest)

unfoldable pub shown_metas : List Text → Runner → List SkillMeta
shown_metas exclude r =
    filter (λ (m : SkillMeta). not (member m.name exclude)) (sort_metas (metas_of r.catalog))

unfoldable pub catalog_prompt : Text → List Text → Runner → Option Text
catalog_prompt mode exclude r = do
  lines ← render_all mode (shown_metas exclude r)
  some (
      join (codes "\n") (codes "Available skills (call load_skill(name) to activate one):" ∷ lines))

-- The names that the schema of the tool load_skill allows.
unfoldable pub tool_schema : List Text → Runner → List Text
tool_schema exclude r = sort_names (filter (λ n. not (member n exclude)) (names_of r.catalog))

member-insert_name :
    (k n : Text) (ns : List Text) → member k (insert_name n ns) ≡ (text_eq k n || member k ns)
unfolding member insert_name
member-insert_name k n [] = refl
member-insert_name k n (m ∷ ms) = ground (arith, member-insert_name k n ms)

member-sort_names : (k : Text) (ns : List Text) → member k (sort_names ns) ≡ member k ns
unfolding member sort_names
member-sort_names k [] = refl
member-sort_names k (n ∷ ns) =
    member-insert_name k n (sort_names ns) ∙ ap (λ b. text_eq k n || b) (member-sort_names k ns)

member-names_of :
    (k : Text) (exclude : List Text) (catalog : Dict SkillMeta)
    → member k (filter (λ n. not (member n exclude)) (names_of catalog))
      ≡ (has_key k catalog && not (member k exclude))
unfolding member has_key
member-names_of k exclude [] = refl
member-names_of k exclude ((j, m) ∷ catalog) =
    ground (arith, member-names_of k exclude catalog, text_eq_iff k j)

-- The file of an entry can be loaded: it is still confined and readable.
abbrev pub IsReadable : Files → Runner → Option SkillMeta → Type 0
IsReadable fs r none = Unit
IsReadable fs r (some m) =
    (within fs m.path r.roots ≡ true) × (doc : Document) × (fs.parse m.path ≡ some doc)

activate_readable :
    (fs : Files) (r : Runner) (name : Text) (m : SkillMeta)
    → lookup name r.catalog ≡ some m
    → IsReadable fs r (some m)
    → (activate fs r name ≡ already_loaded name)
      ⊎ ((body : Text) × (activate fs r name ≡ skill_body name body))
unfolding activate
activate_readable fs r name m found (confined, doc, parsed) =
    elim (Bool-cases (has_key name r.loaded)) [
      | inl known ↦ inl (ground arith)
      | inr fresh ↦ inr (doc.body, ground arith)
    ]

-- The schema of the tool offers only names of the catalog that are not excluded, and a call for an
-- offered name within the limit, whose file is still confined and readable, answers with its body, or
-- that it is already loaded.
pub offered_skill_loads :
    (fs : Files) (exclude : List Text) (r : Runner) (name : Text)
    → r.activations < r.max_chain
    → IsReadable fs r (lookup name r.catalog)
    → member name (tool_schema exclude r) ≡ true
    → (has_key name r.catalog ≡ true)
      × (member name exclude ≡ false)
      × (((load_skill fs name r).1 ≡ already_loaded name)
          ⊎ ((body : Text) × ((load_skill fs name r).1 ≡ skill_body name body)))
offered_skill_loads fs exclude r name left readable offered =
    let listed : (has_key name r.catalog && not (member name exclude)) ≡ true =
      sym (member-names_of name exclude r.catalog)
      ∙ sym (member-sort_names name (filter (λ n. not (member n exclude)) (names_of r.catalog)))
      ∙ (unfold tool_schema in offered) in
    let has : has_key name r.catalog ≡ true = ground arith in
    elim (Option-cases (lookup name r.catalog)) [
      | inl missing ↦ absurd (ground (arith, has_key-lookup name r.catalog))
      | inr (m, found) ↦ (
        has,
        ground arith,
        unfold load_skill in
            let within_limit : ltb r.max_chain (r.activations + 1) ≡ false = ground arith in
            rw within_limit (
              activate_readable fs (record r { activations = r.activations + 1 }) name m found
                (rw found at readable)),
      )
    ]
