-- ===== src/SkillRunner/Examples.antt =====
-- Runs and instances for the skill runner.
use labmate.Common.{
  contains, insert, ◌≤◌, ◌≡◌, ◌⊎◌, refl, true, false, some, List, [], ◌∷◌, ◌++◌, Text, codes,
  lookup, has_key, member, text_eq, arith,
}
use labmate.SkillRunner.Prompt.{
  before, tool_schema, first_sentence, IsReadable, offered_skill_loads,
}
use labmate.SkillRunner.{
  FilePath, Files, SkillMeta, Runner, tier_names, skipped_parts, is_relative_to, within, nonempty,
  meta_of, index, index_all, index_roots, discover, skill_body, limit_reached, already_loaded,
  load_skill, activate, remember, insert_name, sort_names, reset_activations,
}
use labmate.SkillRunner.Catalog.{entries, first_named, IsFound, discover_takes_first}
use labmate.SkillRunner.Activation.{
  Call, load, reset, run_calls, hands_out, count, body_handed_out_once,
}

abbrev project : FilePath
project = codes "p" ∷ []

abbrev bundled : FilePath
bundled = codes "b" ∷ []

-- Both roots have a skill "fmt"; the project has a draft as well.
abbrev files : Files
files = record {
  resolve = λ path. path;
  listing = λ root.
      some ((root ++ codes "fmt" ∷ []) ∷ (root ++ codes ".proposed" ∷ codes "new" ∷ []) ∷ []);
  parse = λ path. some (record {
    name = some (codes "fmt");
    description = some (codes "Formats. Fast.");
    body = codes "Run it.";
  });
}

abbrev empty_runner : Runner
empty_runner = record {
  roots = project ∷ bundled ∷ [];
  catalog = [];
  loaded = [];
  max_chain = 2;
  activations = 0;
}

abbrev fmt : SkillMeta
fmt = record {
  name = codes "fmt";
  description = codes "Formats. Fast.";
  path = project ++ codes "fmt" ∷ [];
  tier = codes "project";
}

project_wins : (discover files empty_runner).catalog ≡ (codes "fmt", fmt) ∷ []
unfolding discover index_roots tier_names index_all member skipped_parts text_eq index meta_of
    within is_relative_to nonempty has_key insert
project_wins = refl

abbrev runner : Runner
runner = record empty_runner { catalog = (codes "fmt", fmt) ∷ [] }

terse_line : first_sentence fmt.description ≡ codes "Formats."
unfolding first_sentence contains before
terse_line = refl

abbrev calls : List Call
calls =
    load files (codes "fmt")
    ∷ load files (codes "fmt")
    ∷ load files (codes "fmt")
    ∷ reset
    ∷ load files (codes "fmt")
    ∷ []

answers :
    (run_calls calls runner).1
    ≡ skill_body (codes "fmt") (codes "Run it.")
      ∷ already_loaded (codes "fmt")
      ∷ limit_reached
      ∷ already_loaded (codes "fmt")
      ∷ []
unfolding run_calls load_skill activate lookup text_eq has_key within is_relative_to remember insert
    reset_activations
answers = refl

discover_takes_first_example :
    (lookup (codes "fmt") (discover files empty_runner).catalog
      ≡ first_named (codes "fmt") (entries files tier_names empty_runner.roots))
    × IsFound files empty_runner.roots
        (codes "fmt")
        (lookup (codes "fmt") (discover files empty_runner).catalog)
discover_takes_first_example = discover_takes_first files empty_runner (codes "fmt")

body_handed_out_once_example : count (hands_out (codes "fmt")) (run_calls calls runner).1 ≤ 1
unfolding has_key
body_handed_out_once_example = body_handed_out_once calls runner (codes "fmt")

abbrev one_task : List Call
one_task = load files (codes "fmt") ∷ load files (codes "x") ∷ load files (codes "fmt") ∷ []

readable : IsReadable files runner (lookup (codes "fmt") runner.catalog)
unfolding lookup text_eq within is_relative_to
readable = (refl, _, refl)

offered : member (codes "fmt") (tool_schema [] runner) ≡ true
unfolding member tool_schema sort_names insert_name text_eq
offered = refl

offered_skill_loads_example :
    (has_key (codes "fmt") runner.catalog ≡ true)
    × (member (codes "fmt") [] ≡ false)
    × (((load_skill files (codes "fmt") runner).1 ≡ already_loaded (codes "fmt"))
        ⊎ ((body : Text) × ((load_skill files (codes "fmt") runner).1
              ≡ skill_body (codes "fmt") body)))
offered_skill_loads_example =
    offered_skill_loads files [] runner (codes "fmt") (omega arith) readable offered
