-- ===== src/Checkpoint/Examples.antt =====
-- Runs and instances for the checkpoints: the elements of lists are texts, and floats are natural
-- numbers of seconds.
use labmate.Common.{
  ℕ, ◌≡◌, refl, Bool, true, false, not, Option, none, some, List, [], ◌∷◌, ◌++◌, if◌then◌else◌,
  Text, codes, is_empty, map, ◌==◌,
}
use labmate.Checkpoint.{
  Value, null, boolean, whole, real, string, items, LoopCheckpoint, Builtins, to_dict, from_dict,
}
use labmate.Checkpoint.Resume.{IsPython, from_dict-to_dict}

abbrev Doc : Type 0
Doc = Value Text ℕ

abbrev int_of : Doc → Option ℕ
int_of null = none
int_of (boolean b) = some (if b then 1 else 0)
int_of (whole n) = some n
int_of (real f) = some f
int_of (string s) = none
int_of (items xs) = none

abbrev float_of : Doc → Option ℕ
float_of null = none
float_of (boolean b) = some (if b then 1 else 0)
float_of (whole n) = some n
float_of (real f) = some f
float_of (string s) = none
float_of (items xs) = none

abbrev list_of : Doc → Option (List Text)
list_of null = none
list_of (boolean b) = none
list_of (whole n) = none
list_of (real f) = none
list_of (string s) = some (map (λ c. c ∷ []) s)
list_of (items xs) = some xs

abbrev is_truthy : Doc → Bool
is_truthy null = false
is_truthy (boolean b) = b
is_truthy (whole n) = not (n == 0)
is_truthy (real f) = not (f == 0)
is_truthy (string s) = not (is_empty s)
is_truthy (items xs) = not (is_empty xs)

abbrev py : Builtins Text ℕ
py = record {
  to_int = int_of;
  to_float = float_of;
  to_list = list_of;
  truthy = is_truthy;
  zero_point_zero = 0;
}

py-IsPython : IsPython py
py-IsPython = record {
  to_int-whole = λ n. refl;
  to_float-real = λ f. refl;
  to_list-items = λ xs. refl;
  truthy-boolean = λ b. refl;
  truthy-items = λ xs. refl;
}

abbrev third_turn : LoopCheckpoint Text ℕ
third_turn = record {
  task_id = codes "t1";
  goal = codes "fix it";
  messages = codes "hello" ∷ [];
  used = 3;
  absolute_turns = 4;
  grace_used = false;
  edited_files = codes "a.py" ∷ [];
  tests_passed = true;
  verify_nudges_used = 1;
  loop_signatures = [];
  tools_used = codes "grep" ∷ [];
  loaded_skills = [];
  start_monotonic_offset = 12;
  turn = 3;
}

from_dict-to_dict_example :
    from_dict py (some (to_dict third_turn ++ (codes "_id", null) ∷ [])) ≡ some third_turn
from_dict-to_dict_example = from_dict-to_dict py py-IsPython third_turn ((codes "_id", null) ∷ [])
