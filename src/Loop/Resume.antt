-- ===== src/Loop/Resume.antt =====
-- The checkpoint of a turn, and the loop that starts from it: "Insertion A" and "Insertion B" of
-- `_run_react_loop`. A saved list holds messages or texts.
use labmate.Common.{
  ◌≡◌, refl, false, Option, none, some, List, [], ◌∷◌, if◌then◌else◌, Text, text_eq, text_eq_iff,
  map, arith, ap, ◌∙◌,
}
use labmate.Messages.{Message}
use labmate.Checkpoint.{LoopCheckpoint, Builtins, Store, save, load}
use labmate.Checkpoint.Resume.{IsPython, load-save-clear}
use labmate.Guards.Finish.{sorted_names}
use labmate.Loop.{LoopState}

pub data Item : Type 0 where
  message_item : Message → Item
  text_item : Text → Item

unfoldable pub messages_of : List Item → List Message
messages_of [] = []
messages_of (message_item m ∷ xs) = m ∷ messages_of xs
messages_of (text_item t ∷ xs) = messages_of xs

unfoldable pub texts_of : List Item → List Text
texts_of [] = []
texts_of (message_item m ∷ xs) = texts_of xs
texts_of (text_item t ∷ xs) = t ∷ texts_of xs

messages_of-map : (ms : List Message) → messages_of (map message_item ms) ≡ ms
unfolding messages_of
messages_of-map [] = refl
messages_of-map (m ∷ ms) = ap (λ xs. m ∷ xs) (messages_of-map ms)

texts_of-map : (ts : List Text) → texts_of (map text_item ts) ≡ ts
unfolding texts_of
texts_of-map [] = refl
texts_of-map (t ∷ ts) = ap (λ xs. t ∷ xs) (texts_of-map ts)

-- The checkpoint that the end of a turn saves; `elapsed` is the time since the start of the goal.
unfoldable pub snapshot : {F : Type 0} → Text → Text → F → LoopState → LoopCheckpoint Item F
snapshot task_id goal elapsed s = record {
  task_id = task_id;
  goal = goal;
  messages = map message_item s.messages;
  used = s.budget.used;
  absolute_turns = s.budget.absolute_turns;
  grace_used = s.budget.grace_used;
  edited_files = map text_item (sorted_names s.verification.edited_files);
  tests_passed = s.verification.tests_passed;
  verify_nudges_used = s.verification.nudges_used;
  loop_signatures = map text_item s.detector.sigs;
  tools_used = map text_item s.tools_used;
  loaded_skills = map text_item (sorted_names s.loaded_skills);
  start_monotonic_offset = elapsed;
  turn = s.budget.used;
}

-- The state that a loop starts with, and its `start`, from the loaded checkpoint, the state of a new
-- loop and the time `now`; `minus` is the difference of floats.
unfoldable pub rehydrate :
    {F : Type 0} (minus : F → F → F)
    → Text
    → Option (LoopCheckpoint Item F)
    → LoopState
    → F
    → LoopState × F
rehydrate minus goal none s now = (s, now)
rehydrate minus goal (some cp) s now =
    if text_eq cp.goal goal
    then (
      record s {
        messages = messages_of cp.messages;
        budget = record (s.budget) {
          used = cp.used;
          absolute_turns = cp.absolute_turns;
          grace_used = cp.grace_used;
        };
        detector = record (s.detector) { sigs = texts_of cp.loop_signatures };
        verification = record (s.verification) {
          edited_files = texts_of cp.edited_files;
          tests_passed = cp.tests_passed;
          nudges_used = cp.verify_nudges_used;
        };
        tools_used = texts_of cp.tools_used;
        loaded_skills = texts_of cp.loaded_skills;
      },
      minus now cp.start_monotonic_offset,
    )
    else (s, now)

-- What of `s` a loop has that starts as `new` and resumes from the checkpoint of `s`.
abbrev pub carried_over : LoopState → LoopState → LoopState
carried_over s new = record new {
  messages = s.messages;
  budget = record (s.budget) { max_total = new.budget.max_total };
  detector = record (new.detector) { sigs = s.detector.sigs };
  verification = record (new.verification) {
    edited_files = sorted_names s.verification.edited_files;
    tests_passed = s.verification.tests_passed;
    nudges_used = s.verification.nudges_used;
  };
  tools_used = s.tools_used;
  loaded_skills = sorted_names s.loaded_skills;
}

rehydrate-snapshot :
    {F : Type 0} (minus : F → F → F) (task_id goal : Text) (elapsed now : F) (s new : LoopState)
    → rehydrate minus goal (some (snapshot task_id goal elapsed s)) new now
      ≡ (carried_over s new, minus now elapsed)
unfolding rehydrate snapshot
rehydrate-snapshot minus task_id goal elapsed now s new = ground (
  arith,
  text_eq_iff goal goal,
  messages_of-map s.messages,
  texts_of-map s.detector.sigs,
  texts_of-map s.tools_used,
  texts_of-map (sorted_names s.verification.edited_files),
  texts_of-map (sorted_names s.loaded_skills),
)

-- A loop that starts again for the same task and goal after a turn was saved goes on with the
-- messages, the budget, the signatures, the edited files, the verification, the nudges, the tools and
-- the skills of that turn, and counts the time from before now by what had passed at the save; the
-- rest is new. A loop with another goal starts from nothing, now.
pub resume_after_crash :
    {F : Type 0} (minus : F → F → F) (py : Builtins Item F) (python : IsPython py)
    (task_id goal other : Text) (elapsed now : F) (s new : LoopState) (mem : Store Item F)
    → text_eq goal other ≡ false
    → (rehydrate minus goal (load py task_id (save (snapshot task_id goal elapsed s) mem)) new now
        ≡ (carried_over s new, minus now elapsed))
      × (rehydrate minus other
            (load py task_id (save (snapshot task_id goal elapsed s) mem))
            new
            now
          ≡ (new, now))
resume_after_crash minus py python task_id goal other elapsed now s new mem differs =
    let cp = snapshot task_id goal elapsed s in
    let is_saved : load py task_id (save cp mem) ≡ some cp =
      (load-save-clear py python cp task_id task_id mem).0
      ∙ (unfold snapshot in ground (arith, text_eq_iff task_id task_id)) in
    (
      ap (λ o. rehydrate minus goal o new now) is_saved
          ∙ rehydrate-snapshot minus task_id goal elapsed now s new,
      ap (λ o. rehydrate minus other o new now) is_saved
          ∙ (unfold rehydrate snapshot in ground arith),
    )
