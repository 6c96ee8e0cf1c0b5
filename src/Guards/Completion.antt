-- ===== src/Guards/Completion.antt =====
-- services/orchestrator/completion_guard.py. `lower` is `str.lower`, which the theorems leave open.
pub mod Honesty
use labmate.Common.{
  ℕ, Bool, true, false, not, ◌&&◌, ◌||◌, Option, none, some, List, [], ◌∷◌, ◌++◌, if◌then◌else◌,
  Text, codes, is_empty, is_space, strip, contains_any, contains, any,
}

unfoldable pub punt_phrases : List Text
punt_phrases =
    codes "too large"
    ∷ codes "is too long"
    ∷ codes "too long"
    ∷ codes "unable to"
    ∷ codes "could not"
    ∷ codes "couldn't"
    ∷ codes "cannot process"
    ∷ codes "can't process"
    ∷ codes "provide a snippet"
    ∷ codes "provide a smaller"
    ∷ codes "please break"
    ∷ codes "break the file"
    ∷ codes "break it into"
    ∷ codes "smaller snippet"
    ∷ codes "smaller portion"
    ∷ codes "smaller part"
    ∷ []

unfoldable pub success_phrases : List Text
success_phrases =
    codes "i fixed"
    ∷ codes "i have fixed"
    ∷ codes "the bug is fixed"
    ∷ codes "bug is fixed"
    ∷ codes "resolved the bug"
    ∷ codes "i resolved"
    ∷ codes "tests now pass"
    ∷ codes "now passing"
    ∷ codes "all tests pass"
    ∷ codes "tests pass"
    ∷ codes "tests are now passing"
    ∷ []

-- `re.sub(r"\s+", " ", s)`
unfoldable pub collapse : Text → Text
unfolding is_space
collapse [] = []
collapse (c ∷ []) = if is_space c then 32 ∷ [] else c ∷ []
collapse (c ∷ d ∷ s) =
    let rest = collapse (d ∷ s) in
    if is_space c then (if is_space d then rest else 32 ∷ rest) else c ∷ rest

-- The answer of a punt that was ok, and of a claim that no test run backs.
unfoldable pub punt_note : Text
punt_note =
    codes
      "[completion-guard: answer is a punt (could not complete / input too large), so this is NOT a success]"

unfoldable pub claim_note : Text
claim_note =
    codes "[completion-guard: success was claimed but NOT verified by a passing test run this turn]"

-- `error` of a downgrade: the error that is there, or else the note. The last resort of the source
-- stands where the note is empty.
unfoldable pub error_or : Option Text → Text → Text
error_or none note = if is_empty note then codes "final answer reconciled to not-success" else note
error_or (some e) note =
    if is_empty e
    then (if is_empty note then codes "final answer reconciled to not-success" else note)
    else e

module _ (lower : Text → Text) where
  unfoldable pub normalize : Text → Text
  unfolding collapse
  normalize s = lower (strip (collapse s))

  unfoldable pub is_punt_answer : Text → Bool
  is_punt_answer s =
      if is_empty (normalize s) then false else contains_any punt_phrases (normalize s)

  unfoldable pub asserts_success : Text → Bool
  asserts_success s =
      if is_empty (normalize s) then false else contains_any success_phrases (normalize s)

  unfoldable pub reconcile_ok : Bool → Text → Bool → Bool × Text
  reconcile_ok ok answer tests_passed =
      if is_punt_answer answer
      then (false, if not ok then [] else punt_note)
      else if asserts_success answer && not tests_passed
      then (false, if not ok then [] else claim_note)
      else (ok, [])

  -- The corrected `ok`, the corrected error and the note.
  unfoldable pub reconcile_final_answer :
      Bool → Option Text → Text → Bool → Bool × (Option Text × Text)
  reconcile_final_answer ok error answer tests_passed =
      let (new_ok, note) = reconcile_ok ok answer tests_passed in
      if (if ok then new_ok else not new_ok)
      then (ok, (error, note))
      else (new_ok, (some (error_or error note), note))

-- `edited` is whether a file was edited.
unfoldable pub reconcile_cutoff : Text → Bool → Bool → Bool × Text
reconcile_cutoff reason edited tests_passed =
    if edited && tests_passed
    then (
      true,
      codes "Completed: edits were applied and tests passed; the loop stopped on "
          ++ (reason ++ codes " before an explicit finish."),
    )
    else (false, reason)
