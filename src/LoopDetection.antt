-- ===== src/LoopDetection.antt =====
-- services/orchestrator/loop_detection.py: the detector of repeated tool calls. `sigs` is oldest
-- first, as in the source. A negative limit answers as 0 does.
pub mod Repeats
pub mod Progress
pub mod Halting
mod Examples
use labmate.Common.{
  ℕ, ◌+◌, ◌-◌, ◌*◌, Bool, true, false, not, ◌&&◌, Option, none, some, List, [], ◌∷◌, ◌++◌, length,
  drop, take, all, ltb, leb, ◌==◌, if◌then◌else◌, Text, codes, member, arith,
}

unfoldable pub mutating_tools : List Text
mutating_tools = codes "write_file" ∷ codes "call_skill_tool" ∷ []

-- `LOOP_REPEAT_LIMIT` and `LOOP_REPEAT_LIMIT_MUTATING`, read from the environment.
pub record Limits : Type 0 where
  pub repeat_limit : ℕ
  pub repeat_limit_mutating : ℕ

unfoldable pub repeat_limit_for : Limits → Text → ℕ
unfolding mutating_tools
repeat_limit_for l name =
    if member name mutating_tools then l.repeat_limit_mutating else l.repeat_limit

pub data Reason : Type 0 where
  unset repeat cycle : Reason

pub record LoopDetector : Type 0 where
  pub repeat_limit : ℕ
  pub cycle_window : ℕ
  pub sigs : List Text
  pub reason : Reason

unfoldable pub new_detector : ℕ → ℕ → LoopDetector
new_detector limit window = record {
  repeat_limit = limit;
  cycle_window = window;
  sigs = [];
  reason = unset;
}

unfoldable pub reset : LoopDetector → LoopDetector
reset d = record d { sigs = []; reason = unset }

-- `xs[-n:]`; for `n` 0 this is the whole list, as in Python.
unfoldable pub last_slice {ℓ} : {A : Type ℓ} → ℕ → List A → List A
last_slice n xs = if n == 0 then xs else drop (length xs - n) xs

-- `xs[:-n]`; for `n` 0 this is the empty list, as in Python.
unfoldable pub but_last_slice {ℓ} : {A : Type ℓ} → ℕ → List A → List A
but_last_slice n xs = if n == 0 then [] else take (length xs - n) xs

-- The elements of `set(xs)`, each once.
unfoldable pub distinct : List Text → List Text
distinct [] = []
distinct (x ∷ xs) = let rest = distinct xs in if member x rest then rest else x ∷ rest

-- The second half of `should_break`: a short cycle with nothing new in it.
unfoldable pub is_cycle : LoopDetector → Bool
unfolding last_slice but_last_slice distinct
is_cycle d =
    let window = last_slice d.cycle_window d.sigs in
    let recent = last_slice d.repeat_limit d.sigs in
    let earlier = but_last_slice d.repeat_limit d.sigs in
    leb (2 * d.repeat_limit) (length window)
    && (leb (length (distinct window)) d.repeat_limit && all (λ s. member s earlier) recent)

-- `repeat_limit` of the call, or the detector's own.
unfoldable pub threshold : LoopDetector → Option ℕ → ℕ
threshold d none = d.repeat_limit
threshold d (some n) = n

unfoldable pub is_repeat : LoopDetector → ℕ → Bool
unfolding last_slice distinct
is_repeat d n = length (distinct (last_slice n d.sigs)) == 1

unfoldable pub should_break : LoopDetector → Option ℕ → LoopDetector × Bool
unfolding threshold
should_break d limit =
    let n = threshold d limit in
    if ltb n 1
    then (d, false)
    else if ltb (length d.sigs) n
    then (d, false)
    else if is_repeat d n
    then (record d { reason = repeat }, true)
    else if is_cycle d
    then (record d { reason = cycle }, true)
    else (d, false)

unfoldable pub record_signature : LoopDetector → Text → Option ℕ → LoopDetector × Bool
record_signature d s limit = should_break (record d { sigs = d.sigs ++ s ∷ [] }) limit
