-- ===== src/SkillRouter.antt =====
-- services/orchestrator/skill_router.py: the choice of a skill by votes of the model, the plan of a tool
-- call and its dispatch. What the model answers, what polling finds and the clock are inputs.
pub mod Votes
pub mod Majority
mod Examples
use labmate.Common.{
  ℕ, ◌+◌, ◌*◌, Bool, true, false, not, ◌&&◌, Option, none, some, List, [], ◌∷◌, if◌then◌else◌, Text,
  is_empty, Dict, lookup, insert, has_key, all, text_eq, leb, ltb, codes, length, ◌>>=◌,
}
use labmate.Graph.Planning.{RouteResult}
use labmate.SkillRunner.{
  Files, Runner, SkillMeta, Response, skill_body, already_loaded, limit_reached, raised,
  unknown_skill, not_confined, load_skill, nonempty,
}

-- A tool call of the model: the tool's name, and the `name` of its arguments, if they are JSON.
pub record ToolCall : Type 0 where
  pub function_name : Text
  pub skill_name : Option Text

unfoldable pub select_attempts : ℕ
select_attempts = 3

-- The first tool call that loads a skill of the catalog. An exception, or an answer without tool calls,
-- is the empty list.
unfoldable pub sample_select : Dict SkillMeta → List ToolCall → Option Text
sample_select catalog [] = none
sample_select catalog (tc ∷ tcs) =
    let rest = sample_select catalog tcs in
    if not (text_eq tc.function_name (codes "load_skill"))
    then rest
    else elim (nonempty tc.skill_name) [
      | none ↦ rest
      | some name ↦ if has_key name catalog then some name else rest
    ]

-- The picks that are not None.
unfoldable pub present : List (Option Text) → List Text
present [] = []
present (none ∷ ps) = present ps
present (some p ∷ ps) = p ∷ present ps

-- `select`: the picks of the samples, and the one of the tiebreak.
unfoldable pub select_from : List Text → Option Text → Option Text
select_from [] tiebreak = none
select_from (p ∷ ps) tiebreak = if all (λ q. text_eq p q) ps then some p else tiebreak

unfoldable pub select : List (Option Text) → Option Text → Option Text
select picks tiebreak = select_from (present picks) tiebreak

-- `Counter(hits)`, in the order of first occurrence.
abbrev pub votes_of : Text → Dict ℕ → ℕ
votes_of k d = elim (lookup k d) [ none ↦ 0 | some n ↦ n ]

unfoldable pub count_votes : List Text → Dict ℕ → Dict ℕ
count_votes [] d = d
count_votes (p ∷ ps) d = count_votes ps (insert p (votes_of p d + 1) d)

-- `most_common(1)`: the first entry with the most votes.
unfoldable pub most_common_from : Text × ℕ → Dict ℕ → Text × ℕ
most_common_from best [] = best
most_common_from best (e ∷ es) = most_common_from (if ltb best.1 e.1 then e else best) es

-- The winner and its votes; the confidence is the votes of SELECT_ATTEMPTS.
unfoldable pub confidence_check : List (Option Text) → Option (Text × ℕ)
confidence_check picks = elim (count_votes (present picks) []) [
  | [] ↦ none
  | e ∷ es ↦ some (most_common_from e es)
]

-- `votes / SELECT_ATTEMPTS >= 2 / 3`, as fractions.
abbrev pub is_confident : ℕ → Bool
is_confident votes = leb (2 * select_attempts) (votes * 3)

-- `pregate` is none where it is off, and otherwise whether a skill is plausible.
unfoldable pub route : Option Bool → Text → List (Option Text) → RouteResult
route pregate task picks =
    let unrouted : RouteResult = record { skills = []; sub_intents = task ∷ [] } in
    let voted : RouteResult = elim (confidence_check picks) [
      | none ↦ unrouted
      | some w ↦
          if is_confident w.1
          then record { skills = w.0 ∷ []; sub_intents = task ∷ [] }
          else unrouted
    ] in
    elim pregate [ none ↦ voted | some plausible ↦ if plausible then voted else unrouted ]

-- The body of a loaded skill: the answer's, or the cache's.
unfoldable pub body_for : Text → Response → Runner → Option Text
body_for name (skill_body n body) r = elim (nonempty (some body)) [
  | none ↦ lookup name r.loaded
  | some b ↦ some b
]
body_for name (already_loaded n) r = lookup name r.loaded
body_for name _ r = none

-- What a sample of the planner says: nothing that can be used, or a tool.
unfoldable pub first_plan : List (Option Text) → Option Text
first_plan [] = none
first_plan (reply ∷ replies) =
    let rest = first_plan replies in elim (nonempty reply) [ none ↦ rest | some tool ↦ some tool ]

-- `plan_tool_call`: the runner after it, and the tool.
unfoldable pub plan_tool_call : Files → Text → List (Option Text) → Runner → Runner × Option Text
plan_tool_call fs name replies r =
    let (r', response) = load_skill fs name r in
    (r', nonempty (body_for name response r') >>= λ body. first_plan replies)

-- What a poll of the result finds, and whether the time is up then.
pub data Poll : Type 0 where
  nothing : Bool → Poll
  malformed broken : Poll
  found : Text → Poll

pub data Executed : Type 0 where
  answered : Text → Executed
  malformed_result timeout failed : Executed

-- The polling of `execute`; none if the polls end before it does.
unfoldable pub poll_result : List Poll → Option Executed
poll_result [] = none
poll_result (nothing is_late ∷ polls) =
    let rest = poll_result polls in if is_late then some timeout else rest
poll_result (malformed ∷ polls) = some malformed_result
poll_result (broken ∷ polls) = some failed
poll_result (found r ∷ polls) = some (answered r)

-- `run`: select, plan, execute; the last is none for None.
unfoldable pub run :
    Files
    → List (Option Text)
    → Option Text
    → List (Option Text)
    → List Poll
    → Runner
    → Runner × Option Executed
run fs picks tiebreak replies polls r = elim (select picks tiebreak) [
  | none ↦ (r, none)
  | some name ↦
      let (r', tool) = plan_tool_call fs name replies r in (r', tool >>= λ t. poll_result polls)
]
