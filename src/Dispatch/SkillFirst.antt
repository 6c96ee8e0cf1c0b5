-- ===== src/Dispatch/SkillFirst.antt =====
-- `_run_skill_first` and the routing in `react_execute`. What a skill's run gives is a record; `dumps`
-- is `json.dumps`. The reset of the activations is a call of the skill runner.
use labmate.Common.{
  ◌≤◌, ◌≡◌, refl, Bool, true, false, not, ◌&&◌, Option, none, some, List, [], ◌∷◌, ◌++◌,
  if◌then◌else◌, Text, codes, is_empty, take, join, text_eq, filter, length, length-take, arith,
  ◌⊎◌, inl, inr,
}
use labmate.Guards.Completion.{is_punt_answer, asserts_success, reconcile_ok}
use labmate.Guards.Completion.Honesty.{reconcile_ok_honest}
use labmate.Dispatch.{Answer}

-- The value of "result": missing or None, False, a dict whose "content" is a list, by the texts of
-- the list's elements (empty for one without a text), a string, or any other value.
pub data Payload : Type 0 where
  absent : Payload
  false_value : Payload
  contents : List Text → Payload
  plain_text : Text → Payload
  other : Payload

-- A missing text is the empty one.
pub record SkillResult : Type 0 where
  pub ok : Bool
  pub error : Text
  pub detail : Text
  pub result : Payload
  pub skill_name : Text

abbrev no_output : Text
no_output = codes "(no output)"

unfoldable pub texts_in : List Text → List Text
texts_in xs = filter (λ t. not (is_empty t)) xs

kept_on_success :
    (before after : Bool) (note text noted : Text)
    → is_empty note ≡ (if before then after else true)
    → (if after then (if is_empty note then text else noted) else text) ≡ text
kept_on_success before after note text noted h = ground arith

cut_either :
    (note text noted : Text)
    → length (if is_empty note then take 2000 text else take 2000 noted) ≤ 2000
cut_either note text noted = ground (arith, length-take 2000 text, length-take 2000 noted)

module _ (dumps : Payload → Text) where
  -- `inner` of a tool error.
  unfoldable pub inner_of : Payload → Text
  unfolding texts_in
  inner_of absent = []
  inner_of false_value = dumps false_value
  inner_of (contents xs) = join (codes "\n") (texts_in xs)
  inner_of (plain_text t) = dumps (plain_text t)
  inner_of other = dumps other

  unfoldable pub is_absent : Payload → Bool
  is_absent absent = true
  is_absent false_value = false
  is_absent (contents xs) = false
  is_absent (plain_text t) = false
  is_absent other = false

  unfoldable pub failure_text : SkillResult → Text
  unfolding inner_of is_absent
  failure_text r =
      let err = if is_empty r.error then codes "skill failed" else r.error in
      let inner = inner_of r.result in
      let text =
        if text_eq err (codes "tool_error") && not (is_absent r.result)
        then (if is_empty inner then err else err ++ (codes ": " ++ inner))
        else if is_empty r.detail
        then err
        else err ++ (codes ": " ++ r.detail) in
      take 2000 text

  unfoldable pub success_text : Payload → Text
  unfolding texts_in
  success_text absent = no_output
  success_text false_value = no_output
  success_text (contents xs) =
      if is_empty (texts_in xs) then no_output else join (codes "\n") (texts_in xs)
  success_text (plain_text t) = if is_empty t then no_output else t
  success_text other = dumps other

  unfoldable pub skill_text : SkillResult → Text
  skill_text r = if r.ok then success_text r.result else failure_text r

  module _ (lower : Text → Text) where
    -- `none` of the argument: there is no router, or its run raises or gives no dict.
    unfoldable pub run_skill_first : Option SkillResult → Option Answer
    run_skill_first none = none
    run_skill_first (some r) =
        let summary = take 2000 (skill_text r) in
        let (ok, note) = reconcile_ok lower r.ok summary false in
        some (record {
          summary = if is_empty note then summary else take 2000 (summary ++ (codes " " ++ note));
          ok = ok;
          tools_used = if is_empty r.skill_name then [] else r.skill_name ∷ [];
          tests_passed = false;
        })

    -- `always_react` is the sequencing mode "react", `editing` is `requires_editing(goal)`, and
    -- `looped` is what `_run_react_loop` returns.
    unfoldable pub react_execute : Bool → Bool → Option SkillResult → Answer → Answer
    react_execute always_react editing skilled looped =
        if not always_react && editing
        then looped
        else if always_react
        then looped
        else elim (run_skill_first skilled) [ none ↦ looped | some a ↦ a ]

    -- A goal that a skill answers, in place of the loop, does not need edits; it is a success exactly
    -- if the skill's run is one and its text, cut to 2000 characters, neither is a punt nor claims
    -- success; a success has that text as its summary, every summary has at most 2000 characters,
    -- and no tests count as passed.
    pub skill_answer_is_honest :
        (always_react editing : Bool) (r : SkillResult) (looped : Answer)
        → (react_execute always_react editing (some r) looped ≡ looped)
          ⊎ ((editing ≡ false)
              × ((react_execute always_react editing (some r) looped).ok ≡ (
                  r.ok
                  && (not (is_punt_answer lower (take 2000 (skill_text r)))
                      && not (asserts_success lower (take 2000 (skill_text r))))))
              × ((if (react_execute always_react editing (some r) looped).ok
                    then (react_execute always_react editing (some r) looped).summary
                    else take 2000 (skill_text r))
                  ≡ take 2000 (skill_text r))
              × (length (react_execute always_react editing (some r) looped).summary ≤ 2000)
              × ((react_execute always_react editing (some r) looped).tests_passed ≡ false))
    unfolding react_execute run_skill_first
    skill_answer_is_honest true editing r looped = inl (ground arith)
    skill_answer_is_honest false true r looped = inl refl
    skill_answer_is_honest false false r looped =
        let text = take 2000 (skill_text r) in
        let note = (reconcile_ok lower r.ok text false).1 in
        let noted = text ++ (codes " " ++ note) in
        let (verdict, silent) = reconcile_ok_honest lower r.ok text false in
        let is_ok : (reconcile_ok lower r.ok text false).0
            ≡ (r.ok && (not (is_punt_answer lower text) && not (asserts_success lower text))) =
          ground (arith, verdict) in
        inr (
          refl,
          is_ok,
          kept_on_success r.ok (reconcile_ok lower r.ok text false).0 note text (take 2000 noted)
              silent,
          cut_either note (skill_text r) noted,
          refl,
        )
