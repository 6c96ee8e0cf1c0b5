-- ===== src/SkillRunner/Activation.antt =====
-- Sequences of calls of the runner: the limit of a task, and the bodies that it hands out.
use labmate.Common.{
  ℕ, ◌+◌, ◌≤◌, ◌≡◌, refl, Bool, true, false, List, [], ◌∷◌, if◌then◌else◌, Text, has_key, text_eq,
  text_eq_iff, ltb, arith, Bool-cases, inl, inr, has_key-insert, all, ◌-◌, ◌||◌,
}
use labmate.SkillRunner.{
  Files, Runner, Response, limit_reached, skill_body, discover, reset_activations, reload_catalog,
  activate, remember, load_skill,
}

-- A call of the runner, with the files as they are then.
pub data Call : Type 0 where
  load : Files → Text → Call
  reset : Call
  reload : Files → Call

-- The runner after the calls, and what they answer.
unfoldable pub run_calls : List Call → Runner → Runner × List Response
run_calls [] r = (r, [])
run_calls (load fs name ∷ cs) r =
    let (r', answer) = load_skill fs name r in
    let (last, answers) = run_calls cs r' in (last, answer ∷ answers)
run_calls (reset ∷ cs) r = run_calls cs (reset_activations r)
run_calls (reload fs ∷ cs) r = run_calls cs (reload_catalog fs r)

-- The call does not start a task.
abbrev pub is_within_task : Call → Bool
is_within_task reset = false
is_within_task _ = true

-- The answer was given within the limit.
abbrev pub is_counted : Response → Bool
is_counted limit_reached = false
is_counted _ = true

abbrev pub count : (Response → Bool) → List Response → ℕ
count test [] = 0
count test (x ∷ xs) = let rest = count test xs in if test x then rest + 1 else rest

-- The answer hands out a body of this name.
unfoldable pub hands_out : Text → Response → Bool
hands_out name (skill_body n body) = text_eq name n
hands_out name _ = false

remember-keeps :
    (a : Response) (r : Runner)
    → ((remember a r).activations ≡ r.activations) × ((remember a r).max_chain ≡ r.max_chain)
unfolding remember
remember-keeps (skill_body name body) r = (refl, refl)
remember-keeps _ r = (refl, refl)

load_skill-counts :
    (fs : Files) (name : Text) (r : Runner)
    → ((load_skill fs name r).0.activations ≡ r.activations + 1)
      × ((load_skill fs name r).0.max_chain ≡ r.max_chain)
      × (is_counted (load_skill fs name r).1 ≡ true → r.activations + 1 ≤ r.max_chain)
unfolding load_skill
load_skill-counts fs name r = elim (Bool-cases (ltb r.max_chain (r.activations + 1))) [
  | inl over ↦
      (rw over, rw over, λ h. let never : false ≡ true = rw over at h in absurd (ground arith))
  | inr left ↦ (rw left (remember-keeps _ _).0, rw left (remember-keeps _ _).1, λ h. ground arith)
]

-- Within a task, the loads that are not turned down by the limit are at most what is left of it.
task_loads_at_most :
    (cs : List Call) (r : Runner)
    → all is_within_task cs ≡ true
    → count is_counted (run_calls cs r).1 ≤ r.max_chain - r.activations
unfolding run_calls reload_catalog discover
task_loads_at_most [] r h = omega arith
task_loads_at_most (load fs name ∷ cs) r h =
    let (acts, most, within) = load_skill-counts fs name r in
    let rest = task_loads_at_most cs (load_skill fs name r).0 h in
    elim (Bool-cases (is_counted (load_skill fs name r).1)) [
      | inl counted ↦ rw counted (omega (arith, acts, most, within counted, rest))
      | inr free ↦ rw free (omega (arith, acts, most, rest))
    ]
task_loads_at_most (reset ∷ cs) r h = absurd (ground arith)
task_loads_at_most (reload fs ∷ cs) r h = task_loads_at_most cs (reload_catalog fs r) h

remember-has_key :
    (a : Response) (r : Runner) (name : Text)
    → has_key name (remember a r).loaded ≡ (hands_out name a || has_key name r.loaded)
unfolding remember hands_out
remember-has_key (skill_body n body) r name = has_key-insert n name body r.loaded
remember-has_key _ r name = refl

activate-skill_body :
    (fs : Files) (r : Runner) (n k body : Text)
    → activate fs r n ≡ skill_body k body
    → (n ≡ k) × (has_key n r.loaded ≡ false)
unfolding activate
activate-skill_body fs r n k body e = (ground arith, ground arith)

-- A body is handed out only for a name that is not in the cache.
activate_fresh :
    (fs : Files) (r : Runner) (n name : Text) (a : Response)
    → activate fs r n ≡ a
    → hands_out name a ≡ true
    → has_key name r.loaded ≡ false
unfolding hands_out
activate_fresh fs r n name (skill_body k body) e h =
    let (same, fresh) = activate-skill_body fs r n k body e in
    let is_k : name ≡ k = (text_eq_iff name k).0 h in rw (is_k, ← same) fresh
activate_fresh fs r n name _ e h = absurd (ground arith)

load_skill-has_key :
    (fs : Files) (n name : Text) (r : Runner)
    → (has_key name (load_skill fs n r).0.loaded
        ≡ (hands_out name (load_skill fs n r).1 || has_key name r.loaded))
      × (hands_out name (load_skill fs n r).1 ≡ true → has_key name r.loaded ≡ false)
unfolding load_skill hands_out
load_skill-has_key fs n name r = elim (Bool-cases (ltb r.max_chain (r.activations + 1))) [
  | inl over ↦ (rw over, λ h. let never : false ≡ true = rw over at h in absurd (ground arith))
  | inr left ↦
      let r' = record r { activations = r.activations + 1 } in
      (
        rw left (remember-has_key (activate fs r' n) r' name),
        λ h. activate_fresh fs r' n name (activate fs r' n) refl (rw left at h),
      )
]

-- Over the life of a runner, across tasks and reloads of the catalog, the body of a skill is handed out
-- at most once, and not at all if it is already in the cache.
pub body_handed_out_once :
    (cs : List Call) (r : Runner) (name : Text)
    → count (hands_out name) (run_calls cs r).1 ≤ (if has_key name r.loaded then 0 else 1)
unfolding run_calls reset_activations reload_catalog discover
body_handed_out_once [] r name = omega arith
body_handed_out_once (load fs n ∷ cs) r name =
    let rest = body_handed_out_once cs (load_skill fs n r).0 name in
    let (keys, fresh) = load_skill-has_key fs n name r in
    elim (Bool-cases (hands_out name (load_skill fs n r).1)) [
      | inl out ↦ rw out (ground (arith, keys, fresh out, rest))
      | inr kept ↦ rw kept (ground (arith, keys, rest))
    ]
body_handed_out_once (reset ∷ cs) r name = body_handed_out_once cs (reset_activations r) name
body_handed_out_once (reload fs ∷ cs) r name = body_handed_out_once cs (reload_catalog fs r) name
