-- ===== src/Dispatch/Tokens.antt =====
-- The tokens of the budget and the results of the workers.
use labmate.Common.{
  ℕ, ◌+◌, ◌≡◌, refl, Bool, true, some, List, [], ◌∷◌, Text, text_eq, map, Dict, has_key,
  has_key-insert, all, arith, ◌∙◌, ap, inl, inr, Option-cases,
}
use mathlib.Core.Path.{subst}
use mathlib.Core.Option.{some-injective}
use labmate.Graph.Execute.{WorkerResult}
use labmate.Dispatch.{
  waiting, running, succeeded, failed, cancelled, Worker, Pool, Happening, worker_step,
  workers_step, results_after, pool_step, run_pool, subtasks, dispatched,
}

-- The tokens that a worker has taken and not given back.
abbrev pub held : Worker → ℕ
held w = elim w.phase [
  | waiting ↦ 0
  | running ↦ w.est_tokens
  | succeeded ↦ w.est_tokens
  | failed ↦ 0
  | cancelled ↦ 0
]

abbrev pub all_held : List Worker → ℕ
all_held [] = 0
all_held (w ∷ ws) = held w + all_held ws

-- The worker has a result, if it has returned or raised.
abbrev pub is_reported : Dict WorkerResult → Worker → Bool
is_reported results w = elim w.phase [
  | waiting ↦ true
  | running ↦ true
  | succeeded ↦ has_key w.id results
  | failed ↦ has_key w.id results
  | cancelled ↦ true
]

worker_step-held :
    (e : Happening) (w : Worker) (n : ℕ) (o : Worker × ℕ)
    → worker_step e w n ≡ some o
    → o.1 + held o.0 ≡ n + held w
unfolding worker_step
worker_step-held e w n o h = ground arith

worker_step-id :
    (e : Happening) (w : Worker) (n : ℕ) (o : Worker × ℕ)
    → worker_step e w n ≡ some o
    → o.0.id ≡ w.id
unfolding worker_step
worker_step-id e w n o h = ground arith

workers_step-held :
    (id : Text) (e : Happening) (ws : List Worker) (n : ℕ) (o : List Worker × ℕ)
    → workers_step id e ws n ≡ some o
    → (o.1 + all_held o.0 ≡ n + all_held ws) × (map Worker.id o.0 ≡ map Worker.id ws)
unfolding workers_step
workers_step-held id e [] n o h = cc
workers_step-held id e (w ∷ ws) n o h =
    grind (arith, worker_step-held e w n, worker_step-id e w n, workers_step-held id e ws n)

results_after-is_reported :
    (id : Text) (e : Happening) (results : Dict WorkerResult) (w : Worker)
    → is_reported results w ≡ true
    → is_reported (results_after id e results) w ≡ true
unfolding results_after
results_after-is_reported id e results w h =
    grind (arith, λ (r : WorkerResult). has_key-insert id w.id r results)

worker_step-is_reported :
    (id : Text) (e : Happening) (results : Dict WorkerResult) (w : Worker) (n : ℕ) (o : Worker × ℕ)
    → text_eq w.id id ≡ true
    → is_reported results w ≡ true
    → worker_step e w n ≡ some o
    → is_reported (results_after id e results) o.0 ≡ true
unfolding worker_step results_after
worker_step-is_reported id e results w n o same h k =
    grind (arith, λ (r : WorkerResult). has_key-insert id w.id r results)

results_after-all :
    (id : Text) (e : Happening) (results : Dict WorkerResult) (ws : List Worker)
    → all (is_reported results) ws ≡ true
    → all (is_reported (results_after id e results)) ws ≡ true
results_after-all id e results [] h = refl
results_after-all id e results (w ∷ ws) h =
    ground (arith, results_after-is_reported id e results w, results_after-all id e results ws)

workers_step-reported :
    (id : Text) (e : Happening) (results : Dict WorkerResult) (ws : List Worker) (n : ℕ)
    (o : List Worker × ℕ)
    → all (is_reported results) ws ≡ true
    → workers_step id e ws n ≡ some o
    → all (is_reported (results_after id e results)) o.0 ≡ true
unfolding workers_step
workers_step-reported id e results [] n o h k = cc
workers_step-reported id e results (w ∷ ws) n o h k = grind (
  arith,
  worker_step-is_reported id e results w n,
  results_after-is_reported id e results w,
  results_after-all id e results ws,
  workers_step-reported id e results ws n,
)

-- What holds of a pool that was dispatched with `tokens` tokens for these goals.
pub record IsAccounted (tokens : ℕ) (goals : List (Text × Text)) (p : Pool) : Type 0 where
  pub no_token_lost : p.remaining + all_held p.workers ≡ tokens
  pub same_goals : map Worker.id p.workers ≡ map (λ g. g.0) goals
  pub all_reported : all (is_reported p.results) p.workers ≡ true

pool_step-IsAccounted :
    (tokens : ℕ) (goals : List (Text × Text)) (id : Text) (e : Happening) (p p' : Pool)
    → IsAccounted tokens goals p
    → pool_step id e p ≡ some p'
    → IsAccounted tokens goals p'
unfolding pool_step
pool_step-IsAccounted tokens goals id e p p' h k =
    elim (Option-cases (workers_step id e p.workers p.remaining)) [
      | inl refused ↦ absurd (ground arith)
      | inr (o, moved) ↦
          let (tokens_same, ids_same) = workers_step-held id e p.workers p.remaining o moved in
          let reported =
            workers_step-reported id e p.results p.workers p.remaining o h.all_reported moved in
          let is : record { remaining = o.1; workers = o.0; results = results_after id e p.results }
              ≡ p' =
            ground arith in
          subst (IsAccounted tokens goals) is (record {
            no_token_lost = omega (arith, tokens_same, h.no_token_lost);
            same_goals = ids_same ∙ h.same_goals;
            all_reported = reported;
          })
    ]

run_pool-IsAccounted :
    (tokens : ℕ) (goals : List (Text × Text)) (es : List (Text × Happening)) (p p' : Pool)
    → IsAccounted tokens goals p
    → run_pool es p ≡ some p'
    → IsAccounted tokens goals p'
unfolding run_pool
run_pool-IsAccounted tokens goals [] p p' h k =
    subst (IsAccounted tokens goals) (some-injective _ _ k) h
run_pool-IsAccounted tokens goals ((id, e) ∷ es) p p' h k = elim (Option-cases (pool_step id e p)) [
  | inl refused ↦ absurd (ground arith)
  | inr (next, stepped) ↦
      run_pool-IsAccounted tokens goals es next p'
        (pool_step-IsAccounted tokens goals id e p next h stepped) (ground arith)
]

subtasks-IsAccounted :
    (tokens : ℕ) (goals : List (Text × Text)) → IsAccounted tokens goals (dispatched tokens goals)
unfolding dispatched subtasks
subtasks-IsAccounted tokens [] = record {
  no_token_lost = omega arith;
  same_goals = refl;
  all_reported = refl;
}
subtasks-IsAccounted tokens (g ∷ goals) =
    let rest = subtasks-IsAccounted tokens goals in
    record {
      no_token_lost = omega (arith, rest.no_token_lost);
      same_goals = ap (λ ids. g.0 ∷ ids) rest.same_goals;
      all_reported = rest.all_reported;
    }

-- In whatever order the workers' events happen: the tokens that remain and those of the workers that
-- run or have succeeded are together the tokens at the start; the workers are those of the ready
-- goals; and every worker that has returned or raised has a result.
pub pool-IsAccounted :
    (tokens : ℕ) (goals : List (Text × Text)) (es : List (Text × Happening)) (p : Pool)
    → run_pool es (dispatched tokens goals) ≡ some p
    → IsAccounted tokens goals p
pool-IsAccounted tokens goals es p h =
    run_pool-IsAccounted tokens goals es (dispatched tokens goals) p
      (subtasks-IsAccounted tokens goals) h
