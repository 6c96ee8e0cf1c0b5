-- ===== src/Dispatch.antt =====
-- AsyncOrchestrator of services/orchestrator/coding_orchestrator.py: the token budget, the workers of
-- the ready goals, and the routing of a goal to a skill or to the loop. The workers run concurrently;
-- a run of them is a list of events in the order in which they happen. The semaphore and the two rate
-- limiters, which only delay a worker, are left out.
pub mod Tokens
pub mod SkillFirst
mod Examples
use labmate.Common.{
  ℕ, ◌+◌, ◌-◌, Bool, true, false, Option, none, some, List, [], ◌∷◌, ◌++◌, if◌then◌else◌, Text,
  codes, text_eq, take, map, Dict, insert, ltb, ◌>>=◌,
}
use labmate.Graph.Execute.{WorkerResult}

-- `TokenBudget.reserve` and `TokenBudget.refund`, on the tokens that remain.
unfoldable pub reserve : ℕ → ℕ → ℕ × Bool
reserve n remaining = if ltb remaining n then (remaining, false) else (remaining - n, true)

unfoldable pub refund_tokens : ℕ → ℕ → ℕ
refund_tokens n remaining = remaining + n

-- Where a worker is in `_run_worker`: in the loop that reserves, in `react_execute`, or past it.
pub data Phase : Type 0 where
  waiting running succeeded failed cancelled : Phase

pub record Worker : Type 0 where
  pub id : Text
  pub prompt : Text
  pub est_tokens : ℕ
  pub phase : Phase

-- `self.budget` and `self.results` with the workers.
pub record Pool : Type 0 where
  pub remaining : ℕ
  pub workers : List Worker
  pub results : Dict WorkerResult

-- What `react_execute` returns.
pub record Answer : Type 0 where
  pub summary : Text
  pub ok : Bool
  pub tools_used : List Text
  pub tests_passed : Bool

-- What happens to a worker: it tries to reserve its tokens; `react_execute` returns or raises; the
-- task is cancelled.
pub data Happening : Type 0 where
  reserves : Happening
  returns : Answer → Happening
  raises : Text → Happening
  is_cancelled : Happening

-- The worker after the event, with the tokens that remain; `none` where it cannot happen.
unfoldable pub worker_step : Happening → Worker → ℕ → Option (Worker × ℕ)
unfolding reserve refund_tokens
worker_step reserves w n = elim w.phase [
  | waiting ↦
      let (left, granted) = reserve w.est_tokens n in
      some (if granted then record w { phase = running } else w, left)
  | running ↦ none
  | succeeded ↦ none
  | failed ↦ none
  | cancelled ↦ none
]
worker_step (returns a) w n = elim w.phase [
  | waiting ↦ none
  | running ↦ some (record w { phase = succeeded }, n)
  | succeeded ↦ none
  | failed ↦ none
  | cancelled ↦ none
]
worker_step (raises error) w n = elim w.phase [
  | waiting ↦ none
  | running ↦ some (record w { phase = failed }, refund_tokens w.est_tokens n)
  | succeeded ↦ none
  | failed ↦ none
  | cancelled ↦ none
]
worker_step is_cancelled w n = elim w.phase [
  | waiting ↦ some (record w { phase = cancelled }, n)
  | running ↦ some (record w { phase = cancelled }, refund_tokens w.est_tokens n)
  | succeeded ↦ none
  | failed ↦ none
  | cancelled ↦ none
]

unfoldable pub results_after : Text → Happening → Dict WorkerResult → Dict WorkerResult
results_after id reserves results = results
results_after id (returns a) results =
    insert id
      (record {
        id = id;
        summary = a.summary;
        ok = a.ok;
        tools_used = a.tools_used;
        tests_passed = a.tests_passed;
      })
      results
results_after id (raises error) results =
    insert id
      (record {
        id = id;
        summary = codes "worker error: " ++ take 200 error;
        ok = false;
        tools_used = [];
        tests_passed = false;
      })
      results
results_after id is_cancelled results = results

-- The workers after what happens to the one with this id.
unfoldable pub workers_step : Text → Happening → List Worker → ℕ → Option (List Worker × ℕ)
workers_step id e [] n = none
workers_step id e (w ∷ ws) n =
    let hit : Option (List Worker × ℕ) = elim (worker_step e w n) [
      | none ↦ none
      | some (w', n') ↦ some (w' ∷ ws, n')
    ] in
    let past : Option (List Worker × ℕ) = elim (workers_step id e ws n) [
      | none ↦ none
      | some (ws', n') ↦ some (w ∷ ws', n')
    ] in
    if text_eq w.id id then hit else past

unfoldable pub pool_step : Text → Happening → Pool → Option Pool
pool_step id e p = elim (workers_step id e p.workers p.remaining) [
  | none ↦ none
  | some (ws, n) ↦
      some (record { remaining = n; workers = ws; results = results_after id e p.results })
]

unfoldable pub run_pool : List (Text × Happening) → Pool → Option Pool
run_pool [] p = some p
run_pool ((id, e) ∷ es) p = elim (pool_step id e p) [ none ↦ none | some p' ↦ run_pool es p' ]

-- `SubTask(id=..., prompt=..., est_tokens=512)` for each ready goal. No worker depends on another.
unfoldable pub subtasks : List (Text × Text) → List Worker
subtasks [] = []
subtasks ((id, description) ∷ goals) =
    record { id = id; prompt = description; est_tokens = 512; phase = waiting } ∷ subtasks goals

-- The start of `plan_and_dispatch`; the budget is the one that earlier calls have left.
unfoldable pub dispatched : ℕ → List (Text × Text) → Pool
unfolding subtasks
dispatched remaining goals = record {
  remaining = remaining;
  workers = subtasks goals;
  results = [];
}
