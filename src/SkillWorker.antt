-- ===== src/SkillWorker.antt =====
-- services/skill_worker/worker.py: the consumer of the stream of tasks. Redis is the state: the entries
-- not yet delivered, those delivered and not acknowledged, and the results. Any number of workers read
-- the stream; the interleaving of their tasks, and what other processes do, are events.
pub mod Delivery
mod Examples
use labmate.Common.{
  ℕ, ◌+◌, Bool, true, false, not, ◌&&◌, ◌||◌, Option, none, some, List, [], ◌∷◌, ◌++◌,
  if◌then◌else◌, Text, codes, ◌==◌, take, drop, Dict, insert,
}

-- What a task's result says.
pub data Result : Type 0 where
  succeeded : Text → Result
  tool_error : Text → Result
  skill_unavailable dispatch_failed malformed_payload internal_error : Result

-- What the fields of an entry hold: no JSON, JSON that is no object, or an object with its task id.
pub data Payload : Type 0 where
  no_json no_object : Payload
  object : Option Text → Payload

pub record Message : Type 0 where
  pub id : ℕ
  pub payload : Payload

-- What `call_tool` gives: a value and whether it is marked as an error, an exception, or the
-- cancellation of the task.
pub data CallResult : Type 0 where
  value : Bool → Text → CallResult
  unavailable other_exception interrupted : CallResult

-- `_dispatch`; a CancelledError passes its handlers.
unfoldable pub dispatch : CallResult → Option Result
dispatch (value is_error v) = some (if is_error then tool_error v else succeeded v)
dispatch unavailable = some skill_unavailable
dispatch other_exception = some dispatch_failed
dispatch interrupted = none

-- What becomes of the `set` and the `publish` of `_write_result`: both are done, one of them raises, or
-- the task is cancelled before or after the `set`.
pub data Written : Type 0 where
  done set_raised publish_raised cut_before cut_after : Written

-- `_write_result`; those who listen for the published word are left out.
unfoldable pub write_result : Written → Text → Result → Dict Result → Dict Result
write_result done key r results = insert key r results
write_result set_raised key r results = results
write_result publish_raised key r results = insert key r results
write_result cut_before key r results = results
write_result cut_after key r results = insert key r results

-- It ends in an exception that `except Exception` catches.
abbrev pub raises : Written → Bool
raises set_raised = true
raises publish_raised = true
raises _ = false

abbrev pub result_key : Text → Text
result_key task_id = codes "labmate:result:" ++ task_id

-- `payload.get("task_id", msg_id)`
abbrev pub task_key : Text → Option Text → Text
task_key fallback none = fallback
task_key fallback (some t) = t

-- What a task meets: the call, the first write, the write of an exception handler, and whether the
-- acknowledgement gets through.
pub record Handling : Type 0 where
  pub call : CallResult
  pub first_write : Written
  pub second_write : Written
  pub is_acknowledged : Bool

-- `_handle` up to the acknowledgement: the results in Redis. `fallback` is the text of the entry's id.
unfoldable pub handle_payload : Text → Payload → Handling → Dict Result → Dict Result
handle_payload fallback no_json h results =
    write_result h.second_write (result_key fallback) malformed_payload results
handle_payload fallback no_object h results =
    write_result h.second_write (result_key fallback) internal_error results
handle_payload fallback (object task_id) h results = elim (dispatch h.call) [
  | none ↦ results
  | some r ↦
      let key = result_key (task_key fallback task_id) in
      let first = write_result h.first_write key r results in
      if raises h.first_write then write_result h.second_write key internal_error first else first
]

-- `tasks` are the messages whose task has been started by one of the workers and has not ended.
pub record Stream : Type 0 where
  pub fresh : List Message
  pub pending : List Message
  pub tasks : List Message
  pub results : Dict Result
  pub next_id : ℕ
  pub reclaimed : ℕ

unfoldable pub batch : ℕ
batch = 8

-- `xadd` by a client.
unfoldable pub add_task : Payload → Stream → Stream
add_task p s = record s {
  fresh = s.fresh ++ record { id = s.next_id; payload = p } ∷ [];
  next_id = s.next_id + 1;
}

-- `xreadgroup` with ">": the next new entries are delivered, and a task is started for each.
unfoldable pub read_batch : Stream → Stream
unfolding batch
read_batch s = record s {
  fresh = drop batch s.fresh;
  pending = s.pending ++ take batch s.fresh;
  tasks = s.tasks ++ take batch s.fresh;
}

abbrev pub find_task : ℕ → List Message → Option Message
find_task id [] = none
find_task id (m ∷ ms) = if m.id == id then some m else find_task id ms

-- The messages with another id.
abbrev pub others : ℕ → List Message → List Message
others id [] = []
others id (m ∷ ms) = let rest = others id ms in if m.id == id then rest else m ∷ rest

-- A task runs to its end, which acknowledges the message.
unfoldable pub finish_task : (ℕ → Text) → ℕ → Handling → Stream → Stream
finish_task shown id h s = elim (find_task id s.tasks) [
  | none ↦ s
  | some m ↦ record s {
    pending = if h.is_acknowledged then others id s.pending else s.pending;
    tasks = others id s.tasks;
    results = handle_payload (shown m.id) m.payload h s.results;
  }
]

-- The pages of `xautoclaim`: whether its cursor is at the end, and how many entries it claimed.
unfoldable pub reclaim_pending : List (Bool × ℕ) → ℕ
reclaim_pending [] = 0
reclaim_pending ((at_end, n) ∷ pages) =
    let rest = reclaim_pending pages in if at_end || n == 0 then n else n + rest

-- `start` of one more worker, beside the others: what it claims it counts.
unfoldable pub start : List (Bool × ℕ) → Stream → Stream
start pages s = record s { reclaimed = reclaim_pending pages }

-- A task ends without `_handle`: its worker dies, or it is cancelled while it waits for the semaphore.
unfoldable pub lose_task : ℕ → Stream → Stream
lose_task id s = record s { tasks = others id s.tasks }

pub data Event : Type 0 where
  added : Payload → Event
  read : Event
  finished : ℕ → Handling → Event
  stopped : ℕ → Event
  started : List (Bool × ℕ) → Event

-- What any of the workers, or a client, does next.
unfoldable pub step : (ℕ → Text) → Event → Stream → Stream
step shown (added p) s = add_task p s
step shown read s = read_batch s
step shown (finished id h) s = finish_task shown id h s
step shown (stopped id) s = lose_task id s
step shown (started pages) s = start pages s

unfoldable pub run : (ℕ → Text) → List Event → Stream → Stream
run shown [] s = s
run shown (e ∷ es) s = run shown es (step shown e s)
