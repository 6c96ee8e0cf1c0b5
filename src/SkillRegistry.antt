-- ===== src/SkillRegistry.antt =====
-- services/skill_runner/skill_registry.py: one skill process, the task that owns it and its callers.
-- Between two awaits that suspend, the code of a task is one step; the lock is never held over one,
-- since the inbox is unbounded. What other tasks do is an event, so that an interleaving is a list.
-- The dict of the processes and the split of a qualified name are left out.
pub mod Kept
pub mod Pending
pub mod Shutdown
mod Examples
use labmate.Common.{
  ℕ, ◌+◌, ◌-◌, ◌*◌, Bool, true, false, not, ◌&&◌, ◌||◌, Option, none, some, List, [], ◌∷◌, ◌++◌,
  if◌then◌else◌, is_empty, ◌==◌, min, any, ltb, map,
}
use Prim.Native.Nat.{◌^◌}

-- `SkillProcess.state`
pub data Phase : Type 0 where
  init ready draining dead : Phase

-- What a future holds: a result, an exception, or the cancellation of the owner.
pub data Outcome : Type 0 where
  result error cancelled : Outcome

-- A caller that waits for its future; `is_forgotten` once nobody is left to settle that.
pub record Caller : Type 0 where
  pub id : ℕ
  pub outcome : Option Outcome
  pub is_forgotten : Bool

pub data Entry : Type 0 where
  request : ℕ → Entry
  restart_sentinel : Entry

-- Where the owning task is: it opens the session, waits for an entry, waits for the answer to a request,
-- closes the session after a sentinel, sleeps before the next session, or has ended, at the cancellation
-- of what it waited for.
pub data Owner : Type 0 where
  opening idle closing backing_off : Owner
  serving : ℕ → Owner
  ended : Option ℕ → Owner

-- `restart_tasks` are the background tasks of `_maybe_restart`; `next_id` numbers the calls.
pub record Registry : Type 0 where
  pub phase : Phase
  pub has_session : Bool
  pub indexed : Bool
  pub is_set : Bool
  pub inflight : ℕ
  pub restarts : ℕ
  pub inbox : List Entry
  pub owner : Owner
  pub callers : List Caller
  pub restart_tasks : ℕ
  pub next_id : ℕ
  pub backoff : ℕ

-- What `call_tool` answers at once, or that the call is queued.
pub data Answer : Type 0 where
  unavailable is_draining no_tool invalid queued : Answer

abbrev pub is_ready : Phase → Bool
is_ready ready = true
is_ready _ = false

abbrev pub is_dead : Phase → Bool
is_dead dead = true
is_dead _ = false

abbrev pub is_init : Phase → Bool
is_init init = true
is_init _ = false

abbrev pub is_draining_phase : Phase → Bool
is_draining_phase draining = true
is_draining_phase _ = false

-- `call_tool` up to its await: whether the tool is advertised, and whether the arguments fit its schema.
unfoldable pub call_tool : Bool → Bool → Registry → Registry × Answer
call_tool has_tool is_valid r =
    if is_dead r.phase
    then (r, unavailable)
    else if is_draining_phase r.phase
    then (r, is_draining)
    else if not has_tool
    then (r, no_tool)
    else if not is_valid
    then (r, invalid)
    else if not (is_ready r.phase)
    then (r, unavailable)
    else (
      record r {
        inflight = r.inflight + 1;
        inbox = r.inbox ++ request r.next_id ∷ [];
        callers = r.callers ++ record { id = r.next_id; outcome = none; is_forgotten = false } ∷ [];
        next_id = r.next_id + 1;
      },
      queued,
    )

-- `set_result` and `set_exception` on a future that is not done.
abbrev pub settle : ℕ → Outcome → Caller → Caller
settle id o c =
    if c.id == id
    then record c { outcome = elim c.outcome [ none ↦ some o | some p ↦ some p ] }
    else c

-- `_drain_inbox`
unfoldable pub drain_inbox : Outcome → List Entry → List Caller → List Caller
drain_inbox o [] cs = cs
drain_inbox o (request id ∷ es) cs = drain_inbox o es (map (settle id o) cs)
drain_inbox o (restart_sentinel ∷ es) cs = drain_inbox o es cs

-- The session is there.
unfoldable pub open_session : Registry → Registry
open_session r = record r {
  phase = ready;
  has_session = true;
  indexed = true;
  is_set = true;
  restarts = 0;
  owner = idle;
}

-- The handler of an exception, and the sleep.
unfoldable pub crash : Registry → Registry
crash r = record r {
  phase = dead;
  has_session = false;
  is_set = false;
  inbox = [];
  callers = drain_inbox error r.inbox r.callers;
  owner = backing_off;
  backoff = min (2 ^ r.restarts) 30;
  restarts = r.restarts + 1;
}

-- The exception surfaces while the owner waits for the answer: the future of the request is settled by
-- nobody.
unfoldable pub forget : ℕ → Caller → Caller
forget id c = if c.id == id then record c { is_forgotten = true } else c

-- The handler of a cancellation.
unfoldable pub cancel : Option ℕ → Registry → Registry
cancel served r = record r {
  phase = dead;
  is_set = false;
  inbox = [];
  callers = drain_inbox cancelled r.inbox r.callers;
  owner = ended served;
}

-- `_maybe_restart`
unfoldable pub maybe_restart : Registry → Registry
maybe_restart r =
    if is_dead r.phase
    then r
    else record r { phase = dead; indexed = false; inbox = r.inbox ++ restart_sentinel ∷ [] }

-- The owner takes the next entry.
unfoldable pub take_entry : List Entry → Registry → Registry
take_entry [] r = r
take_entry (request id ∷ es) r = record r { inbox = es; owner = serving id }
take_entry (restart_sentinel ∷ es) r = record r { inbox = es; owner = closing }

pub data Event : Type 0 where
  -- A call, of a tool that is advertised or not, with arguments that are valid or not.
  call : Bool → Bool → Event
  -- The owner opens its session, takes an entry, gets an answer, closes the session, wakes up.
  opened taken closed woken : Event
  answered : Bool → Event
  -- The session cannot be opened, fails, or raises when it is closed; the owner is cancelled.
  raised cancelled_owner : Event
  -- The caller with the id goes on with its outcome.
  returned : ℕ → Event
  -- The caller with the id is cancelled at its await.
  gave_up : ℕ → Event
  -- A background task of `_maybe_restart` runs; the supervisor sees a process that is not alive.
  restarted supervised : Event
  -- `reload`: the phase is set; the calls are done and the sentinel is sent.
  reload_started reload_drained : Event

abbrev pub outcome_of : Bool → Outcome
outcome_of true = result
outcome_of false = error

-- The outcome of the caller with the id, if its future is done.
unfoldable pub outcome_at : ℕ → List Caller → Option Outcome
outcome_at id [] = none
outcome_at id (c ∷ cs) = if c.id == id then c.outcome else outcome_at id cs

unfoldable pub without : ℕ → List Caller → List Caller
without id [] = []
without id (c ∷ cs) = let rest = without id cs in if c.id == id then cs else c ∷ rest

-- The caller goes on after its await: `inflight` goes down, and an exception starts a restart.
unfoldable pub return_to : ℕ → Registry → Registry
return_to id r = elim (outcome_at id r.callers) [
  | none ↦ r
  | some o ↦ record r {
    inflight = r.inflight - 1;
    callers = without id r.callers;
    restart_tasks = elim o [
      | result ↦ r.restart_tasks
      | error ↦ r.restart_tasks + 1
      | cancelled ↦ r.restart_tasks
    ];
  }
]

-- A CancelledError passes the handlers of `call_tool`; `finally` counts the call down.
unfoldable pub give_up : ℕ → Registry → Registry
give_up id r =
    if any (λ (c : Caller). c.id == id) r.callers
    then record r { inflight = r.inflight - 1; callers = without id r.callers }
    else r

-- The owner at the end of its inner wait.
unfoldable pub answer_to : Bool → Owner → Registry → Registry
answer_to ok (serving id) r = record r {
  owner = idle;
  callers = map (settle id (outcome_of ok)) r.callers;
}
answer_to ok _ r = r

unfoldable pub open_from : Owner → Registry → Registry
open_from opening r = open_session r
open_from _ r = r

unfoldable pub take_from : Owner → Registry → Registry
take_from idle r = take_entry r.inbox r
take_from _ r = r

unfoldable pub close_from : Owner → Registry → Registry
close_from closing r = record r {
  owner = backing_off;
  backoff = min (2 ^ r.restarts) 30;
  restarts = r.restarts + 1;
}
close_from _ r = r

unfoldable pub wake_from : Owner → Registry → Registry
wake_from backing_off r = record r { phase = init; owner = opening }
wake_from _ r = r

unfoldable pub raise_from : Owner → Registry → Registry
raise_from opening r = crash r
raise_from idle r = crash r
raise_from closing r = crash r
raise_from (serving id) r = crash (record r { callers = map (forget id) r.callers })
raise_from _ r = r

unfoldable pub cancel_from : Owner → Registry → Registry
cancel_from (ended served) r = r
cancel_from (serving id) r = cancel (some id) r
cancel_from backing_off r = record r { owner = ended none }
cancel_from _ r = cancel none r

-- `_process_alive` is false.
abbrev pub looks_dead : Registry → Bool
looks_dead r = not (r.has_session && not (is_dead r.phase || is_init r.phase))

-- The body of `supervise`, for one process.
unfoldable pub supervise : Registry → Registry
supervise r = if is_ready r.phase && looks_dead r then maybe_restart r else r

-- `reload` up to its wait, and after it.
unfoldable pub start_reload : Registry → Registry
start_reload r = record r { phase = draining }

unfoldable pub finish_reload : Registry → Registry
finish_reload r =
    if r.inflight == 0
    then record r { is_set = false; inbox = r.inbox ++ restart_sentinel ∷ [] }
    else r

unfoldable pub step : Event → Registry → Registry
step (call has_tool is_valid) r = (call_tool has_tool is_valid r).0
step opened r = open_from r.owner r
step taken r = take_from r.owner r
step (answered ok) r = answer_to ok r.owner r
step closed r = close_from r.owner r
step woken r = wake_from r.owner r
step raised r = raise_from r.owner r
step cancelled_owner r = cancel_from r.owner r
step (returned id) r = return_to id r
step (gave_up id) r = give_up id r
step restarted r =
    if r.restart_tasks == 0
    then r
    else maybe_restart (record r { restart_tasks = r.restart_tasks - 1 })
step supervised r = supervise r
step reload_started r = start_reload r
step reload_drained r = finish_reload r

unfoldable pub run : List Event → Registry → Registry
run [] r = r
run (e ∷ es) r = run es (step e r)

-- `_spawn` of a new process.
unfoldable pub registered : Registry
registered = record {
  phase = init;
  has_session = false;
  indexed = false;
  is_set = false;
  inflight = 0;
  restarts = 0;
  inbox = [];
  owner = opening;
  callers = [];
  restart_tasks = 0;
  next_id = 0;
  backoff = 0;
}
