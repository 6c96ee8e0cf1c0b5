-- ===== src/SkillRegistry/Shutdown.antt =====
-- A call that the owner serves when it is cancelled.
use labmate.Common.{
  ℕ, ◌-◌, ◌≡◌, refl, Bool, true, false, not, ◌&&◌, Option, some, List, [], ◌∷◌, ◌++◌, if◌then◌else◌,
  ◌==◌, any, map, arith, Bool-cases, Option-cases, inl, inr, ◌∙◌,
}
use labmate.SkillRegistry.{
  Outcome, cancelled, Caller, Entry, request, restart_sentinel, serving, ended, Registry, is_dead,
  is_ready, looks_dead, is_draining_phase, Answer, call_tool, settle, drain_inbox, cancel,
  maybe_restart, Event, call, opened, taken, closed, woken, answered, raised, cancelled_owner,
  returned, restarted, supervised, gave_up, give_up, supervise, start_reload, finish_reload,
  reload_started, reload_drained, outcome_at, without, return_to, answer_to, open_from, take_from,
  close_from, wake_from, raise_from, cancel_from, step, run,
}
use labmate.SkillRegistry.Kept.{is_request, is_done}

-- The caller with the id waits for its future.
abbrev pub is_waiting : ℕ → List Caller → Bool
is_waiting id cs = any (λ c. (c.id == id) && not (is_done c)) cs

is_waiting-append :
    (id : ℕ) (cs ds : List Caller) → is_waiting id cs ≡ true → is_waiting id (cs ++ ds) ≡ true
is_waiting-append id [] ds h = cc
is_waiting-append id (c ∷ cs) ds h = ground (arith, is_waiting-append id cs ds)

is_waiting-without :
    (id k : ℕ) (cs : List Caller) (o : Outcome)
    → outcome_at k cs ≡ some o
    → is_waiting id cs ≡ true
    → is_waiting id (without k cs) ≡ true
unfolding outcome_at without
is_waiting-without id k [] o e h = cc
is_waiting-without id k (c ∷ cs) o e h = ground (arith, is_waiting-without id k cs o)

-- The owner has ended and the caller waits.
record IsLost (id : ℕ) (served : Option ℕ) (r : Registry) : Type 0 where
  has_ended : r.owner ≡ ended served
  waits : is_waiting id r.callers ≡ true

if-IsLost :
    (id : ℕ) (served : Option ℕ) (b : Bool) (r s : Registry)
    → IsLost id served r
    → IsLost id served s
    → IsLost id served (if b then r else s)
if-IsLost id served true r s h k = h
if-IsLost id served false r s h k = k

either-IsLost :
    (id : ℕ) (served : Option ℕ) (b : Bool) (x y : Registry × Answer)
    → IsLost id served x.0
    → IsLost id served y.0
    → IsLost id served (if b then x else y).0
either-IsLost id served true x y h k = h
either-IsLost id served false x y h k = k

call_tool-IsLost :
    (id : ℕ) (served : Option ℕ) (has_tool is_valid : Bool) (r : Registry)
    → IsLost id served r
    → IsLost id served (call_tool has_tool is_valid r).0
unfolding call_tool
call_tool-IsLost id served has_tool is_valid r h = either-IsLost id served (is_dead r.phase) _ _ h (
    either-IsLost id served (is_draining_phase r.phase) _ _ h (
      either-IsLost id served (not has_tool) _ _ h (
        either-IsLost id served (not is_valid) _ _ h (
          either-IsLost id served (not (is_ready r.phase)) _ _ h (record {
            has_ended = h.has_ended;
            waits = is_waiting-append id r.callers _ h.waits;
          })))))

maybe_restart-IsLost :
    (id : ℕ) (served : Option ℕ) (r : Registry)
    → IsLost id served r
    → IsLost id served (maybe_restart r)
unfolding maybe_restart
maybe_restart-IsLost id served r h =
    if-IsLost id served (is_dead r.phase) _ _ h
      (record { has_ended = h.has_ended; waits = h.waits })

return_to-IsLost :
    (id : ℕ) (served : Option ℕ) (k : ℕ) (r : Registry)
    → IsLost id served r
    → IsLost id served (return_to k r)
unfolding return_to
return_to-IsLost id served k r h = elim (Option-cases (outcome_at k r.callers)) [
  | inl waits ↦ let same : return_to k r ≡ r = ground arith in rw same h
  | inr (o, done) ↦
      let same : (return_to k r).callers ≡ without k r.callers = ground arith in
      let ends : (return_to k r).owner ≡ r.owner = ground arith in
      record {
        has_ended = ends ∙ h.has_ended;
        waits = rw same (is_waiting-without id k r.callers o done h.waits);
      }
]

-- No event of the owner changes anything after its end.
owner_ended :
    (ok : Bool) (served : Option ℕ) (r : Registry)
    → r.owner ≡ ended served
    → (open_from r.owner r ≡ r)
      × (take_from r.owner r ≡ r)
      × (answer_to ok r.owner r ≡ r)
      × (close_from r.owner r ≡ r)
      × (wake_from r.owner r ≡ r)
      × (raise_from r.owner r ≡ r)
      × (cancel_from r.owner r ≡ r)
unfolding open_from take_from answer_to close_from wake_from raise_from cancel_from
owner_ended ok served r h = (rw h, rw h, rw h, rw h, rw h, rw h, rw h)

-- The caller with the id is cancelled.
abbrev pub gives_up : ℕ → Event → Bool
gives_up id (gave_up k) = k == id
gives_up id _ = false

is_waiting-without_other :
    (id k : ℕ) (cs : List Caller)
    → (k == id) ≡ false
    → is_waiting id cs ≡ true
    → is_waiting id (without k cs) ≡ true
unfolding without
is_waiting-without_other id k [] e h = cc
is_waiting-without_other id k (c ∷ cs) e h = ground (arith, is_waiting-without_other id k cs e)

give_up-IsLost :
    (id : ℕ) (served : Option ℕ) (k : ℕ) (r : Registry)
    → (k == id) ≡ false
    → IsLost id served r
    → IsLost id served (give_up k r)
unfolding give_up
give_up-IsLost id served k r other h =
    if-IsLost id served (any (λ (c : Caller). c.id == k) r.callers) _ _
      (record {
        has_ended = h.has_ended;
        waits = is_waiting-without_other id k r.callers other h.waits;
      })
      h

step-IsLost :
    (id : ℕ) (served : Option ℕ) (e : Event) (r : Registry)
    → gives_up id e ≡ false
    → IsLost id served r
    → IsLost id served (step e r)
unfolding step supervise start_reload finish_reload
step-IsLost id served (call has_tool is_valid) r stays h =
    call_tool-IsLost id served has_tool is_valid r h
step-IsLost id served opened r stays h = rw (owner_ended true served r h.has_ended).0 h
step-IsLost id served taken r stays h = rw (owner_ended true served r h.has_ended).1 h
step-IsLost id served (answered ok) r stays h = rw (owner_ended ok served r h.has_ended).2 h
step-IsLost id served closed r stays h = rw (owner_ended true served r h.has_ended).3 h
step-IsLost id served woken r stays h = rw (owner_ended true served r h.has_ended).4 h
step-IsLost id served raised r stays h = rw (owner_ended true served r h.has_ended).5 h
step-IsLost id served cancelled_owner r stays h = rw (owner_ended true served r h.has_ended).6 h
step-IsLost id served (returned k) r stays h = return_to-IsLost id served k r h
step-IsLost id served (gave_up k) r stays h = give_up-IsLost id served k r stays h
step-IsLost id served restarted r stays h = if-IsLost id served (r.restart_tasks == 0) _ _ h (
    maybe_restart-IsLost id served (record r { restart_tasks = r.restart_tasks - 1 })
      (record { has_ended = h.has_ended; waits = h.waits }))
step-IsLost id served supervised r stays h =
    if-IsLost id served (is_ready r.phase && looks_dead r) _ _ (maybe_restart-IsLost id served r h)
      h
step-IsLost id served reload_started r stays h = record { has_ended = h.has_ended; waits = h.waits }
step-IsLost id served reload_drained r stays h =
    if-IsLost id served (r.inflight == 0) _ _ (record { has_ended = h.has_ended; waits = h.waits })
      h

run-IsLost :
    (id : ℕ) (served : Option ℕ) (es : List Event) (r : Registry)
    → any (gives_up id) es ≡ false
    → IsLost id served r
    → IsLost id served (run es r)
unfolding run
run-IsLost id served [] r stays h = h
run-IsLost id served (e ∷ es) r stays h =
    run-IsLost id served es (step e r) (ground (arith, stays))
      (step-IsLost id served e r (ground (arith, stays)) h)

is_waiting-settle :
    (id k : ℕ) (o : Outcome) (cs : List Caller)
    → (k == id) ≡ false
    → is_waiting id cs ≡ true
    → is_waiting id (map (settle k o) cs) ≡ true
is_waiting-settle id k o [] e h = cc
is_waiting-settle id k o (c ∷ cs) e h = elim (Bool-cases (c.id == k)) [
  | inl t ↦
      let other : (c.id == id) ≡ false = ground arith in
      let later : is_waiting id cs ≡ true = ground arith in
      rw t (ground (arith, is_waiting-settle id k o cs e later))
  | inr f ↦ rw f (ground (arith, is_waiting-settle id k o cs e))
]

is_waiting-drain_inbox :
    (id : ℕ) (o : Outcome) (es : List Entry) (cs : List Caller)
    → any (is_request id) es ≡ false
    → is_waiting id cs ≡ true
    → is_waiting id (drain_inbox o es cs) ≡ true
unfolding drain_inbox
is_waiting-drain_inbox id o [] cs e h = h
is_waiting-drain_inbox id o (request k ∷ es) cs e h =
    is_waiting-drain_inbox id o es (map (settle k o) cs) (ground arith)
      (is_waiting-settle id k o cs (ground arith) h)
is_waiting-drain_inbox id o (restart_sentinel ∷ es) cs e h = is_waiting-drain_inbox id o es cs e h

cancel_serving :
    (id : ℕ) (r : Registry) → r.owner ≡ serving id → step cancelled_owner r ≡ cancel (some id) r
unfolding step cancel_from
cancel_serving id r e = rw e

cancel-IsLost :
    (id : ℕ) (r : Registry)
    → any (is_request id) r.inbox ≡ false
    → is_waiting id r.callers ≡ true
    → IsLost id (some id) (cancel (some id) r)
unfolding cancel
cancel-IsLost id r alone h = record {
  has_ended = refl;
  waits = is_waiting-drain_inbox id cancelled r.inbox r.callers alone h;
}

-- Where the owner is cancelled while it serves a call, and no other request of this call is queued, its
-- caller waits until it is itself cancelled: no sequence of other events gives it an outcome.
pub served_call_hangs :
    (id : ℕ) (es : List Event) (r : Registry)
    → r.owner ≡ serving id
    → any (is_request id) r.inbox ≡ false
    → is_waiting id r.callers ≡ true
    → any (gives_up id) es ≡ false
    → is_waiting id (run es (step cancelled_owner r)).callers ≡ true
served_call_hangs id es r e alone h stays =
    let lost = cancel-IsLost id r alone h in
    let still : IsLost id (some id) (step cancelled_owner r) = rw (cancel_serving id r e) lost in
    (run-IsLost id (some id) es (step cancelled_owner r) stays still).waits
