-- ===== src/SkillWorker/Delivery.antt =====
-- Which messages are handled, and which are not.
use labmate.Common.{
  ℕ, ◌<◌, ◌≡◌, refl, Bool, true, false, ◌||◌, some, List, [], ◌∷◌, ◌++◌, Text, ◌==◌, any, take,
  Option, drop, arith, Bool-cases, Option-cases, inl, inr, zero, suc, ◌∙◌, ap, if◌then◌else◌, ◌&&◌,
  Dict, lookup, insert, lookup-insert_self, lookup-insert, text_eq,
}
use labmate.SkillWorker.{
  Result, succeeded, tool_error, malformed_payload, internal_error, skill_unavailable,
  dispatch_failed, no_json, no_object, object, dispatch, handle_payload, task_key, Payload, Message,
  CallResult, value, unavailable, other_exception, interrupted, Written, done, set_raised,
  publish_raised, cut_before, cut_after, Handling, write_result, result_key, raises, Stream, batch,
  add_task, read_batch, find_task, others, finish_task, start, lose_task, Event, added, read,
  finished, stopped, started, step, run,
}

abbrev pub has_id : ℕ → List Message → Bool
has_id id ms = any (λ m. m.id == id) ms

-- The message was delivered and not acknowledged, and no worker has a task for it.
pub record IsStale (id : ℕ) (s : Stream) : Type 0 where
  pub is_pending : has_id id s.pending ≡ true
  pub not_fresh : has_id id s.fresh ≡ false
  pub no_task : has_id id s.tasks ≡ false
  pub is_old : id < s.next_id

has_id-append :
    (id : ℕ) (ms ns : List Message) → has_id id (ms ++ ns) ≡ (has_id id ms || has_id id ns)
has_id-append id [] ns = refl
has_id-append id (m ∷ ms) ns = ground (arith, has_id-append id ms ns)

has_id-take : (id n : ℕ) (ms : List Message) → has_id id ms ≡ false → has_id id (take n ms) ≡ false
has_id-take id zero ms h = refl
has_id-take id (suc n) [] h = refl
has_id-take id (suc n) (m ∷ ms) h = ground (arith, has_id-take id n ms)

has_id-drop : (id n : ℕ) (ms : List Message) → has_id id ms ≡ false → has_id id (drop n ms) ≡ false
has_id-drop id zero ms h = h
has_id-drop id (suc n) [] h = refl
has_id-drop id (suc n) (m ∷ ms) h = has_id-drop id n ms (ground arith)

has_id-others :
    (id k : ℕ) (ms : List Message) → (id == k) ≡ false → has_id id (others k ms) ≡ has_id id ms
has_id-others id k [] h = refl
has_id-others id k (m ∷ ms) h = ground (arith, has_id-others id k ms h)

find_task-has_id :
    (id k : ℕ) (ms : List Message) (m : Message)
    → find_task k ms ≡ some m
    → has_id id ms ≡ false
    → (id == k) ≡ false
find_task-has_id id k [] m e h = cc
find_task-has_id id k (x ∷ ms) m e h = elim (Bool-cases (x.id == k)) [
  | inl t ↦ ground arith
  | inr f ↦ find_task-has_id id k ms m (ground arith) (ground arith)
]

added-IsStale : (id : ℕ) (p : Payload) (s : Stream) → IsStale id s → IsStale id (add_task p s)
unfolding add_task
added-IsStale id p s h = record {
  is_pending = h.is_pending;
  not_fresh = ground (
    arith,
    h.not_fresh,
    h.is_old,
    has_id-append id s.fresh (record { id = s.next_id; payload = p } ∷ []),
  );
  no_task = h.no_task;
  is_old = omega (arith, h.is_old);
}

read-IsStale : (id : ℕ) (s : Stream) → IsStale id s → IsStale id (read_batch s)
unfolding read_batch
read-IsStale id s h =
    let unread = has_id-take id batch s.fresh h.not_fresh in
    record {
      is_pending = ground (arith, h.is_pending, has_id-append id s.pending (take batch s.fresh));
      not_fresh = has_id-drop id batch s.fresh h.not_fresh;
      no_task = ground (arith, unread, h.no_task, has_id-append id s.tasks (take batch s.fresh));
      is_old = h.is_old;
    }

finished-IsStale :
    (shown : ℕ → Text) (id k : ℕ) (o : Handling) (s : Stream)
    → IsStale id s
    → IsStale id (finish_task shown k o s)
unfolding finish_task
finished-IsStale shown id k o s h = elim (Option-cases (find_task k s.tasks)) [
  | inl unknown ↦ let same : finish_task shown k o s ≡ s = ground arith in rw same h
  | inr (m, found) ↦
      let other = find_task-has_id id k s.tasks m found h.no_task in
      let s' : Stream = record s {
        pending = if o.is_acknowledged then others k s.pending else s.pending;
        tasks = others k s.tasks;
        results = handle_payload (shown m.id) m.payload o s.results;
      } in
      let same : finish_task shown k o s ≡ s' = ground arith in
      rw same (record {
        is_pending = ground (arith, has_id-others id k s.pending other, h.is_pending);
        not_fresh = h.not_fresh;
        no_task = has_id-others id k s.tasks other ∙ h.no_task;
        is_old = h.is_old;
      })
]

others-unheld :
    (id k : ℕ) (ms : List Message) → has_id id ms ≡ false → has_id id (others k ms) ≡ false
others-unheld id k [] h = refl
others-unheld id k (m ∷ ms) h = ground (arith, others-unheld id k ms)

step-IsStale :
    (shown : ℕ → Text) (id : ℕ) (e : Event) (s : Stream)
    → IsStale id s
    → IsStale id (step shown e s)
unfolding step start lose_task
step-IsStale shown id (added p) s h = added-IsStale id p s h
step-IsStale shown id read s h = read-IsStale id s h
step-IsStale shown id (finished k o) s h = finished-IsStale shown id k o s h
step-IsStale shown id (stopped k) s h = record {
  is_pending = h.is_pending;
  not_fresh = h.not_fresh;
  no_task = others-unheld id k s.tasks h.no_task;
  is_old = h.is_old;
}
step-IsStale shown id (started pages) s h = record {
  is_pending = h.is_pending;
  not_fresh = h.not_fresh;
  no_task = h.no_task;
  is_old = h.is_old;
}

run-IsStale :
    (shown : ℕ → Text) (id : ℕ) (es : List Event) (s : Stream)
    → IsStale id s
    → IsStale id (run shown es s)
unfolding run
run-IsStale shown id [] s h = h
run-IsStale shown id (e ∷ es) s h =
    run-IsStale shown id es (step shown e s) (step-IsStale shown id e s h)

-- A message that was delivered and not acknowledged, and that no worker has a task for, is never
-- handled: whatever is added, read, finished or stopped, and however many workers start and reclaim, it
-- stays pending, and no worker gets a task for it.
pub abandoned_message_is_never_handled :
    (shown : ℕ → Text) (es : List Event) (id : ℕ) (s : Stream)
    → has_id id s.pending ≡ true
    → has_id id s.fresh ≡ false
    → has_id id s.tasks ≡ false
    → id < s.next_id
    → (has_id id (run shown es s).pending ≡ true) × (has_id id (run shown es s).tasks ≡ false)
abandoned_message_is_never_handled shown es id s waits read_once idle old =
    let stale =
      run-IsStale shown id es s
        (record { is_pending = waits; not_fresh = read_once; no_task = idle; is_old = old }) in
    (stale.is_pending, stale.no_task)

has_id-others_self : (id : ℕ) (ms : List Message) → has_id id (others id ms) ≡ false
has_id-others_self id [] = refl
has_id-others_self id (m ∷ ms) = ground (arith, has_id-others_self id ms)

-- The key that the client polls: that of the task id, or of the entry's id where there is none.
abbrev pub key_of : Text → Payload → Text
key_of fallback (object task_id) = result_key (task_key fallback task_id)
key_of fallback _ = result_key fallback

abbrev pub is_success : Result → Bool
is_success (succeeded v) = true
is_success _ = false

-- The call gives a value that is not marked as an error.
abbrev pub is_good : CallResult → Bool
is_good (value false v) = true
is_good _ = false

abbrev pub is_object : Payload → Bool
is_object (object t) = true
is_object _ = false

abbrev pub is_interrupted : CallResult → Bool
is_interrupted interrupted = true
is_interrupted _ = false

-- The write is cut off by the cancellation of the task.
abbrev pub is_cut : Written → Bool
is_cut cut_before = true
is_cut cut_after = true
is_cut _ = false

abbrev pub is_done_write : Written → Bool
is_done_write done = true
is_done_write _ = false

dispatch-is_success :
    (c : CallResult)
    → is_interrupted c ≡ false
    → (r : Result) × (dispatch c ≡ some r) × (is_success r ≡ is_good c)
unfolding dispatch
dispatch-is_success (value true v) h = (tool_error v, refl, refl)
dispatch-is_success (value false v) h = (succeeded v, refl, refl)
dispatch-is_success unavailable h = (skill_unavailable, refl, refl)
dispatch-is_success other_exception h = (dispatch_failed, refl, refl)
dispatch-is_success interrupted h = cc

-- The result after the first write and that of the exception handler.
abbrev written_twice : Text → Result → Written → Written → Dict Result → Dict Result
written_twice key r first second results =
    if raises first
    then write_result second key internal_error (write_result first key r results)
    else write_result first key r results

written_twice-answered :
    (key : Text) (r : Result) (w : Written) (results : Dict Result)
    → is_cut w ≡ false
    → (q : Result) × (lookup key (written_twice key r w done results) ≡ some q)
      × (is_success q ≡ (is_success r && is_done_write w))
unfolding write_result
written_twice-answered key r done results h = (r, lookup-insert_self key r results, ground arith)
written_twice-answered key r set_raised results h =
    (internal_error, lookup-insert_self key internal_error results, ground arith)
written_twice-answered key r publish_raised results h =
    (internal_error, lookup-insert_self key internal_error (insert key r results), ground arith)
written_twice-answered key r cut_before results h = cc
written_twice-answered key r cut_after results h = cc

write_result-elsewhere :
    (w : Written) (j key : Text) (r : Result) (results : Dict Result)
    → text_eq j key ≡ false
    → lookup j (write_result w key r results) ≡ lookup j results
unfolding write_result
write_result-elsewhere done j key r results h = ground (arith, lookup-insert key j r results)
write_result-elsewhere set_raised j key r results h = refl
write_result-elsewhere publish_raised j key r results h =
    ground (arith, lookup-insert key j r results)
write_result-elsewhere cut_before j key r results h = refl
write_result-elsewhere cut_after j key r results h = ground (arith, lookup-insert key j r results)

handle_object :
    (fallback : Text) (task_id : Option Text) (h : Handling) (results : Dict Result) (r : Result)
    → dispatch h.call ≡ some r
    → handle_payload fallback (object task_id) h results
      ≡ written_twice
          (result_key (task_key fallback task_id))
          r
          h.first_write
          h.second_write
          results
unfolding handle_payload
handle_object fallback task_id h results r dispatched = rw (handle_payload, dispatched) refl

handle_payload-answered :
    (fallback : Text) (p : Payload) (h : Handling) (results : Dict Result)
    → is_interrupted h.call ≡ false
    → is_cut h.first_write ≡ false
    → h.second_write ≡ done
    → (r : Result) × (lookup (key_of fallback p) (handle_payload fallback p h results) ≡ some r)
      × (is_success r ≡ (is_object p && (is_good h.call && is_done_write h.first_write)))
unfolding handle_payload write_result
handle_payload-answered fallback no_json h results called uncut second =
    (malformed_payload, rw second (lookup-insert_self _ malformed_payload results), refl)
handle_payload-answered fallback no_object h results called uncut second =
    (internal_error, rw second (lookup-insert_self _ internal_error results), refl)
handle_payload-answered fallback (object task_id) h results called uncut second =
    let (r, dispatched, good) = dispatch-is_success h.call called in
    let (q, there, same) =
      written_twice-answered (result_key (task_key fallback task_id)) r h.first_write results
        uncut in
    let whole = handle_object fallback task_id h results r dispatched in
    (q, rw whole (rw second there), same ∙ ap (λ b. b && is_done_write h.first_write) good)

written_twice-elsewhere :
    (j key : Text) (r : Result) (first second : Written) (results : Dict Result)
    → text_eq j key ≡ false
    → lookup j (written_twice key r first second results) ≡ lookup j results
written_twice-elsewhere j key r first second results other =
    let once = write_result-elsewhere first j key r results other in
    let twice =
      write_result-elsewhere second j key internal_error (write_result first key r results) other in
    elim (Bool-cases (raises first)) [
      | inl again ↦ rw again (twice ∙ once)
      | inr not_again ↦ rw not_again once
    ]

handle_payload-elsewhere :
    (fallback j : Text) (p : Payload) (h : Handling) (results : Dict Result)
    → text_eq j (key_of fallback p) ≡ false
    → lookup j (handle_payload fallback p h results) ≡ lookup j results
unfolding handle_payload
handle_payload-elsewhere fallback j no_json h results other =
    write_result-elsewhere h.second_write j _ malformed_payload results other
handle_payload-elsewhere fallback j no_object h results other =
    write_result-elsewhere h.second_write j _ internal_error results other
handle_payload-elsewhere fallback j (object task_id) h results other =
    elim (Option-cases (dispatch h.call)) [
      | inl passed ↦ rw (handle_payload, passed) refl
      | inr (r, dispatched) ↦
          rw (handle_object fallback task_id h results r dispatched)
            (written_twice-elsewhere j _ r h.first_write h.second_write results other)
    ]

-- A task that ends, neither cancelled in its call nor cut off in its first write, with a handler whose
-- own write is done and an acknowledgement that gets through: the key that its client polls holds a
-- result, which is a success exactly if the payload is an object, the call gives a value that is not
-- marked as an error, and the first write is done; the results under other keys stay; and the message
-- is neither pending nor with a task.
pub finished_task_is_answered :
    (shown : ℕ → Text) (id : ℕ) (h : Handling) (s : Stream) (m : Message) (j : Text)
    → find_task id s.tasks ≡ some m
    → is_interrupted h.call ≡ false
    → is_cut h.first_write ≡ false
    → h.second_write ≡ done
    → h.is_acknowledged ≡ true
    → text_eq j (key_of (shown m.id) m.payload) ≡ false
    → ((r : Result) × (lookup (key_of (shown m.id) m.payload) (finish_task shown id h s).results
          ≡ some r)
        × (is_success r ≡ (is_object m.payload && (is_good h.call && is_done_write h.first_write))))
      × (lookup j (finish_task shown id h s).results ≡ lookup j s.results)
      × (has_id id (finish_task shown id h s).pending ≡ false)
      × (has_id id (finish_task shown id h s).tasks ≡ false)
unfolding finish_task
finished_task_is_answered shown id h s m j found called uncut second acked other =
    let after : Stream = record s {
      pending = others id s.pending;
      tasks = others id s.tasks;
      results = handle_payload (shown m.id) m.payload h s.results;
    } in
    let same : finish_task shown id h s ≡ after = ground arith in
    rw same (
      handle_payload-answered (shown m.id) m.payload h s.results called uncut second,
      handle_payload-elsewhere (shown m.id) j m.payload h s.results other,
      has_id-others_self id s.pending,
      has_id-others_self id s.tasks,
    )
