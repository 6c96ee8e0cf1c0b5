-- ===== src/SkillRegistry/Pending.antt =====
-- Over every interleaving: who waits, and for what.
use labmate.Common.{
  ap, ℕ, ◌+◌, ◌-◌, ◌≡◌, refl, Bool, true, false, not, ◌&&◌, none, some, List, [], ◌∷◌, ◌++◌,
  if◌then◌else◌, ◌==◌, length, length-append, arith, Option-cases, Bool-cases, any, map, inl, inr,
  ◌∙◌, sym,
}
use labmate.SkillRegistry.{
  Outcome, result, error, cancelled, Entry, request, restart_sentinel, Owner, opening, idle,
  closing, backing_off, serving, ended, Registry, is_dead, is_ready, looks_dead, is_draining_phase,
  Answer, call_tool, settle, drain_inbox, open_session, crash, cancel, maybe_restart, take_entry,
  Event, call, opened, taken, closed, woken, answered, raised, cancelled_owner, returned, restarted,
  supervised, reload_started, reload_drained, outcome_at, without, return_to, answer_to, open_from,
  take_from, close_from, forget, give_up, gave_up, Caller, supervise, start_reload, finish_reload,
  wake_from, raise_from, cancel_from, step, run, registered, outcome_of,
}
use labmate.SkillRegistry.Kept.{
  is_request, is_served, is_kept, IsAccounted, all-weaken, all-map, all-append, any-append,
  length-map, length-drain_inbox, settle-is_kept, drain_inbox-all, more-is_kept, same-is_kept,
  length-without, all-without, length-without_present, forget-all,
}

if-IsAccounted :
    (b : Bool) (r s : Registry) → IsAccounted r → IsAccounted s → IsAccounted (if b then r else s)
if-IsAccounted true r s h k = h
if-IsAccounted false r s h k = k

either-IsAccounted :
    (b : Bool) (x y : Registry × Answer)
    → IsAccounted x.0
    → IsAccounted y.0
    → IsAccounted (if b then x else y).0
either-IsAccounted true x y h k = h
either-IsAccounted false x y h k = k

new_caller-is_kept :
    (id : ℕ) (es : List Entry) (owner : Owner)
    → is_kept
        (es ++ request id ∷ [])
        owner
        (record { id = id; outcome = none; is_forgotten = false })
      ≡ true
new_caller-is_kept id es owner = ground (arith, any-append (is_request id) es (request id ∷ []))

call_tool-IsAccounted :
    (has_tool is_valid : Bool) (r : Registry)
    → IsAccounted r
    → IsAccounted (call_tool has_tool is_valid r).0
unfolding call_tool
call_tool-IsAccounted has_tool is_valid r h = either-IsAccounted (is_dead r.phase) _ _ h (
    either-IsAccounted (is_draining_phase r.phase) _ _ h (
      either-IsAccounted (not has_tool) _ _ h (
        either-IsAccounted (not is_valid) _ _ h (
          either-IsAccounted (not (is_ready r.phase)) _ _ h (record {
            in_flight = omega (
              arith,
              h.in_flight,
              length-append r.callers
                  (record { id = r.next_id; outcome = none; is_forgotten = false } ∷ []),
            );
            kept = ground (
              arith,
              all-append (is_kept (r.inbox ++ request r.next_id ∷ []) r.owner) r.callers
                  (record { id = r.next_id; outcome = none; is_forgotten = false } ∷ []),
              more-is_kept (request r.next_id) r.inbox r.owner r.callers h.kept,
              new_caller-is_kept r.next_id r.inbox r.owner,
            );
          })))))

-- The crash and the cancellation settle every queued call.
drained-IsAccounted :
    (o : Outcome) (owner : Owner) (r r' : Registry)
    → IsAccounted r
    → ((id : ℕ) → is_served id r.owner ≡ true → is_served id owner ≡ true)
    → r'.inflight ≡ r.inflight
    → r'.inbox ≡ []
    → r'.owner ≡ owner
    → r'.callers ≡ drain_inbox o r.inbox r.callers
    → IsAccounted r'
drained-IsAccounted o owner r r' h served inflight_is inbox_is owner_is callers_is = record {
  in_flight =
      inflight_is
      ∙ h.in_flight
      ∙ sym (ap length callers_is ∙ length-drain_inbox o r.inbox r.callers);
  kept =
      rw (inbox_is, owner_is, callers_is)
        (drain_inbox-all o r.inbox owner r.callers
          (same-is_kept r.inbox r.owner owner r.callers served h.kept));
}

maybe_restart-IsAccounted : (r : Registry) → IsAccounted r → IsAccounted (maybe_restart r)
unfolding maybe_restart
maybe_restart-IsAccounted r h = if-IsAccounted (is_dead r.phase) _ _ h (record {
  in_flight = h.in_flight;
  kept = more-is_kept restart_sentinel r.inbox r.owner r.callers h.kept;
})

return_to-IsAccounted : (id : ℕ) (r : Registry) → IsAccounted r → IsAccounted (return_to id r)
unfolding return_to
return_to-IsAccounted id r h = elim (Option-cases (outcome_at id r.callers)) [
  | inl waits ↦ let same : return_to id r ≡ r = ground arith in rw same h
  | inr (o, done) ↦
      let r' : Registry = record r {
        inflight = r.inflight - 1;
        callers = without id r.callers;
        restart_tasks = elim o [
          | result ↦ r.restart_tasks
          | error ↦ r.restart_tasks + 1
          | cancelled ↦ r.restart_tasks
        ];
      } in
      let same : return_to id r ≡ r' = ground arith in
      rw same (record {
        in_flight = omega (arith, h.in_flight, length-without id r.callers o done);
        kept = all-without (is_kept r.inbox r.owner) id r.callers h.kept;
      })
]

served_by : (id k : ℕ) (owner : Owner) → owner ≡ serving id → is_served k owner ≡ true → k ≡ id
served_by id k owner e h = ground arith

take_entry-IsAccounted :
    (es : List Entry) (r : Registry)
    → r.inbox ≡ es
    → r.owner ≡ idle
    → IsAccounted r
    → IsAccounted (take_entry es r)
unfolding take_entry
take_entry-IsAccounted [] r e idles h = h
take_entry-IsAccounted (request id ∷ es) r e idles h = record {
  in_flight = h.in_flight;
  kept =
      all-weaken (is_kept r.inbox r.owner) (is_kept es (serving id)) r.callers
        (λ c k. ground (arith, e, idles, k)) h.kept;
}
take_entry-IsAccounted (restart_sentinel ∷ es) r e idles h = record {
  in_flight = h.in_flight;
  kept =
      all-weaken (is_kept r.inbox r.owner) (is_kept es closing) r.callers
        (λ c k. ground (arith, e, idles, k)) h.kept;
}

answer_to-IsAccounted :
    (ok : Bool) (owner : Owner) (r : Registry)
    → r.owner ≡ owner
    → IsAccounted r
    → IsAccounted (answer_to ok owner r)
unfolding answer_to
answer_to-IsAccounted ok (serving id) r e h = record {
  in_flight = h.in_flight ∙ sym (length-map (settle id (outcome_of ok)) r.callers);
  kept =
      all-map (is_kept r.inbox r.owner) (is_kept r.inbox idle) (settle id (outcome_of ok)) r.callers
        (λ c.
          settle-is_kept id (outcome_of ok) r.inbox r.inbox r.owner idle c (λ x. inr x)
            (λ x. inl (served_by id c.id r.owner e x)))
        h.kept;
}
answer_to-IsAccounted ok _ r e h = h

open_from-IsAccounted :
    (owner : Owner) (r : Registry)
    → r.owner ≡ owner
    → IsAccounted r
    → IsAccounted (open_from owner r)
unfolding open_from open_session
open_from-IsAccounted opening r e h = record {
  in_flight = h.in_flight;
  kept = same-is_kept r.inbox r.owner idle r.callers (λ id x. ground (arith, e)) h.kept;
}
open_from-IsAccounted _ r e h = h

close_from-IsAccounted :
    (owner : Owner) (r : Registry)
    → r.owner ≡ owner
    → IsAccounted r
    → IsAccounted (close_from owner r)
unfolding close_from
close_from-IsAccounted closing r e h = record {
  in_flight = h.in_flight;
  kept = same-is_kept r.inbox r.owner backing_off r.callers (λ id x. ground (arith, e)) h.kept;
}
close_from-IsAccounted _ r e h = h

wake_from-IsAccounted :
    (owner : Owner) (r : Registry)
    → r.owner ≡ owner
    → IsAccounted r
    → IsAccounted (wake_from owner r)
unfolding wake_from
wake_from-IsAccounted backing_off r e h = record {
  in_flight = h.in_flight;
  kept = same-is_kept r.inbox r.owner opening r.callers (λ id x. ground (arith, e)) h.kept;
}
wake_from-IsAccounted _ r e h = h

raise_from-IsAccounted :
    (owner : Owner) (r : Registry)
    → r.owner ≡ owner
    → IsAccounted r
    → IsAccounted (raise_from owner r)
unfolding raise_from crash
raise_from-IsAccounted opening r e h =
    drained-IsAccounted error backing_off r _ h (λ id x. ground (arith, e)) refl refl refl refl
raise_from-IsAccounted closing r e h =
    drained-IsAccounted error backing_off r _ h (λ id x. ground (arith, e)) refl refl refl refl
raise_from-IsAccounted idle r e h =
    drained-IsAccounted error backing_off r _ h (λ id x. ground (arith, e)) refl refl refl refl
raise_from-IsAccounted (serving id) r e h =
    drained-IsAccounted error backing_off
      (record r { callers = map (forget id) r.callers; owner = backing_off }) _
      (record {
        in_flight = h.in_flight ∙ sym (length-map (forget id) r.callers);
        kept =
            forget-all id r.inbox r.owner backing_off r.callers (λ k x. served_by id k r.owner e x)
              h.kept;
      })
      (λ k x. x) refl refl refl refl
raise_from-IsAccounted _ r e h = h

cancel_from-IsAccounted :
    (owner : Owner) (r : Registry)
    → r.owner ≡ owner
    → IsAccounted r
    → IsAccounted (cancel_from owner r)
unfolding cancel_from cancel
cancel_from-IsAccounted (ended served) r e h = h
cancel_from-IsAccounted (serving id) r e h =
    drained-IsAccounted cancelled (ended (some id)) r _ h (λ k x. ground (arith, e)) refl refl refl
      refl
cancel_from-IsAccounted backing_off r e h = record {
  in_flight = h.in_flight;
  kept = same-is_kept r.inbox r.owner (ended none) r.callers (λ id x. ground (arith, e)) h.kept;
}
cancel_from-IsAccounted opening r e h =
    drained-IsAccounted cancelled (ended none) r _ h (λ id x. ground (arith, e)) refl refl refl refl
cancel_from-IsAccounted idle r e h =
    drained-IsAccounted cancelled (ended none) r _ h (λ id x. ground (arith, e)) refl refl refl refl
cancel_from-IsAccounted closing r e h =
    drained-IsAccounted cancelled (ended none) r _ h (λ id x. ground (arith, e)) refl refl refl refl

take_from-IsAccounted :
    (owner : Owner) (r : Registry)
    → r.owner ≡ owner
    → IsAccounted r
    → IsAccounted (take_from owner r)
unfolding take_from
take_from-IsAccounted idle r e h = take_entry-IsAccounted r.inbox r refl e h
take_from-IsAccounted _ r e h = h

give_up-IsAccounted : (id : ℕ) (r : Registry) → IsAccounted r → IsAccounted (give_up id r)
unfolding give_up
give_up-IsAccounted id r h = elim (Bool-cases (any (λ (c : Caller). c.id == id) r.callers)) [
  | inl there ↦ rw there (record {
    in_flight = omega (arith, h.in_flight, length-without_present id r.callers there);
    kept = all-without (is_kept r.inbox r.owner) id r.callers h.kept;
  })
  | inr not_there ↦ rw not_there h
]

step-IsAccounted : (e : Event) (r : Registry) → IsAccounted r → IsAccounted (step e r)
unfolding step supervise start_reload finish_reload
step-IsAccounted (call has_tool is_valid) r h = call_tool-IsAccounted has_tool is_valid r h
step-IsAccounted opened r h = open_from-IsAccounted r.owner r refl h
step-IsAccounted taken r h = take_from-IsAccounted r.owner r refl h
step-IsAccounted (answered ok) r h = answer_to-IsAccounted ok r.owner r refl h
step-IsAccounted closed r h = close_from-IsAccounted r.owner r refl h
step-IsAccounted woken r h = wake_from-IsAccounted r.owner r refl h
step-IsAccounted raised r h = raise_from-IsAccounted r.owner r refl h
step-IsAccounted cancelled_owner r h = cancel_from-IsAccounted r.owner r refl h
step-IsAccounted (returned id) r h = return_to-IsAccounted id r h
step-IsAccounted (gave_up id) r h = give_up-IsAccounted id r h
step-IsAccounted restarted r h = if-IsAccounted (r.restart_tasks == 0) _ _ h (
    maybe_restart-IsAccounted (record r { restart_tasks = r.restart_tasks - 1 })
      (record { in_flight = h.in_flight; kept = h.kept }))
step-IsAccounted supervised r h =
    if-IsAccounted (is_ready r.phase && looks_dead r) _ _ (maybe_restart-IsAccounted r h) h
step-IsAccounted reload_started r h = record { in_flight = h.in_flight; kept = h.kept }
step-IsAccounted reload_drained r h =
    if-IsAccounted (r.inflight == 0) _ _
      (record {
        in_flight = h.in_flight;
        kept = more-is_kept restart_sentinel r.inbox r.owner r.callers h.kept;
      })
      h

run-IsAccounted : (es : List Event) (r : Registry) → IsAccounted r → IsAccounted (run es r)
unfolding run
run-IsAccounted [] r h = h
run-IsAccounted (e ∷ es) r h = run-IsAccounted es (step e r) (step-IsAccounted e r h)

-- In every interleaving of calls, cancelled callers, failures of the session, restarts, reloads and the
-- cancellation of the owner, `inflight` is the number of callers that have not gone on, and each of
-- these has its outcome, or a request in the inbox, or one that the owner serves, or one that it served
-- when its session failed or it was cancelled.
pub run_registered-IsAccounted : (es : List Event) → IsAccounted (run es registered)
unfolding registered
run_registered-IsAccounted es =
    run-IsAccounted es registered (record { in_flight = refl; kept = refl })
