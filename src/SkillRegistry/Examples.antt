-- ===== src/SkillRegistry/Examples.antt =====
-- Runs and instances for the skill registry.
use labmate.SkillRegistry.{
  crash, drain_inbox, forget, give_up, raise_from, call_tool, open_from, open_session, take_from,
  take_entry, answer_to, return_to, outcome_at, without, close_from, wake_from, maybe_restart,
  Event, call, opened, taken, closed, woken, answered, cancelled_owner, raised, gave_up, returned,
  restarted, Registry, serving, step, run, registered,
}
use labmate.Common.{◌≡◌, refl, true, false, List, [], ◌∷◌, any}
use labmate.SkillRegistry.Kept.{IsAccounted, is_request}
use labmate.SkillRegistry.Pending.{run_registered-IsAccounted}
use labmate.SkillRegistry.Shutdown.{is_waiting, served_call_hangs}

-- Two calls, the first fails and the second is served; the process restarts and is cancelled.
abbrev events : List Event
events =
    opened
    ∷ call true true
    ∷ call true true
    ∷ taken
    ∷ answered false
    ∷ returned 0
    ∷ restarted
    ∷ taken
    ∷ answered true
    ∷ returned 1
    ∷ taken
    ∷ closed
    ∷ woken
    ∷ opened
    ∷ call true true
    ∷ taken
    ∷ []

abbrev serves : Registry
serves = run events registered

all_returned : (serves.inflight ≡ 1) × (serves.owner ≡ serving 2) × (serves.restarts ≡ 0)
unfolding run registered step call_tool open_from open_session take_from take_entry answer_to
    return_to outcome_at without close_from wake_from maybe_restart
all_returned = (refl, refl, refl)

-- The session fails while a call is served and another one waits; the one that waits is told.
abbrev failing : List Event
failing =
    opened
    ∷ call true true
    ∷ call true true
    ∷ call true true
    ∷ taken
    ∷ raised
    ∷ gave_up 2
    ∷ returned 1
    ∷ []

one_is_left : ((run failing registered).inflight ≡ 1) × ((run failing registered).restart_tasks ≡ 1)
unfolding run step return_to outcome_at give_up raise_from take_from call_tool open_from registered
    open_session take_entry crash drain_inbox forget without
one_is_left = (refl, refl)

run_registered-IsAccounted_example : IsAccounted (run failing registered)
run_registered-IsAccounted_example = run_registered-IsAccounted failing

serves_it : serves.owner ≡ serving 2
unfolding run registered step call_tool open_from open_session take_from take_entry answer_to
    return_to outcome_at without close_from wake_from maybe_restart
serves_it = refl

alone : any (is_request 2) serves.inbox ≡ false
unfolding run registered step call_tool open_from open_session take_from take_entry answer_to
    return_to outcome_at without close_from wake_from maybe_restart
alone = refl

waits : is_waiting 2 serves.callers ≡ true
unfolding run registered step call_tool open_from open_session take_from take_entry answer_to
    return_to outcome_at without close_from wake_from maybe_restart
waits = refl

served_call_hangs_example :
    is_waiting 2
      (run
        (woken ∷ opened ∷ taken ∷ answered true ∷ returned 2 ∷ [])
        (step cancelled_owner serves)).callers
    ≡ true
served_call_hangs_example =
    served_call_hangs 2 (woken ∷ opened ∷ taken ∷ answered true ∷ returned 2 ∷ []) serves serves_it
      alone waits refl
