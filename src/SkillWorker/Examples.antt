-- ===== src/SkillWorker/Examples.antt =====
-- Runs and instances for the skill worker.
use labmate.SkillWorker.{
  add_task, dispatch, handle_payload, lose_task, read_batch, reclaim_pending, start, write_result,
  Result, succeeded, internal_error, object, no_json, Message, value, Handling, done,
  publish_raised, interrupted, Stream, Event, added, read, finished, stopped, started, run,
  finish_task, step,
}
use labmate.Common.{
  ℕ, ◌≡◌, refl, true, false, some, List, [], ◌∷◌, Text, codes, arith, lookup, insert, ◌&&◌, text_eq,
}
use labmate.SkillWorker.Delivery.{
  has_id, key_of, is_success, is_object, is_good, is_done_write, abandoned_message_is_never_handled,
  finished_task_is_answered,
}

abbrev shown : ℕ → Text
shown n = n ∷ []

abbrev empty_stream : Stream
empty_stream = record {
  fresh = [];
  pending = [];
  tasks = [];
  results = [];
  next_id = 0;
  reclaimed = 0;
}

abbrev goes_well : Handling
goes_well = record {
  call = value false (codes "v");
  first_write = done;
  second_write = done;
  is_acknowledged = true;
}

abbrev is_not_published : Handling
is_not_published = record goes_well { first_write = publish_raised }

-- Two tasks are read; the worker of the first dies.
abbrev left_behind : Stream
left_behind =
    run shown
      (added (object (some (codes "t")))
        ∷ added (object (some (codes "u")))
        ∷ read
        ∷ stopped 0
        ∷ [])
      empty_stream

abbrev later : List Event
later =
    started ((true, 1) ∷ [])
    ∷ added no_json
    ∷ read
    ∷ finished 1 goes_well
    ∷ finished 0 goes_well
    ∷ []

abandoned_message_is_never_handled_example :
    (has_id 0 (run shown later left_behind).pending ≡ true)
    × (has_id 0 (run shown later left_behind).tasks ≡ false)
unfolding run step lose_task read_batch add_task
abandoned_message_is_never_handled_example =
    abandoned_message_is_never_handled shown later 0 left_behind refl refl refl (omega arith)

-- The start claims the message; the other task is answered by the worker that lives on.
only_the_other_one :
    ((run shown later left_behind).reclaimed ≡ 1)
    × ((run shown later left_behind).results
        ≡ (codes "labmate:result:u", succeeded (codes "v")) ∷ [])
unfolding run step finish_task read_batch add_task start lose_task reclaim_pending handle_payload
    dispatch write_result insert
only_the_other_one = (refl, refl)

-- A task that is cancelled in its call is acknowledged without a result.
cancelled_task_is_silent :
    ((finish_task shown 1 (record goes_well { call = interrupted }) left_behind).results ≡ [])
    × (has_id 1 (finish_task shown 1 (record goes_well { call = interrupted }) left_behind).pending
        ≡ false)
unfolding finish_task run step lose_task read_batch add_task handle_payload dispatch
cancelled_task_is_silent = (refl, refl)

-- A `publish` that raises replaces a success that is already there.
success_is_overwritten :
    (finish_task shown 1 is_not_published left_behind).results
    ≡ (codes "labmate:result:u", internal_error) ∷ []
unfolding finish_task run step lose_task read_batch add_task handle_payload dispatch write_result
    insert text_eq
success_is_overwritten = refl

abbrev message : Message
message = record { id = 1; payload = object (some (codes "u")) }

finished_task_is_answered_example :
    ((r : Result) × (lookup
          (key_of (shown 1) message.payload)
          (finish_task shown 1 goes_well left_behind).results
        ≡ some r)
      × (is_success r
          ≡ (is_object message.payload && (is_good goes_well.call && is_done_write done))))
    × (lookup (codes "other") (finish_task shown 1 goes_well left_behind).results
        ≡ lookup (codes "other") left_behind.results)
    × (has_id 1 (finish_task shown 1 goes_well left_behind).pending ≡ false)
    × (has_id 1 (finish_task shown 1 goes_well left_behind).tasks ≡ false)
unfolding run step lose_task read_batch add_task text_eq
finished_task_is_answered_example =
    finished_task_is_answered shown 1 goes_well left_behind message (codes "other") refl refl refl
      refl refl refl
