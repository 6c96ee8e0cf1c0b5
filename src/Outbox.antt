-- ===== src/Outbox.antt =====
-- services/orchestrator/outbox_worker.py: the projection of MongoDB's outbox to Chroma and to the
-- stream of tasks. A run may be stopped by an exception of any of its writes: `writes` is the number
-- of writes that succeed before, and `none` says that no write fails. A text or a time that is
-- missing is `none`; a time is its ISO text.
pub mod Steps
pub mod Retry
pub mod Batch
mod Examples
use labmate.Common.{
  ℕ, zero, suc, ◌+◌, ◌-◌, Bool, true, false, not, Option, none, some, List, [], ◌∷◌, ◌++◌,
  if◌then◌else◌, Text, codes, is_empty, Dict, lookup, insert, ◌>>=◌, ◌==◌, leb,
}

unfoldable pub kind_to_collection : Dict Text
kind_to_collection =
    (codes "episode_vector", codes "episodic") ∷ (codes "memory_vector", codes "semantic") ∷ []

-- A document with its outbox marker.
pub record Document : Type 0 where
  pub id : Text
  pub kind : Text
  pub processed : Bool
  pub fact : Option Text
  pub content : Option Text
  pub session_id : Option Text
  pub valid_to : Option Text
  pub source : Option Text
  pub importance : Option Text

pub record Row : Type 0 where
  pub text : Text
  pub meta : Dict Text

-- A collection's rows by their ids, and the collections by their names.
abbrev pub Chroma : Type 0
Chroma = Dict (Dict Row)

pub record Task : Type 0 where
  pub kind : Text
  pub id : Text
  pub session_id : Option Text

-- `meta` with the entries that are not None.
unfoldable pub entry : Text → Option Text → Dict Text → Dict Text
entry key none meta = meta
entry key (some v) meta = (key, v) ∷ meta

unfoldable pub or_else : Option Text → Text → Text
or_else none t = t
or_else (some s) t = if is_empty s then t else s

unfoldable pub row_of : Document → Row
unfolding entry or_else
row_of d = record {
  text = or_else d.fact (or_else d.content []);
  meta = entry (codes "session_id") d.session_id (
      entry (codes "valid_to") d.valid_to
        (entry (codes "source") d.source (entry (codes "importance") d.importance [])));
}

unfoldable pub task_of : Document → Task
task_of d = record { kind = d.kind; id = d.id; session_id = d.session_id }

-- `get_or_create_collection`
unfoldable pub collection : Text → Chroma → Dict Row
collection target chroma = elim (lookup target chroma) [ none ↦ [] | some rows ↦ rows ]

unfoldable pub upsert : Text → Document → Chroma → Chroma
unfolding collection row_of
upsert target d chroma = insert target (insert d.id (row_of d) (collection target chroma)) chroma

-- Whether the run may write `n` more times, and what is left of `writes` after them.
unfoldable pub allows : ℕ → Option ℕ → Bool
allows n none = true
allows n (some k) = leb n k

unfoldable pub after_writes : ℕ → Option ℕ → Option ℕ
after_writes n none = none
after_writes n (some k) = some (k - n)

-- What a run leaves: the documents, Chroma, the tasks that it added, the number of documents that it
-- handled, the writes that are left, and whether it went through.
pub record Projection : Type 0 where
  pub documents : List Document
  pub chroma : Chroma
  pub tasks : List Task
  pub handled : ℕ
  pub writes : Option ℕ
  pub completed : Bool

unfoldable pub stopped : List Document → Chroma → List Task → Projection
stopped documents chroma tasks = record {
  documents = documents;
  chroma = chroma;
  tasks = tasks;
  handled = 0;
  writes = some 0;
  completed = false;
}

-- The loop over the cursor of one collection, of at most `limit` documents.
unfoldable pub project : ℕ → Option ℕ → List Document → Chroma → Projection
unfolding kind_to_collection task_of stopped
project limit writes [] chroma = record {
  documents = [];
  chroma = chroma;
  tasks = [];
  handled = 0;
  writes = writes;
  completed = true;
}
project limit writes (d ∷ ds) chroma =
    let kept = project limit writes ds chroma in
    let target : Option Text = lookup d.kind kind_to_collection in
    let written : Chroma = elim target [ none ↦ chroma | some t ↦ upsert t d chroma ] in
    let next = project (limit - 1) (after_writes 3 writes) ds written in
    if d.processed
    then record kept { documents = d ∷ kept.documents }
    else if limit == 0
    then record {
      documents = d ∷ ds;
      chroma = chroma;
      tasks = [];
      handled = 0;
      writes = writes;
      completed = true;
    }
    else elim target [
      | none ↦ stopped (d ∷ ds) chroma []
      | some t ↦
          if not (allows 1 writes)
          then stopped (d ∷ ds) chroma []
          else if not (allows 2 writes)
          then stopped (d ∷ ds) written []
          else if not (allows 3 writes)
          then stopped (d ∷ ds) written (task_of d ∷ [])
          else record next {
            documents = record d { processed = true } ∷ next.documents;
            tasks = task_of d ∷ next.tasks;
            handled = next.handled + 1;
          }
    ]

-- `process_once`: the episodes, and then the memories.
pub record Outbox : Type 0 where
  pub episodes : List Document
  pub memories : List Document
  pub chroma : Chroma
  pub tasks : List Task

unfoldable pub process_once : ℕ → Option ℕ → Outbox → Outbox × Option ℕ
process_once limit writes o =
    let first = project limit writes o.episodes o.chroma in
    let second = project limit first.writes o.memories first.chroma in
    if first.completed
    then (
      record {
        episodes = first.documents;
        memories = second.documents;
        chroma = second.chroma;
        tasks = o.tasks ++ (first.tasks ++ second.tasks);
      },
      if second.completed then some (first.handled + second.handled) else none,
    )
    else (
      record o {
        episodes = first.documents;
        chroma = first.chroma;
        tasks = o.tasks ++ first.tasks;
      },
      none,
    )
