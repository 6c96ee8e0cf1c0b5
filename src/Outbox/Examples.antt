-- ===== src/Outbox/Examples.antt =====
-- Runs and instances for the outbox.
use labmate.Common.{
  ◌≡◌, refl, true, false, none, some, List, [], ◌∷◌, Text, codes, lookup, text_eq, arith,
}
use labmate.Outbox.{
  Outbox, process_once, Document, project, allows, after_writes, stopped, kind_to_collection,
}
use labmate.Outbox.Batch.{SameOutbox, process_once-retry}

abbrev fact : Text → Text → Document
fact id words = record {
  id = id;
  kind = codes "memory_vector";
  processed = false;
  fact = some words;
  content = none;
  session_id = some (codes "s-1");
  valid_to = none;
  source = none;
  importance = none;
}

abbrev episode : Document
episode = record (fact (codes "2") (codes "it failed")) { kind = codes "episode_vector" }

abbrev documents : List Document
documents = fact (codes "1") (codes "tests use pytest") ∷ episode ∷ []

-- The fourth write, the second document's row, is the last that succeeds.
second_is_stopped : (project 100 (some 4) documents []).completed ≡ false
unfolding project kind_to_collection lookup text_eq allows after_writes stopped
second_is_stopped = refl

retry_completes :
    (project 100 none
      (project 100 (some 4) documents []).documents
      (project 100 (some 4) documents []).chroma).completed
    ≡ true
unfolding project kind_to_collection lookup text_eq allows after_writes stopped
retry_completes = refl

abbrev outbox : Outbox
outbox = record {
  episodes = episode ∷ [];
  memories = fact (codes "1") (codes "tests use pytest") ∷ [];
  chroma = [];
  tasks = [];
}

process_once-retry_example :
    SameOutbox
      (process_once 100 none (process_once 100 (some 4) outbox).0).0
      (process_once 100 none outbox).0
process_once-retry_example = process_once-retry 100 (some 4) outbox (omega arith) (omega arith)
