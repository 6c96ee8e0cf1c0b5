-- ===== src/Outbox/Steps.antt =====
-- One document in the loop over a collection.
use labmate.Common.{
  ℕ, ◌+◌, ◌-◌, ◌≤◌, ◌≡◌, refl, true, false, Option, none, some, List, [], ◌∷◌, Text, length, lookup,
  insert, lookup-insert_self, insert-insert_self, Option-cases, Bool-cases, inl, inr, ◌⊎◌, arith,
  ap, ◌∙◌, sym,
}
use labmate.Outbox.{
  task_of, Document, Chroma, upsert, collection, row_of, allows, after_writes, Projection, stopped,
  project, kind_to_collection,
}

upsert-upsert :
    (target : Text) (d : Document) (chroma : Chroma)
    → upsert target d (upsert target d chroma) ≡ upsert target d chroma
unfolding upsert collection
upsert-upsert target d chroma = ground (
  arith,
  lookup-insert_self target (insert d.id (row_of d) (collection target chroma)) chroma,
  insert-insert_self d.id (row_of d) (row_of d) (collection target chroma),
  insert-insert_self target (insert d.id (row_of d) (collection target chroma))
      (insert d.id (row_of d) (collection target chroma)) chroma,
)

pub project_done :
    (limit : ℕ) (writes : Option ℕ) (d : Document) (ds : List Document) (chroma : Chroma)
    → d.processed ≡ true
    → project limit writes (d ∷ ds) chroma ≡ record (project limit writes ds chroma) {
      documents = d ∷ (project limit writes ds chroma).documents;
    }
unfolding project
project_done limit writes d ds chroma h = ground arith

abbrev pub marked : Document → Document
marked d = record d { processed = true }

-- What a document that the writes let through adds.
abbrev pub passed : Document → Projection → Projection
passed d next = record next {
  documents = marked d ∷ next.documents;
  tasks = task_of d ∷ next.tasks;
  handled = next.handled + 1;
}

fewer_allowed :
    (writes : Option ℕ)
    → allows 3 writes ≡ true
    → (allows 1 writes ≡ true) × (allows 2 writes ≡ true)
unfolding allows
fewer_allowed none h = (refl, refl)
fewer_allowed (some k) h = (ground arith, ground arith)

pub project_new :
    (limit : ℕ) (writes : Option ℕ) (d : Document) (ds : List Document) (chroma : Chroma) (t : Text)
    → d.processed ≡ false
    → 1 ≤ limit
    → lookup d.kind kind_to_collection ≡ some t
    → allows 3 writes ≡ true
    → project limit writes (d ∷ ds) chroma
      ≡ passed d (project (limit - 1) (after_writes 3 writes) ds (upsert t d chroma))
unfolding project allows
project_new limit writes d ds chroma t h k e w = ground (arith, fewer_allowed writes w)

pub project_unknown :
    (limit : ℕ) (writes : Option ℕ) (d : Document) (ds : List Document) (chroma : Chroma)
    → d.processed ≡ false
    → 1 ≤ limit
    → lookup d.kind kind_to_collection ≡ none
    → project limit writes (d ∷ ds) chroma ≡ stopped (d ∷ ds) chroma []
unfolding project
project_unknown limit writes d ds chroma h k e = ground arith

pub project_stopped :
    (limit : ℕ) (writes : Option ℕ) (d : Document) (ds : List Document) (chroma : Chroma) (t : Text)
    → d.processed ≡ false
    → 1 ≤ limit
    → lookup d.kind kind_to_collection ≡ some t
    → allows 3 writes ≡ false
    → ((project limit writes (d ∷ ds) chroma).documents ≡ d ∷ ds)
      × (((project limit writes (d ∷ ds) chroma).chroma ≡ chroma)
          ⊎ ((project limit writes (d ∷ ds) chroma).chroma ≡ upsert t d chroma))
unfolding project stopped
project_stopped limit writes d ds chroma t h k e w = (ground arith, ground arith)

pub project_all :
    (limit : ℕ) (d : Document) (ds : List Document) (chroma : Chroma) (t : Text)
    → d.processed ≡ false
    → 1 ≤ limit
    → lookup d.kind kind_to_collection ≡ some t
    → project limit none (d ∷ ds) chroma
      ≡ passed d (project (limit - 1) none ds (upsert t d chroma))
unfolding allows after_writes
project_all limit d ds chroma t new h known = project_new limit none d ds chroma t new h known refl

-- A document whose row was written before the run stopped is written again.
pub project_again :
    (limit : ℕ) (d : Document) (ds : List Document) (chroma : Chroma) (t : Text)
    → d.processed ≡ false
    → 1 ≤ limit
    → lookup d.kind kind_to_collection ≡ some t
    → project limit none (d ∷ ds) (upsert t d chroma) ≡ project limit none (d ∷ ds) chroma
project_again limit d ds chroma t new h known =
    project_all limit d ds (upsert t d chroma) t new h known
    ∙ ap (λ c. passed d (project (limit - 1) none ds c)) (upsert-upsert t d chroma)
    ∙ sym (project_all limit d ds chroma t new h known)

-- The limit does not matter where it covers the documents.
pub project_limit :
    (limit limit' : ℕ) (ds : List Document) (chroma : Chroma)
    → length ds ≤ limit
    → length ds ≤ limit'
    → project limit none ds chroma ≡ project limit' none ds chroma
unfolding project after_writes
project_limit limit limit' [] chroma h k = refl
project_limit limit limit' (d ∷ ds) chroma h k = elim (Bool-cases d.processed) [
  | inl done ↦
      project_done limit none d ds chroma done
      ∙ ap (λ (p : Projection). record p { documents = d ∷ p.documents })
          (project_limit limit limit' ds chroma (omega (arith, h)) (omega (arith, k)))
      ∙ sym (project_done limit' none d ds chroma done)
  | inr new ↦ elim (Option-cases (lookup d.kind kind_to_collection)) [
    | inl unknown ↦
        project_unknown limit none d ds chroma new (omega (arith, h)) unknown
        ∙ sym (project_unknown limit' none d ds chroma new (omega (arith, k)) unknown)
    | inr (t, known) ↦
        project_new limit none d ds chroma t new (omega (arith, h)) known (unfold allows in refl)
        ∙ ap (passed d) (
            project_limit (limit - 1) (limit' - 1) ds (upsert t d chroma) (omega (arith, h))
              (omega (arith, k)))
        ∙ sym (
            project_new limit' none d ds chroma t new (omega (arith, k)) known
              (unfold allows in refl))
  ]
]
