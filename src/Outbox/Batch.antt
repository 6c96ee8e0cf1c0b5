-- ===== src/Outbox/Batch.antt =====
-- That a batch over both collections which was stopped can be repeated.
use labmate.Common.{
  ℕ, ◌-◌, ◌≤◌, ◌≡◌, refl, true, false, Option, none, some, List, [], ◌∷◌, length, lookup, Text,
  Bool-cases, Option-cases, inl, inr, if◌then◌else◌, arith, ap, ◌∙◌, sym,
}
use mathlib.Core.Path.{subst}
use labmate.Outbox.{
  Document, Chroma, upsert, allows, after_writes, Projection, stopped, project, kind_to_collection,
  Outbox, process_once,
}
use labmate.Outbox.Steps.{project_done, marked, project_new, project_unknown}
use labmate.Outbox.Retry.{SameProjection, project-retry}

-- A run over the documents leaves them and the rows as they are, and goes through.
pub record IsSettled (ds : List Document) : Type 0 where
  pub leaves :
      (limit : ℕ) (chroma : Chroma)
      → ((project limit none ds chroma).documents ≡ ds)
        × ((project limit none ds chroma).chroma ≡ chroma)
        × ((project limit none ds chroma).completed ≡ true)

nothing-IsSettled : IsSettled []
unfolding project
nothing-IsSettled = record { leaves = λ limit chroma. (refl, refl, refl) }

done-IsSettled :
    (d : Document) (ds : List Document) → d.processed ≡ true → IsSettled ds → IsSettled (d ∷ ds)
done-IsSettled d ds h k = record {
  leaves = λ limit chroma.
      let (docs, rows, ok) = k.leaves limit chroma in
      let is = project_done limit none d ds chroma h in
      (
        ap Projection.documents is ∙ ap (λ es. d ∷ es) docs,
        ap Projection.chroma is ∙ rows,
        ap Projection.completed is ∙ ok,
      );
}

not_stopped :
    (d : Document) (ds : List Document) (chroma : Chroma)
    → (stopped (d ∷ ds) chroma []).completed ≡ true
    → ⊥
unfolding stopped
not_stopped d ds chroma h = ground (arith, h)

project_short :
    (limit : ℕ) (writes : Option ℕ) (d : Document) (ds : List Document) (chroma : Chroma) (t : Text)
    → d.processed ≡ false
    → 1 ≤ limit
    → lookup d.kind kind_to_collection ≡ some t
    → allows 3 writes ≡ false
    → (project limit writes (d ∷ ds) chroma).completed ≡ false
unfolding project stopped
project_short limit writes d ds chroma t h k e w = ground arith

-- A run that goes through, with a limit that covers the documents, has settled them.
completed-IsSettled :
    (limit : ℕ) (writes : Option ℕ) (ds : List Document) (chroma : Chroma)
    → length ds ≤ limit
    → (project limit writes ds chroma).completed ≡ true
    → IsSettled (project limit writes ds chroma).documents
unfolding project
completed-IsSettled limit writes [] chroma h k = nothing-IsSettled
completed-IsSettled limit writes (d ∷ ds) chroma h k = elim (Bool-cases d.processed) [
  | inl done ↦
      let is = project_done limit writes d ds chroma done in
      let rest =
        completed-IsSettled limit writes ds chroma (omega (arith, h))
          (sym (ap Projection.completed is) ∙ k) in
      subst IsSettled (sym (ap Projection.documents is))
        (done-IsSettled d (project limit writes ds chroma).documents done rest)
  | inr new ↦ elim (Option-cases (lookup d.kind kind_to_collection)) [
    | inl unknown ↦ absurd (
        not_stopped d ds chroma (
          sym (
            ap Projection.completed
              (project_unknown limit writes d ds chroma new (omega (arith, h)) unknown))
          ∙ k))
    | inr (t, known) ↦ elim (Bool-cases (allows 3 writes)) [
      | inl through ↦
          let is = project_new limit writes d ds chroma t new (omega (arith, h)) known through in
          let next = project (limit - 1) (after_writes 3 writes) ds (upsert t d chroma) in
          let rest =
            completed-IsSettled (limit - 1) (after_writes 3 writes) ds (upsert t d chroma)
              (omega (arith, h)) (sym (ap Projection.completed is) ∙ k) in
          subst IsSettled (sym (ap Projection.documents is))
            (done-IsSettled (marked d) next.documents refl rest)
      | inr short ↦ absurd (
          ground
            (arith, project_short limit writes d ds chroma t new (omega (arith, h)) known short))
    ]
  ]
]

writes_stay :
    (limit : ℕ) (ds : List Document) (chroma : Chroma)
    → (project limit none ds chroma).completed ≡ true
    → (project limit none ds chroma).writes ≡ none
unfolding project stopped allows after_writes
writes_stay limit [] chroma h = refl
writes_stay limit (d ∷ ds) chroma h =
    grind (arith, writes_stay limit ds chroma, writes_stay (limit - 1) ds)

-- The same documents with the same marks in both collections, and the same rows.
pub record SameOutbox (o o' : Outbox) : Type 0 where
  pub same_episodes : o.episodes ≡ o'.episodes
  pub same_memories : o.memories ≡ o'.memories
  pub same_rows : o.chroma ≡ o'.chroma

module _ (limit : ℕ) where
  abbrev whole : List Document → Chroma → Projection
  whole ds chroma = project limit none ds chroma

  -- A batch without exceptions, by what its first collection leaves.
  batch_parts :
      (o : Outbox) (first : Projection)
      → whole o.episodes o.chroma ≡ first
      → ((process_once limit none o).0.episodes ≡ first.documents)
        × ((process_once limit none o).0.memories
            ≡ (if first.completed then (whole o.memories first.chroma).documents else o.memories))
        × ((process_once limit none o).0.chroma
            ≡ (if first.completed then (whole o.memories first.chroma).chroma else first.chroma))
  unfolding process_once
  batch_parts o first e = ground (arith, e, writes_stay limit o.episodes o.chroma)

  batch_goes_on :
      (o : Outbox) (docs : List Document) (rows : Chroma)
      → (whole o.episodes o.chroma).documents ≡ docs
      → (whole o.episodes o.chroma).chroma ≡ rows
      → (whole o.episodes o.chroma).completed ≡ true
      → ((process_once limit none o).0.episodes ≡ docs)
        × ((process_once limit none o).0.memories ≡ (whole o.memories rows).documents)
        × ((process_once limit none o).0.chroma ≡ (whole o.memories rows).chroma)
  unfolding process_once
  batch_goes_on o docs rows d r h = ground (arith, d, r, h, writes_stay limit o.episodes o.chroma h)

  same_batch :
      (o o' : Outbox)
      → SameProjection (whole o.episodes o.chroma) (whole o'.episodes o'.chroma)
      → o.memories ≡ o'.memories
      → SameOutbox (process_once limit none o).0 (process_once limit none o').0
  same_batch o o' h k =
      let (e, m, c) = batch_parts o (whole o.episodes o.chroma) refl in
      let (e', m', c') = batch_parts o' (whole o'.episodes o'.chroma) refl in
      let docs = h.same_documents in
      let rows = h.same_chroma in
      let ok = h.same_completed in record { same_episodes = cc; same_memories = cc; same_rows = cc }

  -- What a batch leaves that may be stopped: in the second collection, or in the first.
  stopped_late :
      (writes : Option ℕ) (o : Outbox) (first second : Projection)
      → project limit writes o.episodes o.chroma ≡ first
      → project limit first.writes o.memories first.chroma ≡ second
      → first.completed ≡ true
      → ((process_once limit writes o).0.episodes ≡ first.documents)
        × ((process_once limit writes o).0.memories ≡ second.documents)
        × ((process_once limit writes o).0.chroma ≡ second.chroma)
  unfolding process_once
  stopped_late writes o first second e f h = ground (arith, e, f, h)

  stopped_early :
      (writes : Option ℕ) (o : Outbox) (first : Projection)
      → project limit writes o.episodes o.chroma ≡ first
      → first.completed ≡ false
      → ((process_once limit writes o).0.episodes ≡ first.documents)
        × ((process_once limit writes o).0.memories ≡ o.memories)
        × ((process_once limit writes o).0.chroma ≡ first.chroma)
  unfolding process_once
  stopped_early writes o first e h = ground (arith, e, h)

  retry_early :
      (writes : Option ℕ) (o : Outbox)
      → length o.episodes ≤ limit
      → (project limit writes o.episodes o.chroma).completed ≡ false
      → SameOutbox
          (process_once limit none (process_once limit writes o).0).0
          (process_once limit none o).0
  retry_early writes o h early =
      let first = project limit writes o.episodes o.chroma in
      let (e, m, c) = stopped_early writes o first refl early in
      let o1 = (process_once limit writes o).0 in
      let again : whole o1.episodes o1.chroma ≡ whole first.documents first.chroma = cc in
      let same = project-retry limit writes o.episodes o.chroma h in
      same_batch o1 o
        (record {
          same_documents = ap Projection.documents again ∙ same.same_documents;
          same_chroma = ap Projection.chroma again ∙ same.same_chroma;
          same_completed = ap Projection.completed again ∙ same.same_completed;
        })
        m

  retry_late :
      (writes : Option ℕ) (o : Outbox)
      → length o.episodes ≤ limit
      → length o.memories ≤ limit
      → (project limit writes o.episodes o.chroma).completed ≡ true
      → SameOutbox
          (process_once limit none (process_once limit writes o).0).0
          (process_once limit none o).0
  retry_late writes o h k late =
      let first = project limit writes o.episodes o.chroma in
      let second = project limit first.writes o.memories first.chroma in
      let (e, m, c) = stopped_late writes o first second refl refl late in
      let o1 = (process_once limit writes o).0 in
      let settled = completed-IsSettled limit writes o.episodes o.chroma h late in
      let (d1, c1, ok1) = settled.leaves limit first.chroma in
      let (d2, c2, ok2) = settled.leaves limit second.chroma in
      let same = project-retry limit writes o.episodes o.chroma h in
      let rest = project-retry limit first.writes o.memories first.chroma k in
      let again : whole o1.episodes o1.chroma ≡ whole first.documents second.chroma = cc in
      let (e', m', c') =
        batch_goes_on o1 first.documents second.chroma (ap Projection.documents again ∙ d2)
          (ap Projection.chroma again ∙ c2) (ap Projection.completed again ∙ ok2) in
      let (e'', m'', c'') =
        batch_goes_on o first.documents first.chroma (sym same.same_documents ∙ d1)
          (sym same.same_chroma ∙ c1) (sym same.same_completed ∙ ok1) in
      let docs = rest.same_documents in
      let rows = rest.same_chroma in
      record { same_episodes = cc; same_memories = cc; same_rows = cc }

  -- A batch that is repeated after any exception leaves the marks of both collections and the rows as
  -- one batch without exceptions does; the limit is at least the number of documents of either
  -- collection.
  pub process_once-retry :
      (writes : Option ℕ) (o : Outbox)
      → length o.episodes ≤ limit
      → length o.memories ≤ limit
      → SameOutbox
          (process_once limit none (process_once limit writes o).0).0
          (process_once limit none o).0
  process_once-retry writes o h k =
      elim (Bool-cases (project limit writes o.episodes o.chroma).completed) [
        | inl late ↦ retry_late writes o h k late
        | inr early ↦ retry_early writes o h early
      ]
