-- ===== src/Outbox/Retry.antt =====
-- That a run which was stopped can be repeated.
use labmate.Common.{
  ℕ, ◌-◌, ◌≤◌, ◌≡◌, refl, true, false, Option, none, some, List, [], ◌∷◌, Text, length, lookup,
  Option-cases, Bool-cases, inl, inr, arith, ap, ◌∙◌, sym,
}
use labmate.Outbox.{
  Document, Chroma, upsert, allows, after_writes, Projection, stopped, project, kind_to_collection,
}
use labmate.Outbox.Steps.{
  project_done, marked, project_new, project_unknown, project_stopped, project_all, project_again,
  project_limit,
}

-- The same documents with the same marks, the same rows, and the same success.
pub record SameProjection (p q : Projection) : Type 0 where
  pub same_documents : p.documents ≡ q.documents
  pub same_chroma : p.chroma ≡ q.chroma
  pub same_completed : p.completed ≡ q.completed

pub same_of : {p q : Projection} → p ≡ q → SameProjection p q
same_of e = record {
  same_documents = ap Projection.documents e;
  same_chroma = ap Projection.chroma e;
  same_completed = ap Projection.completed e;
}

-- Two projections that put the same document in front of the same projection.
with_head :
    (d : Document) (x y a b : Projection)
    → (x.documents ≡ d ∷ a.documents) × (x.chroma ≡ a.chroma) × (x.completed ≡ a.completed)
    → (y.documents ≡ d ∷ b.documents) × (y.chroma ≡ b.chroma) × (y.completed ≡ b.completed)
    → SameProjection a b
    → SameProjection x y
with_head d x y a b (xd, xc, xo) (yd, yc, yo) h = record {
  same_documents = xd ∙ ap (λ ds. d ∷ ds) h.same_documents ∙ sym yd;
  same_chroma = xc ∙ h.same_chroma ∙ sym yc;
  same_completed = xo ∙ h.same_completed ∙ sym yo;
}

-- What a projection with a document in front is made of.
parts :
    {d : Document} {x a : Projection}
    → x ≡ record a { documents = d ∷ a.documents }
    → (x.documents ≡ d ∷ a.documents) × (x.chroma ≡ a.chroma) × (x.completed ≡ a.completed)
parts e = (ap Projection.documents e, ap Projection.chroma e, ap Projection.completed e)

-- The first run over `d ∷ ds`, and the one that repeats it.
module _ (first again full : ℕ) (writes : Option ℕ) (d : Document) (ds : List Document)
    (chroma : Chroma) where
  abbrev cut : Projection
  cut = project first writes (d ∷ ds) chroma

  abbrev Repeated : Type 0
  Repeated =
      SameProjection (project again none cut.documents cut.chroma)
        (project full none (d ∷ ds) chroma)

  rerun :
      (ds' : List Document) (c : Chroma)
      → cut.documents ≡ ds'
      → cut.chroma ≡ c
      → project again none cut.documents cut.chroma ≡ project again none ds' c
  rerun ds' c e f = cc

  retry_done :
      d.processed ≡ true
      → SameProjection
          (project again none
            (project first writes ds chroma).documents
            (project first writes ds chroma).chroma)
          (project full none ds chroma)
      → Repeated
  retry_done done rest =
      let kept = project first writes ds chroma in
      let cut_is = project_done first writes d ds chroma done in
      with_head d _ _ _ _
        (parts (
          rerun (d ∷ kept.documents) kept.chroma (ap Projection.documents cut_is)
            (ap Projection.chroma cut_is)
          ∙ project_done again none d kept.documents kept.chroma done))
        (parts (project_done full none d ds chroma done)) rest

  retry_unknown :
      d.processed ≡ false
      → 1 ≤ first
      → length (d ∷ ds) ≤ again
      → length (d ∷ ds) ≤ full
      → lookup d.kind kind_to_collection ≡ none
      → Repeated
  unfolding stopped
  retry_unknown new h k l unknown =
      let cut_is = project_unknown first writes d ds chroma new h unknown in
      same_of (
        rerun (d ∷ ds) chroma (ap Projection.documents cut_is) (ap Projection.chroma cut_is)
        ∙ project_limit again full (d ∷ ds) chroma k l)

  module _ (t : Text) (new : d.processed ≡ false)
      (known : lookup d.kind kind_to_collection ≡ some t) where
    abbrev kept : Projection
    kept = project (first - 1) (after_writes 3 writes) ds (upsert t d chroma)

    retry_through :
        1 ≤ first
        → 1 ≤ full
        → allows 3 writes ≡ true
        → SameProjection
            (project again none kept.documents kept.chroma)
            (project (full - 1) none ds (upsert t d chroma))
        → Repeated
    retry_through h l through rest =
        let cut_is = project_new first writes d ds chroma t new h known through in
        let full_is = project_all full d ds chroma t new l known in
        with_head (marked d) _ _ _ _
          (parts (
            rerun (marked d ∷ kept.documents) kept.chroma (ap Projection.documents cut_is)
              (ap Projection.chroma cut_is)
            ∙ project_done again none (marked d) kept.documents kept.chroma refl))
          (
            ap Projection.documents full_is,
            ap Projection.chroma full_is,
            ap Projection.completed full_is,
          )
          rest

    retry_cut_short :
        1 ≤ first
        → length (d ∷ ds) ≤ again
        → length (d ∷ ds) ≤ full
        → allows 3 writes ≡ false
        → Repeated
    retry_cut_short h k l short =
        let (docs, rows) = project_stopped first writes d ds chroma t new h known short in
        elim rows [
          | inl before ↦
              same_of
                (rerun (d ∷ ds) chroma docs before ∙ project_limit again full (d ∷ ds) chroma k l)
          | inr after ↦ same_of (
              rerun (d ∷ ds) (upsert t d chroma) docs after
              ∙ project_again again d ds chroma t new (omega (arith, k)) known
              ∙ project_limit again full (d ∷ ds) chroma k l)
        ]

project-retry_within :
    (first again full : ℕ) (writes : Option ℕ) (ds : List Document) (chroma : Chroma)
    → length ds ≤ first
    → length ds ≤ again
    → length ds ≤ full
    → SameProjection
        (project again none
          (project first writes ds chroma).documents
          (project first writes ds chroma).chroma)
        (project full none ds chroma)
unfolding project
project-retry_within first again full writes [] chroma h k l = same_of refl
project-retry_within first again full writes (d ∷ ds) chroma h k l = elim (Bool-cases d.processed) [
  | inl done ↦ retry_done first again full writes d ds chroma done (
      project-retry_within first again full writes ds chroma (omega (arith, h)) (omega (arith, k))
        (omega (arith, l)))
  | inr new ↦ elim (Option-cases (lookup d.kind kind_to_collection)) [
    | inl unknown ↦
        retry_unknown first again full writes d ds chroma new (omega (arith, h)) k l unknown
    | inr (t, known) ↦ elim (Bool-cases (allows 3 writes)) [
      | inl through ↦
          retry_through first again full writes d ds chroma t new known (omega (arith, h))
            (omega (arith, l)) through
            (project-retry_within (first - 1) again (full - 1) (after_writes 3 writes) ds
              (upsert t d chroma) (omega (arith, h)) (omega (arith, k)) (omega (arith, l)))
      | inr short ↦
          retry_cut_short first again full writes d ds chroma t new known (omega (arith, h)) k l
            short
    ]
  ]
]

-- The loop over one collection, run again after it was stopped by any exception, marks the documents
-- and leaves the rows as one run without exceptions does, and succeeds if that does; the limit is at
-- least the number of documents.
pub project-retry :
    (limit : ℕ) (writes : Option ℕ) (ds : List Document) (chroma : Chroma)
    → length ds ≤ limit
    → SameProjection
        (project limit none
          (project limit writes ds chroma).documents
          (project limit writes ds chroma).chroma)
        (project limit none ds chroma)
project-retry limit writes ds chroma h =
    project-retry_within limit limit limit writes ds chroma h h h
