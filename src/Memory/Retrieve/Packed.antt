-- ===== src/Memory/Retrieve/Packed.antt =====
-- What the retrieval returns.
use labmate.Common.{
  ℕ, ◌+◌, ◌≤◌, ◌≡◌, Bool, true, false, some, List, [], ◌∷◌, if◌then◌else◌, Text, is_empty, length,
  length-take, take, Dict, lookup, has_key, insert, text_eq_iff, has_key-lookup, has_key-insert,
  All, All-map, ltb, arith, sym, Option-cases, inl, inr,
}
use mathlib.Core.Path.{subst}
use labmate.Memory.Context.{Chunk}
use labmate.Memory.Retrieve.{
  Scores, Hits, zip, add_docs, all_docs_from, docs_of, pack, by_score, shortlist, hybrid_retrieve,
}
use labmate.Memory.Retrieve.Sorted.{take-All, by_score-All, shortlist-All}

-- The tokens of the chunks.
abbrev pub chunk_tokens : (Text → ℕ) → List Chunk → ℕ
chunk_tokens token_count [] = 0
chunk_tokens token_count (c ∷ cs) = token_count c.text + chunk_tokens token_count cs

-- The text of the chunk is the document of its id.
abbrev pub IsFrom : Dict Text → Chunk → Type 0
IsFrom docs c = lookup c.id docs ≡ some c.text

abbrev IsEntry : Dict Text → Text × Text → Type 0
IsEntry docs p = lookup p.0 docs ≡ some p.1

-- The chunks have at most `budget` tokens, there are at most `final_k` of them, and the text of each is
-- the document of its id.
pub record AreRetrieved (token_count : Text → ℕ) (budget final_k : ℕ) (docs : Dict Text)
    (chunks : List Chunk) : Type 0 where
  pub in_budget : chunk_tokens token_count chunks ≤ budget
  pub at_most : length chunks ≤ final_k
  pub all_from : All (IsFrom docs) chunks

nothing-AreRetrieved :
    (token_count : Text → ℕ) (budget final_k : ℕ) (docs : Dict Text)
    → AreRetrieved token_count budget final_k docs []
nothing-AreRetrieved token_count budget final_k docs = record {
  in_budget = omega arith;
  at_most = omega arith;
  all_from = tt;
}

if-nothing :
    (token_count : Text → ℕ) (budget final_k : ℕ) (docs : Dict Text) (b : Bool) (cs : List Chunk)
    → AreRetrieved token_count budget final_k docs cs
    → AreRetrieved token_count budget final_k docs (if b then [] else cs)
if-nothing token_count budget final_k docs true cs h =
    nothing-AreRetrieved token_count budget final_k docs
if-nothing token_count budget final_k docs false cs h = h

pack_fits :
    (token_count : Text → ℕ) (budget used : ℕ) (xs : List (Text × Text))
    → used ≤ budget
    → used + chunk_tokens token_count (pack token_count budget used xs) ≤ budget
unfolding pack
pack_fits token_count budget used [] h = ground arith
pack_fits token_count budget used ((id, text) ∷ xs) h =
    ground (arith, pack_fits token_count budget (used + token_count text) xs)

length-pack :
    (token_count : Text → ℕ) (budget used : ℕ) (xs : List (Text × Text))
    → length (pack token_count budget used xs) ≤ length xs
unfolding pack
length-pack token_count budget used [] = ground arith
length-pack token_count budget used ((id, text) ∷ xs) =
    ground (arith, length-pack token_count budget (used + token_count text) xs)

pack-All :
    (docs : Dict Text) (token_count : Text → ℕ) (budget used : ℕ) (xs : List (Text × Text))
    → All (IsEntry docs) xs
    → All (IsFrom docs) (pack token_count budget used xs)
unfolding pack
pack-All docs token_count budget used [] h = tt
pack-All docs token_count budget used ((id, text) ∷ xs) h =
    let rest = pack-All docs token_count budget (used + token_count text) xs h.1 in
    elim (ltb budget (used + token_count text))
      as (λ b. All (IsFrom docs) (
        if b
        then []
        else record { id = id; text = text }
          ∷ pack token_count budget (used + token_count text) xs)) [
            | true ↦ tt
            | false ↦ (h.0, rest)
          ]

-- Where all ids have a document, the documents stand beside their ids.
zip-docs_of :
    (docs : Dict Text) (ids : List Text)
    → All (λ id. has_key id docs ≡ true) ids
    → All (IsEntry docs) (zip ids (docs_of docs ids))
unfolding zip docs_of
zip-docs_of docs [] h = tt
zip-docs_of docs (id ∷ ids) h = elim (Option-cases (lookup id docs)) [
  | inl missing ↦ absurd (ground (arith, has_key-lookup id docs, h.0))
  | inr (doc, found) ↦
      let is : docs_of docs (id ∷ ids) ≡ doc ∷ docs_of docs ids = ground (arith, found) in
      subst (λ ds. All (IsEntry docs) (zip (id ∷ ids) ds)) (sym is)
        (found, zip-docs_of docs ids h.1)
]

-- Every id of the hits of a collection has a document, where Chroma returns one for each.
has_key-add_docs :
    (id : Text) (xs : List (Text × Text)) (d : Dict Text)
    → has_key id d ≡ true
    → has_key id (add_docs xs d) ≡ true
unfolding add_docs
has_key-add_docs id [] d h = h
has_key-add_docs id ((j, doc) ∷ xs) d h =
    has_key-add_docs id xs (insert j doc d) (ground (arith, has_key-insert j id doc d))

has_key-docs :
    (ids docs : List Text) (d : Dict Text)
    → length ids ≤ length docs
    → All (λ id. has_key id (add_docs (zip ids docs) d) ≡ true) ids
unfolding add_docs zip
has_key-docs [] docs d h = tt
has_key-docs (id ∷ ids) [] d h = absurd (omega (arith, h))
has_key-docs (id ∷ ids) (doc ∷ docs) d h = (
  has_key-add_docs id (zip ids docs) (insert id doc d)
      (ground (arith, has_key-insert id id doc d, text_eq_iff id id)),
  has_key-docs ids docs (insert id doc d) (omega (arith, h)),
)

module _ {S : Type 0} where
  has_key-all_docs :
      (id : Text) (hs : List (Hits S)) (d : Dict Text)
      → has_key id d ≡ true
      → has_key id (all_docs_from hs d) ≡ true
  unfolding all_docs_from
  has_key-all_docs id [] d h = h
  has_key-all_docs id (x ∷ hs) d h =
      has_key-all_docs id hs (add_docs (zip x.ids x.docs) d)
        (has_key-add_docs id (zip x.ids x.docs) d h)

  ids_have_docs :
      (hs : List (Hits S)) (d : Dict Text)
      → All (λ (x : Hits S). length x.ids ≤ length x.docs) hs
      → All (λ (x : Hits S). All (λ id. has_key id (all_docs_from hs d) ≡ true) x.ids) hs
  unfolding all_docs_from
  ids_have_docs [] d h = tt
  ids_have_docs (x ∷ hs) d h =
      let d' = add_docs (zip x.ids x.docs) d in
      (
        All-map (λ id. has_key id d' ≡ true) (λ id. has_key id (all_docs_from hs d') ≡ true) x.ids
            (λ id k. has_key-all_docs id hs d' k) (has_key-docs x.ids x.docs d h.0),
        ids_have_docs hs d' h.1,
      )

  -- Where Chroma returns a document for each id, the chunks that are retrieved have at most `budget`
  -- tokens, they are at most `final_k`, and the text of each is the document of its id.
  pub hybrid_retrieve-AreRetrieved :
      (fl : Scores S) (token_count : Text → ℕ) (rerank : List Text → List S)
      (top_k final_k budget : ℕ) (hits : List (Hits S))
      → All (λ (h : Hits S). length h.ids ≤ length h.docs) hits
      → AreRetrieved token_count budget final_k
          (all_docs_from hits [])
          (hybrid_retrieve fl token_count rerank top_k final_k budget hits)
  unfolding hybrid_retrieve
  hybrid_retrieve-AreRetrieved fl token_count rerank top_k final_k budget hits h =
      let docs = all_docs_from hits [] in
      let ids = shortlist fl top_k hits in
      let listed = docs_of docs ids in
      let ranked = take final_k (by_score fl (rerank listed) (zip ids listed)) in
      let chunks = pack token_count budget 0 ranked in
      let found : All (λ id. has_key id docs ≡ true) ids =
        shortlist-All fl (λ id. has_key id docs ≡ true) top_k hits (ids_have_docs hits [] h) in
      let entries : All (IsEntry docs) ranked =
        take-All (IsEntry docs) final_k (by_score fl (rerank listed) (zip ids listed)) (
          by_score-All fl (IsEntry docs) (rerank listed) (zip ids listed)
            (zip-docs_of docs ids found)) in
      let fits : chunk_tokens token_count chunks ≤ budget =
        omega (arith, pack_fits token_count budget 0 ranked (omega arith)) in
      let few : length chunks ≤ final_k = omega (
        arith,
        length-pack token_count budget 0 ranked,
        length-take final_k (by_score fl (rerank listed) (zip ids listed)),
      ) in
      if-nothing token_count budget final_k docs (is_empty docs) _ (
        if-nothing token_count budget final_k docs (is_empty listed) chunks (record {
          in_budget = fits;
          at_most = few;
          all_from = pack-All docs token_count budget 0 ranked entries;
        }))
