-- ===== src/Memory/Retrieve.antt =====
-- `hybrid_retrieve`: the fusion of rankings and the packing of what the reranker puts first. A score
-- is a float, of a type left open; the hits of a collection are what Chroma returns, with the scores
-- of BM25 for its documents.
pub mod Sorted
pub mod Packed
use labmate.Common.{
  ℕ, zero, suc, ◌+◌, Bool, true, false, Option, none, some, List, [], ◌∷◌, ◌++◌, if◌then◌else◌,
  Text, is_empty, take, map, Dict, lookup, insert, ltb,
}
use labmate.Memory.Context.{Chunk}

-- The float 0.0, the sum of floats, `1.0 / (60 + rank)`, and whether one float is above another.
pub record Scores (S : Type 0) : Type 0 where
  pub zero_score : S
  pub add : S → S → S
  pub rank_share : ℕ → S
  pub above : S → S → Bool

pub record Hits (S : Type 0) : Type 0 where
  pub ids : List Text
  pub docs : List Text
  pub bm25 : List S

-- `zip`, which stops with the shorter list.
unfoldable pub zip {ℓ κ} : {A : Type ℓ} {B : Type κ} → List A → List B → List (A × B)
zip [] ys = []
zip (x ∷ xs) [] = []
zip (x ∷ xs) (y ∷ ys) = (x, y) ∷ zip xs ys

-- `all_docs`
unfoldable pub add_docs : List (Text × Text) → Dict Text → Dict Text
add_docs [] d = d
add_docs ((id, doc) ∷ rest) d = add_docs rest (insert id doc d)

unfoldable pub all_docs_from : {S : Type 0} → List (Hits S) → Dict Text → Dict Text
unfolding add_docs zip
all_docs_from [] d = d
all_docs_from (h ∷ hs) d = all_docs_from hs (add_docs (zip h.ids h.docs) d)

-- `[all_docs[cid] for cid in ids if cid in all_docs]`
unfoldable pub docs_of : Dict Text → List Text → List Text
docs_of d [] = []
docs_of d (id ∷ ids) =
    let rest = docs_of d ids in elim (lookup id d) [ none ↦ rest | some doc ↦ doc ∷ rest ]

-- The chunks that fit the budget, up to the first that does not.
unfoldable pub pack : (Text → ℕ) → ℕ → ℕ → List (Text × Text) → List Chunk
pack token_count budget used [] = []
pack token_count budget used ((id, text) ∷ rest) =
    let more = pack token_count budget (used + token_count text) rest in
    if ltb budget (used + token_count text) then [] else record { id = id; text = text } ∷ more

module _ {S : Type 0} (fl : Scores S) where
  -- `sorted(xs, key=lambda x: -x.score)`, which keeps the order of equal scores.
  unfoldable pub insert_desc {ℓ} : {A : Type ℓ} → S × A → List (S × A) → List (S × A)
  insert_desc x [] = x ∷ []
  insert_desc x (y ∷ ys) =
      let rest = insert_desc x ys in if fl.above y.0 x.0 then y ∷ rest else x ∷ y ∷ ys

  unfoldable pub sort_desc {ℓ} : {A : Type ℓ} → List (S × A) → List (S × A)
  unfolding insert_desc
  sort_desc [] = []
  sort_desc (x ∷ xs) = insert_desc x (sort_desc xs)

  -- The elements in the order of their scores.
  unfoldable pub by_score {ℓ} : {A : Type ℓ} → List S → List A → List A
  unfolding sort_desc zip
  by_score scores xs = map (λ (x : S × _). x.1) (sort_desc (zip scores xs))

  -- The rankings of all collections, the dense ones first.
  unfoldable pub dense_rankings : List (Hits S) → List (List Text)
  dense_rankings [] = []
  dense_rankings (h ∷ hs) = h.ids ∷ dense_rankings hs

  unfoldable pub bm25_rankings : List (Hits S) → List (List Text)
  unfolding by_score
  bm25_rankings [] = []
  bm25_rankings (h ∷ hs) =
      let rest = bm25_rankings hs in if is_empty h.ids then rest else by_score h.bm25 h.ids ∷ rest

  -- `rrf_scores`, with the ids in the order of their first appearance.
  unfoldable pub add_ranking : ℕ → List Text → Dict S → Dict S
  add_ranking rank [] d = d
  add_ranking rank (id ∷ ids) d =
      let before : S = elim (lookup id d) [ none ↦ fl.zero_score | some s ↦ s ] in
      add_ranking (rank + 1) ids (insert id (fl.add before (fl.rank_share rank)) d)

  unfoldable pub fuse : List (List Text) → Dict S → Dict S
  unfolding add_ranking
  fuse [] d = d
  fuse (r ∷ rs) d = fuse rs (add_ranking 1 r d)

  unfoldable pub swapped : Dict S → List (S × Text)
  swapped [] = []
  swapped ((id, s) ∷ d) = (s, id) ∷ swapped d

  unfoldable pub shortlist : ℕ → List (Hits S) → List Text
  unfolding fuse swapped sort_desc dense_rankings bm25_rankings
  shortlist top_k hits = take top_k (
      map (λ (x : S × Text). x.1)
        (sort_desc (swapped (fuse (dense_rankings hits ++ bm25_rankings hits) []))))

  -- `rerank` gives the scores of the documents for the query.
  unfoldable pub hybrid_retrieve :
      (Text → ℕ) → (List Text → List S) → ℕ → ℕ → ℕ → List (Hits S) → List Chunk
  unfolding shortlist docs_of by_score zip all_docs_from pack
  hybrid_retrieve token_count rerank top_k final_k budget hits =
      let docs = all_docs_from hits [] in
      let ids = shortlist top_k hits in
      let listed = docs_of docs ids in
      if is_empty docs
      then []
      else if is_empty listed
      then []
      else pack token_count budget 0 (take final_k (by_score (rerank listed) (zip ids listed)))
