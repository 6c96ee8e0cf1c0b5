-- ===== src/Memory/Retrieve/Sorted.antt =====
-- What the orders and the fusion keep: a property of all elements.
use labmate.Common.{
  ℕ, zero, suc, ◌+◌, Bool, true, false, List, [], ◌∷◌, ◌++◌, if◌then◌else◌, Text, take, map, Dict,
  keys, insert, text_eq, All, All-append, is_empty,
}
use labmate.Memory.Retrieve.{
  Scores, Hits, zip, insert_desc, sort_desc, by_score, dense_rankings, bm25_rankings, add_ranking,
  fuse, swapped, shortlist,
}

module _ {ℓ κ} {A : Type ℓ} (Q : A → Type κ) where
  if-All : (b : Bool) (xs ys : List A) → All Q xs → All Q ys → All Q (if b then xs else ys)
  if-All true xs ys h k = h
  if-All false xs ys h k = k

  pub take-All : (n : ℕ) (xs : List A) → All Q xs → All Q (take n xs)
  take-All zero xs h = tt
  take-All (suc n) [] h = tt
  take-All (suc n) (x ∷ xs) h = (h.0, take-All n xs h.1)

module _ {κ} {S : Type 0} (fl : Scores S) {A : Type 0} (Q : A → Type κ) where
  abbrev Second : S × A → Type κ
  Second p = Q p.1

  zip-All : (ss : List S) (xs : List A) → All Q xs → All Second (zip ss xs)
  unfolding zip
  zip-All [] xs h = tt
  zip-All (s ∷ ss) [] h = tt
  zip-All (s ∷ ss) (x ∷ xs) h = (h.0, zip-All ss xs h.1)

  insert_desc-All :
      (x : S × A) (ys : List (S × A)) → Second x → All Second ys → All Second (insert_desc fl x ys)
  unfolding insert_desc
  insert_desc-All x [] h k = (h, tt)
  insert_desc-All x (y ∷ ys) h k =
      if-All Second (fl.above y.0 x.0) (y ∷ insert_desc fl x ys) (x ∷ y ∷ ys)
        (k.0, insert_desc-All x ys h k.1) (h, k)

  pub sort_desc-All : (ys : List (S × A)) → All Second ys → All Second (sort_desc fl ys)
  unfolding sort_desc
  sort_desc-All [] k = tt
  sort_desc-All (y ∷ ys) k = insert_desc-All y (sort_desc fl ys) k.0 (sort_desc-All ys k.1)

  pub map-All : (ys : List (S × A)) → All Second ys → All Q (map (λ (y : S × A). y.1) ys)
  map-All [] k = tt
  map-All (y ∷ ys) k = (k.0, map-All ys k.1)

  pub by_score-All : (ss : List S) (xs : List A) → All Q xs → All Q (by_score fl ss xs)
  unfolding by_score
  by_score-All ss xs h =
      map-All (sort_desc fl (zip ss xs)) (sort_desc-All (zip ss xs) (zip-All ss xs h))

module _ {S : Type 0} (fl : Scores S) (Q : Text → Type 0) where
  insert-All :
      (id : Text) (s : S) (d : Dict S) → Q id → All Q (keys d) → All Q (keys (insert id s d))
  unfolding insert
  insert-All id s [] h k = (h, tt)
  insert-All id s ((j, t) ∷ d) h k =
      elim (text_eq id j)
        as (λ b. All Q (keys (if b then (j, s) ∷ d else (j, t) ∷ insert id s d))) [
          | true ↦ k
          | false ↦ (k.0, insert-All id s d h k.1)
        ]

  add_ranking-All :
      (rank : ℕ) (ids : List Text) (d : Dict S)
      → All Q ids
      → All Q (keys d)
      → All Q (keys (add_ranking fl rank ids d))
  unfolding add_ranking
  add_ranking-All rank [] d h k = k
  add_ranking-All rank (id ∷ ids) d h k =
      add_ranking-All (rank + 1) ids _ h.1 (insert-All id _ d h.0 k)

  fuse-All :
      (rs : List (List Text)) (d : Dict S)
      → All (All Q) rs
      → All Q (keys d)
      → All Q (keys (fuse fl rs d))
  unfolding fuse
  fuse-All [] d h k = k
  fuse-All (r ∷ rs) d h k = fuse-All rs _ h.1 (add_ranking-All 1 r d h.0 k)

  swapped-All : (d : Dict S) → All Q (keys d) → All (λ (p : S × Text). Q p.1) (swapped fl d)
  unfolding swapped
  swapped-All [] k = tt
  swapped-All ((id, s) ∷ d) k = (k.0, swapped-All d k.1)

  dense_rankings-All :
      (hs : List (Hits S))
      → All (λ (h : Hits S). All Q h.ids) hs
      → All (All Q) (dense_rankings fl hs)
  unfolding dense_rankings
  dense_rankings-All [] h = tt
  dense_rankings-All (x ∷ hs) h = (h.0, dense_rankings-All hs h.1)

  bm25_rankings-All :
      (hs : List (Hits S))
      → All (λ (h : Hits S). All Q h.ids) hs
      → All (All Q) (bm25_rankings fl hs)
  unfolding bm25_rankings
  bm25_rankings-All [] h = tt
  bm25_rankings-All (x ∷ hs) h =
      let rest = bm25_rankings-All hs h.1 in
      if-All (All Q) (is_empty x.ids) (bm25_rankings fl hs)
        (by_score fl x.bm25 x.ids ∷ bm25_rankings fl hs) rest
        (by_score-All fl Q x.bm25 x.ids h.0, rest)

  -- What holds of all ids that were found holds of the shortlist.
  pub shortlist-All :
      (top_k : ℕ) (hs : List (Hits S))
      → All (λ (h : Hits S). All Q h.ids) hs
      → All Q (shortlist fl top_k hs)
  unfolding shortlist
  shortlist-All top_k hs h =
      let rankings = dense_rankings fl hs ++ bm25_rankings fl hs in
      let all_ranked : All (All Q) rankings =
        All-append (All Q) (dense_rankings fl hs) (bm25_rankings fl hs) (dense_rankings-All hs h)
          (bm25_rankings-All hs h) in
      let scored = swapped fl (fuse fl rankings []) in
      take-All Q top_k _ (
        map-All fl Q (sort_desc fl scored) (
          sort_desc-All fl Q scored
            (swapped-All (fuse fl rankings []) (fuse-All rankings [] all_ranked tt))))
