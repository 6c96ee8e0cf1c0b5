-- ===== src/Sessions/Numbering.antt =====
-- The numbers of the turns of a session.
use labmate.Common.{
  ℕ, zero, suc, ◌+◌, ◌≤◌, ◌≡◌, refl, true, false, none, some, List, [], ◌∷◌, ◌++◌, Text, length,
  length-append, map, text_eq, arith, ap, sym, lookup, if◌then◌else◌,
}
use mathlib.Core.Path.{subst}
use labmate.Sessions.{
  Turn, empty_store, Call, creates, renames, deletes, adds_turn, sets_debug, perform_all, turns_of,
  get_debug, new_session,
}
use labmate.Sessions.Separation.{View, view, promised, promised_all, store_keeps_promise}

-- `k` numbers from `n` on.
abbrev pub numbers : ℕ → ℕ → List ℕ
numbers n zero = []
numbers n (suc k) = n ∷ numbers (n + 1) k

numbers-suc : (n k : ℕ) → numbers n (k + 1) ≡ numbers n k ++ (n + k) ∷ []
numbers-suc n zero = ground arith
numbers-suc n (suc k) = ground (arith, numbers-suc (n + 1) k)

module _ {Doc : Type 0} where
  abbrev pub turn_count_of : View Doc → ℕ
  turn_count_of v = elim v.session [ none ↦ 0 | some s ↦ s.turn_count ]

  -- The turns are numbered from 0 on, and the session counts no more turns than there are.
  pub record IsNumbered (v : View Doc) : Type 0 where
    pub in_order : map Turn.seq v.turns ≡ numbers 0 (length v.turns)
    pub counted : turn_count_of v ≤ length v.turns

  map-append_seq :
      (ts us : List (Turn Doc)) → map Turn.seq (ts ++ us) ≡ map Turn.seq ts ++ map Turn.seq us
  map-append_seq [] us = refl
  map-append_seq (t ∷ ts) us = ap (λ ns. t.seq ∷ ns) (map-append_seq ts us)

  promised-IsNumbered :
      (sid : Text) (call : Call Doc) (v : View Doc)
      → IsNumbered v
      → IsNumbered (promised sid call v)
  unfolding new_session
  promised-IsNumbered sid (creates title mode now) v h = record {
    in_order = h.in_order;
    counted = omega arith;
  }
  promised-IsNumbered sid (renames title now) v h = record {
    in_order = ground arith;
    counted = ground arith;
  }
  promised-IsNumbered sid deletes v h = record { in_order = ground arith; counted = ground arith }
  promised-IsNumbered sid (adds_turn doc now) v h = record {
    in_order = ground (
      arith,
      map-append_seq v.turns (record { doc = doc; seq = length v.turns } ∷ []),
      length-append v.turns (record { doc = doc; seq = length v.turns } ∷ []),
      numbers-suc 0 (length v.turns),
    );
    counted =
        ground (arith, length-append v.turns (record { doc = doc; seq = length v.turns } ∷ []));
  }
  promised-IsNumbered sid (sets_debug enabled) v h = record {
    in_order = h.in_order;
    counted = h.counted;
  }

  promised_all-IsNumbered :
      (sid : Text) (calls : List (Text × Call Doc)) (v : View Doc)
      → IsNumbered v
      → IsNumbered (promised_all sid calls v)
  promised_all-IsNumbered sid [] v h = h
  promised_all-IsNumbered sid ((other, call) ∷ calls) v h =
      elim (text_eq sid other)
        as (λ b.
          IsNumbered (
            if b then promised_all sid calls (promised sid call v) else promised_all sid calls v)) [
              | true ↦
                  promised_all-IsNumbered sid calls (promised sid call v)
                    (promised-IsNumbered sid call v h)
              | false ↦ promised_all-IsNumbered sid calls v h
            ]

  -- After any calls on a store that was empty, the turns of a session are numbered 0, 1, 2 and so on
  -- in the order in which they were added, and its count is at most their number.
  pub store-IsNumbered :
      (sid : Text) (calls : List (Text × Call Doc))
      → IsNumbered (view sid (perform_all calls empty_store))
  unfolding empty_store turns_of get_debug lookup
  store-IsNumbered sid calls = subst IsNumbered (sym (store_keeps_promise sid calls empty_store)) (
      promised_all-IsNumbered sid calls (view sid empty_store)
        (record { in_order = refl; counted = omega arith }))
