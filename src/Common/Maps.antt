-- ===== src/Common/Maps.antt =====
-- A Python dict with string keys, in insertion order, and the steps that raise KeyError, as `none`.
use mathlib.Core.Path.{◌≡◌, refl}
use mathlib.Core.Bool.{Bool, true, false, ◌||◌}
use mathlib.Core.Option.{Option, none, some}
use mathlib.Core.List.{List, [], ◌∷◌}
use native.Mathlib.Omega.{arith}
use labmate.Common.Tests.{if◌then◌else◌}
use labmate.Common.Strings.{Text, text_eq, text_eq_iff}

infixl 5 ◌>>=◌
abbrev pub ◌>>=◌ {ℓ κ} : {A : Type ℓ} {B : Type κ} → Option A → (A → Option B) → Option B
none >>= f = none
some a >>= f = f a

abbrev pub Dict {ℓ} : Type ℓ → Type ℓ
Dict V = List (Text × V)

module _ {ℓ} {V : Type ℓ} where
  -- `d.get(k)`, and `d[k]`
  unfoldable pub lookup : Text → Dict V → Option V
  lookup k [] = none
  lookup k ((j, v) ∷ d) = if text_eq k j then some v else lookup k d

  -- `k in d`
  unfoldable pub has_key : Text → Dict V → Bool
  has_key k [] = false
  has_key k ((j, v) ∷ d) = if text_eq k j then true else has_key k d

  -- `d[k] = v`
  unfoldable pub insert : Text → V → Dict V → Dict V
  insert k v [] = (k, v) ∷ []
  insert k v ((j, w) ∷ d) = if text_eq k j then (j, v) ∷ d else (j, w) ∷ insert k v d

  -- `d.pop(k, None)`
  unfoldable pub erase : Text → Dict V → Dict V
  erase k [] = []
  erase k ((j, w) ∷ d) = if text_eq k j then d else (j, w) ∷ erase k d

  -- `del d[k]` for a key that is there, and `d.pop(k, None)`, for every entry of the key.
  unfoldable pub remove : Text → Dict V → Dict V
  remove k [] = []
  remove k ((j, w) ∷ d) = let rest = remove k d in if text_eq k j then rest else (j, w) ∷ rest

  abbrev pub keys : Dict V → List Text
  keys [] = []
  keys ((j, w) ∷ d) = j ∷ keys d

  pub lookup-insert :
      (k j : Text) (v : V) (d : Dict V)
      → lookup j (insert k v d) ≡ (if text_eq j k then some v else lookup j d)
  unfolding lookup insert
  lookup-insert k j v [] = refl
  lookup-insert k j v ((i, w) ∷ d) =
      ground (arith, text_eq_iff k i, text_eq_iff j i, text_eq_iff j k, lookup-insert k j v d)

  pub has_key-lookup :
      (k : Text) (d : Dict V) → has_key k d ≡ elim (lookup k d) [ none ↦ false | some _ ↦ true ]
  unfolding lookup has_key
  has_key-lookup k [] = refl
  has_key-lookup k ((j, v) ∷ d) = ground (arith, has_key-lookup k d)

  pub lookup-remove :
      (k j : Text) (d : Dict V) → lookup j (remove k d) ≡ (if text_eq j k then none else lookup j d)
  unfolding lookup remove
  lookup-remove k j [] = ground arith
  lookup-remove k j ((i, w) ∷ d) =
      ground (arith, text_eq_iff k i, text_eq_iff j i, text_eq_iff j k, lookup-remove k j d)

  pub has_key-insert :
      (k j : Text) (v : V) (d : Dict V) → has_key j (insert k v d) ≡ (text_eq j k || has_key j d)
  unfolding has_key insert
  has_key-insert k j v [] = ground arith
  has_key-insert k j v ((i, w) ∷ d) =
      ground (arith, text_eq_iff k i, text_eq_iff j i, text_eq_iff j k, has_key-insert k j v d)

  -- A key that is there keeps its place.
  pub keys-insert :
      (k : Text) (v : V) (d : Dict V) → has_key k d ≡ true → keys (insert k v d) ≡ keys d
  unfolding has_key insert
  keys-insert k v [] h = cc
  keys-insert k v ((j, w) ∷ d) h = ground (arith, keys-insert k v d)

  pub lookup-insert_self : (k : Text) (v : V) (d : Dict V) → lookup k (insert k v d) ≡ some v
  unfolding lookup insert
  lookup-insert_self k v [] = ground (arith, text_eq_iff k k)
  lookup-insert_self k v ((j, w) ∷ d) = ground (arith, lookup-insert_self k v d)

  -- Of two writes at one key the second stays.
  pub insert-insert_self :
      (k : Text) (v w : V) (d : Dict V) → insert k w (insert k v d) ≡ insert k w d
  unfolding insert
  insert-insert_self k v w [] = ground (arith, text_eq_iff k k)
  insert-insert_self k v w ((j, u) ∷ d) = ground (arith, insert-insert_self k v w d)
