-- ===== src/Events/Steers.antt =====
-- Delivery on the steer channel of services/orchestrator/events.py.
use mathlib.Core.List.{Sublistᴰ}
use mathlib.Core.Path.{subst}
use labmate.Common.{
  ◌≡◌, ◌⊎◌, inl, inr, refl, sym, true, false, List, [], ◌∷◌, Option, none, some, Text, Dict, lookup,
  insert, remove, text_eq, text_eq_iff, if◌then◌else◌, lookup-insert, lookup-remove, Bool-cases,
  arith,
}
use labmate.Events.{RedisReply, Step, perform, read_and_clear_steer, write_steer, steer_key}

abbrev pub first_of : Option Text → List Text → List Text
first_of none ts = ts
first_of (some t) ts = t ∷ ts

-- The texts that are written for a task, in order.
unfoldable pub written : Text → List Step → List Text
written k [] = []
written k (Step.write r j t ∷ ss) = if text_eq k j then t ∷ written k ss else written k ss
written k (Step.read r j ∷ ss) = written k ss
written k (Step.expire j ∷ ss) = written k ss

-- The texts that the reads of a task return, in order.
unfoldable pub delivered : Text → Dict Text → List Step → List Text
delivered k redis [] = []
delivered k redis (Step.write r j t ∷ ss) = delivered k (perform (Step.write r j t) redis) ss
delivered k redis (Step.read r j ∷ ss) =
    let rest = delivered k (perform (Step.read r j) redis) ss in
    if text_eq k j then first_of (read_and_clear_steer r j redis).0 rest else rest
delivered k redis (Step.expire j ∷ ss) = delivered k (perform (Step.expire j) redis) ss

steer_key_eq : (k j : Text) → text_eq (steer_key k) (steer_key j) ≡ text_eq k j
unfolding text_eq
steer_key_eq k j = refl

Sublist-first : (o : Option Text) (xs ys : List Text) → Sublistᴰ xs ys → Sublistᴰ xs (first_of o ys)
Sublist-first none xs ys p = p
Sublist-first (some t) xs ys p = Sublistᴰ.cons p

Sublist-both :
    (o : Option Text) (xs ys : List Text)
    → Sublistᴰ xs ys
    → Sublistᴰ (first_of o xs) (first_of o ys)
Sublist-both none xs ys p = p
Sublist-both (some t) xs ys p = Sublistᴰ.cons-cons refl p

Sublist-behind :
    (t : Text) (o : Option Text) (xs ys : List Text)
    → Sublistᴰ xs (first_of o ys)
    → Sublistᴰ xs (first_of o (t ∷ ys))
Sublist-behind t none xs ys p = Sublistᴰ.cons p
Sublist-behind t (some u) xs ys (Sublistᴰ.cons p) = Sublistᴰ.cons (Sublistᴰ.cons p)
Sublist-behind t (some u) _ ys (Sublistᴰ.cons-cons e p) = Sublistᴰ.cons-cons e (Sublistᴰ.cons p)

lookup-set_key :
    (k j t : Text) (redis : Dict Text)
    → lookup (steer_key k) (insert (steer_key j) t redis)
      ≡ (if text_eq k j then some t else lookup (steer_key k) redis)
lookup-set_key k j t redis =
    ground (arith, steer_key_eq k j, lookup-insert (steer_key j) (steer_key k) t redis)

lookup-remove_key :
    (k j : Text) (redis : Dict Text)
    → lookup (steer_key k) (remove (steer_key j) redis)
      ≡ (if text_eq k j then none else lookup (steer_key k) redis)
lookup-remove_key k j redis =
    ground (arith, steer_key_eq k j, lookup-remove (steer_key j) (steer_key k) redis)

set_key-Sublist :
    (k j t : Text) (redis : Dict Text) (xs ys : List Text)
    → Sublistᴰ xs (first_of (lookup (steer_key k) (insert (steer_key j) t redis)) ys)
    → Sublistᴰ xs (first_of (lookup (steer_key k) redis) (if text_eq k j then t ∷ ys else ys))
set_key-Sublist k j t redis xs ys p =
    let q = subst (λ o. Sublistᴰ xs (first_of o ys)) (lookup-set_key k j t redis) p in
    elim (Bool-cases (text_eq k j)) [
      | inl h ↦
          let new =
            subst
              (λ b. Sublistᴰ xs (first_of (if b then some t else lookup (steer_key k) redis) ys)) h
              q in
          rw h (Sublist-first (lookup (steer_key k) redis) xs (t ∷ ys) new)
      | inr h ↦
          let old =
            subst
              (λ b. Sublistᴰ xs (first_of (if b then some t else lookup (steer_key k) redis) ys)) h
              q in
          rw h old
    ]

clear_key-Sublist :
    (k j : Text) (redis : Dict Text) (xs ys : List Text)
    → Sublistᴰ xs (first_of (lookup (steer_key k) (remove (steer_key j) redis)) ys)
    → (Sublistᴰ xs ys × (text_eq k j ≡ true))
      ⊎ (Sublistᴰ xs (first_of (lookup (steer_key k) redis) ys) × (text_eq k j ≡ false))
clear_key-Sublist k j redis xs ys p =
    let q = subst (λ o. Sublistᴰ xs (first_of o ys)) (lookup-remove_key k j redis) p in
    elim (Bool-cases (text_eq k j)) [
      | inl h ↦ inl (
        subst (λ b. Sublistᴰ xs (first_of (if b then none else lookup (steer_key k) redis) ys)) h q,
        h,
      )
      | inr h ↦ inr (
        subst (λ b. Sublistᴰ xs (first_of (if b then none else lookup (steer_key k) redis) ys)) h q,
        h,
      )
    ]

-- A write to the task leaves the steer of before or the new one; others leave its steer alone.
write-Sublist :
    (r : RedisReply) (k j t : Text) (redis : Dict Text) (xs ys : List Text)
    → Sublistᴰ xs (first_of (lookup (steer_key k) (write_steer r j t redis)) ys)
    → Sublistᴰ xs (first_of (lookup (steer_key k) redis) (if text_eq k j then t ∷ ys else ys))
unfolding write_steer
write-Sublist RedisReply.refused k j t redis xs ys p = elim (Bool-cases (text_eq k j)) [
  | inl h ↦ rw h (Sublist-behind t (lookup (steer_key k) redis) xs ys p)
  | inr h ↦ rw h p
]
write-Sublist RedisReply.served k j t redis xs ys p = set_key-Sublist k j t redis xs ys p
write-Sublist RedisReply.lost k j t redis xs ys p = set_key-Sublist k j t redis xs ys p

-- A read of the task returns its steer at most, which is gone then.
read-Sublist :
    (r : RedisReply) (k j : Text) (redis : Dict Text) (xs ys : List Text)
    → Sublistᴰ xs (first_of (lookup (steer_key k) (read_and_clear_steer r j redis).1) ys)
    → Sublistᴰ
        (if text_eq k j then first_of (read_and_clear_steer r j redis).0 xs else xs)
        (first_of (lookup (steer_key k) redis) ys)
unfolding read_and_clear_steer
read-Sublist RedisReply.refused k j redis xs ys p = elim (Bool-cases (text_eq k j)) [
  | inl h ↦ rw h p
  | inr h ↦ rw h p
]
read-Sublist RedisReply.lost k j redis xs ys p = elim (clear_key-Sublist k j redis xs ys p) [
  | inl (q, h) ↦ rw h (Sublist-first (lookup (steer_key k) redis) xs ys q)
  | inr (q, h) ↦ rw h q
]
read-Sublist RedisReply.served k j redis xs ys p = elim (clear_key-Sublist k j redis xs ys p) [
  | inl (q, h) ↦
      let same : j ≡ k = sym ((text_eq_iff k j).0 h) in
      rw h (rw same (Sublist-both (lookup (steer_key k) redis) xs ys q))
  | inr (q, h) ↦ rw h q
]

expire-Sublist :
    (k j : Text) (redis : Dict Text) (xs ys : List Text)
    → Sublistᴰ xs (first_of (lookup (steer_key k) (remove (steer_key j) redis)) ys)
    → Sublistᴰ xs (first_of (lookup (steer_key k) redis) ys)
expire-Sublist k j redis xs ys p = elim (clear_key-Sublist k j redis xs ys p) [
  | inl (q, h) ↦ Sublist-first (lookup (steer_key k) redis) xs ys q
  | inr (q, h) ↦ q
]

-- Whatever tasks write and read, and whichever calls of Redis fail or keys expire, the steers that
-- the reads of a task return are, in order, texts written for that task, each write at most once,
-- after the steer that is pending at the start, if one is.
pub steer_is_delivered_once :
    (k : Text) (redis : Dict Text) (ss : List Step)
    → Sublistᴰ (delivered k redis ss) (first_of (lookup (steer_key k) redis) (written k ss))
unfolding delivered written perform
steer_is_delivered_once k redis [] = Sublist-first (lookup (steer_key k) redis) [] [] Sublistᴰ.slnil
steer_is_delivered_once k redis (Step.write r j t ∷ ss) =
    let now = perform (Step.write r j t) redis in
    write-Sublist r k j t redis (delivered k now ss) (written k ss)
      (steer_is_delivered_once k now ss)
steer_is_delivered_once k redis (Step.read r j ∷ ss) =
    let now = perform (Step.read r j) redis in
    read-Sublist r k j redis (delivered k now ss) (written k ss) (steer_is_delivered_once k now ss)
steer_is_delivered_once k redis (Step.expire j ∷ ss) =
    let now = perform (Step.expire j) redis in
    expire-Sublist k j redis (delivered k now ss) (written k ss) (steer_is_delivered_once k now ss)
