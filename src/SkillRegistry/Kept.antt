-- ===== src/SkillRegistry/Kept.antt =====
-- Callers that are not forgotten: what settling, queueing and returning keep.
use labmate.Common.{
  ℕ, ◌+◌, ◌≡◌, refl, Bool, true, false, ◌&&◌, ◌||◌, Option, none, some, List, [], ◌∷◌, ◌++◌, ◌==◌,
  any, all, length, map, arith, Bool-cases, inl, inr, ◌∙◌, ◌⊎◌,
}
use labmate.SkillRegistry.{
  Outcome, Caller, Entry, request, restart_sentinel, Owner, serving, ended, Registry, settle,
  drain_inbox, outcome_at, without, forget,
}

abbrev pub is_request : ℕ → Entry → Bool
is_request id (request k) = k == id
is_request id restart_sentinel = false

-- The owner serves the call, or served it when it was cancelled.
abbrev pub is_served : ℕ → Owner → Bool
is_served id (serving k) = k == id
is_served id (ended (some k)) = k == id
is_served id _ = false

abbrev pub is_done : Caller → Bool
is_done c = elim c.outcome [ none ↦ false | some _ ↦ true ]

-- The future of the caller is done, or nobody is left to settle it, or its request is in the inbox or
-- with the owner.
abbrev pub is_kept : List Entry → Owner → Caller → Bool
is_kept inbox owner c =
    (is_done c || c.is_forgotten) || (any (is_request c.id) inbox || is_served c.id owner)

-- The calls in flight are the callers, and of each it is known where its request is.
pub record IsAccounted (r : Registry) : Type 0 where
  pub in_flight : r.inflight ≡ length r.callers
  pub kept : all (is_kept r.inbox r.owner) r.callers ≡ true

pub all-weaken :
    (p q : Caller → Bool) (cs : List Caller)
    → ((c : Caller) → p c ≡ true → q c ≡ true)
    → all p cs ≡ true
    → all q cs ≡ true
all-weaken p q [] f h = refl
all-weaken p q (c ∷ cs) f h = ground (arith, f c, all-weaken p q cs f)

pub all-map :
    (p q : Caller → Bool) (f : Caller → Caller) (cs : List Caller)
    → ((c : Caller) → p c ≡ true → q (f c) ≡ true)
    → all p cs ≡ true
    → all q (map f cs) ≡ true
all-map p q f [] g h = refl
all-map p q f (c ∷ cs) g h = ground (arith, g c, all-map p q f cs g)

pub all-append :
    (p : Caller → Bool) (cs ds : List Caller) → all p (cs ++ ds) ≡ (all p cs && all p ds)
all-append p [] ds = refl
all-append p (c ∷ cs) ds = ground (arith, all-append p cs ds)

pub any-append : (p : Entry → Bool) (es fs : List Entry) → any p (es ++ fs) ≡ (any p es || any p fs)
any-append p [] fs = refl
any-append p (e ∷ es) fs = ground (arith, any-append p es fs)

pub length-map : (f : Caller → Caller) (cs : List Caller) → length (map f cs) ≡ length cs
length-map f [] = refl
length-map f (c ∷ cs) = omega (arith, length-map f cs)

pub length-drain_inbox :
    (o : Outcome) (es : List Entry) (cs : List Caller) → length (drain_inbox o es cs) ≡ length cs
unfolding drain_inbox
length-drain_inbox o [] cs = refl
length-drain_inbox o (request id ∷ es) cs =
    length-drain_inbox o es (map (settle id o) cs) ∙ length-map (settle id o) cs
length-drain_inbox o (restart_sentinel ∷ es) cs = length-drain_inbox o es cs

pub settled_done :
    (o : Outcome) (p : Option Outcome)
    → is_done (record {
      id = 0;
      outcome = elim p [ none ↦ some o | some x ↦ some x ];
      is_forgotten = false;
    })
      ≡ true
settled_done o none = refl
settled_done o (some x) = refl

-- A request that is settled and taken away leaves the other callers kept, by an owner who serves no
-- less but for that request.
pub settle-is_kept :
    (id : ℕ) (o : Outcome) (es fs : List Entry) (owner owner' : Owner) (c : Caller)
    → (any (is_request c.id) es ≡ true → (c.id ≡ id) ⊎ (any (is_request c.id) fs ≡ true))
    → (is_served c.id owner ≡ true → (c.id ≡ id) ⊎ (is_served c.id owner' ≡ true))
    → is_kept es owner c ≡ true
    → is_kept fs owner' (settle id o c) ≡ true
settle-is_kept id o es fs owner owner' c left served h = elim (Bool-cases (c.id == id)) [
  | inl t ↦ rw t (ground (arith, settled_done o c.outcome))
  | inr f ↦ rw f (ground (arith, left, served))
]

pub taken_or_left :
    (id k : ℕ) (es : List Entry)
    → any (is_request k) (request id ∷ es) ≡ true
    → (k ≡ id) ⊎ (any (is_request k) es ≡ true)
taken_or_left id k es h = elim (Bool-cases (id == k)) [
  | inl t ↦ inl (ground arith)
  | inr f ↦ inr (ground arith)
]

pub drain_inbox-all :
    (o : Outcome) (es : List Entry) (owner : Owner) (cs : List Caller)
    → all (is_kept es owner) cs ≡ true
    → all (is_kept [] owner) (drain_inbox o es cs) ≡ true
unfolding drain_inbox
drain_inbox-all o [] owner cs h = h
drain_inbox-all o (request id ∷ es) owner cs h = drain_inbox-all o es owner (map (settle id o) cs) (
    all-map (is_kept (request id ∷ es) owner) (is_kept es owner) (settle id o) cs
      (λ c.
        settle-is_kept id o (request id ∷ es) es owner owner c (taken_or_left id c.id es)
          (λ x. inr x))
      h)
drain_inbox-all o (restart_sentinel ∷ es) owner cs h = drain_inbox-all o es owner cs h

-- Adding an entry keeps every caller.
pub more-is_kept :
    (e : Entry) (es : List Entry) (owner : Owner) (cs : List Caller)
    → all (is_kept es owner) cs ≡ true
    → all (is_kept (es ++ e ∷ []) owner) cs ≡ true
more-is_kept e es owner cs =
    all-weaken (is_kept es owner) (is_kept (es ++ e ∷ []) owner) cs
      (λ c h. ground (arith, any-append (is_request c.id) es (e ∷ [])))

-- An owner who serves as much keeps every caller.
pub same-is_kept :
    (es : List Entry) (owner owner' : Owner) (cs : List Caller)
    → ((id : ℕ) → is_served id owner ≡ true → is_served id owner' ≡ true)
    → all (is_kept es owner) cs ≡ true
    → all (is_kept es owner') cs ≡ true
same-is_kept es owner owner' cs f =
    all-weaken (is_kept es owner) (is_kept es owner') cs (λ c h. ground (arith, f c.id))

pub length-without :
    (id : ℕ) (cs : List Caller) (o : Outcome)
    → outcome_at id cs ≡ some o
    → length (without id cs) + 1 ≡ length cs
unfolding outcome_at without
length-without id [] o e = cc
length-without id (c ∷ cs) o e = ground (arith, length-without id cs o)

pub length-without_present :
    (id : ℕ) (cs : List Caller)
    → any (λ (c : Caller). c.id == id) cs ≡ true
    → length (without id cs) + 1 ≡ length cs
unfolding without
length-without_present id [] e = cc
length-without_present id (c ∷ cs) e = ground (arith, length-without_present id cs)

-- The request that the owner serves at a crash is forgotten, and no other.
pub forget-all :
    (id : ℕ) (es : List Entry) (owner owner' : Owner) (cs : List Caller)
    → ((k : ℕ) → is_served k owner ≡ true → k ≡ id)
    → all (is_kept es owner) cs ≡ true
    → all (is_kept es owner') (map (forget id) cs) ≡ true
unfolding forget
forget-all id es owner owner' cs served =
    all-map (is_kept es owner) (is_kept es owner') (forget id) cs (λ c h.
      elim (Bool-cases (c.id == id)) [
        | inl t ↦ rw t (ground arith)
        | inr f ↦ rw f (ground (arith, served c.id))
      ])

pub all-without :
    (p : Caller → Bool) (id : ℕ) (cs : List Caller) → all p cs ≡ true → all p (without id cs) ≡ true
unfolding without
all-without p id [] h = refl
all-without p id (c ∷ cs) h = ground (arith, all-without p id cs)
