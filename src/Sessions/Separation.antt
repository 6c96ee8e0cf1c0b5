-- ===== src/Sessions/Separation.antt =====
-- That sessions do not interfere: what the store holds of one session.
use labmate.Common.{
  ◌+◌, ◌≡◌, refl, Bool, false, Option, none, some, List, [], ◌∷◌, ◌++◌, if◌then◌else◌, Text, length,
  lookup, text_eq, text_eq_iff, lookup-insert, lookup-remove, has_key-lookup, length-append, arith,
  ◌∙◌, ap, Bool-cases, inl, inr,
}
use mathlib.Core.Path.{subst}
use labmate.Sessions.{
  Session, Turn, SessionStore, new_session, create, rename, delete, turns_of, add_turn, set_debug,
  get_debug, Call, creates, renames, deletes, adds_turn, sets_debug, perform, perform_all,
}

-- What a client sees of one session.
pub record View (Doc : Type 0) : Type 0 where
  pub session : Option Session
  pub turns : List (Turn Doc)
  pub debug : Bool

module _ {Doc : Type 0} where
  abbrev pub view : Text → SessionStore Doc → View Doc
  view sid st = record {
    session = lookup sid st.sessions;
    turns = turns_of sid st;
    debug = get_debug sid st;
  }

  -- The promise for a session alone: a deletion forgets all of it, if it exists; turns are numbered
  -- in the order in which they come; a creation keeps the turns that are there.
  abbrev pub promised : Text → Call Doc → View Doc → View Doc
  promised sid (creates title mode now) v = record v {
    session = some (new_session sid title mode now);
  }
  promised sid (renames title now) v = elim v.session [
    | none ↦ v
    | some s ↦ record v { session = some (record s { title = title; updated_at = now }) }
  ]
  promised sid deletes v = elim v.session [
    | none ↦ v
    | some s ↦ record { session = none; turns = []; debug = false }
  ]
  promised sid (adds_turn doc now) v = record v {
    turns = v.turns ++ record { doc = doc; seq = length v.turns } ∷ [];
    session = elim v.session [
      | none ↦ none
      | some s ↦ some (record s { turn_count = length v.turns + 1; updated_at = now })
    ];
  }
  promised sid (sets_debug enabled) v = record v { debug = enabled }

  abbrev pub promised_all : Text → List (Text × Call Doc) → View Doc → View Doc
  promised_all sid [] v = v
  promised_all sid ((j, call) ∷ calls) v =
      if text_eq sid j
      then promised_all sid calls (promised sid call v)
      else promised_all sid calls v

  view-perform_self :
      (sid : Text) (call : Call Doc) (st : SessionStore Doc)
      → view sid (perform sid call st) ≡ promised sid call (view sid st)
  unfolding perform create rename delete add_turn set_debug turns_of get_debug
  view-perform_self sid (creates title mode now) st = grind (
    arith,
    text_eq_iff sid sid,
    lookup-insert {V = Session} sid sid,
    lookup-insert {V = List (Turn Doc)} sid sid,
    has_key-lookup sid st.turns,
  )
  view-perform_self sid (renames title now) st =
      grind (arith, text_eq_iff sid sid, lookup-insert {V = Session} sid sid)
  view-perform_self sid deletes st = ground (
    arith,
    text_eq_iff sid sid,
    lookup-remove sid sid st.sessions,
    lookup-remove sid sid st.turns,
    lookup-remove sid sid st.debug,
    has_key-lookup sid st.sessions,
  )
  view-perform_self sid (adds_turn doc now) st =
      let all_turns =
        turns_of sid st ++ record { doc = doc; seq = length (turns_of sid st) } ∷ [] in
      grind (
        arith,
        text_eq_iff sid sid,
        lookup-insert {V = Session} sid sid,
        lookup-insert sid sid all_turns st.turns,
        length-append (turns_of sid st) (record { doc = doc; seq = length (turns_of sid st) } ∷ []),
      )
  view-perform_self sid (sets_debug enabled) st =
      ground (arith, lookup-insert sid sid enabled st.debug, text_eq_iff sid sid)

  view-perform_other :
      (sid other : Text) (call : Call Doc) (st : SessionStore Doc)
      → text_eq sid other ≡ false
      → view sid (perform other call st) ≡ view sid st
  unfolding perform create rename delete add_turn set_debug turns_of get_debug
  view-perform_other sid other (creates title mode now) st h =
      grind (
        arith,
        lookup-insert {V = Session} other sid,
        lookup-insert {V = List (Turn Doc)} other sid,
      )
  view-perform_other sid other (renames title now) st h =
      grind (arith, lookup-insert {V = Session} other sid)
  view-perform_other sid other deletes st h = ground (
    arith,
    lookup-remove other sid st.sessions,
    lookup-remove other sid st.turns,
    lookup-remove other sid st.debug,
  )
  view-perform_other sid other (adds_turn doc now) st h =
      let all_turns =
        turns_of other st ++ record { doc = doc; seq = length (turns_of other st) } ∷ [] in
      grind (
        arith,
        lookup-insert other sid all_turns st.turns,
        λ (s : Session). lookup-insert other sid s st.sessions,
      )
  view-perform_other sid other (sets_debug enabled) st h =
      ground (arith, lookup-insert other sid enabled st.debug)

  -- What the store holds of a session after any calls is what the promise for that session alone
  -- gives for those of the calls that are about it; the calls about other sessions do not matter.
  pub store_keeps_promise :
      (sid : Text) (calls : List (Text × Call Doc)) (st : SessionStore Doc)
      → view sid (perform_all calls st) ≡ promised_all sid calls (view sid st)
  unfolding perform_all
  store_keeps_promise sid [] st = refl
  store_keeps_promise sid ((other, call) ∷ calls) st = elim (Bool-cases (text_eq sid other)) [
    | inl same ↦
        let is : sid ≡ other = (text_eq_iff sid other).0 same in
        store_keeps_promise sid calls (perform other call st)
        ∙ ap (promised_all sid calls) (
            subst (λ o. view sid (perform o call st) ≡ promised sid call (view sid st)) is
              (view-perform_self sid call st))
        ∙ ground arith
    | inr differs ↦
        store_keeps_promise sid calls (perform other call st)
        ∙ ap (promised_all sid calls) (view-perform_other sid other call st differs)
        ∙ ground arith
  ]
