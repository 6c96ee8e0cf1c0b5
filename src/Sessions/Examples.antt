-- ===== src/Sessions/Examples.antt =====
-- Runs and instances for the session store; the documents are texts.
use labmate.Common.{
  ◌≡◌, refl, List, [], ◌∷◌, Text, codes, map, text_eq, lookup, insert, remove, has_key,
}
use labmate.Sessions.{
  Turn, empty_store, Call, creates, deletes, adds_turn, perform, perform_all, create, add_turn,
  delete, turns_of, get_turns, get, not_found,
}
use labmate.Sessions.Separation.{view, promised_all, store_keeps_promise}
use labmate.Sessions.Numbering.{IsNumbered, store-IsNumbered}

abbrev s1 : Text
s1 = codes "s-1"

abbrev s2 : Text
s2 = codes "s-2"

abbrev calls : List (Text × Call Text)
calls =
    (s1, creates (codes "New") (codes "chat") (codes "t0"))
    ∷ (s1, adds_turn (codes "hello") (codes "t1"))
    ∷ (s2, creates (codes "Other") (codes "code") (codes "t2"))
    ∷ (s1, adds_turn (codes "world") (codes "t3"))
    ∷ (s2, deletes)
    ∷ []

two_turns :
    map Turn.doc (turns_of s1 (perform_all calls empty_store)) ≡ codes "hello" ∷ codes "world" ∷ []
unfolding perform_all perform create add_turn delete turns_of empty_store lookup insert remove
    has_key text_eq
two_turns = refl

deleted_is_not_found : get_turns s2 (perform_all calls empty_store) ≡ not_found
unfolding perform_all perform create add_turn delete turns_of empty_store lookup insert remove
    has_key text_eq get_turns get
deleted_is_not_found = refl

store_keeps_promise_example :
    view s1 (perform_all calls empty_store) ≡ promised_all s1 calls (view s1 empty_store)
store_keeps_promise_example = store_keeps_promise s1 calls empty_store

store-IsNumbered_example : IsNumbered (view s1 (perform_all calls empty_store))
store-IsNumbered_example = store-IsNumbered s1 calls
