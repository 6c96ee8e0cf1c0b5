-- ===== src/Sessions.antt =====
-- services/ws_gateway/sessions.py: InMemorySessionStore, with the calls of its routes. A turn is the
-- sender's document, of a type left open, with its number. The time of a call and the identifier that
-- uuid4 makes are arguments.
pub mod Separation
pub mod Numbering
mod Examples
use labmate.Common.{
  ℕ, zero, suc, ◌+◌, Bool, true, false, not, Option, none, some, List, [], ◌∷◌, ◌++◌, if◌then◌else◌,
  Text, codes, is_empty, length, Dict, lookup, has_key, insert, remove, text_eq, text_lt,
}

pub record Session : Type 0 where
  pub id : Text
  pub title : Text
  pub mode : Text
  pub turn_count : ℕ
  pub context_tokens : ℕ
  pub created_at : Text
  pub updated_at : Text

pub record Turn (Doc : Type 0) : Type 0 where
  pub doc : Doc
  pub seq : ℕ

pub record SessionStore (Doc : Type 0) : Type 0 where
  pub sessions : Dict Session
  pub turns : Dict (List (Turn Doc))
  pub debug : Dict Bool

unfoldable pub new_session : Text → Text → Text → Text → Session
new_session sid title mode now = record {
  id = sid;
  title = title;
  mode = mode;
  turn_count = 0;
  context_tokens = 0;
  created_at = now;
  updated_at = now;
}

-- The insertion of `sorted(..., key=lambda s: s["updatedAt"], reverse=True)`, which keeps the order of
-- equal keys.
unfoldable pub insert_newest : Session → List Session → List Session
insert_newest s [] = s ∷ []
insert_newest s (t ∷ ts) =
    let rest = insert_newest s ts in
    if text_lt s.updated_at t.updated_at then t ∷ rest else s ∷ t ∷ ts

unfoldable pub sort_newest : List Session → List Session
sort_newest [] = []
sort_newest (s ∷ ss) = insert_newest s (sort_newest ss)

unfoldable pub values_of : Dict Session → List Session
values_of [] = []
values_of ((k, s) ∷ d) = s ∷ values_of d

-- `session_id or "s-" + uuid.uuid4().hex[:12]`
unfoldable pub sid_of : Option Text → Text → Text
sid_of none fresh = codes "s-" ++ fresh
sid_of (some sid) fresh = if is_empty sid then codes "s-" ++ fresh else sid

module _ {Doc : Type 0} where
  unfoldable pub empty_store : SessionStore Doc
  empty_store = record { sessions = []; turns = []; debug = [] }

  unfoldable pub create : Text → Text → Text → Text → SessionStore Doc → SessionStore Doc
  create sid title mode now st = record st {
    sessions = insert sid (new_session sid title mode now) st.sessions;
    turns = if has_key sid st.turns then st.turns else insert sid [] st.turns;
  }

  -- `list`
  unfoldable pub list_sessions : SessionStore Doc → List Session
  unfolding sort_newest values_of
  list_sessions st = sort_newest (values_of st.sessions)

  unfoldable pub get : Text → SessionStore Doc → Option Session
  get sid st = lookup sid st.sessions

  unfoldable pub rename : Text → Text → Text → SessionStore Doc → SessionStore Doc
  rename sid title now st = elim (lookup sid st.sessions) [
    | none ↦ st
    | some s ↦ record st {
      sessions = insert sid (record s { title = title; updated_at = now }) st.sessions;
    }
  ]

  unfoldable pub delete : Text → SessionStore Doc → SessionStore Doc × Bool
  delete sid st =
      if has_key sid st.sessions
      then (
        record {
          sessions = remove sid st.sessions;
          turns = remove sid st.turns;
          debug = remove sid st.debug;
        },
        true,
      )
      else (st, false)

  unfoldable pub turns_of : Text → SessionStore Doc → List (Turn Doc)
  turns_of sid st = elim (lookup sid st.turns) [ none ↦ [] | some ts ↦ ts ]

  unfoldable pub add_turn : Text → Doc → Text → SessionStore Doc → SessionStore Doc
  unfolding turns_of
  add_turn sid doc now st =
      let before = turns_of sid st in
      let all_turns = before ++ record { doc = doc; seq = length before } ∷ [] in
      record st {
        turns = insert sid all_turns st.turns;
        sessions = elim (lookup sid st.sessions) [
          | none ↦ st.sessions
          | some s ↦
              insert sid (record s { turn_count = length all_turns; updated_at = now }) st.sessions
        ];
      }

  unfoldable pub set_debug : Text → Bool → SessionStore Doc → SessionStore Doc
  set_debug sid enabled st = record st { debug = insert sid enabled st.debug }

  unfoldable pub get_debug : Text → SessionStore Doc → Bool
  get_debug sid st = elim (lookup sid st.debug) [ none ↦ false | some b ↦ b ]

-- A call that changes the store, with the session that it is about.
pub data Call (Doc : Type 0) : Type 0 where
  creates : Text → Text → Text → Call Doc
  renames : Text → Text → Call Doc
  deletes : Call Doc
  adds_turn : Doc → Text → Call Doc
  sets_debug : Bool → Call Doc

module _ {Doc : Type 0} where
  unfoldable pub perform : Text → Call Doc → SessionStore Doc → SessionStore Doc
  perform sid (creates title mode now) st = create sid title mode now st
  perform sid (renames title now) st = rename sid title now st
  perform sid deletes st = (delete sid st).0
  perform sid (adds_turn doc now) st = add_turn sid doc now st
  perform sid (sets_debug enabled) st = set_debug sid enabled st

  unfoldable pub perform_all : List (Text × Call Doc) → SessionStore Doc → SessionStore Doc
  perform_all [] st = st
  perform_all ((sid, call) ∷ calls) st = perform_all calls (perform sid call st)

-- The answers of the routes: a body, or 404.
pub data Response (A : Type 0) : Type 0 where
  body : A → Response A
  not_found : Response A

module _ {Doc : Type 0} where
  unfoldable pub get_turns : Text → SessionStore Doc → Response (List (Turn Doc))
  get_turns sid st = elim (get sid st) [ none ↦ not_found | some s ↦ body (turns_of sid st) ]

  unfoldable pub patch_session :
      Text → Text → Text → SessionStore Doc → SessionStore Doc × Response Session
  patch_session sid title now st = elim (lookup sid st.sessions) [
    | none ↦ (st, not_found)
    | some s ↦ (rename sid title now st, body (record s { title = title; updated_at = now }))
  ]
