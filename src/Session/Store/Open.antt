-- ===== src/Session/Store/Open.antt =====
-- session/session.go, Open. The method lets go of the mutex while it pins a connection, so it is
-- a reservation of a slot and, later, a publication or a release of it.
use quicsql.Prelude.{
  ℕ, ◌-◌, ◌+◌, String, Bool, true, ◌&&◌, not, List, [], Option, none, some, leb, if◌then◌else◌,
  string_eq, bytes_eq,
}
use quicsql.Prelude.Map.{insert}
use quicsql.Prelude.Result.{Result, ok, err}
use quicsql.Session.Store.{Session, Store, slots, release_slot}

pub data OpenError : Type 0 where
  too_many pin_failed mode_failed rand_failed : OpenError

-- `none` is ErrTooMany.
unfoldable pub reserve : Store → String → Option Store
reserve st db =
    if leb st.max (slots st db)
    then none
    else some (record st { per_db = insert db (slots st db + 1) st.per_db })

-- What the caller asks for.
pub record Request : Type 0 where
  pub db_name : String
  pub release : ℕ
  pub principal : String
  pub read_only : Bool
  pub allow_attach : Bool

-- What the world answers while the mutex is free: the pinned connection, whether its mode could
-- be set, the random identifier, and the time.
pub record Answers : Type 0 where
  pub conn : Option ℕ
  pub mode_set : Bool
  pub id : Option (List ℕ)
  pub now : ℕ

unfoldable pub wants_attach : Request → Bool
wants_attach r = r.allow_attach && not r.read_only

unfoldable pub new_session : Request → List ℕ → ℕ → ℕ → Session
unfolding wants_attach
new_session r id conn now = record {
  id = id;
  gen = 1;
  conn = conn;
  release = some r.release;
  db_name = r.db_name;
  principal = r.principal;
  read_only = r.read_only;
  attach = wants_attach r;
  created = now;
  last_used = now;
  busy = true;
  sql = [];
  capture = none;
}

unfoldable pub publish : Store → Session → Store
publish st s = record st { sessions = insert s.id s st.sessions }

-- The last critical section: the identifier, then the session.
unfoldable pub finish_open :
    Store → Request → ℕ → Option (List ℕ) → ℕ → Store × Result OpenError Session
unfolding new_session publish
finish_open st r conn none now =
    (record st { per_db = insert r.db_name (slots st r.db_name - 1) st.per_db }, err rand_failed)
finish_open st r conn (some id) now =
    (publish st (new_session r id conn now), ok (new_session r id conn now))

unfoldable pub pinned : Store → Request → Answers → ℕ → Store × Result OpenError Session
unfolding finish_open release_slot wants_attach
pinned st r a conn =
    if (if r.read_only then not a.mode_set else wants_attach r && not a.mode_set)
    then (release_slot st r.db_name, err mode_failed)
    else finish_open st r conn a.id a.now

-- `Open` with nothing else running between its critical sections.
unfoldable pub open_session : Store → Request → Answers → Store × Result OpenError Session
unfolding reserve pinned
open_session st r a = elim (reserve st r.db_name) [
  | none ↦ (st, err too_many)
  | some st' ↦ elim a.conn [
    | none ↦ (release_slot st' r.db_name, err pin_failed)
    | some conn ↦ pinned st' r a conn
  ]
]
