-- ===== src/Session/Store/Reaping.antt =====
-- session/session.go, what other goroutines do to idle sessions: reap, CloseAll, Kill, and the
-- snapshots List and Count.
pub mod Busy
use quicsql.Prelude.{
  ℕ, ◌-◌, String, Bool, true, not, ◌==◌, nat_eq, List, [], ◌∷◌, Option, none, some, if◌then◌else◌,
  length, bytes_eq,
}
use quicsql.Prelude.Map.{Map, lookup}
use quicsql.Encoding.Base64
use quicsql.Session.Baton.{id_len}
use quicsql.Session.Store.{Session, Store, close_locked, reapable}

unfoldable pub reap_among : Store → ℕ → Map (List ℕ) Session → Store
unfolding reapable close_locked
reap_among st now [] = st
reap_among st now ((id, s) ∷ rest) =
    reap_among (if reapable st now s then close_locked st id else st) now rest

unfoldable pub reap : Store → ℕ → Store
unfolding reap_among
reap st now = reap_among st now st.sessions

unfoldable pub close_idle_among : Store → Map (List ℕ) Session → Store
unfolding close_locked
close_idle_among st [] = st
close_idle_among st ((id, s) ∷ rest) =
    close_idle_among (if s.busy then st else close_locked st id) rest

-- `CloseAll`; the wait that follows empties `closing`.
unfoldable pub close_all : Store → Store
unfolding close_idle_among
close_all st = record (close_idle_among st st.sessions) { closing = [] }

pub data KillResult : Type 0 where
  not_found kill_busy killed : KillResult

unfoldable pub kill_id : Store → List ℕ → Store × KillResult
unfolding close_locked
kill_id st id = elim (lookup id st.sessions) [
  | none ↦ (st, not_found)
  | some s ↦ if s.busy then (st, kill_busy) else (close_locked st id, killed)
]

unfoldable pub kill : Store → List ℕ → Store × KillResult
unfolding kill_id
kill st text = elim (Base64.decode text) [
  | none ↦ (st, not_found)
  | some raw ↦ if not (length raw == id_len) then (st, not_found) else kill_id st raw
]

pub record Info : Type 0 where
  pub id : List ℕ
  pub db_name : String
  pub principal : String
  pub read_only : Bool
  pub busy : Bool
  pub age : ℕ
  pub idle_for : ℕ

info_of : ℕ → List ℕ → Session → Info
info_of now id s = record {
  id = Base64.encode id;
  db_name = s.db_name;
  principal = s.principal;
  read_only = s.read_only;
  busy = s.busy;
  age = now - s.created;
  idle_for = now - s.last_used;
}

list_among : (String → Bool) → ℕ → Map (List ℕ) Session → List Info
list_among keep now [] = []
list_among keep now ((id, s) ∷ rest) =
    let out = list_among keep now rest in if keep s.db_name then info_of now id s ∷ out else out

-- A nil filter keeps every database.
unfoldable pub list : Option (String → Bool) → Store → ℕ → List Info
unfolding list_among info_of
list none st now = list_among (λ _. true) now st.sessions
list (some keep) st now = list_among keep now st.sessions

unfoldable pub count_sessions : Store → ℕ
count_sessions st = length st.sessions
