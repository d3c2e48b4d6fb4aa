-- ===== src/Session/Store.antt =====
-- session/session.go, the state: sessions, their store, and the teardown of a connection. The
-- connection, the registry ref and the capture handle of a session are numbers that name them.
-- Instants are nanoseconds; `now - t` stops at 0, which compares alike with the bounds of at least
-- 0 that `NewStore` makes. Each method holds the mutex, so it is one step.
pub mod Open
pub mod Requests
pub mod Reaping
pub mod Steps
pub mod Slots
pub mod Evolution
pub mod Replay
use quicsql.Prelude.{
  ℕ, zero, suc, ◌-◌, ◌+◌, ◌*◌, String, Bool, true, false, ◌&&◌, ◌||◌, not, List, [], ◌∷◌, ◌++◌,
  Option, none, some, ltb, if◌then◌else◌, string_eq, bytes_eq,
}
use quicsql.Prelude.Map.{Map, lookup, lookup_or, insert, delete}
use quicsql.Prelude.Int.{ℤ, pos, negsuc, int_eq}

pub record Session : Type 0 where
  pub id : List ℕ
  pub gen : ℕ
  pub conn : ℕ
  pub release : Option ℕ
  pub db_name : String
  pub principal : String
  pub read_only : Bool
  pub attach : Bool
  pub created : ℕ
  pub last_used : ℕ
  pub busy : Bool
  pub sql : Map ℤ String
  pub capture : Option ℕ

unfoldable pub set_capture : Session → Option ℕ → Session
set_capture s c = record s { capture = c }

unfoldable pub take_capture : Session → Session × Option ℕ
take_capture s = (record s { capture = none }, s.capture)

unfoldable pub store_sql : Session → ℤ → String → Session
store_sql s id text = record s { sql = insert id text s.sql }

unfoldable pub lookup_sql : Session → ℤ → Option String
lookup_sql s id = lookup id s.sql

unfoldable pub drop_sql : Session → ℤ → Session
drop_sql s id = record s { sql = delete id s.sql }

-- What a teardown goroutine does to the connection and the handles that it was given.
pub data Action : Type 0 where
  close_capture rollback base_mode clear_attach poison close_conn drop_ref : ℕ → Action

pub record Teardown : Type 0 where
  pub conn : ℕ
  pub release : Option ℕ
  pub read_only : Bool
  pub attach : Bool
  pub capture : Option ℕ

-- The goroutine of `closeLocked`; `cleared` is whether ClearAttach succeeds.
unfoldable pub teardown_actions : Teardown → Bool → List Action
teardown_actions t cleared =
    (elim t.capture [ none ↦ [] | some c ↦ close_capture c ∷ [] ])
    ++ (rollback t.conn
        ∷ ((if t.read_only
              then base_mode t.conn ∷ []
              else if t.attach
              then clear_attach t.conn ∷ (if cleared then [] else poison t.conn ∷ [])
              else [])
            ++ (close_conn t.conn ∷ (elim t.release [ none ↦ [] | some r ↦ drop_ref r ∷ [] ]))))

-- `closing` holds the teardown goroutines that were started, in order.
pub record Store : Type 0 where
  pub sessions : Map (List ℕ) Session
  pub per_db : Map String ℕ
  pub key : List ℕ
  pub ttl : ℕ
  pub max_life : ℕ
  pub max : ℕ
  pub closing : List Teardown

abbrev pub second : ℕ
second = 1_000_000_000

-- A duration or count of at most 0 gives way to the default.
unfoldable pub positive_or : ℕ → ℤ → ℕ
positive_or d (pos zero) = d
positive_or d (pos (suc n)) = suc n
positive_or d (negsuc n) = d

-- `key` is what the random source gave.
unfoldable pub new_store : List ℕ → ℤ → ℤ → ℤ → Store
unfolding positive_or
new_store key ttl max_life max = record {
  sessions = [];
  per_db = [];
  key = key;
  ttl = positive_or (60 * second) ttl;
  max_life = positive_or (5 * 60 * second) max_life;
  max = positive_or 64 max;
  closing = [];
}

-- The live count of a database.
abbrev pub slots : Store → String → ℕ
slots st db = lookup_or 0 db st.per_db

unfoldable pub release_slot : Store → String → Store
release_slot st db =
    if ltb 0 (slots st db) then record st { per_db = insert db (slots st db - 1) st.per_db } else st

unfoldable pub close_found : Store → List ℕ → Session → Store
unfolding release_slot take_capture
close_found st id s =
    let freed = release_slot (record st { sessions = delete id st.sessions }) s.db_name in
    record freed {
      closing =
          freed.closing
          ++ (record {
            conn = s.conn;
            release = s.release;
            read_only = s.read_only;
            attach = s.attach;
            capture = (take_capture s).1;
          }
              ∷ []);
    }

unfoldable pub close_locked : Store → List ℕ → Store
close_locked st id = elim (lookup id st.sessions) [ none ↦ st | some s ↦ close_found st id s ]

unfoldable pub reapable : Store → ℕ → Session → Bool
reapable st now s =
    if s.busy then false else ltb st.ttl (now - s.last_used) || ltb st.max_life (now - s.created)
