-- ===== src/Session/Store/Steps.antt =====
-- session/session.go as a transition system: one step for each critical section, in any order, by
-- any number of goroutines. `waiting` counts, for a database, the calls of Open that hold a slot
-- and have not come back from pinning their connection.
use quicsql.Prelude.{
  ℕ, suc, ◌-◌, ◌<◌, ◌≡◌, String, ◌==◌, string_eq, bytes_eq, List, Option, none, some, if◌then◌else◌,
}
use quicsql.Prelude.Map.{lookup, adjust}
use quicsql.Prelude.Int.{ℤ}
use quicsql.Session.Baton.{Mac}
use quicsql.Session.Store.{
  Session, Store, release_slot, set_capture, take_capture, store_sql, drop_sql,
}
use quicsql.Session.Store.Open.{Request, reserve, finish_open}
use quicsql.Session.Store.Requests.{resume, baton, close}
use quicsql.Session.Store.Reaping.{reap, close_all, kill}

pub record World : Type 0 where
  pub store : Store
  pub waiting : String → ℕ

abbrev pub raised : String → (String → ℕ) → String → ℕ
raised db w d = if db == d then suc (w d) else w d

abbrev pub lowered : String → (String → ℕ) → String → ℕ
lowered db w d = if db == d then w d - 1 else w d

-- A write through the pointer of a live session.
abbrev pub written : List ℕ → (Session → Session) → Store → Store
written id f st = record st { sessions = adjust id f st.sessions }

pub data Step (mac : Mac) (w u : World) : Type 0 where
  begins :
      (db : String) (st : Store)
      → reserve w.store db ≡ some st
      → u ≡ record { store = st; waiting = raised db w.waiting }
      → Step mac w u
  gives_up :
      (db : String)
      → 0 < w.waiting db
      → u ≡ record { store = release_slot w.store db; waiting = lowered db w.waiting }
      → Step mac w u
  has_no_id :
      (r : Request) (conn now : ℕ)
      → 0 < w.waiting r.db_name
      → u ≡ record {
        store = (finish_open w.store r conn none now).0;
        waiting = lowered r.db_name w.waiting;
      }
      → Step mac w u
  publishes :
      (r : Request) (conn : ℕ) (id : List ℕ) (now : ℕ)
      → 0 < w.waiting r.db_name
      → lookup id w.store.sessions ≡ none
      → u ≡ record {
        store = (finish_open w.store r conn (some id) now).0;
        waiting = lowered r.db_name w.waiting;
      }
      → Step mac w u
  resumes :
      (text : List ℕ) (db principal : String) (now : ℕ)
      → u ≡ record w { store = (resume mac w.store text db principal now).0 }
      → Step mac w u
  finishes :
      (s : Session) (now : ℕ) → u ≡ record w { store = (baton mac w.store s now).0 } → Step mac w u
  closes : (s : Session) → u ≡ record w { store = close w.store s } → Step mac w u
  kills : (text : List ℕ) → u ≡ record w { store = (kill w.store text).0 } → Step mac w u
  reaps : (now : ℕ) → u ≡ record w { store = reap w.store now } → Step mac w u
  shuts_down : u ≡ record w { store = close_all w.store } → Step mac w u
  stores_sql :
      (id : List ℕ) (key : ℤ) (text : String)
      → u ≡ record w { store = written id (λ s. store_sql s key text) w.store }
      → Step mac w u
  drops_sql :
      (id : List ℕ) (key : ℤ)
      → u ≡ record w { store = written id (λ s. drop_sql s key) w.store }
      → Step mac w u
  captures :
      (id : List ℕ) (c : Option ℕ)
      → u ≡ record w { store = written id (λ s. set_capture s c) w.store }
      → Step mac w u
  hands_over :
      (id : List ℕ)
      → u ≡ record w { store = written id (λ s. (take_capture s).0) w.store }
      → Step mac w u

pub data Steps (mac : Mac) (w : World) : ℕ → World → Type 0 where
  here : Steps mac w 0 w
  next : {n : ℕ} {u v : World} → Steps mac w n u → Step mac u v → Steps mac w (suc n) v
