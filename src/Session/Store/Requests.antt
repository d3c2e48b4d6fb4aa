-- ===== src/Session/Store/Requests.antt =====
-- session/session.go, what a request does to its session: Resume, Baton, PeekBaton, Close.
pub mod Outcomes
pub mod Binding
use quicsql.Prelude.{
  ℕ, ◌+◌, ◌%◌, String, true, false, not, ◌==◌, nat_eq, string_eq, bytes_eq, List, Option, none,
  some, if◌then◌else◌,
}
use quicsql.Prelude.Map.{lookup, adjust}
use quicsql.Prelude.Result.{Result, ok, err}
use quicsql.Encoding.BigEndian.{word}
use quicsql.Session.Baton.{Mac, mint, verify}
use quicsql.Session.Store.{Session, Store, close_locked, reapable}

pub data ResumeError : Type 0 where
  bad_baton principal_mismatch : ResumeError

-- The session as a resumed request holds it: the generation moves on, so the baton is used up.
unfoldable pub consume : ℕ → Session → Session
consume now s = record s { gen = (s.gen + 1) % word; busy = true; last_used = now }

unfoldable pub resume_found :
    Store → List ℕ → ℕ → Session → String → String → ℕ → Store × Result ResumeError Session
resume_found st id gen s db principal now =
    if not (s.gen == gen)
    then (st, err bad_baton)
    else if s.busy
    then (st, err bad_baton)
    else if reapable st now s
    then (close_locked st id, err bad_baton)
    else if not (s.db_name == db)
    then (st, err bad_baton)
    else if not (s.principal == principal)
    then (st, err principal_mismatch)
    else (record st { sessions = adjust id (consume now) st.sessions }, ok (consume now s))

unfoldable pub resume_verified :
    Store → Option (List ℕ × ℕ) → String → String → ℕ → Store × Result ResumeError Session
resume_verified st none db principal now = (st, err bad_baton)
resume_verified st (some (id, gen)) db principal now = elim (lookup id st.sessions) [
  | none ↦ (st, err bad_baton)
  | some s ↦ resume_found st id gen s db principal now
]

unfoldable pub resume :
    Mac → Store → List ℕ → String → String → ℕ → Store × Result ResumeError Session
resume mac st baton db principal now = resume_verified st (verify mac st.key baton) db principal now

unfoldable pub idle_at : ℕ → Session → Session
idle_at now s = record s { busy = false; last_used = now }

-- `Baton`: the request is over. The session is written through its pointer.
unfoldable pub baton : Mac → Store → Session → ℕ → Store × List ℕ
baton mac st s now =
    (record st { sessions = adjust s.id (idle_at now) st.sessions }, mint mac st.key s.id s.gen)

unfoldable pub peek_baton : Mac → Store → Session → List ℕ
peek_baton mac st s = mint mac st.key s.id s.gen

unfoldable pub close : Store → Session → Store
close st s = close_locked st s.id
