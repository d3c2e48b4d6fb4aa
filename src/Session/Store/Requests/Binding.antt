-- ===== src/Session/Store/Requests/Binding.antt =====
-- A baton works for the session's own database and principal, and for no other.
use quicsql.Prelude.{
  if◌then◌else◌, ℕ, ◌+◌, ◌≤◌, ◌<◌, ◌≡◌, refl, ap, String, true, false, ◌==◌, nat_eq, string_eq,
  bytes_eq, List, some, arith, length, All,
}
use quicsql.Prelude.Map.{lookup, adjust, lookup-adjust}
use quicsql.Prelude.Result.{Result, ok, err}
use quicsql.Encoding.BigEndian.{word}
use quicsql.Session.Baton.{Mac, id_len, sum_size, verify}
use quicsql.Session.Baton.RoundTrip.{verify-mint}
use quicsql.Session.Store.{Session, Store, reapable}
use quicsql.Session.Store.Requests.{
  ResumeError, bad_baton, principal_mismatch, consume, idle_at, resume, resume_verified,
  resume_found, baton,
}

resume_live :
    (mac : Mac) (st : Store) (text id : List ℕ) (gen : ℕ) (s : Session) (db principal : String)
    (now : ℕ)
    → verify mac st.key text ≡ some (id, gen)
    → lookup id st.sessions ≡ some s
    → resume mac st text db principal now ≡ resume_found st id gen s db principal now
unfolding resume resume_verified
resume_live mac st text id gen s db principal now v l = rw (resume, v, resume_verified, l)

resume-owner :
    (mac : Mac) (st : Store) (text id : List ℕ) (s : Session) (now : ℕ)
    → verify mac st.key text ≡ some (id, s.gen)
    → lookup id st.sessions ≡ some s
    → s.busy ≡ false
    → reapable st now s ≡ false
    → resume mac st text s.db_name s.principal now
      ≡ (record st { sessions = adjust id (consume now) st.sessions }, ok (consume now s))
unfolding resume_found
resume-owner mac st text id s now v l b r =
    rw (resume_live mac st text id s.gen s s.db_name s.principal now v l) (
      ground
        (arith, string_eq.beq_iff s.db_name s.db_name, string_eq.beq_iff s.principal s.principal))

-- The current baton of a live session that is idle and unexpired, presented for another database or
-- by another principal, is refused, as a mismatch when only the principal differs and otherwise as
-- a bad baton, and the store does not change, so the owner's baton is not used up.
pub resume-bound :
    (mac : Mac) (st : Store) (text id : List ℕ) (s : Session) (db principal : String) (now : ℕ)
    → verify mac st.key text ≡ some (id, s.gen)
    → lookup id st.sessions ≡ some s
    → s.busy ≡ false
    → reapable st now s ≡ false
    → ¬ ((s.db_name ≡ db) × (s.principal ≡ principal))
    → resume mac st text db principal now
      ≡ (st, err (if s.db_name == db then principal_mismatch else bad_baton))
unfolding resume_found
resume-bound mac st text id s db principal now v l b r other =
    rw (resume_live mac st text id s.gen s db principal now v l)
      (ground (arith, string_eq.beq_iff s.db_name db, string_eq.beq_iff s.principal principal))

-- While a request is in flight its session cannot be resumed, and the attempt changes nothing.
pub resume-busy :
    (mac : Mac) (st : Store) (text id : List ℕ) (gen : ℕ) (s : Session) (db principal : String)
    (now : ℕ)
    → verify mac st.key text ≡ some (id, gen)
    → lookup id st.sessions ≡ some s
    → s.busy ≡ true
    → resume mac st text db principal now ≡ (st, err bad_baton)
unfolding resume_found
resume-busy mac st text id gen s db principal now v l b =
    rw (resume_live mac st text id gen s db principal now v l) (ground arith)

abbrev pub Timely : Store → Session → ℕ → ℕ → Type 0
Timely st s now later = (later ≤ now + st.ttl) × (later ≤ s.created + st.max_life)

idle-unreapable :
    (st : Store) (s : Session) (now later : ℕ)
    → Timely st s now later
    → reapable st later (idle_at now s) ≡ false
unfolding reapable idle_at
idle-unreapable st s now later h = ground arith

-- The baton of a response opens the next request: when the session is live under its own
-- identifier, and its owner presents the baton within the idle timeout and the session's lifetime,
-- the request is admitted with the session as the response left it, marked busy under the next
-- generation. The MAC gives 32 bytes, the identifier has 16.
pub resume-baton :
    (mac : Mac) (st : Store) (s : Session) (now later : ℕ)
    → ((k m : List ℕ) → length (mac k m) ≡ sum_size)
    → ((k m : List ℕ) → All (λ b. b < 256) (mac k m))
    → length s.id ≡ id_len
    → All (λ b. b < 256) s.id
    → s.gen < word
    → lookup s.id st.sessions ≡ some s
    → Timely st s now later
    → (resume mac (baton mac st s now).0 (baton mac st s now).1 s.db_name s.principal later).1
      ≡ ok (consume later (idle_at now s))
unfolding baton idle_at reapable
resume-baton mac st s now later sized bytes idlen idbytes small l timely =
    ap (λ (r : Store × Result ResumeError Session). r.1)
      (resume-owner mac (baton mac st s now).0 (baton mac st s now).1 s.id (idle_at now s) later
        (verify-mint mac st.key s.id s.gen sized bytes idlen idbytes small) found refl
        (idle-unreapable st s now later timely))
  where
    found : lookup s.id (adjust s.id (idle_at now) st.sessions) ≡ some (idle_at now s)
    found =
        ground
          (arith, lookup-adjust s.id s.id (idle_at now) st.sessions, bytes_eq.beq_iff s.id s.id)
