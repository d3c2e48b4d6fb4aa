-- ===== src/Session/Tests.antt =====
-- The store on small examples. The MAC is one that looks at the length of its message only.
use quicsql.Prelude.{
  ℕ, ◌+◌, ◌≤◌, ◌<◌, ◌≡◌, refl, true, false, List, [], ◌∷◌, none, some, length, replicate, All,
  arith, string_eq, bytes_eq, nat_eq,
}
use quicsql.Prelude.Map.{lookup, lookup_or, insert, adjust, Distinct}
use quicsql.Prelude.Int.{pos}
use quicsql.Prelude.Result.{ok, err}
use quicsql.Encoding.Base64
use quicsql.Session.Baton.{Mac, sum_size, mint, verify}
use quicsql.Session.Baton.RoundTrip.{Signed, verify-mint, verify-Signed}
use quicsql.Session.Store.{Session, Store, new_store, slots, reapable}
use quicsql.Session.Store.Open.{Request, reserve, finish_open}
use quicsql.Session.Store.Requests.{bad_baton, principal_mismatch, consume, resume, idle_at, baton}
use quicsql.Session.Store.Requests.Binding.{resume-bound, resume-baton}
use quicsql.Session.Store.Reaping.{reap, kill, close_all}
use quicsql.Session.Store.Reaping.Busy.{busy-kept}
use quicsql.Session.Store.Steps.{
  raised, lowered, World, Steps, begins, publishes, finishes, here, next,
}
use quicsql.Session.Store.Slots.{live}
use quicsql.Session.Store.Slots.Reachable.{fresh_world, slots-Steps}
use quicsql.Session.Store.Replay.{StepsWithout, none_yet, and_then}
use quicsql.Session.Store.Replay.Refused.{replay-refused}

abbrev toy_mac : Mac
toy_mac k m = replicate 32 7

toy_mac-length : (k m : List ℕ) → length (toy_mac k m) ≡ sum_size
toy_mac-length k m = refl

toy_mac-bytes : (k m : List ℕ) → All (λ b. b < 256) (toy_mac k m)
toy_mac-bytes k m = ground arith

abbrev sample_id : List ℕ
sample_id = replicate 16 1

sample_id-bytes : All (λ b. b < 256) sample_id
sample_id-bytes = ground arith

verify-mint_example :
    verify toy_mac (5 ∷ []) (mint toy_mac (5 ∷ []) sample_id 9) ≡ some (sample_id, 9)
verify-mint_example =
    verify-mint toy_mac (5 ∷ []) sample_id 9 toy_mac-length toy_mac-bytes refl sample_id-bytes
      (omega arith)

verify-Signed_example : Signed toy_mac (5 ∷ []) (mint toy_mac (5 ∷ []) sample_id 9) sample_id 9
verify-Signed_example =
    verify-Signed toy_mac (5 ∷ []) (mint toy_mac (5 ∷ []) sample_id 9) sample_id 9
      verify-mint_example

-- A session of alice on "main", that a request has just left.
abbrev idle_session : Session
idle_session = record {
  id = sample_id;
  gen = 9;
  conn = 1;
  release = some 1;
  db_name = "main";
  principal = "alice";
  read_only = false;
  attach = false;
  created = 100;
  last_used = 200;
  busy = false;
  sql = [];
  capture = none;
}

abbrev busy_session : Session
busy_session = record idle_session { busy = true }

abbrev store_with : Session → Store
store_with s = record {
  sessions = (sample_id, s) ∷ [];
  per_db = ("main", 1) ∷ [];
  key = 5 ∷ [];
  ttl = 60;
  max_life = 300;
  max = 2;
  closing = [];
}

abbrev sample_baton : List ℕ
sample_baton = mint toy_mac (5 ∷ []) sample_id 9

found : (s : Session) → lookup sample_id (store_with s).sessions ≡ some s
unfolding lookup
found s = refl

unexpired : reapable (store_with idle_session) 210 idle_session ≡ false
unfolding reapable
unexpired = refl

resume-bound_example :
    resume toy_mac (store_with idle_session) sample_baton "main" "mallory" 210
    ≡ (store_with idle_session, err principal_mismatch)
resume-bound_example =
    resume-bound toy_mac (store_with idle_session) sample_baton sample_id idle_session "main"
      "mallory" 210 verify-mint_example (found idle_session) refl unexpired
      (λ h. ground (arith, h.1, string_eq.beq_iff "alice" "mallory"))

resume-baton_example :
    (resume toy_mac
      (baton toy_mac (store_with busy_session) busy_session 205).0
      (baton toy_mac (store_with busy_session) busy_session 205).1
      "main"
      "alice"
      210).1
    ≡ ok (consume 210 (idle_at 205 busy_session))
resume-baton_example =
    resume-baton toy_mac (store_with busy_session) busy_session 205 210 toy_mac-length toy_mac-bytes
      refl sample_id-bytes (omega arith) (found busy_session) (omega arith, omega arith)

one_session : (s : Session) → Distinct (store_with s).sessions
unfolding lookup
one_session s = (refl, tt)

busy-kept_example :
    (lookup sample_id (reap (store_with busy_session) 900).sessions ≡ some busy_session)
    × (lookup sample_id (kill (store_with busy_session) (Base64.encode sample_id)).0.sessions
        ≡ some busy_session)
    × (lookup sample_id (close_all (store_with busy_session)).sessions ≡ some busy_session)
busy-kept_example =
    busy-kept (store_with busy_session) sample_id busy_session 900 (Base64.encode sample_id)
      (one_session busy_session) (found busy_session) refl

-- Two opens begin, and one of them publishes its session.
abbrev request : Request
request = record {
  db_name = "main";
  release = 1;
  principal = "alice";
  read_only = false;
  allow_attach = true;
}

abbrev begun : World
begun = record {
  store = record (new_store (5 ∷ []) (pos 60) (pos 300) (pos 2)) { per_db = ("main", 1) ∷ [] };
  waiting = raised "main" (λ db. 0);
}

abbrev published : World
published = record {
  store = (finish_open begun.store request 1 (some sample_id) 100).0;
  waiting = lowered "main" begun.waiting;
}

opened : Steps toy_mac (fresh_world (5 ∷ []) (pos 60) (pos 300) (pos 2)) 2 published
unfolding reserve lookup_or lookup insert new_store
opened =
    next (next here (begins "main" begun.store refl refl))
      (publishes request 1 sample_id 100 (omega arith) refl refl)

slots-Steps_example :
    (slots published.store "main" ≡ live published.store "main" + published.waiting "main")
    × (live published.store "main" + published.waiting "main" ≤ published.store.max)
slots-Steps_example =
    slots-Steps toy_mac (5 ∷ []) (pos 60) (pos 300) (pos 2) 2 published "main" opened

abbrev resumed : Store
resumed = (resume toy_mac (store_with idle_session) sample_baton "main" "alice" 210).0

accepted :
    (resume toy_mac (store_with idle_session) sample_baton "main" "alice" 210).1
    ≡ ok (consume 210 idle_session)
unfolding baton mint idle_at adjust
accepted =
    resume-baton toy_mac (store_with busy_session) busy_session 200 210 toy_mac-length toy_mac-bytes
      refl sample_id-bytes (omega arith) (found busy_session) (omega arith, omega arith)

abbrev answered : World
answered = record {
  store = (baton toy_mac resumed (consume 210 idle_session) 220).0;
  waiting = λ db. 0;
}

after_answer :
    StepsWithout toy_mac sample_id (record { store = resumed; waiting = λ db. 0 }) 1 answered
after_answer = and_then none_yet (finishes (consume 210 idle_session) 220 refl) (λ h. h)

replay-refused_example :
    resume toy_mac answered.store sample_baton "main" "alice" 230 ≡ (answered.store, err bad_baton)
replay-refused_example =
    replay-refused toy_mac (store_with idle_session) (λ db. 0) sample_baton "main" "alice" 210
      (consume 210 idle_session) sample_id 9 1 answered "main" "alice" 230 accepted
      verify-mint_example after_answer (omega arith)
