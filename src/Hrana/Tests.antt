-- ===== src/Hrana/Tests.antt =====
-- Conditions on small examples.
use quicsql.Prelude.{ℕ, ◌≡◌, refl, String, true, false, [], ◌∷◌, none, some}
use quicsql.Prelude.{arith}
use quicsql.Prelude.Map.{lookup}
use quicsql.Prelude.Int.{pos, int_eq}
use quicsql.Prelude.Result.{ok, err}
use quicsql.Session.Store.{Session, lookup_sql}
use quicsql.Hrana.Stream.{ok_stream, simple, error_stream, Driver, protocol_error, resolve_sql}
use quicsql.Hrana.Stream.Cached.{after, reply, store_request, close_request, after-resolve_sql}
use quicsql.Hrana.Condition.{Cond, cond, absent, present, nil, cons, Seen, eval_cond}
use quicsql.Hrana.Condition.Meaning.{InRange, holds, eval_cond-meaning}

-- The first step of two has a result and the second an error.
abbrev half_done : Seen ℕ String
half_done = record { results = some 3 ∷ none ∷ []; errs = none ∷ some "busy" ∷ []; ac = false }

abbrev second_ok : Cond
second_ok = cond "ok" (some (pos 1)) absent nil

abbrev first_but_not_second : Cond
first_but_not_second = cond "and" none absent (
    cons (cond "ok" (some (pos 0)) absent nil) (cons (cond "not" none (present second_ok) nil) nil))

eval_cond-meaning_example : eval_cond half_done first_but_not_second ≡ some true
unfolding holds InRange
eval_cond-meaning_example =
    eval_cond-meaning half_done first_but_not_second
      (tt, tt, ((tt, tt, tt), ((tt, (tt, tt, tt), tt), tt)))

-- A connection that answers everything with nothing.
abbrev idle_driver : Driver ℕ ℕ ℕ ℕ ℕ
idle_driver = record {
  run = λ c st. (
    c,
    ok (record {
      columns = [];
      rows = [];
      rows_affected = pos 0;
      last_insert_id = pos 0;
      truncated = false;
    }),
  );
  script = λ c text. (c, none);
  describe = λ c text. (c, ok 0);
  run_batch = λ c s b. (c, 0);
  autocommit = λ c. true;
  capture = λ c tables. (c, ok 1);
  changeset = λ c h. (c, ok []);
}

abbrev stream_session : Session
stream_session = record {
  id = [];
  gen = 1;
  conn = 1;
  release = none;
  db_name = "main";
  principal = "alice";
  read_only = false;
  attach = false;
  created = 0;
  last_used = 0;
  busy = true;
  sql = (pos 2, "SELECT 2") ∷ [];
  capture = none;
}

after-resolve_sql_example :
    let s = after idle_driver 0 stream_session (store_request (pos 1) "SELECT 1") in
    let t = after idle_driver 0 s (close_request (pos 1)) in
    (reply idle_driver 0 stream_session (store_request (pos 1) "SELECT 1")
      ≡ ok_stream (simple "store_sql"))
    × (resolve_sql s none (some (pos 1)) ≡ ok "SELECT 1")
    × (reply idle_driver 0 s (store_request (pos 1) "SELECT 3")
        ≡ error_stream (record { message = "sql_id already in use"; code = none }))
    × (after idle_driver 0 s (store_request (pos 1) "SELECT 3") ≡ s)
    × (resolve_sql t none (some (pos 1)) ≡ err (protocol_error "unknown sql_id"))
    × (resolve_sql s none (some (pos 2)) ≡ resolve_sql stream_session none (some (pos 2)))
    × (resolve_sql t none (some (pos 2)) ≡ resolve_sql stream_session none (some (pos 2)))
unfolding lookup_sql lookup
after-resolve_sql_example =
    after-resolve_sql idle_driver 0 stream_session (pos 1) (pos 2) "SELECT 1" "SELECT 3" refl
      (λ h. ground (arith, int_eq.beq_iff (pos 2) (pos 1)))
