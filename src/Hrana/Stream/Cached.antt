-- ===== src/Hrana/Stream/Cached.antt =====
-- The texts that a stream caches under numbers: store_sql, sql_id and close_sql.
use quicsql.Prelude.{◌≡◌, ◌≢◌, refl, String, ◌==◌, none, some, arith, ◌∙◌, [], if◌then◌else◌}
use quicsql.Prelude.Map.{lookup-insert, lookup-delete}
use quicsql.Prelude.Int.{ℤ, int_eq}
use quicsql.Prelude.Result.{ok, err}
use quicsql.Session.Store.{Session, store_sql, lookup_sql, drop_sql}
use quicsql.Hrana.Stream.{
  protocol_error, StreamRequest, StreamResult, ok_stream, error_stream, simple, Driver, resolve_sql,
  run_stream_request, store, drop_stored,
}

abbrev pub store_request : {V B : Type 0} → ℤ → String → StreamRequest V B
store_request id text = record {
  kind = "store_sql";
  stmt = none;
  batch = none;
  sql = some text;
  sql_id = some id;
  tables = [];
}

abbrev pub close_request : {V B : Type 0} → ℤ → StreamRequest V B
close_request id = record {
  kind = "close_sql";
  stmt = none;
  batch = none;
  sql = none;
  sql_id = some id;
  tables = [];
}

lookup_sql-store_sql :
    (s : Session) (id j : ℤ) (text : String)
    → lookup_sql (store_sql s id text) j ≡ (if id == j then some text else lookup_sql s j)
unfolding lookup_sql store_sql
lookup_sql-store_sql s id j text = lookup-insert id j text s.sql

lookup_sql-drop_sql :
    (s : Session) (id j : ℤ)
    → lookup_sql (drop_sql s id) j ≡ (if id == j then none else lookup_sql s j)
unfolding lookup_sql drop_sql
lookup_sql-drop_sql s id j = lookup-delete id j s.sql

resolve_sql-some :
    (s : Session) (id : ℤ) (text : String)
    → lookup_sql s id ≡ some text
    → resolve_sql s none (some id) ≡ ok text
unfolding resolve_sql
resolve_sql-some s id text h = rw (resolve_sql, h) refl

resolve_sql-none :
    (s : Session) (id : ℤ)
    → lookup_sql s id ≡ none
    → resolve_sql s none (some id) ≡ err (protocol_error "unknown sql_id")
unfolding resolve_sql
resolve_sql-none s id h = rw (resolve_sql, h) refl

resolve_sql-same :
    (s t : Session) (id : ℤ)
    → lookup_sql t id ≡ lookup_sql s id
    → resolve_sql t none (some id) ≡ resolve_sql s none (some id)
unfolding resolve_sql
resolve_sql-same s t id h = rw (resolve_sql, h) refl

module _ {C V B BR DR : Type 0} (d : Driver C V B BR DR) where
  -- The session after a request.
  abbrev pub after : C → Session → StreamRequest V B → Session
  after c s sr = (run_stream_request d c s sr).0.1

  -- What is answered to a request.
  abbrev pub reply : C → Session → StreamRequest V B → StreamResult V BR DR
  reply c s sr = (run_stream_request d c s sr).0.2

  after-free :
      (c : C) (s : Session) (id : ℤ) (text : String)
      → lookup_sql s id ≡ none
      → after c s (store_request id text) ≡ store_sql s id text
  unfolding run_stream_request store
  after-free c s id text free = rw (after, run_stream_request, store, free) refl

  after-taken :
      (c : C) (s : Session) (id : ℤ) (text old : String)
      → lookup_sql s id ≡ some old
      → after c s (store_request id text) ≡ s
  unfolding run_stream_request store
  after-taken c s id text old taken = rw (after, run_stream_request, store, taken) refl

  reply-free :
      (c : C) (s : Session) (id : ℤ) (text : String)
      → lookup_sql s id ≡ none
      → reply c s (store_request id text) ≡ ok_stream (simple "store_sql")
  unfolding run_stream_request store
  reply-free c s id text free = rw (reply, run_stream_request, store, free) refl

  reply-taken :
      (c : C) (s : Session) (id : ℤ) (text old : String)
      → lookup_sql s id ≡ some old
      → reply c s (store_request id text)
        ≡ error_stream (record { message = "sql_id already in use"; code = none })
  unfolding run_stream_request store
  reply-taken c s id text old taken = rw (reply, run_stream_request, store, taken) refl

  after-close : (c : C) (s : Session) (id : ℤ) → after c s (close_request id) ≡ drop_sql s id
  unfolding run_stream_request drop_stored
  after-close c s id = refl

  -- A text that is stored under a free number is confirmed and is what that number stands for in the
  -- next request; a second text under the number is answered with an error and changes nothing;
  -- once the number is closed it stands for nothing. What any other number stands for is the same
  -- after the storing and after the closing.
  pub after-resolve_sql :
      (c : C) (s : Session) (id other : ℤ) (text text' : String)
      → lookup_sql s id ≡ none
      → other ≢ id
      → let s' = after c s (store_request id text) in
        let s'' = after c s' (close_request id) in
        (reply c s (store_request id text) ≡ ok_stream (simple "store_sql"))
        × (resolve_sql s' none (some id) ≡ ok text)
        × (reply c s' (store_request id text')
            ≡ error_stream (record { message = "sql_id already in use"; code = none }))
        × (after c s' (store_request id text') ≡ s')
        × (resolve_sql s'' none (some id) ≡ err (protocol_error "unknown sql_id"))
        × (resolve_sql s' none (some other) ≡ resolve_sql s none (some other))
        × (resolve_sql s'' none (some other) ≡ resolve_sql s none (some other))
  after-resolve_sql c s id other text text' free apart =
      let stored : lookup_sql (store_sql s id text) id ≡ some text =
        lookup_sql-store_sql s id id text ∙ ground (arith, int_eq.beq_iff id id) in
      let kept : lookup_sql (store_sql s id text) other ≡ lookup_sql s other =
        lookup_sql-store_sql s id other text ∙ ground (arith, int_eq.beq_iff id other) in
      rw (after-free c s id text free, after-close c (store_sql s id text) id)
        (
          reply-free c s id text free,
          resolve_sql-some _ id text stored,
          reply-taken c (store_sql s id text) id text' text stored,
          after-taken c (store_sql s id text) id text' text stored,
          resolve_sql-none _ id (
              lookup_sql-drop_sql (store_sql s id text) id id
              ∙ ground (arith, int_eq.beq_iff id id)),
          resolve_sql-same s (store_sql s id text) other kept,
          resolve_sql-same s (drop_sql (store_sql s id text) id) other (
              lookup_sql-drop_sql (store_sql s id text) id other
              ∙ (ground (arith, int_eq.beq_iff id other) ∙ kept)),
        )
