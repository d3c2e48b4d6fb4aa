-- ===== src/Hrana/Stream.antt =====
-- httpapi/hrana.go, one request of a pipeline: runStreamRequest with resolveSQL, stmtFromHrana,
-- toHStmtResult, hErrorFrom and execStmt. The connection is a state; running statements and scripts,
-- preparing one for describe, capturing changes and the batch loop are parameters on it. The
-- session is the record of the session store; a capture handle is read and closed by `changeset`.
-- An error is the first case of hErrorFrom's switch that it meets.
pub mod Cached
use Prim.Native.String.{◌++◌}
use quicsql.Prelude.{
  ℕ, String, Bool, true, false, not, ◌==◌, nat_eq, string_eq, ltb, if◌then◌else◌, List, [], ◌∷◌,
  Option, none, some, length, map,
}
use quicsql.Prelude.Map.{lookup}
use quicsql.Prelude.Int.{ℤ, pos, int_eq}
use quicsql.Prelude.Result.{Result, ok, err}
use quicsql.Session.Store.{Session, store_sql, lookup_sql, drop_sql, set_capture, take_capture}
use quicsql.Wire.Codes.{extended_code_name}
use mathlib.Core.Option

pub data ExecError : Type 0 where
  protocol_error denied : String → ExecError
  engine_error : String → ℕ → ExecError
  timed_out other_error : ExecError

pub record HError : Type 0 where
  pub message : String
  pub code : Option String

unfoldable pub h_error_from : ExecError → HError
h_error_from (protocol_error msg) = record { message = msg; code = none }
h_error_from (denied msg) = record { message = msg; code = none }
h_error_from (engine_error msg extended) = record {
  message = msg;
  code = some (extended_code_name extended);
}
h_error_from timed_out = record { message = "statement timed out"; code = none }
h_error_from other_error = record { message = "internal error"; code = none }

unfoldable pub resolve_sql : Session → Option String → Option ℤ → Result ExecError String
resolve_sql s (some text) id = ok text
resolve_sql s none none = err (protocol_error "request has neither sql nor sql_id")
resolve_sql s none (some id) = elim (lookup_sql s id) [
  | none ↦ err (protocol_error "unknown sql_id")
  | some text ↦ ok text
]

pub record HStmt (V : Type 0) : Type 0 where
  pub sql : Option String
  pub sql_id : Option ℤ
  pub args : List V
  pub named_args : List (String × V)
  pub want_rows : Option Bool

pub record Statement (V : Type 0) : Type 0 where
  pub sql : String
  pub args : List V
  pub named : List (String × V)
  pub allow_attach : Bool

pub record EngineResult (V : Type 0) : Type 0 where
  pub columns : List String
  pub rows : List (List V)
  pub rows_affected : ℤ
  pub last_insert_id : ℤ
  pub truncated : Bool

-- The row id is printed in decimal; the number stands for its text.
pub record HStmtResult (V : Type 0) : Type 0 where
  pub cols : List (Option String)
  pub rows : List (List V)
  pub affected_row_count : ℤ
  pub last_insert_rowid : Option ℤ
  pub truncated : Bool

unfoldable pub stmt_from_hrana : {V : Type 0} → String → HStmt V → Statement V
stmt_from_hrana text st =
    if ltb 0 (length st.named_args)
    then record { sql = text; args = []; named = st.named_args; allow_attach = false }
    else record { sql = text; args = st.args; named = []; allow_attach = false }

unfoldable pub to_hstmt_result : {V : Type 0} → EngineResult V → Option Bool → HStmtResult V
to_hstmt_result res want_rows = record {
  cols = map (λ name. some name) res.columns;
  rows = if (elim want_rows [ none ↦ true | some b ↦ b ]) then res.rows else [];
  affected_row_count = res.rows_affected;
  last_insert_rowid = if res.last_insert_id == pos 0 then none else some res.last_insert_id;
  truncated = res.truncated;
}

pub record StreamRequest (V B : Type 0) : Type 0 where
  pub kind : String
  pub stmt : Option (HStmt V)
  pub batch : Option B
  pub sql : Option String
  pub sql_id : Option ℤ
  pub tables : List String

pub data Response (V BR DR : Type 0) : Type 0 where
  executed : HStmtResult V → Response V BR DR
  batched : BR → Response V BR DR
  described : DR → Response V BR DR
  autocommit_is : Bool → Response V BR DR
  changeset_is : List ℕ → Response V BR DR
  simple : String → Response V BR DR

pub data StreamResult (V BR DR : Type 0) : Type 0 where
  ok_stream : Response V BR DR → StreamResult V BR DR
  error_stream : HError → StreamResult V BR DR

-- What a request does to the connection and to the capture handles on it.
pub record Driver (C V B BR DR : Type 0) : Type 0 where
  pub run : C → Statement V → C × Result ExecError (EngineResult V)
  pub script : C → String → C × Option ExecError
  pub describe : C → String → C × Result ExecError DR
  pub run_batch : C → Session → B → C × BR
  pub autocommit : C → Bool
  pub capture : C → List String → C × Result ExecError ℕ
  pub changeset : C → ℕ → C × Result ExecError (List ℕ)

module _ {C V B BR DR : Type 0} (d : Driver C V B BR DR) where
  abbrev pub failed : ExecError → StreamResult V BR DR
  failed e = error_stream (h_error_from e)

  abbrev pub err_stream : String → StreamResult V BR DR
  err_stream msg = error_stream (record { message = msg; code = none })

  unfoldable pub exec_stmt : C → Session → HStmt V → C × Result ExecError (HStmtResult V)
  unfolding stmt_from_hrana
  exec_stmt c s st = elim (resolve_sql s st.sql st.sql_id) [
    | err e ↦ (c, err e)
    | ok text ↦
        let answer = d.run c (record (stmt_from_hrana text st) { allow_attach = s.attach }) in
        (answer.0, elim answer.1 [ err e ↦ err e | ok res ↦ ok (to_hstmt_result res st.want_rows) ])
  ]

  unfoldable pub execute : C → Session → Option (HStmt V) → C × Session × StreamResult V BR DR
  execute c s none = (c, s, err_stream "execute requires a stmt")
  execute c s (some st) =
      let answer = exec_stmt c s st in
      (answer.0, s, elim answer.1 [ err e ↦ failed e | ok res ↦ ok_stream (executed res) ])

  unfoldable pub execute_batch : C → Session → Option B → C × Session × StreamResult V BR DR
  execute_batch c s none = (c, s, err_stream "batch requires a batch")
  execute_batch c s (some b) =
      let answer = d.run_batch c s b in (answer.0, s, ok_stream (batched answer.1))

  unfoldable pub sequence :
      C → Session → Result ExecError String → C × Session × StreamResult V BR DR
  sequence c s (err e) = (c, s, failed e)
  sequence c s (ok text) =
      let answer = d.script c text in
      (answer.0, s, elim answer.1 [ some e ↦ failed e | none ↦ ok_stream (simple "sequence") ])

  unfoldable pub describe_sql :
      C → Session → Result ExecError String → C × Session × StreamResult V BR DR
  describe_sql c s (err e) = (c, s, failed e)
  describe_sql c s (ok text) =
      let answer = d.describe c text in
      (answer.0, s, elim answer.1 [ err e ↦ failed e | ok res ↦ ok_stream (described res) ])

  unfoldable pub store : C → Session → Option ℤ → Option String → C × Session × StreamResult V BR DR
  store c s (some id) (some text) = elim (lookup_sql s id) [
    | some other ↦ (c, s, err_stream "sql_id already in use")
    | none ↦ (c, store_sql s id text, ok_stream (simple "store_sql"))
  ]
  store c s _ _ = (c, s, err_stream "store_sql requires sql_id and sql")

  unfoldable pub drop_stored : C → Session → Option ℤ → C × Session × StreamResult V BR DR
  drop_stored c s none = (c, s, ok_stream (simple "close_sql"))
  drop_stored c s (some id) = (c, drop_sql s id, ok_stream (simple "close_sql"))

  unfoldable pub start_capture : C → Session → List String → C × Session × StreamResult V BR DR
  start_capture c s tables = elim s.capture [
    | some open_one ↦
        (c, s, failed (protocol_error "a capture session is already open on this stream"))
    | none ↦
        let answer = d.capture c tables in
        elim answer.1 [
          | err e ↦ (answer.0, s, failed e)
          | ok handle ↦ (answer.0, set_capture s (some handle), ok_stream (simple "session_start"))
        ]
  ]

  unfoldable pub capture_changeset : C → Session → C × Session × StreamResult V BR DR
  capture_changeset c s =
      let taken = take_capture s in
      elim taken.1 [
        | none ↦ (
          c,
          taken.0,
          failed (protocol_error "no capture session open (send session_start first)"),
        )
        | some handle ↦
            let answer = d.changeset c handle in
            (
              answer.0,
              taken.0,
              elim answer.1 [ err e ↦ failed e | ok bytes ↦ ok_stream (changeset_is bytes) ],
            )
      ]

  -- The result and whether the stream is closed.
  unfoldable pub run_stream_request :
      C → Session → StreamRequest V B → (C × Session × StreamResult V BR DR) × Bool
  run_stream_request c s sr =
      if sr.kind == "execute"
      then (execute c s sr.stmt, false)
      else if sr.kind == "batch"
      then (execute_batch c s sr.batch, false)
      else if sr.kind == "sequence"
      then (sequence c s (resolve_sql s sr.sql sr.sql_id), false)
      else if sr.kind == "describe"
      then (describe_sql c s (resolve_sql s sr.sql sr.sql_id), false)
      else if sr.kind == "store_sql"
      then (store c s sr.sql_id sr.sql, false)
      else if sr.kind == "close_sql"
      then (drop_stored c s sr.sql_id, false)
      else if sr.kind == "get_autocommit"
      then ((c, s, ok_stream (autocommit_is (d.autocommit c))), false)
      else if sr.kind == "session_start"
      then (start_capture c s sr.tables, false)
      else if sr.kind == "session_changeset"
      then (capture_changeset c s, false)
      else if sr.kind == "close"
      then ((c, s, ok_stream (simple "close")), true)
      else ((c, s, err_stream ("unknown request type: " ++ sr.kind)), false)
