-- ===== src/Feed/Transaction.antt =====
-- feed/feed.go, the hooks that Install puts on a connection: row changes gather until the commit
-- publishes them, at most `max_pending`; a rollback drops them.
pub mod Commit
use quicsql.Prelude.{
  ℕ, ◌≡◌, String, Bool, true, false, ◌==◌, nat_eq, leb, ltb, if◌then◌else◌, List, [], ◌∷◌, ◌++◌,
  Option, none, some, length,
}
use quicsql.Prelude.Int.{ℤ}
use quicsql.Feed.{Event, reset_event}
use quicsql.Feed.Ring.{DbFeed, publish}

abbrev pub op_insert : ℕ
op_insert = 18

abbrev pub op_update : ℕ
op_update = 23

abbrev pub op_delete : ℕ
op_delete = 9

abbrev pub max_pending : ℕ
max_pending = 8192

-- What SQLite tells the hook of a row.
pub record PreUpdate : Type 0 where
  pub op : ℕ
  pub table_name : String
  pub old_row_id : ℤ
  pub new_row_id : ℤ

-- The variables that the three hooks of a connection share.
pub record Buffer : Type 0 where
  pub pending : List Event
  pub overflow : Bool

abbrev pub empty_buffer : Buffer
empty_buffer = record { pending = []; overflow = false }

change : PreUpdate → String → ℤ → Event
change d op rowid = record reset_event {
  table = d.table_name;
  op = op;
  rowid = rowid;
  reset = false;
}

-- The event of a row change; `none` for an operation that is not observed.
unfoldable pub event_of : PreUpdate → Option Event
unfolding change
event_of d =
    if d.op == op_insert
    then some (change d "insert" d.new_row_id)
    else if d.op == op_update
    then some (change d "update" d.new_row_id)
    else if d.op == op_delete
    then some (change d "delete" d.old_row_id)
    else none

unfoldable pub pre_update : Buffer → PreUpdate → Buffer
pre_update b d = if b.overflow then b else elim (event_of d) [
  | none ↦ b
  | some e ↦
      if leb max_pending (length b.pending)
      then record { pending = []; overflow = true }
      else record b { pending = b.pending ++ (e ∷ []) }
]

unfoldable pub pre_updates : Buffer → List PreUpdate → Buffer
pre_updates b [] = b
pre_updates b (d ∷ ds) = pre_updates (pre_update b d) ds

unfoldable pub commit : DbFeed → Buffer → DbFeed × Buffer
commit f b = (
  if b.overflow
      then publish f (reset_event ∷ [])
      else if ltb 0 (length b.pending)
      then publish f b.pending
      else f,
  empty_buffer,
)

unfoldable pub rollback : Buffer → Buffer
rollback b = empty_buffer
