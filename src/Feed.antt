-- ===== src/Feed.antt =====
-- feed/feed.go: committed row changes, numbered, kept in a ring for late subscribers and sent to
-- live ones.
mod Tests
pub mod Ring
pub mod Transaction
pub mod Broker
use quicsql.Prelude.{ℕ, String, Bool, false, true}
use quicsql.Prelude.Int.{ℤ, pos}

pub record Event : Type 0 where
  pub seq : ℕ
  pub table : String
  pub op : String
  pub rowid : ℤ
  pub reset : Bool

-- `Event{Reset: true}`.
abbrev pub reset_event : Event
reset_event = record { seq = 0; table = ""; op = ""; rowid = pos 0; reset = true }
