-- ===== src/Feed/Broker.antt =====
-- feed/feed.go, Broker: which database has which feed. Two maps share the feeds through pointers,
-- which are keys of `feeds` here. `canonical` stands for the resolution of a path on the file
-- system.
use quicsql.Prelude.{
  ℕ, suc, ◌≡◌, refl, String, Bool, true, false, ◌==◌, nat_eq, string_eq, if◌then◌else◌, [], ◌∷◌,
  Option, none, some, arith, ltb, ◌≢◌,
}
use quicsql.Prelude.Map.{
  Map, lookup, insert, delete, adjust, Distinct, lookup-delete, lookup-adjust,
}
use mathlib.Core.Option
use quicsql.Feed.{Event}
use quicsql.Feed.Ring.{DbFeed, new_feed, close_all}

pub record Broker : Type 0 where
  pub buffer : ℕ
  pub max_subs : ℕ
  pub by_path : Map String ℕ
  pub by_name : Map String ℕ
  pub feeds : Map ℕ DbFeed
  pub fresh : ℕ

-- `New`: a ring has at least one slot.
unfoldable pub new_broker : ℕ → ℕ → Broker
new_broker buffer max_subs = record {
  buffer = if ltb buffer 1 then 1 else buffer;
  max_subs = max_subs;
  by_path = [];
  by_name = [];
  feeds = [];
  fresh = 0;
}

unfoldable pub register : (String → String) → Broker → String → String → Event → Broker
register canonical b name path zero_event = if path == "" then b else record b {
  by_path = insert (canonical path) b.fresh b.by_path;
  by_name = insert name b.fresh b.by_name;
  feeds = insert b.fresh (new_feed name b.buffer zero_event) b.feeds;
  fresh = suc b.fresh;
}

unfoldable pub without_feed : ℕ → Map String ℕ → Map String ℕ
without_feed f [] = []
without_feed f ((p, pf) ∷ rest) =
    let others = without_feed f rest in if pf == f then others else (p, pf) ∷ others

unfoldable pub forget : Broker → String → Broker
unfolding without_feed
forget b name = elim (lookup name b.by_name) [
  | none ↦ record b { by_name = delete name b.by_name }
  | some f ↦ record b {
    by_name = delete name b.by_name;
    by_path = without_feed f b.by_path;
    feeds = adjust f close_all b.feeds;
  }
]

-- The feed that a new connection to a file reports to.
unfoldable pub feed_of : (String → String) → Broker → String → Option ℕ
feed_of canonical b filename =
    if filename == "" then none else lookup (canonical filename) b.by_path

unfoldable pub observed : Broker → String → Bool
observed b db = elim (lookup db b.by_name) [ none ↦ false | some f ↦ true ]

abbrev pub unless : ℕ → Option ℕ → Option ℕ
unless f none = none
unless f (some g) = if g == f then none else some g

lookup-without_feed :
    (f : ℕ) (m : Map String ℕ) (p : String)
    → Distinct m
    → lookup p (without_feed f m) ≡ unless f (lookup p m)
unfolding lookup without_feed
lookup-without_feed f [] p d = refl
lookup-without_feed f ((k, g) ∷ m) p d =
    ground (arith, string_eq.beq_iff k p, nat_eq.beq_iff g f, lookup-without_feed f m p d.1)

-- Forgetting a database that has a feed: the name is observed no more, no file reports to that feed
-- any longer and every other file reports where it did, other names keep their feeds, and the feed
-- has let all its subscribers go.
pub forget-unreachable :
    (canonical : String → String) (b : Broker) (name : String) (f : ℕ) (file other : String)
    → Distinct b.by_path
    → lookup name b.by_name ≡ some f
    → other ≢ name
    → (observed (forget b name) name ≡ false)
      × (feed_of canonical (forget b name) file ≡ unless f (feed_of canonical b file))
      × (observed (forget b name) other ≡ observed b other)
      × (lookup f (forget b name).feeds ≡ Option.map close_all (lookup f b.feeds))
unfolding observed feed_of forget
forget-unreachable canonical b name f file other d e apart = (
  rw (forget, e) (ground (arith, lookup-delete name name b.by_name, string_eq.beq_iff name name)),
  rw (forget, e) (ground (arith, lookup-without_feed f b.by_path (canonical file) d)),
  rw (forget, e) (ground (arith, lookup-delete name other b.by_name, string_eq.beq_iff name other)),
  rw (forget, e) (ground (arith, lookup-adjust f f close_all b.feeds, nat_eq.beq_iff f f)),
)
