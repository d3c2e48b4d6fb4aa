-- ===== src/Feed/Ring.antt =====
-- feed/feed.go, dbFeed: the sequence number, the ring and the attached subscribers of a database.
-- `queue` is what a subscriber's channel holds, and `taken` what its consumer has read from it;
-- `dropped` are the subscribers whose channel was closed. The mutex makes each method one step.
pub mod Log
pub mod Delivery
pub mod Lives
pub mod Replaying
use quicsql.Prelude.{
  ℕ, zero, suc, ◌+◌, ◌-◌, ◌%◌, Bool, true, false, ◌&&◌, ◌||◌, ◌==◌, nat_eq, ltb, leb, if◌then◌else◌,
  List, [], ◌∷◌, ◌++◌, Option, none, some, length, get_elem?, set, String, replicate,
}
use quicsql.Encoding.BigEndian.{word}
use quicsql.Feed.{Event, reset_event}

abbrev pub subscriber_buf : ℕ
subscriber_buf = 256

pub record Subscriber : Type 0 where
  pub id : ℕ
  pub taken : List Event
  pub queue : List Event

pub record DbFeed : Type 0 where
  pub name : String
  pub cap : ℕ
  pub seq : ℕ
  pub ring : List Event
  pub subs : List Subscriber
  pub dropped : List Subscriber

unfoldable pub new_feed : String → ℕ → Event → DbFeed
new_feed name cap zero_event = record {
  name = name;
  cap = cap;
  seq = 0;
  ring = replicate cap zero_event;
  subs = [];
  dropped = [];
}

unfoldable pub retained : DbFeed → ℕ
retained f = if ltb f.seq f.cap then f.seq else f.cap

-- The send of one event to every subscriber: what is still attached, and what is let go because
-- its channel is full.
unfoldable pub deliver : Event → List Subscriber → List Subscriber
deliver e [] = []
deliver e (s ∷ rest) =
    let others = deliver e rest in
    if ltb (length s.queue) subscriber_buf
    then record s { queue = s.queue ++ (e ∷ []) } ∷ others
    else others

unfoldable pub overrun : List Subscriber → List Subscriber
overrun [] = []
overrun (s ∷ rest) =
    let others = overrun rest in if ltb (length s.queue) subscriber_buf then others else s ∷ others

unfoldable pub publish_one : DbFeed → Event → DbFeed
publish_one f e =
    let seq = (f.seq + 1) % word in
    let stamped = record e { seq = seq } in
    record f {
      seq = seq;
      ring = set f.ring ((seq + word - 1) % word % f.cap) stamped;
      subs = deliver stamped f.subs;
      dropped = overrun f.subs ++ f.dropped;
    }

unfoldable pub publish : DbFeed → List Event → DbFeed
publish f [] = f
publish f (e ∷ es) = publish (publish_one f e) es

-- The slots of `n` sequence numbers from `sq` on; `none` is an index out of range.
unfoldable pub replay_from : List Event → ℕ → ℕ → ℕ → Option (List Event)
replay_from ring cap sq zero = some []
replay_from ring cap sq (suc n) =
    let rest = replay_from ring cap (sq + 1) n in
    elim (get_elem? ring ((sq - 1) % cap)) [
      | none ↦ none
      | some e ↦ elim rest [ none ↦ none | some es ↦ some (e ∷ es) ]
    ]

pub record Attached : Type 0 where
  pub replay : List Event
  pub reset : Bool
  pub seq : ℕ

pub data Subscription : Type 0 where
  full : ℕ → Subscription
  attached : Attached → Subscription

-- The case of a sequence number that the feed has passed.
unfoldable pub buffered : DbFeed → ℕ → Option (List Event × Bool)
unfolding retained
buffered f since =
    if ltb (since + 1) (f.seq - retained f + 1)
    then some ([], true)
    else elim (replay_from f.ring f.cap (since + 1) (f.seq - since)) [
      | none ↦ none
      | some es ↦ some (es, false)
    ]

-- What a subscriber who has seen everything up to `since` is given to catch up, and whether its
-- world is stale.
unfoldable pub catch_up : DbFeed → ℕ → Option (List Event × Bool)
catch_up f since =
    if ltb f.seq since
    then some ([], true)
    else if ltb 0 since && ltb since f.seq
    then buffered f since
    else some ([], false)

-- `id` names the new channel. A cap of 0 is no cap.
unfoldable pub subscribe : DbFeed → ℕ → ℕ → ℕ → Option (DbFeed × Subscription)
subscribe f since max_subs id =
    if ltb 0 max_subs && leb max_subs (length f.subs)
    then some (f, full f.seq)
    else elim (catch_up f since) [
      | none ↦ none
      | some (es, stale) ↦ some (
        record f { subs = f.subs ++ (record { id = id; taken = []; queue = [] } ∷ []) },
        attached (record { replay = es; reset = stale; seq = f.seq }),
      )
    ]

pub remove_sub : ℕ → List Subscriber → List Subscriber
remove_sub id [] = []
remove_sub id (s ∷ rest) =
    let others = remove_sub id rest in if s.id == id then others else s ∷ others

pub kept_sub : ℕ → List Subscriber → List Subscriber
kept_sub id [] = []
kept_sub id (s ∷ rest) = let others = kept_sub id rest in if s.id == id then s ∷ others else others

unfoldable pub unsubscribe : DbFeed → ℕ → DbFeed
unfolding remove_sub kept_sub
unsubscribe f id = record f {
  subs = remove_sub id f.subs;
  dropped = kept_sub id f.subs ++ f.dropped;
}

unfoldable pub close_all : DbFeed → DbFeed
close_all f = record f { subs = []; dropped = f.subs ++ f.dropped }

-- A consumer takes the oldest event from its channel.
pub take_front : List Event → Subscriber → Subscriber
take_front [] s = s
take_front (e ∷ es) s = record s { taken = s.taken ++ (e ∷ []); queue = es }

pub receive_among : ℕ → List Subscriber → List Subscriber
unfolding take_front
receive_among id [] = []
receive_among id (s ∷ rest) =
    (if s.id == id then take_front s.queue s else s) ∷ receive_among id rest

unfoldable pub receive : DbFeed → ℕ → DbFeed
unfolding receive_among
receive f id = record f { subs = receive_among id f.subs }
