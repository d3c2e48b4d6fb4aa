-- ===== src/Feed/Ring/Replaying.antt =====
-- What a new subscriber gets, whatever has happened to the feed.
use quicsql.Prelude.{ℕ, ◌≡◌, refl, List, [], ◌∷◌, ◌++◌, some, length, ltb, leb, if◌then◌else◌, ◌&&◌}
use quicsql.Feed.{Event}
use quicsql.Feed.Ring.{DbFeed, full, attached, subscribe}
use quicsql.Feed.Ring.Log.{owed, catch_up-owed}
use quicsql.Feed.Ring.Lives.{Life, Life-Holds}

-- In every life of a feed: a subscriber under the cap is attached behind the others, is told the
-- number of events so far, and is given exactly what it is owed: all events after its number, in
-- order, when the ring still has them; nothing and a reset when its number is ahead of the feed or
-- its rest has left the ring; nothing and no reset when it starts afresh. When as many subscribers
-- as a positive cap are attached, it is turned away and the feed stays as it was.
pub subscribe-owed :
    (f : DbFeed) (log : List Event) (start : ℕ → ℕ) (since max_subs id : ℕ)
    → Life f log start
    → let o = owed f.cap log since in
      subscribe f since max_subs id ≡ (
        if ltb 0 max_subs && leb max_subs (length f.subs)
        then some (f, full (length log))
        else some (
          record f { subs = f.subs ++ (record { id = id; taken = []; queue = [] } ∷ []) },
          attached (record { replay = o.0; reset = o.1; seq = length log }),
        ))
unfolding subscribe
subscribe-owed f log start since max_subs id life =
    let h = Life-Holds life in rw (catch_up-owed f log since h, ← h.numbered) refl
