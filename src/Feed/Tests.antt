-- ===== src/Feed/Tests.antt =====
-- The feed on small examples.
use quicsql.Prelude.{
  ℕ, ◌≡◌, refl, false, List, [], ◌∷◌, ◌++◌, some, length, drop, All, ◌&&◌, arith, string_eq, nat_eq,
  if◌then◌else◌, leb, ltb,
}
use quicsql.Prelude.Int.{pos}
use quicsql.Feed.{Event, reset_event}
use quicsql.Feed.Ring.{
  DbFeed, Subscriber, full, attached, catch_up, new_feed, publish_one, publish, subscribe, receive,
}
use quicsql.Feed.Ring.Log.{Holds, stamp, owed}
use quicsql.Feed.Ring.Replaying.{subscribe-owed}
use quicsql.Feed.Ring.Lives.{Life, begins, publishes, attaches, reads, started, delivery-Life}
use quicsql.Feed.Transaction.{
  PreUpdate, op_insert, op_delete, empty_buffer, pre_updates, commit, rollback, max_pending,
}
use quicsql.Feed.Transaction.Commit.{observed, commit-observed}
use quicsql.Feed.Broker.{Broker, new_broker, register}

abbrev row_change : ℕ → Event
row_change i = record { seq = 0; table = "t"; op = "insert"; rowid = pos i; reset = false }

abbrev changes : List Event
changes = row_change 1 ∷ row_change 2 ∷ row_change 3 ∷ []

abbrev quiet : DbFeed
quiet = new_feed "main" 2 reset_event

abbrev joined : DbFeed
joined = record quiet { subs = record { id = 7; taken = []; queue = [] } ∷ [] }

abbrev told : DbFeed
told = receive (publish_one joined (row_change 1)) 7

one_read : Life told (stamp [] (row_change 1) ∷ []) (started 7 0 (λ i. 0))
unfolding new_feed subscribe catch_up
one_read = reads 7 (
    publishes (row_change 1)
      (attaches 0 0 7 joined (attached (record { replay = []; reset = false; seq = 0 }))
        (begins "main" 2 reset_event (omega arith)) (tt, tt) refl)
      (omega arith))

delivery-Life_example :
    All
      (λ (s : Subscriber).
        s.taken ++ s.queue ≡ drop (started 7 0 (λ i. 0) s.id) (stamp [] (row_change 1) ∷ []))
      told.subs
    × All
        (λ (s : Subscriber).
          (rest : List Event) × ((s.taken ++ s.queue) ++ rest
            ≡ drop (started 7 0 (λ i. 0) s.id) (stamp [] (row_change 1) ∷ [])))
        told.dropped
    × Holds told (stamp [] (row_change 1) ∷ [])
delivery-Life_example =
    delivery-Life told (stamp [] (row_change 1) ∷ []) (started 7 0 (λ i. 0)) one_read

-- The cap is one subscriber, and one is there.
subscribe-owed_example :
    let o = owed 2 (stamp [] (row_change 1) ∷ []) 1 in
    subscribe told 1 1 8 ≡ (
      if ltb 0 1 && leb 1 (length told.subs)
      then some (told, full 1)
      else some (
        record told { subs = told.subs ++ (record { id = 8; taken = []; queue = [] } ∷ []) },
        attached (record { replay = o.0; reset = o.1; seq = 1 }),
      ))
unfolding receive publish_one new_feed
subscribe-owed_example =
    subscribe-owed told (stamp [] (row_change 1) ∷ []) (started 7 0 (λ i. 0)) 1 1 8 one_read

abbrev updates : List PreUpdate
updates =
    record { op = op_insert; table_name = "t"; old_row_id = pos 0; new_row_id = pos 4 }
    ∷ record { op = op_delete; table_name = "t"; old_row_id = pos 4; new_row_id = pos 0 }
    ∷ []

commit-observed_example :
    (commit quiet (pre_updates empty_buffer updates) ≡ (
      (if leb (length (observed updates)) max_pending
          then publish quiet (observed updates)
          else publish quiet (reset_event ∷ [])),
      empty_buffer,
    ))
    × (rollback (pre_updates empty_buffer updates) ≡ empty_buffer)
commit-observed_example = commit-observed quiet updates

abbrev one_database : Broker
one_database = register (λ p. p) (new_broker 8 0) "main" "/data/main.db" reset_event
