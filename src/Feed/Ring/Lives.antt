-- ===== src/Feed/Ring/Lives.antt =====
-- The life of a feed: publications, subscribers coming and going, and consumers reading, in any
-- order.
use quicsql.Prelude.{
  ℕ, ◌+◌, ◌<◌, ◌≡◌, ◌≢◌, sym, ◌==◌, nat_eq, String, List, [], ◌∷◌, ◌++◌, some, length, drop, arith,
  All, All-map, All-append, if◌then◌else◌, drop-length, nat_beq_iff, inl, inr, ◌⊎◌,
}
use quicsql.Encoding.BigEndian.{word}
use quicsql.Feed.{Event}
use quicsql.Feed.Ring.{
  Subscriber, DbFeed, Subscription, new_feed, publish_one, subscribe, kept_sub, unsubscribe,
  close_all, receive,
}
use quicsql.Feed.Ring.Log.{Holds, stamp, publish_one-Holds, new_feed-Holds}
use quicsql.Feed.Ring.Delivery.{
  Current, Behind, Current-Behind, Follows, publish_one-Follows, receive_among-Current,
  remove_sub-All,
}

-- No subscriber, attached or let go, has the channel `id`.
abbrev pub Unused : ℕ → DbFeed → Type 0
Unused id f =
    All (λ (s : Subscriber). s.id ≢ id) f.subs × All (λ (s : Subscriber). s.id ≢ id) f.dropped

abbrev pub started : ℕ → ℕ → (ℕ → ℕ) → ℕ → ℕ
started id n start i = if i == id then n else start i

-- `log` is what was published, and `start` how much of it when each channel was made.
pub data Life : DbFeed → List Event → (ℕ → ℕ) → Type 0 where
  begins : (name : String) (cap : ℕ) (z : Event) → 0 < cap → Life (new_feed name cap z) [] (λ i. 0)
  publishes :
      {f : DbFeed} {log : List Event} {start : ℕ → ℕ} (e : Event)
      → Life f log start
      → length log + 1 < word
      → Life (publish_one f e) (log ++ (stamp log e ∷ [])) start
  attaches :
      {f : DbFeed} {log : List Event} {start : ℕ → ℕ} (since max_subs id : ℕ) (g : DbFeed)
      (r : Subscription)
      → Life f log start
      → Unused id f
      → subscribe f since max_subs id ≡ some (g, r)
      → Life g log (started id (length log) start)
  detaches :
      {f : DbFeed} {log : List Event} {start : ℕ → ℕ} (id : ℕ)
      → Life f log start
      → Life (unsubscribe f id) log start
  reads :
      {f : DbFeed} {log : List Event} {start : ℕ → ℕ} (id : ℕ)
      → Life f log start
      → Life (receive f id) log start
  shuts :
      {f : DbFeed} {log : List Event} {start : ℕ → ℕ}
      → Life f log start
      → Life (close_all f) log start

same_start :
    (start : ℕ → ℕ) (id n : ℕ) (s : Subscriber) → s.id ≢ id → started id n start s.id ≡ start s.id
same_start start id n s h = ground (arith, nat_beq_iff s.id id)

All-both {ℓ κ} :
    {A : Type ℓ} (P Q : A → Type κ) (xs : List A) → All P xs → All Q xs → All (λ x. P x × Q x) xs
All-both P Q [] p q = tt
All-both P Q (x ∷ xs) p q = ((p.0, q.0), All-both P Q xs p.1 q.1)

restarted :
    (start : ℕ → ℕ) (log : List Event) (id : ℕ) (f : DbFeed)
    → Unused id f
    → Follows start log f
    → Follows (started id (length log) start) log f
restarted start log id f u v = record {
  live =
      All-map (λ s. (s.id ≢ id) × Current start log s) _ f.subs
        (λ s h. rw (same_start start id (length log) s h.0) h.1) (All-both _ _ f.subs u.0 v.live);
  gone =
      All-map (λ s. (s.id ≢ id) × Behind start log s) _ f.dropped
        (λ s h. rw (same_start start id (length log) s h.0) h.1)
        (All-both _ _ f.dropped u.1 v.gone);
}

-- What a subscription does to the feed: nothing, or one more subscriber with an empty channel.
subscribe_lem :
    (f g : DbFeed) (since max_subs id : ℕ) (r : Subscription)
    → subscribe f since max_subs id ≡ some (g, r)
    → (g ≡ f)
      ⊎ (g ≡ record f { subs = f.subs ++ (record { id = id; taken = []; queue = [] } ∷ []) })
unfolding subscribe
subscribe_lem f g since max_subs id r h = ground arith

attached-Follows :
    (start : ℕ → ℕ) (log : List Event) (f : DbFeed) (id : ℕ)
    → Unused id f
    → Follows start log f
    → Follows
        (started id (length log) start)
        log
        (record f { subs = f.subs ++ (record { id = id; taken = []; queue = [] } ∷ []) })
attached-Follows start log f id u v =
    let w = restarted start log id f u v in
    record {
      live =
          All-append (Current (started id (length log) start) log) f.subs _ w.live (newcomer, tt);
      gone = w.gone;
    }
  where
    newcomer :
        Current (started id (length log) start) log (record { id = id; taken = []; queue = [] })
    newcomer =
        let own : started id (length log) start id ≡ length log = ground arith in
        rw own (omega arith, sym (drop-length log (length log) (omega arith)))

pub Life-Holds : {f : DbFeed} {log : List Event} {start : ℕ → ℕ} → Life f log start → Holds f log
unfolding unsubscribe receive close_all
Life-Holds (begins name cap z h) = new_feed-Holds name cap z h
Life-Holds (publishes {f = f} {log = log} e l small) =
    publish_one-Holds f log e (Life-Holds l) small
Life-Holds (attaches {f = f} {log = log} since max_subs id g r l u h) =
    elim (subscribe_lem f g since max_subs id r h) [
      | inl e ↦ rw e (Life-Holds l)
      | inr e ↦
          let v = Life-Holds l in
          rw e (record {
            numbered = v.numbered;
            sized = v.sized;
            room = v.room;
            small = v.small;
            recent = v.recent;
          })
    ]
Life-Holds (detaches id l) =
    let v = Life-Holds l in
    record {
      numbered = v.numbered;
      sized = v.sized;
      room = v.room;
      small = v.small;
      recent = v.recent;
    }
Life-Holds (reads id l) =
    let v = Life-Holds l in
    record {
      numbered = v.numbered;
      sized = v.sized;
      room = v.room;
      small = v.small;
      recent = v.recent;
    }
Life-Holds (shuts l) =
    let v = Life-Holds l in
    record {
      numbered = v.numbered;
      sized = v.sized;
      room = v.room;
      small = v.small;
      recent = v.recent;
    }

let_go :
    (start : ℕ → ℕ) (log : List Event) (gone rest : List Subscriber)
    → All (Current start log) gone
    → All (Behind start log) rest
    → All (Behind start log) (gone ++ rest)
let_go start log gone rest c b =
    All-append (Behind start log) gone rest
      (All-map (Current start log) (Behind start log) gone (Current-Behind start log) c) b

Life-Follows :
    {f : DbFeed} {log : List Event} {start : ℕ → ℕ} → Life f log start → Follows start log f
unfolding unsubscribe receive close_all new_feed
Life-Follows (begins name cap z h) = record { live = tt; gone = tt }
Life-Follows (publishes {f = f} {log = log} {start = start} e l small) =
    publish_one-Follows start f log e (Life-Holds l) small (Life-Follows l)
Life-Follows (attaches {f = f} {log = log} {start = start} since max_subs id g r l u h) =
    elim (subscribe_lem f g since max_subs id r h) [
      | inl e ↦ rw e (restarted start log id f u (Life-Follows l))
      | inr e ↦ rw e (attached-Follows start log f id u (Life-Follows l))
    ]
Life-Follows (detaches {f = f} {log = log} {start = start} id l) =
    let v = Life-Follows l in
    let (removed, kept) = remove_sub-All (Current start log) id f.subs v.live in
    record { live = removed; gone = let_go start log (kept_sub id f.subs) f.dropped kept v.gone }
Life-Follows (reads {f = f} {log = log} {start = start} id l) =
    let v = Life-Follows l in
    record { live = receive_among-Current start log id f.subs v.live; gone = v.gone }
Life-Follows (shuts {f = f} {log = log} {start = start} l) =
    let v = Life-Follows l in
    record { live = tt; gone = let_go start log f.subs f.dropped v.live v.gone }

-- In every life of a feed, what a live subscriber has read and still finds in its channel is
-- exactly what was published since it attached, in order and without a gap; what a subscriber that
-- was let go has read and can still read is a first part of that; and the ring holds the last `cap`
-- events, each under its number.
pub delivery-Life :
    (f : DbFeed) (log : List Event) (start : ℕ → ℕ)
    → Life f log start
    → All (λ s. s.taken ++ s.queue ≡ drop (start s.id) log) f.subs
      × All
          (λ s. (rest : List Event) × ((s.taken ++ s.queue) ++ rest ≡ drop (start s.id) log))
          f.dropped
      × Holds f log
delivery-Life f log start l =
    let v = Life-Follows l in
    (
      All-map (Current start log) _ f.subs (λ s h. h.1) v.live,
      All-map (Behind start log) _ f.dropped (λ s h. (h.1, h.2)) v.gone,
      Life-Holds l,
    )
