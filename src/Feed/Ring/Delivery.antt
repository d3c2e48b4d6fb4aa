-- ===== src/Feed/Ring/Delivery.antt =====
-- What a subscriber reads: the log from where it attached, with no gap, until it is let go.
use quicsql.Prelude.{
  ℕ, ◌+◌, ◌%◌, ◌<◌, ◌≤◌, ◌≡◌, refl, sym, ap, ◌∙◌, ◌==◌, nat_eq, List, [], ◌∷◌, ◌++◌, length, drop,
  arith, All, All-map, All-append, length-append, drop_append_left, if_cases, ltb,
}
use mathlib.Core.List.{append-nil, append_assoc}
use quicsql.Encoding.BigEndian.{word}
use quicsql.Feed.{Event}
use quicsql.Feed.Ring.{
  Subscriber, DbFeed, deliver, overrun, publish_one, remove_sub, kept_sub, take_front,
  receive_among, subscriber_buf,
}
use quicsql.Feed.Ring.Log.{Holds, stamp}

-- `start` gives for each channel the number of events that were published before it was made.
-- The subscriber has been sent exactly what was published since.
abbrev pub Current : (ℕ → ℕ) → List Event → Subscriber → Type 0
Current start log s = (start s.id ≤ length log) × (s.taken ++ s.queue ≡ drop (start s.id) log)

-- It was sent a first part of what was published since.
abbrev pub Behind : (ℕ → ℕ) → List Event → Subscriber → Type 0
Behind start log s =
    (start s.id ≤ length log)
    × (rest : List Event) × ((s.taken ++ s.queue) ++ rest ≡ drop (start s.id) log)

pub record Follows (start : ℕ → ℕ) (log : List Event) (f : DbFeed) : Type 0 where
  pub live : All (Current start log) f.subs
  pub gone : All (Behind start log) f.dropped

pub Current-Behind :
    (start : ℕ → ℕ) (log : List Event) (s : Subscriber) → Current start log s → Behind start log s
Current-Behind start log s h = (h.0, [], append-nil (s.taken ++ s.queue) ∙ h.1)

Behind-publish :
    (start : ℕ → ℕ) (log : List Event) (e : Event) (s : Subscriber)
    → Behind start log s
    → Behind start (log ++ (e ∷ [])) s
Behind-publish start log e s h = (
  omega (arith, h.0, length-append log (e ∷ [])),
  h.1 ++ (e ∷ []),
  sym (append_assoc (s.taken ++ s.queue) h.1 (e ∷ []))
      ∙ ap (λ (l : List Event). l ++ (e ∷ [])) h.2
      ∙ sym (drop_append_left (start s.id) log (e ∷ []) h.0),
)

Current-sent :
    (start : ℕ → ℕ) (log : List Event) (e : Event) (s : Subscriber)
    → Current start log s
    → Current start (log ++ (e ∷ [])) (record s { queue = s.queue ++ (e ∷ []) })
Current-sent start log e s h = (
  omega (arith, h.0, length-append log (e ∷ [])),
  sym (append_assoc s.taken s.queue (e ∷ []))
      ∙ ap (λ (l : List Event). l ++ (e ∷ [])) h.1
      ∙ sym (drop_append_left (start s.id) log (e ∷ []) h.0),
)

deliver-Current :
    (start : ℕ → ℕ) (log : List Event) (e : Event) (subs : List Subscriber)
    → All (Current start log) subs
    → All (Current start (log ++ (e ∷ []))) (deliver e subs)
unfolding deliver
deliver-Current start log e [] h = tt
deliver-Current start log e (s ∷ rest) h =
    if_cases (All (Current start (log ++ (e ∷ [])))) (ltb (length s.queue) subscriber_buf)
      (λ _. (Current-sent start log e s h.0, deliver-Current start log e rest h.1))
      (λ _. deliver-Current start log e rest h.1)

overrun-Behind :
    (start : ℕ → ℕ) (log : List Event) (e : Event) (subs : List Subscriber)
    → All (Current start log) subs
    → All (Behind start (log ++ (e ∷ []))) (overrun subs)
unfolding overrun
overrun-Behind start log e [] h = tt
overrun-Behind start log e (s ∷ rest) h =
    if_cases (All (Behind start (log ++ (e ∷ [])))) (ltb (length s.queue) subscriber_buf)
      (λ _. overrun-Behind start log e rest h.1)
      (λ _. (
        Behind-publish start log e s (Current-Behind start log s h.0),
        overrun-Behind start log e rest h.1,
      ))

pub publish_one-Follows :
    (start : ℕ → ℕ) (f : DbFeed) (log : List Event) (e : Event)
    → Holds f log
    → length log + 1 < word
    → Follows start log f
    → Follows start (log ++ (stamp log e ∷ [])) (publish_one f e)
unfolding publish_one
publish_one-Follows start f log e h small v =
    let seq : (f.seq + 1) % word ≡ length log + 1 = omega (arith, h.numbered) in
    rw seq (record {
      live = deliver-Current start log (stamp log e) f.subs v.live;
      gone =
          All-append (Behind start (log ++ (stamp log e ∷ []))) (overrun f.subs) f.dropped
            (overrun-Behind start log (stamp log e) f.subs v.live)
            (All-map (Behind start log) (Behind start (log ++ (stamp log e ∷ []))) f.dropped
              (Behind-publish start log (stamp log e)) v.gone);
    })

take_front-Current :
    (start : ℕ → ℕ) (log queue : List Event) (s : Subscriber)
    → s.queue ≡ queue
    → Current start log s
    → Current start log (take_front queue s)
unfolding take_front
take_front-Current start log [] s e h = h
take_front-Current start log (x ∷ xs) s e h =
    (h.0, append_assoc s.taken (x ∷ []) xs ∙ ap (λ (l : List Event). s.taken ++ l) (sym e) ∙ h.1)

pub receive_among-Current :
    (start : ℕ → ℕ) (log : List Event) (id : ℕ) (subs : List Subscriber)
    → All (Current start log) subs
    → All (Current start log) (receive_among id subs)
unfolding receive_among
receive_among-Current start log id [] h = tt
receive_among-Current start log id (s ∷ rest) h = (
  if_cases (Current start log) (s.id == id) (λ _. take_front-Current start log s.queue s refl h.0)
      (λ _. h.0),
  receive_among-Current start log id rest h.1,
)

pub remove_sub-All :
    (P : Subscriber → Type 0) (id : ℕ) (subs : List Subscriber)
    → All P subs
    → All P (remove_sub id subs) × All P (kept_sub id subs)
unfolding remove_sub kept_sub
remove_sub-All P id [] h = (tt, tt)
remove_sub-All P id (s ∷ rest) h =
    let (removed, kept) = remove_sub-All P id rest h.1 in
    (
      if_cases (All P) (s.id == id) (λ _. removed) (λ _. (h.0, removed)),
      if_cases (All P) (s.id == id) (λ _. (h.0, kept)) (λ _. kept),
    )
