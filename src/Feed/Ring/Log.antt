-- ===== src/Feed/Ring/Log.antt =====
-- The ring against the log of everything published: it holds the last `cap` events, so a replay is
-- the rest of the log or a reset.
use quicsql.Prelude.{
  ℕ, zero, suc, ◌+◌, ◌-◌, ◌%◌, ◌<◌, ◌≤◌, ◌≡◌, ◌≢◌, refl, sym, ◌∙◌, ap, Bool, true, false, List, [],
  ◌∷◌, ◌++◌, some, length, get_elem?, set, drop, arith, ltb, length-set, length-append,
  get_elem?-set_self, get_elem?-set_ne, get_elem?-append_left, get_elem?-append_end, get_elem?-some,
  drop-length, drop-get_elem?, length-replicate, String, if◌then◌else◌, ◌||◌, ◌&&◌, ◌==◌, nat_eq,
}
use native.Mathlib.Decide.{dec_lt}
use quicsql.Encoding.BigEndian.{word}
use quicsql.Feed.{Event}
use quicsql.Feed.Ring.{DbFeed, publish_one, replay_from, buffered, catch_up, new_feed}

mod_apart : (i j c : ℕ) → i < j → j < i + c → i % c ≢ j % c
mod_apart i j c h k = grind arith

mod_small : (i c : ℕ) → 0 < c → i % c < c
mod_small i c h = grind arith

-- `log` is every event that was published, stamped, oldest first.
pub record Holds (f : DbFeed) (log : List Event) : Type 0 where
  pub numbered : f.seq ≡ length log
  pub sized : length f.ring ≡ f.cap
  pub room : 0 < f.cap
  pub small : length log < word
  pub recent :
      (i : ℕ)
      → i < length log
      → length log ≤ i + f.cap
      → get_elem? f.ring (i % f.cap) ≡ get_elem? log i

-- The event as it is published behind `log`.
abbrev pub stamp : List Event → Event → Event
stamp log e = record e { seq = length log + 1 }

publish_one_lem :
    (f : DbFeed) (log : List Event) (e : Event)
    → Holds f log
    → length log + 1 < word
    → ((publish_one f e).seq ≡ length log + 1)
      × ((publish_one f e).ring ≡ set f.ring (length log % f.cap) (stamp log e))
      × ((publish_one f e).cap ≡ f.cap)
unfolding publish_one
publish_one_lem f log e h small =
    let seq : (f.seq + 1) % word ≡ length log + 1 = omega (arith, h.numbered) in
    (seq, rw seq (ap (λ i. set f.ring (i % f.cap) (stamp log e)) (omega arith)), refl)

recent_set :
    (f : DbFeed) (log : List Event) (e : Event) (i : ℕ)
    → Holds f log
    → i < length log + 1
    → length log + 1 ≤ i + f.cap
    → get_elem? (set f.ring (length log % f.cap) e) (i % f.cap) ≡ get_elem? (log ++ (e ∷ [])) i
recent_set f log e i h small recent = elim (dec_lt i (length log)) [
  | yes old ↦
      get_elem?-set_ne f.ring e (λ p. mod_apart i (length log) f.cap old (omega arith) (sym p))
      ∙ h.recent i old (omega arith)
      ∙ sym (get_elem?-append_left log (e ∷ []) i old)
  | no new ↦
      let last : i ≡ length log = omega arith in
      rw last (
        get_elem?-set_self f.ring (length log % f.cap) e
          (rw h.sized (mod_small (length log) f.cap h.room))
        ∙ sym (get_elem?-append_end log e))
]

-- A publication adds one event to the log, numbered by its place, and the ring still holds the
-- last `cap` events of the log.
pub publish_one-Holds :
    (f : DbFeed) (log : List Event) (e : Event)
    → Holds f log
    → length log + 1 < word
    → Holds (publish_one f e) (log ++ (stamp log e ∷ []))
publish_one-Holds f log e h small =
    let (seq, ring, cap) = publish_one_lem f log e h small in
    let longer = length-append log (stamp log e ∷ []) in
    record {
      numbered = omega (arith, seq, longer);
      sized = rw (ring, cap) (length-set f.ring (length log % f.cap) (stamp log e) ∙ h.sized);
      room = rw cap h.room;
      small = omega (arith, longer);
      recent = λ i lt le.
          rw (ring, cap)
            (recent_set f log (stamp log e) i h (omega (arith, longer))
              (omega (arith, longer, ap (λ n. i + n) cap)));
    }

-- Reading on from position `i` gives the rest of the log, if the ring still has all of it.
replay_from-drop :
    (f : DbFeed) (log : List Event) (i n : ℕ)
    → Holds f log
    → i + n ≡ length log
    → length log ≤ i + f.cap
    → replay_from f.ring f.cap (i + 1) n ≡ some (drop i log)
unfolding replay_from
replay_from-drop f log i zero h e recent = rw (drop-length log i (omega arith))
replay_from-drop f log i (suc n) h e recent =
    let (x, at) = get_elem?-some log i (omega arith) in
    let here : i + 1 - 1 ≡ i = omega arith in
    rw (
      replay_from,
      here,
      h.recent i (omega arith) recent,
      at,
      replay_from-drop f log (i + 1) n h (omega arith) (omega arith),
      drop-get_elem? log i x at,
    )

-- What a subscriber that has seen the first `since` events should get: the rest of the log, unless
-- its number is from another log or the ring of `cap` events has lost some of the rest. One that
-- starts afresh, at 0, is given nothing.
abbrev pub owed : ℕ → List Event → ℕ → List Event × Bool
owed cap log since =
    if ltb (length log) since || (ltb 0 since && ltb (since + cap) (length log))
    then ([], true)
    else if since == 0
    then ([], false)
    else (drop since log, false)

buffered_lem :
    (f : DbFeed) (log : List Event) (since : ℕ)
    → Holds f log
    → 0 < since
    → since < length log
    → buffered f since
      ≡ (if ltb (since + f.cap) (length log) then some ([], true) else some (drop since log, false))
unfolding buffered
buffered_lem f log since h pos below = rw h.numbered (elim (dec_lt (since + f.cap) (length log)) [
  | yes lost ↦ ground arith
  | no held ↦
      ground
        (arith, replay_from-drop f log since (length log - since) h (omega arith) (omega arith))
])

pub catch_up-owed :
    (f : DbFeed) (log : List Event) (since : ℕ)
    → Holds f log
    → catch_up f since ≡ some (owed f.cap log since)
unfolding catch_up
catch_up-owed f log since h = elim (dec_lt 0 since) [
  | no z ↦ rw h.numbered (ground arith)
  | yes pos ↦ elim (dec_lt since (length log)) [
    | yes below ↦ rw h.numbered (ground (arith, buffered_lem f log since h pos below))
    | no over ↦ rw h.numbered (ground (arith, drop-length log since (omega arith)))
  ]
]

pub new_feed-Holds :
    (name : String) (cap : ℕ) (z : Event) → 0 < cap → Holds (new_feed name cap z) []
unfolding new_feed
new_feed-Holds name cap z h = record {
  numbered = refl;
  sized = length-replicate cap z;
  room = h;
  small = omega arith;
  recent = λ i lt le. absurd (omega arith);
}
