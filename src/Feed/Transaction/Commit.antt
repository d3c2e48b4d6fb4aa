-- ===== src/Feed/Transaction/Commit.antt =====
-- What a transaction publishes.
use quicsql.Prelude.{
  ◌+◌, ◌≤◌, ◌≡◌, refl, true, false, leb, if◌then◌else◌, List, [], ◌∷◌, ◌++◌, Option, none, some,
  length, arith, length-append, Option-cases, inl, inr,
}
use mathlib.Core.List.{append-nil, append_assoc}
use native.Mathlib.Decide.{dec_lt}
use quicsql.Feed.{Event, reset_event}
use quicsql.Feed.Ring.{DbFeed, publish}
use quicsql.Feed.Transaction.{
  PreUpdate, Buffer, empty_buffer, event_of, pre_update, pre_updates, commit, rollback, max_pending,
}

abbrev pub cons_option : Option Event → List Event → List Event
cons_option none es = es
cons_option (some e) es = e ∷ es

-- The observed changes of a transaction, in order.
abbrev pub observed : List PreUpdate → List Event
observed [] = []
observed (d ∷ ds) = cons_option (event_of d) (observed ds)

abbrev pub overflowed : Buffer
overflowed = record { pending = []; overflow = true }

abbrev pub gathered : List Event → Buffer
gathered es = record { pending = es; overflow = false }

overflowed_stays : (ds : List PreUpdate) → pre_updates overflowed ds ≡ overflowed
unfolding pre_updates pre_update
overflowed_stays [] = refl
overflowed_stays (d ∷ ds) = overflowed_stays ds

pre_update_lem :
    (es : List Event) (d : PreUpdate) (x : Event)
    → event_of d ≡ some x
    → pre_update (gathered es) d
      ≡ (if leb max_pending (length es) then overflowed else gathered (es ++ (x ∷ [])))
unfolding pre_update
pre_update_lem es d x e = rw (pre_update, e)

pre_update_none :
    (es : List Event) (d : PreUpdate) → event_of d ≡ none → pre_update (gathered es) d ≡ gathered es
unfolding pre_update
pre_update_none es d e = rw (pre_update, e)

pub pre_updates_lem :
    (es : List Event) (ds : List PreUpdate)
    → length es ≤ max_pending
    → pre_updates (gathered es) ds ≡ (
        if leb (length es + length (observed ds)) max_pending
        then gathered (es ++ observed ds)
        else overflowed)
unfolding pre_updates
pre_updates_lem es [] h = rw (append-nil es) (ground arith)
pre_updates_lem es (d ∷ ds) h = elim (Option-cases (event_of d)) [
  | inl e ↦ rw (pre_update_none es d e, e) (pre_updates_lem es ds h)
  | inr (x, e) ↦
      rw (pre_update_lem es d x e, e)
        (elim (dec_lt (length es) max_pending) [
          | yes room ↦
              let longer : length (es ++ (x ∷ [])) ≡ length es + 1 =
                omega (arith, length-append es (x ∷ [])) in
              ground (
                arith,
                pre_updates_lem (es ++ (x ∷ [])) ds (omega arith),
                append_assoc es (x ∷ []) (observed ds),
              )
          | no full ↦ ground (arith, overflowed_stays ds)
        ])
]

-- A transaction that starts on an empty buffer publishes at its commit exactly its observed row
-- changes, in order, if they are at most the 8192 that the buffer takes, and otherwise one reset
-- event and nothing else; a transaction with no observed change publishes nothing. A rollback
-- publishes nothing. After either the buffer is empty again.
pub commit-observed :
    (f : DbFeed) (ds : List PreUpdate)
    → (commit f (pre_updates empty_buffer ds) ≡ (
      (if leb (length (observed ds)) max_pending
          then publish f (observed ds)
          else publish f (reset_event ∷ [])),
      empty_buffer,
    ))
      × (rollback (pre_updates empty_buffer ds) ≡ empty_buffer)
unfolding commit rollback
commit-observed f ds = (rw (pre_updates_lem [] ds (omega arith)) (published (observed ds)), refl)
  where
    published :
        (es : List Event)
        → commit f (if leb (0 + length es) max_pending then gathered es else overflowed) ≡ (
          (if leb (length es) max_pending then publish f es else publish f (reset_event ∷ [])),
          empty_buffer,
        )
    published [] = unfold publish in ground arith
    published (e ∷ es) = ground arith
