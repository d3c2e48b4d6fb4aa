-- ===== src/Enroll/Sync/Activity.antt =====
-- The count and the bookkeeping of the last activity: Touch and flushSeen.
use quicsql.Prelude.{
  ℕ, ◌+◌, ◌≡◌, refl, sym, ap, ◌∙◌, not, ◌||◌, ◌==◌, bytes_eq, List, [], ◌∷◌, length, arith, nat_eq,
  if_cases,
}
use quicsql.Prelude.Map.{Map, adjust, Distinct, Distinct-adjust}
use quicsql.Encoding.Strings.{bytes, has_prefix}
use quicsql.Meta
use quicsql.Meta.{Store, Row}
use quicsql.Enroll.Service.{Enroll, Policies, Digests, Service, Faults, touch, flush_seen}
use quicsql.Enroll.Sync.Counting.{Underway, Counted, Counted-same, fewer}

length-adjust :
    (name : List ℕ) (f : Row → Row) (rows : Map (List ℕ) Row)
    → length (adjust name f rows) ≡ length rows
unfolding adjust
length-adjust name f [] = refl
length-adjust name f ((j, r) ∷ rows) = ground (arith, length-adjust name f rows)

-- What a flush leaves of the rows.
touch_rows-same :
    (seen : Map (List ℕ) ℕ) (rows : Map (List ℕ) Row)
    → Distinct rows
    → Distinct (Meta.touch_rows seen rows) × (length (Meta.touch_rows seen rows) ≡ length rows)
unfolding Meta.touch_rows
touch_rows-same [] rows d = (d, refl)
touch_rows-same ((name, at) ∷ seen) rows d =
    let (d', size) =
      touch_rows-same seen (adjust name (Meta.touched at) rows)
        (Distinct-adjust name (Meta.touched at) rows d) in
    (d', size ∙ length-adjust name (Meta.touched at) rows)

module _ {P : Type 0} (dg : Digests) (pol : Policies P) (cfg : Enroll) where
  pub Counted-touch :
      (bad : Faults) (s : Service P) (name : List ℕ) (now : ℕ) (w : Underway) (k : ℕ)
      → Counted dg pol cfg s w k
      → Counted dg pol cfg (touch dg pol cfg bad s name now) w k
  unfolding touch
  Counted-touch bad s name now w k c =
      if_cases (λ (x : Service P). Counted dg pol cfg x w k)
        (cfg.idle_ttl == 0 || not (has_prefix (bytes "u_") name)) (λ no. c)
        (λ yes. Counted-same dg pol cfg s _ w k c refl refl)

  pub Counted-flush_seen :
      (bad : Faults) (s : Service P) (meanwhile : Map (List ℕ) ℕ) (w : Underway) (k : ℕ)
      → Counted dg pol cfg s w k
      → Counted dg pol cfg (flush_seen dg pol cfg bad s meanwhile) w k
  unfolding flush_seen Meta.touch_enrolled
  Counted-flush_seen bad s meanwhile w k c =
      if_cases (λ (x : Service P). Counted dg pol cfg x w k) bad.touch
        (λ failed. Counted-same dg pol cfg s _ w k c refl refl)
        (λ works.
          let (d, size) = touch_rows-same s.seen s.store.enrolled c.rows in
          record {
            count = c.count;
            counted = c.counted;
            balance = c.balance ∙ ap (λ n. n + k) (sym size);
            capped =
                fewer dg pol cfg _ (length (Meta.touch_rows s.seen s.store.enrolled) + k)
                  (omega (arith, size)) c.capped;
            rows = d;
          })
