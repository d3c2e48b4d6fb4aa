-- ===== src/Limits/InFlight.antt =====
-- The in-flight count of a database is the number of its requests that were admitted and have not
-- been released, and stays within the cap.
use quicsql.Prelude.{
  ℕ, ◌+◌, ◌-◌, ◌<◌, ◌≤◌, ◌≡◌, refl, String, Bool, ◌&&◌, ◌==◌, nat_eq, string_eq, ltb, leb, none,
  arith, Option-cases, inl, inr, if_cases, not,
}
use quicsql.Prelude.Map.{
  Map, lookup, lookup_or, count, Distinct, lookup_or-insert, Distinct-insert, Distinct-delete,
  count-insert_none, count-delete,
}
use quicsql.Limits.{Floats}
use quicsql.Limits

-- The requests on a database that hold a slot.
abbrev pub holding : String → Map ℕ String → ℕ
holding db = count (λ (d : String). d == db)

module _ (fl : Floats) where
  pub record Inv (l : Limits.Limiter fl) : Type 0 where
    pub distinct : Distinct l.tickets
    pub balanced : (db : String) → lookup_or 0 db l.inflight ≡ holding db l.tickets
    pub capped : (db : String) → 0 < l.per_db_max → lookup_or 0 db l.inflight ≤ l.per_db_max

  take_token-Inv :
      (l : Limits.Limiter fl) (principal : String) (now : ℕ)
      → Inv l
      → Inv (Limits.take_token fl l principal now).0
  unfolding Limits.take_token
  take_token-Inv l principal now v =
      if_cases (λ (r : Limits.Limiter fl × Bool). Inv r.0) (not (fl.less fl.zero l.rps)) (λ _. v)
        λ _.
          if_cases (λ (r : Limits.Limiter fl × Bool). Inv r.0)
            (fl.less (Limits.refilled fl l (Limits.bucket_of fl l principal now) now) fl.one)
            (λ _. record { distinct = v.distinct; balanced = v.balanced; capped = v.capped })
            (λ _. record { distinct = v.distinct; balanced = v.balanced; capped = v.capped })

  tickets-take_token :
      (l : Limits.Limiter fl) (principal : String) (now : ℕ)
      → (Limits.take_token fl l principal now).0.tickets ≡ l.tickets
  unfolding Limits.take_token
  tickets-take_token l principal now =
      if_cases (λ (r : Limits.Limiter fl × Bool). r.0.tickets ≡ l.tickets)
        (not (fl.less fl.zero l.rps)) (λ _. refl)
        λ _.
          if_cases (λ (r : Limits.Limiter fl × Bool). r.0.tickets ≡ l.tickets)
            (fl.less (Limits.refilled fl l (Limits.bucket_of fl l principal now) now) fl.one)
            (λ _. refl) (λ _. refl)

  enter-Inv :
      (l : Limits.Limiter fl) (db : String) (ticket : ℕ)
      → lookup ticket l.tickets ≡ none
      → Inv l
      → Inv (Limits.enter fl l db ticket).0
  unfolding Limits.enter
  enter-Inv l db ticket new v =
      if_cases (λ (r : Limits.Limiter fl × Limits.Verdict fl). Inv r.0)
        (ltb 0 l.per_db_max && leb l.per_db_max (lookup_or 0 db l.inflight)) (λ _. v)
        λ room. record {
          distinct = Distinct-insert ticket db l.tickets v.distinct;
          balanced = λ d. ground (
            arith,
            lookup_or-insert 0 db d (lookup_or 0 db l.inflight + 1) l.inflight,
            count-insert_none (λ (e : String). e == d) ticket db l.tickets new,
            v.balanced d,
            v.balanced db,
            string_eq.beq_iff db d,
          );
          capped = λ d h. ground (
            arith,
            lookup_or-insert 0 db d (lookup_or 0 db l.inflight + 1) l.inflight,
            v.capped d h,
          );
        }

  pub allow-Inv :
      (l : Limits.Limiter fl) (principal db : String) (now ticket : ℕ)
      → lookup ticket l.tickets ≡ none
      → Inv l
      → Inv (Limits.allow fl l principal db now ticket).0
  unfolding Limits.allow
  allow-Inv l principal db now ticket new v =
      if_cases (λ (r : Limits.Limiter fl × Limits.Verdict fl). Inv r.0)
        (Limits.take_token fl l principal now).1
        (λ _.
          enter-Inv (Limits.take_token fl l principal now).0 db ticket
            (rw (tickets-take_token l principal now) new) (take_token-Inv l principal now v))
        (λ _. take_token-Inv l principal now v)

  pub release-Inv : (l : Limits.Limiter fl) (ticket : ℕ) → Inv l → Inv (Limits.release fl l ticket)
  unfolding Limits.release
  release-Inv l ticket v = elim (Option-cases (lookup ticket l.tickets)) [
    | inl e ↦ rw (Limits.release, e) v
    | inr (db, e) ↦
        rw (Limits.release, e)
          (if_cases Inv (ltb 0 (lookup_or 0 db l.inflight))
            (λ held. record {
              distinct = Distinct-delete ticket l.tickets v.distinct;
              balanced = λ d. ground (
                arith,
                lookup_or-insert 0 db d (lookup_or 0 db l.inflight - 1) l.inflight,
                count-delete (λ (f : String). f == d) ticket db l.tickets v.distinct e,
                v.balanced d,
                v.balanced db,
                string_eq.beq_iff db d,
              );
              capped = λ d h. ground (
                arith,
                lookup_or-insert 0 db d (lookup_or 0 db l.inflight - 1) l.inflight,
                v.capped d h,
                v.capped db h,
              );
            })
            (λ empty. absurd (
              ground (
                arith,
                count-delete (λ (f : String). f == db) ticket db l.tickets v.distinct e,
                v.balanced db,
                string_eq.beq_iff db db,
              ))))
  ]

  -- A request, under a release function that is not in use, or a call of a release function.
  pub data Call (l : Limits.Limiter fl) : Limits.Limiter fl → Type 0 where
    allows :
        (principal db : String) (now ticket : ℕ)
        → lookup ticket l.tickets ≡ none
        → Call l (Limits.allow fl l principal db now ticket).0
    releases : (ticket : ℕ) → Call l (Limits.release fl l ticket)

  pub data Calls (l : Limits.Limiter fl) : Limits.Limiter fl → Type 0 where
    here : Calls l l
    next : {m n : Limits.Limiter fl} → Calls l m → Call m n → Calls l n

  Calls-Inv : {l m : Limits.Limiter fl} → Calls l m → Inv l → Inv m
  Calls-Inv here v = v
  Calls-Inv (next {m = m} calls (allows principal db now ticket new)) v =
      allow-Inv m principal db now ticket new (Calls-Inv calls v)
  Calls-Inv (next {m = m} calls (releases ticket)) v = release-Inv m ticket (Calls-Inv calls v)

  new_limiter-Inv : (rps : fl.Float) (cap : ℕ) → Inv (Limits.new_limiter fl rps cap)
  unfolding Limits.new_limiter
  new_limiter-Inv rps cap = record {
    distinct = tt;
    balanced = λ db. unfold lookup_or lookup count in refl;
    capped = λ db h. unfold lookup_or lookup in omega arith;
  }

  -- From a new limiter, after any sequence of requests and of calls of release functions, repeated
  -- ones included, the in-flight count of a database is the number of its requests that were
  -- admitted and not released.
  pub in_flight-Calls :
      (rps : fl.Float) (cap : ℕ) (l : Limits.Limiter fl) (db : String)
      → Calls (Limits.new_limiter fl rps cap) l
      → Limits.in_flight fl l db ≡ holding db l.tickets
  in_flight-Calls rps cap l db calls = (Calls-Inv calls (new_limiter-Inv rps cap)).balanced db

  -- With a cap, no sequence of requests and releases has more requests of a database in flight.
  pub holding-Calls :
      (rps : fl.Float) (cap : ℕ) (l : Limits.Limiter fl) (db : String)
      → Calls (Limits.new_limiter fl rps cap) l
      → 0 < l.per_db_max
      → holding db l.tickets ≤ l.per_db_max
  holding-Calls rps cap l db calls h =
      let v = Calls-Inv calls (new_limiter-Inv rps cap) in
      omega (arith, v.balanced db, v.capped db h)
