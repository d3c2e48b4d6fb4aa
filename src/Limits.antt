-- ===== src/Limits.antt =====
-- limits/limits.go: admission in front of the engine, by a token bucket for each principal and a
-- cap on the requests in flight for each database. A float64 is a parameter with the operations
-- that the bucket uses. The release function of a request is a ticket: it stands in `tickets` until
-- it is first called. A cap of 0 is no cap.
mod Tests
pub mod InFlight
use quicsql.Prelude.{
  ℕ, suc, ◌+◌, ◌-◌, String, Bool, true, false, ◌&&◌, not, ◌==◌, nat_eq, string_eq, ltb, leb,
  if◌then◌else◌, List, [], ◌∷◌, Option, none, some,
}
use quicsql.Prelude.Map.{Map, lookup, lookup_or, insert, delete}

-- What is used of float64: `elapsed` is the refill of a span of time at a rate.
pub record Floats : Type 1 where
  pub Float : Type 0
  pub zero : Float
  pub one : Float
  pub less : Float → Float → Bool
  pub add : Float → Float → Float
  pub sub : Float → Float → Float
  pub elapsed : ℕ → ℕ → Float → Float

module _ (fl : Floats) where
  open fl use {Float, one, less, add, sub, elapsed}

  pub record Bucket : Type 0 where
    pub tokens : Float
    pub last : ℕ

  pub record Limiter : Type 0 where
    pub rps : Float
    pub burst : Float
    pub per_db_max : ℕ
    pub buckets : Map String Bucket
    pub inflight : Map String ℕ
    pub tickets : Map ℕ String

  unfoldable pub new_limiter : Float → ℕ → Limiter
  new_limiter rps cap = record {
    rps = rps;
    burst = if less rps one then one else rps;
    per_db_max = cap;
    buckets = [];
    inflight = [];
    tickets = [];
  }

  pub data Verdict : Type 0 where
    admitted : ℕ → Verdict
    rate busy : Verdict

  abbrev pub capped_at : Float → Float → Float
  capped_at top x = if less top x then top else x

  pub bucket_of : Limiter → String → ℕ → Bucket
  bucket_of l principal now = elim (lookup principal l.buckets) [
    | none ↦ record { tokens = l.burst; last = now }
    | some b ↦ b
  ]

  -- `now.Sub(b.last)` of a clock that only moves forward.
  pub refilled : Limiter → Bucket → ℕ → Float
  refilled l b now = capped_at l.burst (add b.tokens (elapsed now b.last l.rps))

  unfoldable pub take_token : Limiter → String → ℕ → Limiter × Bool
  unfolding bucket_of refilled
  take_token l principal now =
      if not (less fl.zero l.rps)
      then (l, true)
      else let t = refilled l (bucket_of l principal now) now in
        if less t one
        then (
          record l { buckets = insert principal (record { tokens = t; last = now }) l.buckets },
          false,
        )
        else (
          record l {
            buckets = insert principal (record { tokens = sub t one; last = now }) l.buckets;
          },
          true,
        )

  abbrev pub in_flight : Limiter → String → ℕ
  in_flight l db = lookup_or 0 db l.inflight

  -- The part of `Allow` behind the rate limit; `ticket` is the new release function.
  unfoldable pub enter : Limiter → String → ℕ → Limiter × Verdict
  enter l db ticket =
      if ltb 0 l.per_db_max && leb l.per_db_max (in_flight l db) then (l, busy) else (
        record l {
          inflight = insert db (in_flight l db + 1) l.inflight;
          tickets = insert ticket db l.tickets;
        },
        admitted ticket,
      )

  unfoldable pub allow : Limiter → String → String → ℕ → ℕ → Limiter × Verdict
  allow l principal db now ticket =
      let (l', granted) = take_token l principal now in
      if granted then enter l' db ticket else (l', rate)

  -- A call of a release function: the first frees the slot, later ones do nothing.
  unfoldable pub release : Limiter → ℕ → Limiter
  release l ticket = elim (lookup ticket l.tickets) [
    | none ↦ l
    | some db ↦
        let once = record l { tickets = delete ticket l.tickets } in
        if ltb 0 (in_flight l db)
        then record once { inflight = insert db (in_flight l db - 1) l.inflight }
        else once
  ]
