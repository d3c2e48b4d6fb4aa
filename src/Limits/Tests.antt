-- ===== src/Limits/Tests.antt =====
-- The limiter on a small example, with whole tokens for float64.
use quicsql.Prelude.{ℕ, ◌≡◌, ◌≤◌, ◌<◌, ◌+◌, ◌-◌, refl, arith, ltb}
use quicsql.Prelude.Map.{lookup, lookup_or, insert}
use quicsql.Limits.{Floats}
use quicsql.Limits
use quicsql.Limits.InFlight.{Calls, here, next, allows, holding, in_flight-Calls, holding-Calls}

abbrev whole : Floats
whole = record {
  Float = ℕ;
  zero = 0;
  one = 1;
  less = ltb;
  add = λ a b. a + b;
  sub = λ a b. a - b;
  elapsed = λ now last rps. now - last;
}

abbrev one_at_a_time : Limits.Limiter whole
one_at_a_time = Limits.new_limiter whole 5 1

abbrev first_in : Limits.Limiter whole
first_in = (Limits.allow whole one_at_a_time "alice" "main" 10 7).0

abbrev second_refused : Limits.Limiter whole
second_refused = (Limits.allow whole first_in "bob" "main" 11 8).0

two-Calls : Calls whole one_at_a_time second_refused
unfolding Limits.new_limiter Limits.allow Limits.take_token Limits.enter lookup lookup_or insert
two-Calls = next (next here (allows "alice" "main" 10 7 refl)) (allows "bob" "main" 11 8 refl)

in_flight-Calls_example :
    Limits.in_flight whole second_refused "main" ≡ holding "main" second_refused.tickets
in_flight-Calls_example = in_flight-Calls whole 5 1 second_refused "main" two-Calls

one_cap : 0 < second_refused.per_db_max
unfolding Limits.new_limiter Limits.allow Limits.take_token Limits.enter lookup lookup_or insert
one_cap = omega arith

holding-Calls_example : holding "main" second_refused.tickets ≤ second_refused.per_db_max
holding-Calls_example = holding-Calls whole 5 1 second_refused "main" two-Calls one_cap
