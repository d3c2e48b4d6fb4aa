-- ===== src/Auth/Token/Bounds.antt =====
-- What parse accepts fits the token's fields, so it can be issued again.
use quicsql.Prelude.{
  ℕ, zero, suc, ◌+◌, ◌-◌, ◌<◌, ◌≤◌, ◌≡◌, refl, ap, ◌||◌, not, nat_eq, bytes_eq, List, [], ◌∷◌,
  length, take, drop, some, All, arith, ltb, Option-cases, if_cases, subst, inl, inr, length-drop,
}
use quicsql.Prelude.Int.{ℤ, pos, negsuc}
use quicsql.Encoding.BigEndian.{word, uint64, uint64-bound, scale}
use quicsql.Encoding.Base64
use quicsql.Encoding.Strings.{cut_prefix}
use quicsql.Session.Baton.{Mac, sum_size}
use quicsql.Auth.Token.{
  Parsed, int64, time_from_nano, parse, parse_raw, read_payload, session_prefix, is_version,
  first_byte, sid_len, hdr_len,
}
use quicsql.Auth.Token.RoundTrip.{IsInt64, IsTime, Fits}
use mathlib.Core.Option.{some-injective, none-ne-some}

int64-IsInt64 : (u : ℕ) → u < word → IsInt64 (int64 u)
unfolding int64
int64-IsInt64 u h = ground arith

time_from_nano-IsTime : (t : ℤ) → IsInt64 t → IsTime (time_from_nano t)
unfolding time_from_nano
time_from_nano-IsTime (pos zero) h = tt
time_from_nano-IsTime (pos (suc n)) h = (h, λ e. ground arith)
time_from_nano-IsTime (negsuc n) h = (h, λ e. ground arith)

All-take : (n : ℕ) (bs : List ℕ) → All (λ b. b < 256) bs → All (λ b. b < 256) (take n bs)
All-take zero bs h = tt
All-take (suc n) [] h = tt
All-take (suc n) (b ∷ bs) h = (h.0, All-take n bs h.1)

All-drop : (n : ℕ) (bs : List ℕ) → All (λ b. b < 256) bs → All (λ b. b < 256) (drop n bs)
All-drop zero bs h = h
All-drop (suc n) [] h = tt
All-drop (suc n) (b ∷ bs) h = All-drop n bs h.1

length-take_le : (n : ℕ) (bs : List ℕ) → n ≤ length bs → length (take n bs) ≡ n
length-take_le zero bs h = refl
length-take_le (suc n) [] h = absurd (omega arith)
length-take_le (suc n) (b ∷ bs) h = ap suc (length-take_le n bs (omega arith))

-- A field of `n` bytes that lies in the payload.
field-bound :
    (off n : ℕ) (payload : List ℕ)
    → off + n ≤ length payload
    → All (λ b. b < 256) payload
    → (length (take n (drop off payload)) ≡ n) × All (λ b. b < 256) (take n (drop off payload))
field-bound off n payload h a = (
  length-take_le n (drop off payload) (omega (arith, length-drop off payload)),
  All-take n (drop off payload) (All-drop off payload a),
)

word-bound :
    (off n : ℕ) (payload : List ℕ)
    → off + n ≤ length payload
    → All (λ b. b < 256) payload
    → uint64 (take n (drop off payload)) < scale 1 n
word-bound off n payload h a =
    let f = field-bound off n payload h a in uint64-bound n (take n (drop off payload)) f.0 f.1

-- What a payload is read as.
pub record WellFormed (p : Parsed) : Type 0 where
  pub sid : length p.sid ≡ sid_len
  pub sid_bytes : All (λ b. b < 256) p.sid
  pub exp : IsInt64 p.exp
  pub hard_exp : IsInt64 p.hard_exp
  pub principal : 0 < length p.principal
  pub principal_bytes : All (λ b. b < 256) p.principal
  pub claims : Fits p.claims

read_payload-WellFormed :
    (payload : List ℕ)
    → hdr_len < length payload
    → All (λ b. b < 256) payload
    → WellFormed (read_payload payload)
unfolding read_payload
read_payload-WellFormed payload long a =
    let time : (off : ℕ)
        → off + 8 ≤ length payload
        → IsInt64 (int64 (uint64 (take 8 (drop off payload)))) =
      λ off h. int64-IsInt64 _ (word-bound off 8 payload h a) in
    record {
      sid = (field-bound 1 16 payload (omega arith) a).0;
      sid_bytes = (field-bound 1 16 payload (omega arith) a).1;
      exp = time 17 (omega arith);
      hard_exp = time 25 (omega arith);
      principal = omega (arith, length-drop hdr_len payload);
      principal_bytes = All-drop hdr_len payload a;
      claims = record {
        tier = word-bound 49 1 payload (omega arith) a;
        scope = word-bound 50 1 payload (omega arith) a;
        factors = word-bound 51 2 payload (omega arith) a;
        rot = word-bound 53 2 payload (omega arith) a;
        cred_id = (field-bound 55 16 payload (omega arith) a).0;
        cred_bytes = (field-bound 55 16 payload (omega arith) a).1;
        auth_time = time_from_nano-IsTime _ (time 33 (omega arith));
        not_before = time_from_nano-IsTime _ (time 41 (omega arith));
      };
    }

parse_raw-WellFormed :
    (mac : Mac) (key raw : List ℕ) (p : Parsed)
    → All (λ b. b < 256) raw
    → parse_raw mac key raw ≡ some p
    → WellFormed p
unfolding parse_raw
parse_raw-WellFormed mac key raw p a =
    if_cases (λ r. r ≡ some p → WellFormed p)
      (ltb (length raw) (hdr_len + 1 + sum_size) || not (is_version (first_byte raw)))
      (λ short e. absurd (none-ne-some p e))
      (λ long.
        if_cases (λ r. r ≡ some p → WellFormed p) _ (λ forged e. absurd (none-ne-some p e))
          (λ signed e.
            let n = length-take_le (length raw - sum_size) raw (omega arith) in
            subst WellFormed (some-injective _ _ e) (
              read_payload-WellFormed (take (length raw - sum_size) raw) (ground (arith, n))
                (All-take (length raw - sum_size) raw a))))

pub parse-WellFormed :
    (mac : Mac) (key token : List ℕ) (p : Parsed) → parse mac key token ≡ some p → WellFormed p
unfolding parse
parse-WellFormed mac key token p e = elim (Option-cases (cut_prefix session_prefix token)) [
  | inl missing ↦ absurd (cc)
  | inr (body, cut) ↦ elim (Option-cases (Base64.decode body)) [
    | inl missing ↦ absurd (ground arith)
    | inr (raw, decoded) ↦
        parse_raw-WellFormed mac key raw p (Base64.decode-All body raw decoded) (ground arith)
  ]
]
