-- ===== src/Auth/Token/RoundTrip.antt =====
-- A token that is issued parses to what it was issued for.
use quicsql.Prelude.{
  ℕ, zero, suc, ◌+◌, ◌-◌, ◌%◌, ◌<◌, ◌^◌, ◌≡◌, ◌≢◌, refl, ap, ◌∙◌, nat_eq, bytes_eq, List, [], ◌∷◌,
  ◌++◌, length, take, drop, replicate, Option, none, some, All, All-append, arith, length-append,
  take_append, drop_append, drop-next,
}
use quicsql.Prelude.Int.{ℤ, pos, negsuc}
use quicsql.Encoding.BigEndian.{
  word, put_uint64, uint64, put_uint16, uint64-put_uint64, uint16-put_uint16, put_uint64-All,
  put_uint16-All, length-put_uint64, length-put_uint16,
}
use quicsql.Encoding.Base64
use quicsql.Encoding.Strings.{cut_prefix-append}
use quicsql.Session.Baton.{Mac, sum_size}
use quicsql.Auth.Token.{
  SessClaims, int64, of_int64, unix_nano_or_zero, time_from_nano, token_payload, issue, parse,
  parse_raw, read_payload, session_prefix, sid_len, cred_len, hdr_len, copied, cred_field,
}

-- A 64-bit signed number.
abbrev pub IsInt64 : ℤ → Type 0
IsInt64 (pos n) = n < 2 ^ 63
IsInt64 (negsuc n) = n < 2 ^ 63

pub int64-of_int64 : (n : ℤ) → IsInt64 n → int64 (uint64 (put_uint64 (of_int64 n))) ≡ n
unfolding int64 of_int64
int64-of_int64 (pos n) h = rw (uint64-put_uint64 (n % word) (omega arith)) (ground arith)
int64-of_int64 (negsuc n) h =
    rw (uint64-put_uint64 (word - 1 - n % word) (omega arith)) (ground arith)

abbrev pub IsTime : Option ℤ → Type 0
IsTime none = Unit
IsTime (some t) = IsInt64 t × (t ≢ pos 0)

-- Claims that fit their fields.
pub record Fits (c : SessClaims) : Type 0 where
  pub tier : c.tier < 256
  pub scope : c.scope < 256
  pub factors : c.factors < 2 ^ 16
  pub rot : c.rot < 2 ^ 16
  pub cred_id : length c.cred_id ≡ cred_len
  pub cred_bytes : All (λ b. b < 256) c.cred_id
  pub auth_time : IsTime c.auth_time
  pub not_before : IsTime c.not_before

copied-whole : (n : ℕ) (bs : List ℕ) → length bs ≡ n → copied n bs ≡ bs
copied-whole n bs h = take_append n bs (replicate n 0) h

pub cred_field-whole : (id : List ℕ) → length id ≡ cred_len → cred_field id ≡ id
unfolding cred_field
cred_field-whole id h = ground (arith, h)

time_from_nano-unix_nano : (t : Option ℤ) → IsTime t → time_from_nano (unix_nano_or_zero t) ≡ t
unfolding time_from_nano unix_nano_or_zero
time_from_nano-unix_nano none h = refl
time_from_nano-unix_nano (some (pos zero)) h = absurd (h.1 refl)
time_from_nano-unix_nano (some (pos (suc n))) h = refl
time_from_nano-unix_nano (some (negsuc n)) h = refl

unix_nano_or_zero-IsInt64 : (t : Option ℤ) → IsTime t → IsInt64 (unix_nano_or_zero t)
unfolding unix_nano_or_zero
unix_nano_or_zero-IsInt64 none h = omega arith
unix_nano_or_zero-IsInt64 (some t) h = h.0

-- The field that a reader finds at an offset.
int64-field :
    (off : ℕ) (payload rest : List ℕ) (n : ℤ)
    → drop off payload ≡ put_uint64 (of_int64 n) ++ rest
    → IsInt64 n
    → int64 (uint64 (take 8 (drop off payload))) ≡ n
int64-field off payload rest n e h =
    rw (e, take_append 8 (put_uint64 (of_int64 n)) rest (length-put_uint64 (of_int64 n)))
      (int64-of_int64 n h)

uint16-field :
    (off : ℕ) (payload rest : List ℕ) (n : ℕ)
    → drop off payload ≡ put_uint16 n ++ rest
    → n < 2 ^ 16
    → uint64 (take 2 (drop off payload)) ≡ n
uint16-field off payload rest n e h =
    rw (e, take_append 2 (put_uint16 n) rest (length-put_uint16 n)) (uint16-put_uint16 n h)

sid-field :
    (payload rest sid : List ℕ)
    → drop 1 payload ≡ copied sid_len sid ++ rest
    → length sid ≡ sid_len
    → take sid_len (drop 1 payload) ≡ sid
sid-field payload rest sid e h =
    rw e
      (take_append sid_len _ rest (ap length (copied-whole 16 sid h) ∙ h) ∙ copied-whole 16 sid h)

byte-field :
    (off : ℕ) (payload rest : List ℕ) (b : ℕ)
    → drop off payload ≡ (b % 256 ∷ rest)
    → b < 256
    → uint64 (take 1 (drop off payload)) ≡ b
unfolding uint64
byte-field off payload rest b e h = rw e (omega arith)

pub token_payload-read_payload :
    (sid principal : List ℕ) (exp : ℤ) (hard_exp : Option ℤ) (c : SessClaims)
    → length sid ≡ sid_len
    → IsInt64 exp
    → IsTime hard_exp
    → Fits c
    → read_payload (token_payload sid principal exp hard_exp c) ≡ record {
      sid = sid;
      exp = exp;
      hard_exp = unix_nano_or_zero hard_exp;
      principal = principal;
      claims = c;
    }
unfolding token_payload read_payload
token_payload-read_payload sid principal exp hard_exp c hs he hh f =
    let p = token_payload sid principal exp hard_exp c in
    let d17 =
      drop-next 1 16 p (copied sid_len sid) _ refl (ap length (copied-whole 16 sid hs) ∙ hs) in
    let d25 = drop-next 17 8 p _ _ d17 (length-put_uint64 _) in
    let d33 = drop-next 25 8 p _ _ d25 (length-put_uint64 _) in
    let d41 = drop-next 33 8 p _ _ d33 (length-put_uint64 _) in
    let d49 = drop-next 41 8 p _ _ d41 (length-put_uint64 _) in
    let d50 = drop-next 49 1 p (c.tier % 256 ∷ []) _ d49 refl in
    let d51 = drop-next 50 1 p (c.scope % 256 ∷ []) _ d50 refl in
    let d53 = drop-next 51 2 p _ _ d51 (length-put_uint16 _) in
    let d55 = drop-next 53 2 p _ _ d53 (length-put_uint16 _) in
    let cred = cred_field-whole c.cred_id f.cred_id in
    let cred_size = ap length cred ∙ f.cred_id in
    λ i. record {
      sid = sid-field p _ sid refl hs i;
      exp = int64-field 17 p _ exp d17 he i;
      hard_exp =
          int64-field 25 p _ (unix_nano_or_zero hard_exp) d25
            (unix_nano_or_zero-IsInt64 hard_exp hh) i;
      principal = drop-next 55 16 p (cred_field c.cred_id) principal d55 cred_size i;
      claims = record {
        tier = byte-field 49 p _ c.tier d49 f.tier i;
        scope = byte-field 50 p _ c.scope d50 f.scope i;
        factors = uint16-field 51 p _ c.factors d51 f.factors i;
        rot = uint16-field 53 p _ c.rot d53 f.rot i;
        cred_id = (ap (take cred_len) d55 ∙ take_append cred_len _ principal cred_size ∙ cred) i;
        auth_time = timed 33 _ c.auth_time d33 f.auth_time i;
        not_before = timed 41 _ c.not_before d41 f.not_before i;
      };
    }
  where
    timed :
        (off : ℕ) (rest : List ℕ) (t : Option ℤ)
        → drop off (token_payload sid principal exp hard_exp c)
          ≡ put_uint64 (of_int64 (unix_nano_or_zero t)) ++ rest
        → IsTime t
        → time_from_nano
            (int64 (uint64 (take 8 (drop off (token_payload sid principal exp hard_exp c)))))
          ≡ t
    timed off rest t e h =
        ap time_from_nano
          (int64-field off _ rest (unix_nano_or_zero t) e (unix_nano_or_zero-IsInt64 t h))
        ∙ time_from_nano-unix_nano t h

length-token_payload :
    (sid principal : List ℕ) (exp : ℤ) (hard_exp : Option ℤ) (c : SessClaims)
    → length sid ≡ sid_len
    → length c.cred_id ≡ cred_len
    → length (token_payload sid principal exp hard_exp c) ≡ hdr_len + length principal
unfolding token_payload
length-token_payload sid principal exp hard_exp c hs hc =
    let cred = cred_field-whole c.cred_id hc in
    rw (copied-whole 16 sid hs, cred)
      (simp (length-append, length-put_uint64, length-put_uint16) (omega (arith, hs, hc)))

parse_raw-token :
    (mac : Mac) (key payload : List ℕ)
    → length (mac key payload) ≡ sum_size
    → hdr_len < length payload
    → (rest : List ℕ) → payload ≡ 1 ∷ rest
    → parse_raw mac key (payload ++ mac key payload) ≡ some (read_payload payload)
unfolding parse_raw
parse_raw-token mac key payload sized long rest version =
    let n : length (payload ++ mac key payload) - sum_size ≡ length payload =
      omega (arith, length-append payload (mac key payload), sized) in
    rw
      (
        n,
        take_append (length payload) payload (mac key payload) refl,
        drop_append (length payload) payload (mac key payload) refl,
      )
      (ground (
        arith,
        length-append payload (mac key payload),
        sized,
        version,
        bytes_eq.beq_iff (mac key payload) (mac key payload),
      ))

-- A token that is issued parses, under the key that signed it, to exactly what it was issued for:
-- the session identifier, both expiries, the principal and every assurance claim. The MAC gives 32
-- bytes, the identifiers have 16, the principal has a name, times are 64-bit, and a claim fits its
-- field.
pub parse-issue :
    (mac : Mac) (key sid principal : List ℕ) (exp : ℤ) (hard_exp : Option ℤ) (c : SessClaims)
    → ((k m : List ℕ) → length (mac k m) ≡ sum_size)
    → ((k m : List ℕ) → All (λ b. b < 256) (mac k m))
    → length sid ≡ sid_len
    → All (λ b. b < 256) sid
    → 0 < length principal
    → All (λ b. b < 256) principal
    → IsInt64 exp
    → IsTime hard_exp
    → Fits c
    → parse mac key (issue mac key sid principal exp hard_exp c)
      ≡ some (record {
        sid = sid;
        exp = exp;
        hard_exp = unix_nano_or_zero hard_exp;
        principal = principal;
        claims = c;
      })
unfolding parse issue
parse-issue mac key sid principal exp hard_exp c sized bytes hs bs named bp he hh f =
    let p = token_payload sid principal exp hard_exp c in
    rw
      (
        parse,
        issue,
        cut_prefix-append session_prefix (Base64.encode (p ++ mac key p)),
        Base64.decode-encode (p ++ mac key p) (All-append _ p _ payload_bytes (bytes key p)),
      )
      (parse_raw-token mac key p (sized key p)
          (omega (arith, length-token_payload sid principal exp hard_exp c hs f.cred_id, named)) _
          first
        ∙ ap some (token_payload-read_payload sid principal exp hard_exp c hs he hh f))
  where
    first :
        token_payload sid principal exp hard_exp c
        ≡ 1 ∷ drop 1 (token_payload sid principal exp hard_exp c)
    first = unfold token_payload in refl

    cred_bytes : All (λ b. b < 256) (cred_field c.cred_id)
    cred_bytes = let cred = cred_field-whole c.cred_id f.cred_id in rw cred f.cred_bytes

    payload_bytes : All (λ b. b < 256) (token_payload sid principal exp hard_exp c)
    payload_bytes =
        unfold token_payload in
        All-append _ (1 ∷ []) _ (omega arith) (
          All-append _ (copied sid_len sid) _ (rw (copied-whole 16 sid hs) bs) (
            All-append _ (put_uint64 _) _ (put_uint64-All _) (
              All-append _ (put_uint64 _) _ (put_uint64-All _) (
                All-append _ (put_uint64 _) _ (put_uint64-All _) (
                  All-append _ (put_uint64 _) _ (put_uint64-All _) (
                    All-append _ (c.tier % 256 ∷ c.scope % 256 ∷ []) _ (omega arith) (
                      All-append _ (put_uint16 _) _ (put_uint16-All _) (
                        All-append _ (put_uint16 _) _ (put_uint16-All _)
                          (All-append _ (cred_field c.cred_id) _ cred_bytes bp)))))))))
