-- ===== src/Auth/Token.antt =====
-- auth/session.go, the layout of a session token: issue and parse. The MAC is the baton's
-- parameter. A time.Time is an Option, with `none` for the zero time, as unixNanoOrZero and
-- timeFromNano read it, and otherwise the nanoseconds of an int64.
pub mod RoundTrip
pub mod Bounds
use quicsql.Prelude.{
  ℕ, zero, suc, ◌+◌, ◌-◌, ◌%◌, ◌^◌, Bool, true, false, ◌&&◌, ◌||◌, not, ◌==◌, nat_eq, bytes_eq, ltb,
  leb, if◌then◌else◌, List, [], ◌∷◌, ◌++◌, length, take, drop, replicate, get_elem?, Option, none,
  some,
}
use quicsql.Prelude.Int.{ℤ, pos, negsuc}
use quicsql.Encoding.BigEndian.{word, put_uint64, uint64, put_uint16}
use quicsql.Encoding.Base64
use quicsql.Encoding.Strings.{cut_prefix}
use quicsql.Session.Baton.{Mac, sum_size}

abbrev pub token_ver : ℕ
token_ver = 1

abbrev pub sid_len : ℕ
sid_len = 16

abbrev pub cred_len : ℕ
cred_len = 16

abbrev pub hdr_len : ℕ
hdr_len = 71

-- The bytes of `st_`.
abbrev pub session_prefix : List ℕ
session_prefix = b's' ∷ b't' ∷ b'_' ∷ []

-- `int64(u)` and `uint64(n)`.
unfoldable pub int64 : ℕ → ℤ
int64 u = if ltb u (2 ^ 63) then pos u else negsuc (word - 1 - u)

unfoldable pub of_int64 : ℤ → ℕ
of_int64 (pos n) = n % word
of_int64 (negsuc n) = word - 1 - n % word

unfoldable pub unix_nano_or_zero : Option ℤ → ℤ
unix_nano_or_zero none = pos 0
unix_nano_or_zero (some t) = t

unfoldable pub time_from_nano : ℤ → Option ℤ
time_from_nano (pos zero) = none
time_from_nano t = some t

pub record SessClaims : Type 0 where
  pub tier : ℕ
  pub scope : ℕ
  pub factors : ℕ
  pub rot : ℕ
  pub cred_id : List ℕ
  pub auth_time : Option ℤ
  pub not_before : Option ℤ

-- `copy` into `n` zero bytes.
abbrev pub copied : ℕ → List ℕ → List ℕ
copied n bs = take n (bs ++ replicate n 0)

unfoldable pub cred_field : List ℕ → List ℕ
cred_field id = if length id == cred_len then id else replicate cred_len 0

unfoldable pub token_payload : List ℕ → List ℕ → ℤ → Option ℤ → SessClaims → List ℕ
token_payload sid principal exp hard_exp c =
    (token_ver ∷ [])
    ++ (copied sid_len sid
        ++ (put_uint64 (of_int64 exp)
            ++ (put_uint64 (of_int64 (unix_nano_or_zero hard_exp))
                ++ (put_uint64 (of_int64 (unix_nano_or_zero c.auth_time))
                    ++ (put_uint64 (of_int64 (unix_nano_or_zero c.not_before))
                        ++ ((c.tier % 256 ∷ c.scope % 256 ∷ [])
                            ++ (put_uint16 c.factors
                                ++ (put_uint16 c.rot ++ (cred_field c.cred_id ++ principal)))))))))

-- `issue`; the times come back as they were given.
unfoldable pub issue : Mac → List ℕ → List ℕ → List ℕ → ℤ → Option ℤ → SessClaims → List ℕ
issue mac key sid principal exp hard_exp c =
    let payload = token_payload sid principal exp hard_exp c in
    session_prefix ++ Base64.encode (payload ++ mac key payload)

pub record Parsed : Type 0 where
  pub sid : List ℕ
  pub exp : ℤ
  pub hard_exp : ℤ
  pub principal : List ℕ
  pub claims : SessClaims

-- The 64-bit word at an offset, as an int64.
abbrev pub int64_at : ℕ → List ℕ → ℤ
int64_at off payload = int64 (uint64 (take 8 (drop off payload)))

abbrev pub byte_at : ℕ → List ℕ → ℕ
byte_at off payload = uint64 (take 1 (drop off payload))

abbrev pub uint16_at : ℕ → List ℕ → ℕ
uint16_at off payload = uint64 (take 2 (drop off payload))

unfoldable pub read_payload : List ℕ → Parsed
read_payload payload = record {
  sid = take sid_len (drop 1 payload);
  exp = int64_at 17 payload;
  hard_exp = int64_at 25 payload;
  principal = drop hdr_len payload;
  claims = record {
    tier = byte_at 49 payload;
    scope = byte_at 50 payload;
    factors = uint16_at 51 payload;
    rot = uint16_at 53 payload;
    cred_id = take cred_len (drop 55 payload);
    auth_time = time_from_nano (int64_at 33 payload);
    not_before = time_from_nano (int64_at 41 payload);
  };
}

abbrev pub first_byte : List ℕ → Option ℕ
first_byte [] = none
first_byte (b ∷ bs) = some b

abbrev pub is_version : Option ℕ → Bool
is_version none = false
is_version (some v) = v == token_ver

unfoldable pub parse_raw : Mac → List ℕ → List ℕ → Option Parsed
parse_raw mac key raw =
    if ltb (length raw) (hdr_len + 1 + sum_size) || not (is_version (first_byte raw))
    then none
    else let payload = take (length raw - sum_size) raw in
      if not (drop (length raw - sum_size) raw == mac key payload)
      then none
      else some (read_payload payload)

-- `none` is errInvalidCredential.
unfoldable pub parse : Mac → List ℕ → List ℕ → Option Parsed
parse mac key token = elim (cut_prefix session_prefix token) [
  | none ↦ none
  | some body ↦ elim (Base64.decode body) [ none ↦ none | some raw ↦ parse_raw mac key raw ]
]
