-- ===== src/Encoding/Base64.antt =====
-- base64.RawURLEncoding: the URL alphabet with no padding. Like Go's decoder this one skips line
-- breaks and ignores the unused low bits of a last, partial group.
use quicsql.Prelude.{
  false, ℕ, ◌+◌, ◌-◌, ◌*◌, ◌/◌, ◌%◌, ◌<◌, ◌≡◌, refl, subst, ◌&&◌, ◌||◌, ◌==◌, nat_eq, ltb, leb,
  if◌then◌else◌, List, [], ◌∷◌, All, Option, none, some, arith,
}
use quicsql.Encoding.Strings.{is_space, IsSolid}
use mathlib.Core.Option.{some-injective}

unfoldable pub to_char : ℕ → ℕ
to_char s =
    if ltb s 26
    then s + b'A'
    else if ltb s 52
    then s - 26 + b'a'
    else if ltb s 62
    then s - 52 + b'0'
    else if s == 62
    then b'-'
    else b'_'

unfoldable pub from_char : ℕ → Option ℕ
from_char c =
    if leb b'A' c && leb c b'Z'
    then some (c - b'A')
    else if leb b'a' c && leb c b'z'
    then some (c - b'a' + 26)
    else if leb b'0' c && leb c b'9'
    then some (c - b'0' + 52)
    else if c == b'-'
    then some 62
    else if c == b'_'
    then some 63
    else none

unfoldable pub encode : List ℕ → List ℕ
encode [] = []
encode (a ∷ []) = to_char (a / 4) ∷ to_char (a % 4 * 16) ∷ []
encode (a ∷ b ∷ []) = to_char (a / 4) ∷ to_char (a % 4 * 16 + b / 16) ∷ to_char (b % 16 * 4) ∷ []
encode (a ∷ b ∷ c ∷ rest) =
    to_char (a / 4)
    ∷ to_char (a % 4 * 16 + b / 16)
    ∷ to_char (b % 16 * 4 + c / 64)
    ∷ to_char (c % 64)
    ∷ encode rest

infixl 5 ◌>>=◌
abbrev ◌>>=◌ : {A B : Type 0} → Option A → (A → Option B) → Option B
none >>= f = none
some a >>= f = f a

unfoldable pub skip_breaks : List ℕ → List ℕ
skip_breaks [] = []
skip_breaks (c ∷ cs) = let rest = skip_breaks cs in if c == 10 || c == 13 then rest else c ∷ rest

unfoldable pub decode_groups : List ℕ → Option (List ℕ)
decode_groups [] = some []
decode_groups (x ∷ []) = none
decode_groups (x ∷ y ∷ []) = do a ← from_char x; b ← from_char y; some ((a * 4 + b / 16) ∷ [])
decode_groups (x ∷ y ∷ z ∷ []) = do
  a ← from_char x
  b ← from_char y
  c ← from_char z
  some ((a * 4 + b / 16) ∷ (b % 16 * 16 + c / 4) ∷ [])
decode_groups (x ∷ y ∷ z ∷ w ∷ rest) =
    let tail = decode_groups rest in
    do
      a ← from_char x
      b ← from_char y
      c ← from_char z
      d ← from_char w
      bs ← tail
      some ((a * 4 + b / 16) ∷ (b % 16 * 16 + c / 4) ∷ (c % 4 * 64 + d) ∷ bs)

unfoldable pub decode : List ℕ → Option (List ℕ)
unfolding skip_breaks decode_groups
decode s = decode_groups (skip_breaks s)

char-round_trip : (s : ℕ) → s < 64 → from_char (to_char s) ≡ some s
unfolding from_char to_char
char-round_trip s h = ground arith

-- Every byte string comes back from its encoding.
pub decode_groups-encode :
    (bs : List ℕ) → All (λ b. b < 256) bs → decode_groups (encode bs) ≡ some bs
unfolding decode_groups encode
decode_groups-encode [] h = refl
decode_groups-encode (a ∷ []) h =
    rw (char-round_trip (a / 4) (omega arith), char-round_trip (a % 4 * 16) (omega arith))
      (ground arith)
decode_groups-encode (a ∷ b ∷ []) h =
    rw
      (
        char-round_trip (a / 4) (omega arith),
        char-round_trip (a % 4 * 16 + b / 16) (omega arith),
        char-round_trip (b % 16 * 4) (omega arith),
      )
      (ground arith)
decode_groups-encode (a ∷ b ∷ c ∷ rest) h =
    rw
      (
        char-round_trip (a / 4) (omega arith),
        char-round_trip (a % 4 * 16 + b / 16) (omega arith),
        char-round_trip (b % 16 * 4 + c / 64) (omega arith),
        char-round_trip (c % 64) (omega arith),
        decode_groups-encode rest h.1.1.1,
      )
      (ground arith)

skip_char : (s : ℕ) (cs : List ℕ) → skip_breaks (to_char s ∷ cs) ≡ to_char s ∷ skip_breaks cs
unfolding skip_breaks to_char
skip_char s cs = ground arith

skip_breaks-encode : (bs : List ℕ) → skip_breaks (encode bs) ≡ encode bs
unfolding encode
skip_breaks-encode [] = unfold skip_breaks in refl
skip_breaks-encode (a ∷ []) = simp skip_char (unfold skip_breaks in refl)
skip_breaks-encode (a ∷ b ∷ []) = simp skip_char (unfold skip_breaks in refl)
skip_breaks-encode (a ∷ b ∷ c ∷ rest) = simp (skip_char, skip_breaks-encode rest)

pub decode-encode : (bs : List ℕ) → All (λ b. b < 256) bs → decode (encode bs) ≡ some bs
unfolding decode
decode-encode bs h = rw (skip_breaks-encode bs) (decode_groups-encode bs h)

from_char-bound : (c s : ℕ) → from_char c ≡ some s → s < 64
unfolding from_char
from_char-bound c s h = ground arith

>>=-some :
    {A B : Type 0} (o : Option A) (f : A → Option B) (b : B)
    → (o >>= f) ≡ some b
    → (a : A) × (o ≡ some a) × (f a ≡ some b)
>>=-some none f b h = absurd (cc)
>>=-some (some a) f b h = (a, refl, h)

-- A decoder's results are bytes.
decode_groups-All : (s bs : List ℕ) → decode_groups s ≡ some bs → All (λ b. b < 256) bs
unfolding decode_groups
decode_groups-All [] bs h = subst (All (λ b. b < 256)) (some-injective _ _ h) tt
decode_groups-All (x ∷ []) bs h = absurd (cc)
decode_groups-All (x ∷ y ∷ []) bs h =
    let (a, fx, h1) = >>=-some (from_char x) _ bs h in
    let (b, fy, h2) = >>=-some (from_char y) _ bs h1 in
    subst (All (λ b. b < 256)) (some-injective _ _ h2)
      (omega (arith, from_char-bound x a fx, from_char-bound y b fy))
decode_groups-All (x ∷ y ∷ z ∷ []) bs h =
    let (a, fx, h1) = >>=-some (from_char x) _ bs h in
    let (b, fy, h2) = >>=-some (from_char y) _ bs h1 in
    let (c, fz, h3) = >>=-some (from_char z) _ bs h2 in
    subst (All (λ b. b < 256)) (some-injective _ _ h3)
      (omega (arith, from_char-bound x a fx, from_char-bound y b fy, from_char-bound z c fz))
decode_groups-All (x ∷ y ∷ z ∷ w ∷ rest) bs h =
    let (a, fx, h1) = >>=-some (from_char x) _ bs h in
    let (b, fy, h2) = >>=-some (from_char y) _ bs h1 in
    let (c, fz, h3) = >>=-some (from_char z) _ bs h2 in
    let (d, fw, h4) = >>=-some (from_char w) _ bs h3 in
    let (tail, ft, h5) = >>=-some (decode_groups rest) _ bs h4 in
    subst (All (λ b. b < 256)) (some-injective _ _ h5) (
      omega (arith, from_char-bound x a fx, from_char-bound y b fy),
      (
        omega (arith, from_char-bound y b fy, from_char-bound z c fz),
        (
          omega (arith, from_char-bound z c fz, from_char-bound w d fw),
          decode_groups-All rest tail ft,
        ),
      ),
    )

pub decode-All : (s bs : List ℕ) → decode s ≡ some bs → All (λ b. b < 256) bs
unfolding decode
decode-All s bs h = decode_groups-All (skip_breaks s) bs h

-- No character of an encoding is a blank.
to_char-solid : (s : ℕ) → is_space (to_char s) ≡ false
unfolding to_char
to_char-solid s = ground arith

pub encode-IsSolid : (bs : List ℕ) → IsSolid (encode bs)
unfolding encode
encode-IsSolid [] = tt
encode-IsSolid (a ∷ []) = (to_char-solid _, (to_char-solid _, tt))
encode-IsSolid (a ∷ b ∷ []) = (to_char-solid _, (to_char-solid _, (to_char-solid _, tt)))
encode-IsSolid (a ∷ b ∷ c ∷ rest) =
    (to_char-solid _, (to_char-solid _, (to_char-solid _, (to_char-solid _, encode-IsSolid rest))))
