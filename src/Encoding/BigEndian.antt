-- ===== src/Encoding/BigEndian.antt =====
-- binary.BigEndian on 64-bit words: eight bytes, the highest first.
use quicsql.Prelude.{
  ℕ, zero, suc, ◌+◌, ◌*◌, ◌/◌, ◌%◌, ◌^◌, ◌<◌, ◌≡◌, refl, List, [], ◌∷◌, All, length, arith,
}

abbrev pub word : ℕ
word = 2 ^ 64

unfoldable pub put_uint64 : ℕ → List ℕ
put_uint64 x =
    (x / 2 ^ 56 % 256)
    ∷ (x / 2 ^ 48 % 256)
    ∷ (x / 2 ^ 40 % 256)
    ∷ (x / 2 ^ 32 % 256)
    ∷ (x / 2 ^ 24 % 256)
    ∷ (x / 2 ^ 16 % 256)
    ∷ (x / 2 ^ 8 % 256)
    ∷ (x % 256)
    ∷ []

-- The value of a run of digits behind `acc`.
uint_from : ℕ → List ℕ → ℕ
uint_from acc [] = acc
uint_from acc (b ∷ bs) = uint_from (acc * 256 + b) bs

unfoldable pub uint64 : List ℕ → ℕ
unfolding uint_from
uint64 bs = uint_from 0 bs

pub uint64-put_uint64 : (x : ℕ) → x < word → uint64 (put_uint64 x) ≡ x
unfolding uint64 put_uint64
uint64-put_uint64 x h = omega arith

pub put_uint64-All : (x : ℕ) → All (λ b. b < 256) (put_uint64 x)
unfolding put_uint64
put_uint64-All x = omega arith

pub length-put_uint64 : (x : ℕ) → length (put_uint64 x) ≡ 8
unfolding put_uint64
length-put_uint64 x = refl

unfoldable pub put_uint16 : ℕ → List ℕ
put_uint16 x = (x / 2 ^ 8 % 256) ∷ (x % 256) ∷ []

pub uint16-put_uint16 : (x : ℕ) → x < 2 ^ 16 → uint64 (put_uint16 x) ≡ x
unfolding uint64 put_uint16
uint16-put_uint16 x h = omega arith

pub put_uint16-All : (x : ℕ) → All (λ b. b < 256) (put_uint16 x)
unfolding put_uint16
put_uint16-All x = omega arith

pub length-put_uint16 : (x : ℕ) → length (put_uint16 x) ≡ 2
unfolding put_uint16
length-put_uint16 x = refl

-- What one more digit multiplies a bound by, `n` times.
abbrev pub scale : ℕ → ℕ → ℕ
scale bound zero = bound
scale bound (suc n) = scale (bound * 256) n

uint_from-bound :
    (n acc bound : ℕ) (bs : List ℕ)
    → acc < bound
    → length bs ≡ n
    → All (λ b. b < 256) bs
    → uint_from acc bs < scale bound n
unfolding uint_from
uint_from-bound zero acc bound [] h e a = h
uint_from-bound zero acc bound (b ∷ bs) h e a = absurd (omega arith)
uint_from-bound (suc n) acc bound [] h e a = absurd (omega arith)
uint_from-bound (suc n) acc bound (b ∷ bs) h e a =
    uint_from-bound n (acc * 256 + b) (bound * 256) bs (omega (arith, a.0)) (omega arith) a.1

pub uint64-bound :
    (n : ℕ) (bs : List ℕ) → length bs ≡ n → All (λ b. b < 256) bs → uint64 bs < scale 1 n
unfolding uint64
uint64-bound n bs e a = uint_from-bound n 0 1 bs (omega arith) e a
