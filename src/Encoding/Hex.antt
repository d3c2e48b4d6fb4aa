-- ===== src/Encoding/Hex.antt =====
-- hex.EncodeToString: two lower-case digits for each byte.
use quicsql.Prelude.{
  ℕ, ◌+◌, ◌-◌, ◌*◌, ◌/◌, ◌%◌, ◌&&◌, ltb, leb, if◌then◌else◌, List, [], ◌∷◌, Option, none, some,
}

unfoldable pub hex_digit : ℕ → ℕ
hex_digit d = if ltb d 10 then d + b'0' else d - 10 + b'a'

unfoldable pub encode : List ℕ → List ℕ
encode [] = []
encode (b ∷ bs) = hex_digit (b / 16) ∷ hex_digit (b % 16) ∷ encode bs

-- Either case of a digit.
unfoldable pub from_digit : ℕ → Option ℕ
from_digit c =
    if leb b'0' c && leb c b'9'
    then some (c - b'0')
    else if leb b'a' c && leb c b'f'
    then some (c - b'a' + 10)
    else if leb b'A' c && leb c b'F'
    then some (c - b'A' + 10)
    else none

-- `none` is an error; the bytes before it are not kept.
unfoldable pub decode : List ℕ → Option (List ℕ)
decode [] = some []
decode (c ∷ []) = none
decode (c ∷ d ∷ s) = elim (from_digit c) [
  | none ↦ none
  | some hi ↦ elim (from_digit d) [
    | none ↦ none
    | some lo ↦ elim (decode s) [ none ↦ none | some bs ↦ some ((hi * 16 + lo) ∷ bs) ]
  ]
]
