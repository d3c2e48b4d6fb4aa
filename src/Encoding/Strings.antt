-- ===== src/Encoding/Strings.antt =====
-- The functions of package strings and strconv that the credentials use, on ASCII bytes.
use Prim.Native.Char.{code}
use quicsql.Prelude.{
  String, ℕ, ◌+◌, ◌-◌, ◌*◌, Bool, true, false, ◌&&◌, ◌||◌, ◌==◌, nat_eq, ltb, leb, if◌then◌else◌,
  List, [], ◌∷◌, ◌++◌, Option, none, some, ◌≡◌, refl, All, arith,
}

abbrev pub bytes : String → List ℕ
bytes String.[] = []
bytes (String.◌∷◌ c s) = code c ∷ bytes s

abbrev pub is_space : ℕ → Bool
is_space c = c == 32 || leb 9 c && leb c 13

unfoldable pub trim_left : List ℕ → List ℕ
trim_left [] = []
trim_left (c ∷ s) = let rest = trim_left s in if is_space c then rest else c ∷ s

unfoldable pub trim_right : List ℕ → List ℕ
trim_right [] = []
trim_right (c ∷ s) = elim (trim_right s) [
  | [] ↦ if is_space c then [] else c ∷ []
  | ◌∷◌ d rest ↦ c ∷ d ∷ rest
]

unfoldable pub trim_space : List ℕ → List ℕ
trim_space s = trim_right (trim_left s)

unfoldable pub has_prefix : List ℕ → List ℕ → Bool
has_prefix [] s = true
has_prefix (p ∷ ps) [] = false
has_prefix (p ∷ ps) (c ∷ s) = p == c && has_prefix ps s

-- `strings.CutPrefix`.
unfoldable pub cut_prefix : List ℕ → List ℕ → Option (List ℕ)
cut_prefix [] s = some s
cut_prefix (p ∷ ps) [] = none
cut_prefix (p ∷ ps) (c ∷ s) = let rest = cut_prefix ps s in if p == c then rest else none

unfoldable pub to_lower : List ℕ → List ℕ
to_lower [] = []
to_lower (c ∷ s) = (if leb b'A' c && leb c b'Z' then c + 32 else c) ∷ to_lower s

digits_from : ℕ → ℕ → List ℕ → Option ℕ
digits_from bound n [] = if ltb n bound then some n else none
digits_from bound n (c ∷ s) =
    let rest = digits_from bound (n * 10 + (c - b'0')) s in
    if leb b'0' c && leb c b'9' then rest else none

-- `strconv.ParseUint(s, 10, bits)`; `bound` is `2 ^ bits`.
unfoldable pub parse_uint : ℕ → List ℕ → Option ℕ
unfolding digits_from
parse_uint bound [] = none
parse_uint bound (c ∷ s) = digits_from bound 0 (c ∷ s)

pub cut_prefix-append : (p s : List ℕ) → cut_prefix p (p ++ s) ≡ some s
unfolding cut_prefix
cut_prefix-append [] s = refl
cut_prefix-append (c ∷ p) s = ground (arith, cut_prefix-append p s, nat_eq.beq_iff c c)

pub has_prefix-append : (p s : List ℕ) → has_prefix p (p ++ s) ≡ true
unfolding has_prefix
has_prefix-append [] s = refl
has_prefix-append (c ∷ p) s = ground (arith, has_prefix-append p s, nat_eq.beq_iff c c)

-- No blanks in it.
abbrev pub IsSolid : List ℕ → Type 0
IsSolid = All (λ c. is_space c ≡ false)

trim_left-solid : (s : List ℕ) → IsSolid s → trim_left s ≡ s
unfolding trim_left
trim_left-solid [] h = refl
trim_left-solid (c ∷ s) h = rw h.0 refl

trim_right-solid : (s : List ℕ) → IsSolid s → trim_right s ≡ s
unfolding trim_right
trim_right-solid [] h = refl
trim_right-solid (c ∷ []) h = rw h.0 refl
trim_right-solid (c ∷ d ∷ s) h = rw (trim_right, trim_right-solid (d ∷ s) h.1) refl

pub trim_space-solid : (s : List ℕ) → IsSolid s → trim_space s ≡ s
unfolding trim_space
trim_space-solid s h = rw (trim_left-solid s h) (trim_right-solid s h)
