-- ===== src/Engine/Classify/Comments.antt =====
-- What the first token is behind blanks and comments.
use quicsql.Prelude.{
  ℕ, ◌≡◌, refl, ap, ◌∙◌, sym, false, nat_eq, List, [], ◌∷◌, ◌++◌, arith, ◌≢◌, ◌⊎◌, All,
}
use quicsql.Encoding.Strings.{has_prefix}
use quicsql.Engine.Classify.{
  after_byte, after_close, trim_left, line_comment, block_comment, start_of, trim_bom, first_token,
  bom,
}
use quicsql.Engine.Classify.Fuel.{on_start, leading, leading_lem, first_token-leading}

-- No `*/` begins inside the text.
abbrev pub Unclosed : List ℕ → Type 0
Unclosed [] = Unit
Unclosed (c ∷ []) = Unit
Unclosed (c ∷ d ∷ s) = ((c ≢ b'*') ⊎ (d ≢ b'/')) × Unclosed (d ∷ s)

after_close-Unclosed :
    (body rest : List ℕ) → Unclosed body → after_close (body ++ (b'*' ∷ b'/' ∷ rest)) ≡ rest
unfolding after_close has_prefix
after_close-Unclosed [] rest u = refl
after_close-Unclosed (c ∷ []) rest u = ground arith
after_close-Unclosed (c ∷ d ∷ s) rest u = ground (arith, after_close-Unclosed (d ∷ s) rest u.1)

start_of-block :
    (body rest : List ℕ)
    → Unclosed (b'*' ∷ body)
    → start_of (b'/' ∷ b'*' ∷ (body ++ (b'*' ∷ b'/' ∷ rest))) ≡ block_comment rest
unfolding start_of
start_of-block body rest u = ap block_comment (after_close-Unclosed (b'*' ∷ body) rest u)

after_byte-All :
    (body rest : List ℕ) → All (λ c. c ≢ 10) body → after_byte 10 (body ++ (10 ∷ rest)) ≡ rest
unfolding after_byte
after_byte-All [] rest u = refl
after_byte-All (c ∷ s) rest u = ground (arith, after_byte-All s rest u.1)

start_of-slash_star_slash :
    (rest : List ℕ) → start_of (b'/' ∷ b'*' ∷ b'/' ∷ rest) ≡ block_comment rest
unfolding start_of
start_of-slash_star_slash rest = refl

start_of-line :
    (body rest : List ℕ)
    → All (λ c. c ≢ 10) body
    → start_of (b'-' ∷ b'-' ∷ (body ++ (10 ∷ rest))) ≡ line_comment rest
unfolding start_of
start_of-line body rest u = ap line_comment (after_byte-All body rest u)

-- Space, tab, carriage return, line feed and form feed.
abbrev pub IsBlank : ℕ → Type 0
IsBlank c = (c ≡ 32) ⊎ ((c ≡ 9) ⊎ ((c ≡ 13) ⊎ ((c ≡ 10) ⊎ (c ≡ 12))))

trim_left-blanks :
    (blanks rest : List ℕ) → All IsBlank blanks → trim_left (blanks ++ rest) ≡ trim_left rest
unfolding trim_left
trim_left-blanks [] rest h = refl
trim_left-blanks (c ∷ blanks) rest h = ground (arith, trim_left-blanks blanks rest h.1)

start_of-blanks :
    (blanks rest : List ℕ) → All IsBlank blanks → start_of (blanks ++ rest) ≡ start_of rest
unfolding start_of
start_of-blanks blanks rest h = rw (trim_left-blanks blanks rest h) refl

trim_bom-blanks :
    (blanks rest : List ℕ)
    → All IsBlank blanks
    → has_prefix bom rest ≡ false
    → trim_bom (blanks ++ rest) ≡ blanks ++ rest
unfolding trim_bom has_prefix
trim_bom-blanks [] rest h unmarked = ground arith
trim_bom-blanks (c ∷ blanks) rest h unmarked = ground (arith, h.0)

-- Before a text that starts with no byte-order mark the first token is not changed by a byte-order
-- mark, by blanks, however many (spaces, tabs, carriage returns, line feeds and form feeds), by a
-- line comment, or by a block comment in whose text, read with the star that opens it, no end of
-- comment begins.
pub first_token-skips :
    (blanks line block rest : List ℕ)
    → has_prefix bom rest ≡ false
    → All IsBlank blanks
    → All (λ c. c ≢ 10) line
    → Unclosed (b'*' ∷ block)
    → (first_token (bom ++ rest) ≡ first_token rest)
      × (first_token (blanks ++ rest) ≡ first_token rest)
      × (first_token (b'-' ∷ b'-' ∷ (line ++ (10 ∷ rest))) ≡ first_token rest)
      × (first_token (b'/' ∷ b'*' ∷ (block ++ (b'*' ∷ b'/' ∷ rest))) ≡ first_token rest)
first_token-skips blanks line block rest unmarked white one_line unclosed =
    rw (first_token-leading rest, plain)
      (
        first_token-leading (bom ++ rest) ∙ unfold trim_bom in refl,
        first_token-leading (blanks ++ rest)
            ∙ (ap leading (trim_bom-blanks blanks rest white unmarked)
                ∙ (leading_lem (blanks ++ rest)
                    ∙ (ap (on_start leading) (start_of-blanks blanks rest white)
                        ∙ sym (leading_lem rest)))),
        first_token-leading (b'-' ∷ b'-' ∷ (line ++ (10 ∷ rest)))
            ∙ unfold trim_bom in
              (leading_lem (b'-' ∷ b'-' ∷ (line ++ (10 ∷ rest)))
                ∙ ap (on_start leading) (start_of-line line rest one_line)),
        first_token-leading (b'/' ∷ b'*' ∷ (block ++ (b'*' ∷ b'/' ∷ rest)))
            ∙ unfold trim_bom in
              (leading_lem (b'/' ∷ b'*' ∷ (block ++ (b'*' ∷ b'/' ∷ rest)))
                ∙ ap (on_start leading) (start_of-block block rest unclosed)),
      )
  where
    plain : trim_bom rest ≡ rest
    plain = unfold trim_bom in ground arith

-- The bytes `/*/` are taken for a whole comment, whatever follows: the first token is the first
-- token of what follows, although no comment has ended there.
pub slash_star_slash-first_token :
    (rest : List ℕ)
    → has_prefix bom rest ≡ false
    → first_token (b'/' ∷ b'*' ∷ b'/' ∷ rest) ≡ first_token rest
slash_star_slash-first_token rest unmarked =
    rw (first_token-leading rest, plain)
      (first_token-leading (b'/' ∷ b'*' ∷ b'/' ∷ rest)
        ∙ unfold trim_bom in
          (leading_lem (b'/' ∷ b'*' ∷ b'/' ∷ rest)
            ∙ ap (on_start leading) (start_of-slash_star_slash rest)))
  where
    plain : trim_bom rest ≡ rest
    plain = unfold trim_bom in ground arith
