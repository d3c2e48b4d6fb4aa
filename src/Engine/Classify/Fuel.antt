-- ===== src/Engine/Classify/Fuel.antt =====
-- The loop of firstToken ends, and what it returns.
use quicsql.Prelude.{
  ℕ, zero, suc, ◌+◌, ◌<◌, ◌≤◌, ◌≡◌, refl, ap, ◌∙◌, true, nat_eq, List, [], ◌∷◌, length, drop,
  Option, some, arith, if_cases, length-drop,
}
use quicsql.Encoding.Strings.{has_prefix}
use quicsql.Engine.Classify.{
  after_byte, after_close, trim_left, take_word, Start, line_comment, block_comment, word, start_of,
  token_loop, trim_bom, first_token, bom, or_empty,
}

length-after_byte : (b : ℕ) (s : List ℕ) → length (after_byte b s) ≤ length s
unfolding after_byte
length-after_byte b [] = omega arith
length-after_byte b (c ∷ s) = ground (arith, length-after_byte b s)

length-drop_one : (s : List ℕ) → length (drop 1 s) ≤ length s
length-drop_one [] = omega arith
length-drop_one (c ∷ s) = omega arith

length-after_close : (s : List ℕ) → length (after_close s) ≤ length s
unfolding after_close
length-after_close [] = omega arith
length-after_close (c ∷ s) = ground (arith, length-after_close s, length-drop_one s)

length-trim_left : (s : List ℕ) → length (trim_left s) ≤ length s
unfolding trim_left
length-trim_left [] = omega arith
length-trim_left (c ∷ s) = ground (arith, length-trim_left s)

line_comment-shorter :
    (s : List ℕ) → has_prefix (b'-' ∷ b'-' ∷ []) s ≡ true → length (after_byte 10 s) < length s
unfolding has_prefix after_byte
line_comment-shorter [] h = cc
line_comment-shorter (c ∷ s) h = ground (arith, length-after_byte 10 s)

block_comment-shorter :
    (s : List ℕ) → has_prefix (b'/' ∷ b'*' ∷ []) s ≡ true → length (after_close s) < length s
unfolding has_prefix after_close
block_comment-shorter [] h = cc
block_comment-shorter (c ∷ s) h = ground (arith, length-after_close s, length-drop_one s)

-- A comment leaves a shorter text.
abbrev Shorter : List ℕ → Start → Type 0
Shorter sql (line_comment rest) = length rest < length sql
Shorter sql (block_comment rest) = length rest < length sql
Shorter sql (word s) = Unit

start_of-Shorter : (sql : List ℕ) → Shorter sql (start_of sql)
unfolding start_of
start_of-Shorter sql =
    if_cases (Shorter sql) (has_prefix (b'-' ∷ b'-' ∷ []) (trim_left sql))
      (λ h. omega (arith, line_comment-shorter (trim_left sql) h, length-trim_left sql))
      λ _.
        if_cases (Shorter sql) (has_prefix (b'/' ∷ b'*' ∷ []) (trim_left sql))
          (λ h. omega (arith, block_comment-shorter (trim_left sql) h, length-trim_left sql))
          (λ _. tt)

-- What a round does with the start of the text, when `go` takes the rest.
abbrev pub on_start : (List ℕ → List ℕ) → Start → List ℕ
on_start go (line_comment rest) = go rest
on_start go (block_comment rest) = go rest
on_start go (word w) = take_word w

-- The same while the rest may run out of fuel.
abbrev on_start_some : (List ℕ → Option (List ℕ)) → Start → Option (List ℕ)
on_start_some go (line_comment rest) = go rest
on_start_some go (block_comment rest) = go rest
on_start_some go (word w) = some (take_word w)

token_loop-suc :
    (m : ℕ) (s : List ℕ) → token_loop (suc m) s ≡ on_start_some (token_loop m) (start_of s)
unfolding token_loop
token_loop-suc m s = by_start (start_of s)
  where
    by_start :
        (t : Start)
        → ◌≡◌ {A = Option (List ℕ)}
            (elim t [
              | line_comment rest ↦ token_loop m rest
              | block_comment rest ↦ token_loop m rest
              | word w ↦ some (take_word w)
            ])
            (on_start_some (token_loop m) t)
    by_start (line_comment rest) = refl
    by_start (block_comment rest) = refl
    by_start (word w) = refl

same_rest :
    (f g : List ℕ → Option (List ℕ)) (s : List ℕ) (t : Start)
    → ((r : List ℕ) → length r < length s → f r ≡ g r)
    → Shorter s t
    → on_start_some f t ≡ on_start_some g t
same_rest f g s (line_comment rest) h lt = h rest lt
same_rest f g s (block_comment rest) h lt = h rest lt
same_rest f g s (word w) h lt = refl

-- More fuel than the text is long makes no difference.
token_loop_fuel :
    (m n : ℕ) (s : List ℕ) → length s < m → length s < n → token_loop m s ≡ token_loop n s
token_loop_fuel zero n s h k = absurd (omega arith)
token_loop_fuel (suc m) zero s h k = absurd (omega arith)
token_loop_fuel (suc m) (suc n) s h k =
    rw (token_loop-suc m s, token_loop-suc n s)
      (same_rest (token_loop m) (token_loop n) s (start_of s)
        (λ r lt. token_loop_fuel m n r (omega arith) (omega arith)) (start_of-Shorter s))

rest-returns :
    (f : List ℕ → Option (List ℕ)) (s : List ℕ) (t : Start)
    → ((r : List ℕ) → length r < length s → f r ≡ some (or_empty (f r)))
    → Shorter s t
    → on_start_some f t ≡ some (or_empty (on_start_some f t))
rest-returns f s (line_comment rest) h lt = h rest lt
rest-returns f s (block_comment rest) h lt = h rest lt
rest-returns f s (word w) h lt = refl

-- With more fuel than the text is long the loop returns.
token_loop-returns :
    (m : ℕ) (s : List ℕ) → length s < m → token_loop m s ≡ some (or_empty (token_loop m s))
token_loop-returns zero s h = absurd (omega arith)
token_loop-returns (suc m) s h = rw (token_loop-suc m s) (
    rest-returns (token_loop m) s (start_of s) (λ r lt. token_loop-returns m r (omega arith))
      (start_of-Shorter s))

-- The leading word of a text, once a mark at its start is gone.
abbrev pub leading : List ℕ → List ℕ
leading s = or_empty (token_loop (length s + 1) s)

or_empty-on_start :
    (f : List ℕ → Option (List ℕ)) (t : Start)
    → or_empty (on_start_some f t) ≡ on_start (λ r. or_empty (f r)) t
or_empty-on_start f (line_comment rest) = refl
or_empty-on_start f (block_comment rest) = refl
or_empty-on_start f (word w) = refl

pub leading_lem : (s : List ℕ) → leading s ≡ on_start leading (start_of s)
leading_lem s =
    let more : length s + 1 ≡ suc (length s) = omega arith in
    let whole = λ (r : List ℕ). token_loop (length r + 1) r in
    let all : token_loop (length s + 1) s ≡ on_start_some whole (start_of s) =
      rw (more, token_loop-suc (length s) s)
        (same_rest (token_loop (length s)) whole s (start_of s)
          (λ r lt. token_loop_fuel (length s) (length r + 1) r lt (omega arith))
          (start_of-Shorter s)) in
    ap or_empty all ∙ or_empty-on_start whole (start_of s)

length-trim_bom : (s : List ℕ) → length (trim_bom s) ≤ length s
unfolding trim_bom
length-trim_bom s =
    if_cases (λ (t : List ℕ). length t ≤ length s) (has_prefix bom s)
      (λ _. omega (arith, length-drop 3 s)) (λ _. omega arith)

pub first_token-leading : (s : List ℕ) → first_token s ≡ leading (trim_bom s)
unfolding first_token
first_token-leading s = ap or_empty (
    token_loop_fuel (length s + 1) (length (trim_bom s) + 1) (trim_bom s)
      (omega (arith, length-trim_bom s)) (omega arith))

-- The loop of firstToken ends: with any fuel above the length of the text, so after at most as many
-- rounds as the text has bytes and one more, it returns, and what it returns is the first token.
pub token_loop-first_token :
    (fuel : ℕ) (sql : List ℕ)
    → length sql < fuel
    → token_loop fuel (trim_bom sql) ≡ some (first_token sql)
unfolding first_token
token_loop-first_token fuel sql h =
    let small = length-trim_bom sql in
    token_loop_fuel fuel (length sql + 1) (trim_bom sql) (omega arith) (omega arith)
    ∙ token_loop-returns (length sql + 1) (trim_bom sql) (omega arith)
