-- ===== src/Engine/Tests.antt =====
-- The classifier on small texts.
use quicsql.Prelude.{some, ap, Option, true, ◌≡◌, refl, ◌∷◌, ◌++◌, arith, inl, inr}
use quicsql.Prelude.{[], ℕ, zero, suc, ◌+◌, String, none}
use quicsql.Prelude.Result.{Result, ok, err}
use quicsql.Engine.Queries
use quicsql.Engine.Queries.{Engine, Answer, QueryResult, query, scan_rows, add_row}
use quicsql.Engine.Queries.Caps.{Answered, query-Answered}
use quicsql.Engine.Queries.Atomic.{BatchEnd, batch-BatchEnd}
use quicsql.Encoding.Strings.{bytes, has_prefix}
use quicsql.Engine.Classify.{bom, first_token, token_loop, trim_bom}
use quicsql.Engine.Classify.Comments.{first_token-skips}
use quicsql.Engine.Classify.Fuel.{token_loop-first_token}

first_token-skips_example :
    (first_token (bom ++ bytes "ATTACH x") ≡ first_token (bytes "ATTACH x"))
    × (first_token ((9 ∷ 10 ∷ []) ++ bytes "ATTACH x") ≡ first_token (bytes "ATTACH x"))
    × (first_token (b'-' ∷ b'-' ∷ (bytes "hi" ++ (10 ∷ bytes "ATTACH x")))
        ≡ first_token (bytes "ATTACH x"))
    × (first_token (b'/' ∷ b'*' ∷ (bytes "ok" ++ (b'*' ∷ b'/' ∷ bytes "ATTACH x")))
        ≡ first_token (bytes "ATTACH x"))
unfolding has_prefix
first_token-skips_example =
    first_token-skips (9 ∷ 10 ∷ []) (bytes "hi") (bytes "ok") (bytes "ATTACH x") refl
      (inr (inl refl), (inr (inr (inr (inl refl))), tt))
      ((λ h. ground arith), ((λ h. ground arith), tt))
      (inr (λ h. ground arith), (inl (λ h. ground arith), tt))

token_loop-first_token_example :
    token_loop 20 (trim_bom (bytes "/* a */ SELECT 1"))
    ≡ some (first_token (bytes "/* a */ SELECT 1"))
token_loop-first_token_example = token_loop-first_token 20 (bytes "/* a */ SELECT 1") (omega arith)

abbrev small_engine : Engine
small_engine = record { max_rows = 2; max_bytes = 100 }

-- Three rows, the last of which is over the cap.
abbrev three_rows : Answer String ℕ
three_rows = record {
  opened = none;
  columns = ok ("n" ∷ []);
  rows = ok (1 ∷ []) ∷ ok (2 ∷ []) ∷ ok (3 ∷ []) ∷ [];
  closing = none;
}

abbrev two_rows : QueryResult ℕ
two_rows = record { columns = "n" ∷ []; rows = (1 ∷ []) ∷ (2 ∷ []) ∷ []; truncated = true }

query-Answered_example : Answered (λ (c : ℕ). c) small_engine three_rows two_rows
unfolding query scan_rows add_row
query-Answered_example = query-Answered (λ (c : ℕ). c) small_engine three_rows two_rows refl

-- A database is what it holds and what the open transaction has made of it.
abbrev Db : Type 0
Db = ℕ × ℕ

abbrev begin_copy : Db → Result String Db
begin_copy (held, now) = ok (held, held)

-- A statement adds a number that is not 0.
abbrev add_up : Db → ℕ → Db × Result String ℕ
add_up (held, now) zero = ((held, now + 7), err "zero")
add_up (held, now) (suc n) = ((held, now + suc n), ok (now + suc n))

abbrev commit_all : Db → Db × Option String
commit_all (held, now) = ((now, now), none)

abbrev undo : Db → Db
undo (held, now) = (held, held)

-- A transaction on the database that holds 5.
abbrev OnFive : Db → Type 0
OnFive t = t.0 ≡ 5

OnFive-add_up : (t : Db) (s : ℕ) → OnFive t → OnFive (add_up t s).0
OnFive-add_up (held, now) zero h = h
OnFive-add_up (held, now) (suc n) h = h

batch-BatchEnd_example :
    BatchEnd begin_copy add_up commit_all undo
      (5, 5)
      (5, 5)
      (1 ∷ 0 ∷ [])
      (Queries.batch begin_copy add_up commit_all undo (5, 5) (1 ∷ 0 ∷ []))
batch-BatchEnd_example =
    batch-BatchEnd begin_copy add_up commit_all undo (5, 5) (5, 5) (1 ∷ 0 ∷ []) OnFive refl refl
      OnFive-add_up (λ t h. ap (λ x. (x, x)) h)
