-- ===== src/Engine/Queries.antt =====
-- engine/engine.go: Query and the transaction of Batch. What the driver answers to a query is a
-- record of what each of its calls gives; errors are as `wrap` makes them. The database, with the
-- transaction that is open on it, is a state, which beginning, running a statement, committing and
-- rolling back change; they are the driver's.
pub mod Caps
pub mod Atomic
use quicsql.Prelude.{
  ℕ, String, zero, suc, ◌+◌, Bool, true, false, ◌||◌, leb, if◌then◌else◌, List, [], ◌∷◌, ◌++◌,
  Option, none, some, length,
}
use quicsql.Prelude.Int.{ℤ, pos, negsuc}
use quicsql.Prelude.Result.{Result, ok, err}

pub record Engine : Type 0 where
  pub max_rows : ℕ
  pub max_bytes : ℕ

abbrev pub default_max_rows : ℕ
default_max_rows = 100_000

abbrev pub default_max_result_bytes : ℕ
default_max_result_bytes = 67_108_864

abbrev pub positive_or : ℕ → ℤ → ℕ
positive_or d (pos zero) = d
positive_or d (pos (suc n)) = suc n
positive_or d (negsuc n) = d

unfoldable pub new_engine : ℤ → ℤ → Engine
new_engine max_rows max_result_bytes = record {
  max_rows = positive_or default_max_rows max_rows;
  max_bytes = positive_or default_max_result_bytes max_result_bytes;
}

module _ {C : Type 0} (size : C → ℕ) where
  -- The bytes after a row, and whether the total reached the cap within it.
  unfoldable pub add_row : ℕ → ℕ → List C → ℕ × Bool
  add_row cap bytes [] = (bytes, false)
  add_row cap bytes (c ∷ cs) =
      let now = bytes + size c in let rest = add_row cap now cs in (rest.0, leb cap now || rest.1)

  -- The loop over the rows, after the `n` that the result already has: the rows and whether they
  -- were cut short, or the error of a Scan.
  unfoldable pub scan_rows :
      {E : Type 0} → Engine → ℕ → ℕ → List (Result E (List C)) → Result E (List (List C) × Bool)
  scan_rows e n bytes [] = ok ([], false)
  scan_rows e n bytes (row ∷ rows) = if leb e.max_rows n then ok ([], true) else elim row [
    | err x ↦ err x
    | ok cells ↦
        if (add_row e.max_bytes bytes cells).1
        then ok (cells ∷ [], true)
        else elim (scan_rows e (n + 1) (add_row e.max_bytes bytes cells).0 rows) [
          | err x ↦ err x
          | ok (out, cut) ↦ ok (cells ∷ out, cut)
        ]
  ]

-- What the driver gives: an error of QueryContext, the columns, for each true answer of Next what
-- Scan gives, and what rows.Err answers after the loop. Next is false after the last row, be it
-- that there are no more rows or that the iteration failed, which only rows.Err tells.
pub record Answer (E C : Type 0) : Type 0 where
  pub opened : Option E
  pub columns : Result E (List String)
  pub rows : List (Result E (List C))
  pub closing : Option E

pub record QueryResult (C : Type 0) : Type 0 where
  pub columns : List String
  pub rows : List (List C)
  pub truncated : Bool

module _ {C : Type 0} (size : C → ℕ) where
  -- The result and the error, which Go returns side by side.
  unfoldable pub query : {E : Type 0} → Engine → Answer E C → Option (QueryResult C) × Option E
  query e a = elim a.opened [
    | some x ↦ (none, some x)
    | none ↦ elim a.columns [
      | err x ↦ (none, some x)
      | ok columns ↦ elim (scan_rows size e 0 0 a.rows) [
        | err x ↦ (none, some x)
        | ok (rows, cut) ↦
            (some (record { columns = columns; rows = rows; truncated = cut }), a.closing)
      ]
    ]
  ]

module _ {D S R E : Type 0} (begin : D → Result E D) (run : D → S → D × Result E R)
    (commit : D → D × Option E) (rollback : D → D) where
  pub data BatchError : Type 0 where
    not_begun not_committed : E → BatchError
    at_statement : ℕ → E → BatchError

  -- The statements from the one at `i` on, in the transaction: its end, and the results or the
  -- failing index.
  unfoldable pub run_all : D → ℕ → List S → D × Result (ℕ × E) (List R)
  run_all tx i [] = (tx, ok [])
  run_all tx i (s ∷ stmts) =
      let rest = run_all (run tx s).0 (i + 1) stmts in
      elim (run tx s).1 [
        | err e ↦ ((run tx s).0, err (i, e))
        | ok r ↦ (rest.0, elim rest.1 [ err e ↦ err e | ok out ↦ ok (r ∷ out) ])
      ]

  unfoldable pub finish_batch : D × Result (ℕ × E) (List R) → D × Result BatchError (List R)
  finish_batch (tx, err (i, e)) = (rollback tx, err (at_statement i e))
  finish_batch (tx, ok out) = elim (commit tx).1 [
    | some e ↦ ((commit tx).0, err (not_committed e))
    | none ↦ ((commit tx).0, ok out)
  ]

  unfoldable pub batch : D → List S → D × Result BatchError (List R)
  unfolding run_all finish_batch
  batch d stmts = elim (begin d) [
    | err e ↦ (d, err (not_begun e))
    | ok tx ↦ finish_batch (run_all tx 0 stmts)
  ]
