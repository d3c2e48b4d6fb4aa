-- ===== src/Engine/Queries/Caps.antt =====
-- A result is a first part of the rows, within the caps, and cut short only at a cap.
use quicsql.Prelude.{
  subst, if_cases, String, ℕ, ◌+◌, ◌≤◌, ◌≡◌, refl, ap, Bool, true, false, leb, List, [], ◌∷◌, ◌++◌,
  Option, none, some, length, map, arith, inl, inr, ◌⊎◌,
}
use mathlib.Core.Option.{some-injective}
use quicsql.Prelude.Result.{Result, ok, err}
use quicsql.Engine.Queries.{Engine, Answer, QueryResult, add_row, scan_rows, query}

module _ {C : Type 0} (size : C → ℕ) where
  abbrev pub row_size : List C → ℕ
  row_size [] = 0
  row_size (c ∷ cs) = size c + row_size cs

  abbrev pub rows_size : List (List C) → ℕ
  rows_size [] = 0
  rows_size (r ∷ rs) = row_size r + rows_size rs

  add_row_lem :
      (cap bytes : ℕ) (cs : List C)
      → ((add_row size cap bytes cs).0 ≡ bytes + row_size cs)
        × ((add_row size cap bytes cs).1 ≡ true → cap ≤ bytes + row_size cs)
  unfolding add_row
  add_row_lem cap bytes [] = (omega arith, λ h. absurd (ground arith))
  add_row_lem cap bytes (c ∷ cs) =
      let (total, above) = add_row_lem cap (bytes + size c) cs in
      (ground (arith, total), λ h. ground (arith, above, total))

  -- Why the rows end where they do: at a cap when they were cut short, else with the last row.
  abbrev pub Ended :
      {E : Type 0} → Engine → ℕ → ℕ → List (List C) → Bool → List (Result E (List C)) → Type 0
  Ended e n bytes out true rest =
      (n + length out ≡ e.max_rows) ⊎ (e.max_bytes ≤ bytes + rows_size out)
  Ended e n bytes out false rest = rest ≡ []

  abbrev pub Scanned :
      {E : Type 0} → Engine → ℕ → ℕ → List (Result E (List C)) → List (List C) × Bool → Type 0
  Scanned {E = E} e n bytes rows (out, cut) =
      (rest : List (Result E (List C))) × (rows ≡ map ok out ++ rest)
      × (n + length out ≤ e.max_rows)
      × Ended e n bytes out cut rest

  module _ {E : Type 0} where
    Ended-cons :
        (e : Engine) (n bytes : ℕ) (r : List C) (out : List (List C)) (cut : Bool)
        (rest : List (Result E (List C)))
        → Ended e (n + 1) (bytes + row_size r) out cut rest
        → Ended e n bytes (r ∷ out) cut rest
    Ended-cons e n bytes r out true rest (inl h) = inl (omega arith)
    Ended-cons e n bytes r out true rest (inr h) = inr (omega arith)
    Ended-cons e n bytes r out false rest h = h

    abbrev Fits :
        Engine → ℕ → ℕ → List (Result E (List C)) → Result E (List (List C) × Bool) → Type 0
    Fits e n bytes rows (err x) = Unit
    Fits e n bytes rows (ok result) = Scanned e n bytes rows result

    Fits-cons :
        (e : Engine) (n bytes next : ℕ) (cells : List C) (rows : List (Result E (List C)))
        (o : Result E (List (List C) × Bool))
        → next ≡ bytes + row_size cells
        → Fits e (n + 1) next rows o
        → Fits e n bytes
            (ok cells ∷ rows)
            (elim o [ err x ↦ err x | ok (out, cut) ↦ ok (cells ∷ out, cut) ])
    Fits-cons e n bytes next cells rows (err x) total h = tt
    Fits-cons e n bytes next cells rows (ok (out, cut)) total (rest, split, room, ended) = (
      rest,
      ap (λ (rs : List (Result E (List C))). ok cells ∷ rs) split,
      omega arith,
      Ended-cons e n bytes cells out cut rest
          (subst (λ (b : ℕ). Ended e (n + 1) b out cut rest) total ended),
    )

    scan_rows-Fits :
        (e : Engine) (n bytes : ℕ) (rows : List (Result E (List C)))
        → n ≤ e.max_rows
        → Fits e n bytes rows (scan_rows size e n bytes rows)
    unfolding scan_rows
    scan_rows-Fits e n bytes [] room = ([], refl, omega arith, refl)
    scan_rows-Fits e n bytes (err x ∷ rows) room =
        if_cases (λ (o : Result E (List (List C) × Bool)). Fits e n bytes (err x ∷ rows) o)
          (leb e.max_rows n) (λ full. (err x ∷ rows, refl, omega arith, inl (ground arith)))
          (λ more. tt)
    scan_rows-Fits e n bytes (ok cells ∷ rows) room =
        let (total, above) = add_row_lem e.max_bytes bytes cells in
        if_cases (λ (o : Result E (List (List C) × Bool)). Fits e n bytes (ok cells ∷ rows) o)
          (leb e.max_rows n) (λ full. (ok cells ∷ rows, refl, omega arith, inl (ground arith)))
          (λ more.
            if_cases (λ (o : Result E (List (List C) × Bool)). Fits e n bytes (ok cells ∷ rows) o)
              (add_row size e.max_bytes bytes cells).1
              (λ cut. (rows, refl, ground arith, inr (omega (arith, above cut))))
              (λ on.
                Fits-cons e n bytes (add_row size e.max_bytes bytes cells).0 cells rows
                  (scan_rows size e (n + 1) (add_row size e.max_bytes bytes cells).0 rows) total
                  (scan_rows-Fits e (n + 1) (add_row size e.max_bytes bytes cells).0 rows
                    (ground arith))))

    -- The driver reported no error, and the rows of the result are what the caps leave of its rows.
    pub record Answered (e : Engine) (a : Answer E C) (r : QueryResult C) : Type 0 where
      pub opened : a.opened ≡ none
      pub columns : a.columns ≡ ok r.columns
      pub closing : a.closing ≡ none
      pub scanned : Scanned e 0 0 a.rows (r.rows, r.truncated)

    query-cases :
        (opened closing : Option E) (columns : Result E (List String))
        (scanned : Result E (List (List C) × Bool)) (r : QueryResult C)
        → ◌≡◌ {A = Option (QueryResult C) × Option E}
            (elim opened [
              | some x ↦ (none, some x)
              | none ↦ elim columns [
                | err x ↦ (none, some x)
                | ok names ↦ elim scanned [
                  | err x ↦ (none, some x)
                  | ok (rows, cut) ↦
                      (some (record { columns = names; rows = rows; truncated = cut }), closing)
                ]
              ]
            ])
            (some r, none)
        → (opened ≡ none)
          × (columns ≡ ok r.columns)
          × (closing ≡ none)
          × (scanned ≡ ok (r.rows, r.truncated))
    query-cases (some x) closing columns scanned r h = absurd (cc)
    query-cases none closing (err x) scanned r h = absurd (cc)
    query-cases none closing (ok names) (err x) r h = absurd (cc)
    query-cases none closing (ok names) (ok (rows, cut)) r h =
        let same = some-injective _ _ (ap (λ x. x.0) h) in
        (
          refl,
          ap (λ x. ok x.columns) same,
          ap (λ x. x.1) h,
          ap (λ x. ok (x.rows, x.truncated)) same,
        )

    -- A query that returns a result and no error: the driver reported none, neither when it ran the
    -- query nor at the end of the iteration; the columns are the driver's; the rows are a first part
    -- of the driver's, in order and at most the row cap; if they are not marked as cut short they are
    -- all, and if they are, they are as many as the cap or at least as many bytes as the byte cap.
    pub query-Answered :
        (e : Engine) (a : Answer E C) (r : QueryResult C)
        → query size e a ≡ (some r, none)
        → Answered e a r
    unfolding query
    query-Answered e a r h =
        let (opened, columns, closing, scanned) =
          query-cases a.opened a.closing a.columns (scan_rows size e 0 0 a.rows) r h in
        record {
          opened = opened;
          columns = columns;
          closing = closing;
          scanned = subst (Fits e 0 0 a.rows) scanned (scan_rows-Fits e 0 0 a.rows (omega arith));
        }
