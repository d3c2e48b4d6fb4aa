-- ===== src/Meta/Rows.antt =====
-- What a look-up by key finds after the rows change.
use quicsql.Prelude.{
  ℕ, ◌+◌, ◌≡◌, ◌≢◌, refl, sym, ap, ◌∙◌, ◌==◌, bytes_eq, if◌then◌else◌, List, [], ◌∷◌, length, none,
  some, arith, Option-cases, inl, inr,
}
use quicsql.Prelude.Map.{Map, lookup, insert, delete}
use quicsql.Meta.{Store, Row, name_of_key, enrolled_by_key, put_enrolled}

name_of_key-insert :
    (k name : List ℕ) (row : Row) (rows : Map (List ℕ) Row)
    → lookup name rows ≡ none
    → name_of_key row.key rows ≡ none
    → name_of_key k (insert name row rows)
      ≡ (if row.key == k then some name else name_of_key k rows)
unfolding lookup insert
name_of_key-insert k name row [] new free = refl
name_of_key-insert k name row ((j, r) ∷ rows) new free = ground (
  arith,
  bytes_eq.beq_iff r.key row.key,
  bytes_eq.beq_iff r.key k,
  bytes_eq.beq_iff row.key k,
  name_of_key-insert k name row rows (ground arith) (ground arith),
)

pub name_of_key-delete :
    (k name n : List ℕ) (rows : Map (List ℕ) Row)
    → name_of_key k rows ≡ some n
    → n ≢ name
    → name_of_key k (delete name rows) ≡ some n
unfolding delete
name_of_key-delete k name n [] h ne = absurd (cc)
name_of_key-delete k name n ((j, r) ∷ rows) h ne =
    ground (arith, bytes_eq.beq_iff j name, name_of_key-delete k name n rows)

length-insert_new :
    (name : List ℕ) (row : Row) (rows : Map (List ℕ) Row)
    → lookup name rows ≡ none
    → length (insert name row rows) ≡ length rows + 1
unfolding lookup insert
length-insert_new name row [] new = refl
length-insert_new name row ((j, r) ∷ rows) new = ground (arith, length-insert_new name row rows)

-- What an insert that the constraints allow does.
pub put_enrolled-some :
    (s s' : Store) (name key : List ℕ) (now : ℕ)
    → put_enrolled s name key now ≡ some s'
    → (lookup name s.enrolled ≡ none)
      × (s'.codes ≡ s.codes)
      × (length s'.enrolled ≡ length s.enrolled + 1)
      × ((k : List ℕ)
          → enrolled_by_key s' k ≡ (if key == k then some name else enrolled_by_key s k))
      × (s'.enrolled
          ≡ insert name (record { key = key; created_at = now; last_seen = none }) s.enrolled)
unfolding put_enrolled enrolled_by_key
put_enrolled-some s s' name key now h = elim (Option-cases (lookup name s.enrolled)) [
  | inr (row, taken) ↦ absurd (ground arith)
  | inl new ↦ elim (Option-cases (name_of_key key s.enrolled)) [
    | inr (other, taken) ↦ absurd (ground arith)
    | inl free ↦
        let row : Row = record { key = key; created_at = now; last_seen = none } in
        let same : record s { enrolled = insert name row s.enrolled } ≡ s' = ground arith in
        (
          new,
          ap (λ x. x.codes) (sym same),
          ap (λ x. length x.enrolled) (sym same) ∙ length-insert_new name row s.enrolled new,
          λ k.
              ap (λ x. name_of_key k x.enrolled) (sym same)
              ∙ name_of_key-insert k name row s.enrolled new free,
          ap (λ x. x.enrolled) (sym same),
        )
  ]
]
