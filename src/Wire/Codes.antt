-- ===== src/Wire/Codes.antt =====
-- internal/wire/codes.go: SQLite result codes and their names, both ways.
use quicsql.Prelude.{
  ℕ, ◌%◌, ◌≡◌, refl, String, Bool, true, false, ◌==◌, nat_eq, string_eq, if◌then◌else◌, [], ◌∷◌,
  ◌++◌, none, some, arith, All, Bool-cases, Option-cases, inl, inr, ap, ◌∙◌,
}
use quicsql.Prelude.Map.{Map, lookup, lookup_or}

abbrev pub primary_names : Map ℕ String
primary_names =
    (1, "SQLITE_ERROR")
    ∷ (5, "SQLITE_BUSY")
    ∷ (6, "SQLITE_LOCKED")
    ∷ (8, "SQLITE_READONLY")
    ∷ (9, "SQLITE_INTERRUPT")
    ∷ (11, "SQLITE_CORRUPT")
    ∷ (19, "SQLITE_CONSTRAINT")
    ∷ (20, "SQLITE_MISMATCH")
    ∷ (23, "SQLITE_AUTH")
    ∷ []

abbrev pub extended_names : Map ℕ String
extended_names =
    (2067, "SQLITE_CONSTRAINT_UNIQUE")
    ∷ (1555, "SQLITE_CONSTRAINT_PRIMARYKEY")
    ∷ (787, "SQLITE_CONSTRAINT_FOREIGNKEY")
    ∷ (1299, "SQLITE_CONSTRAINT_NOTNULL")
    ∷ (275, "SQLITE_CONSTRAINT_CHECK")
    ∷ []

abbrev pub inverse : Map ℕ String → Map String ℕ
inverse [] = []
inverse ((code, name) ∷ rest) = (name, code) ∷ inverse rest

abbrev pub name_to_code : Map String ℕ
name_to_code = inverse primary_names ++ inverse extended_names

unfoldable pub code_name : ℕ → String
code_name primary = elim (lookup primary primary_names) [ none ↦ "SQLITE_ERROR" | some n ↦ n ]

unfoldable pub extended_code_name : ℕ → String
unfolding code_name
extended_code_name extended = elim (lookup extended extended_names) [
  | some n ↦ n
  | none ↦ code_name (extended % 256)
]

unfoldable pub code_for_name : String → ℕ
code_for_name name = lookup_or 0 name name_to_code

abbrev pub known : Map ℕ String → ℕ → Bool
known m c = elim (lookup c m) [ none ↦ false | some n ↦ true ]

lookup-code_for_name :
    (m : Map ℕ String)
    → All (λ (x : ℕ × String). code_for_name x.1 ≡ x.0) m
    → (c : ℕ) (n : String) → lookup c m ≡ some n
    → code_for_name n ≡ c
unfolding lookup
lookup-code_for_name [] h c n e = absurd (ground (arith, e))
lookup-code_for_name ((k, s) ∷ m) h c n e = elim (Bool-cases (k == c)) [
  | inl same ↦ ap code_for_name (ground (arith, e)) ∙ h.0 ∙ ground (arith, nat_eq.beq_iff k c)
  | inr other ↦ lookup-code_for_name m h.1 c n (ground (arith, e))
]

primary_names-code_for_name : All (λ (x : ℕ × String). code_for_name x.1 ≡ x.0) primary_names
unfolding code_for_name lookup_or lookup
primary_names-code_for_name =
    (refl, (refl, (refl, (refl, (refl, (refl, (refl, (refl, (refl, tt)))))))))

extended_names-code_for_name : All (λ (x : ℕ × String). code_for_name x.1 ≡ x.0) extended_names
unfolding code_for_name lookup_or lookup
extended_names-code_for_name = (refl, (refl, (refl, (refl, (refl, tt)))))

code_for_name-code_name :
    (c : ℕ) → code_for_name (code_name c) ≡ (if known primary_names c then c else 1)
unfolding code_name
code_for_name-code_name c = elim (Option-cases (lookup c primary_names)) [
  | inl gone ↦ rw (code_name, known, gone) primary_names-code_for_name.0
  | inr (n, found) ↦
      rw (code_name, known, found)
        (lookup-code_for_name primary_names primary_names-code_for_name c n found)
]

-- The name that the server gives a result code leads the client back to that code when it is one of
-- the five constraint subtypes, else to its primary code, the low byte, when that has a name, and
-- else to the general error, 1.
pub code_for_name-extended_code_name :
    (c : ℕ)
    → code_for_name (extended_code_name c)
      ≡ (if known extended_names c then c else if known primary_names (c % 256) then c % 256 else 1)
unfolding extended_code_name
code_for_name-extended_code_name c = elim (Option-cases (lookup c extended_names)) [
  | inl gone ↦ rw (extended_code_name, known, gone) (code_for_name-code_name (c % 256))
  | inr (n, found) ↦
      rw (extended_code_name, known, found)
        (lookup-code_for_name extended_names extended_names-code_for_name c n found)
]
