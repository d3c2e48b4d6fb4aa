-- ===== src/Enroll/Sync.antt =====
-- A service at rest, whose durable rows, count and live keys agree.
pub mod Counting
pub mod Activity
pub mod Runs
use quicsql.Prelude.{
  ℕ, ◌+◌, ◌≡◌, refl, ◌==◌, bytes_eq, if◌then◌else◌, List, [], ◌∷◌, length, some, arith, Bool-cases,
  Option-cases, inl, inr, ◌⊎◌,
}
use quicsql.Prelude.Int.{pos}
use quicsql.Prelude.Map.{Map, lookup, delete, lookup-insert, Distinct, Distinct-insert}
use quicsql.Auth.Directory.{Directory, KeyringCred, add_keyring}
use quicsql.Meta
use quicsql.Meta.{Row, enrolled_by_key}
use quicsql.Enroll.Service.{Service}

-- The count is the number of rows, and a live key is a durable one under the same name.
pub record Synced {P : Type 0} (s : Service P) : Type 0 where
  pub counted : s.count ≡ pos (length s.store.enrolled)
  pub rows : Distinct s.store.enrolled
  pub keys : Distinct s.directory.dyn_keyring
  pub live :
      (canon : List ℕ) (cred : KeyringCred)
      → lookup canon s.directory.dyn_keyring ≡ some cred
      → enrolled_by_key s.store canon ≡ some cred.name

pub length-delete :
    (name : List ℕ) (rows : Map (List ℕ) Row)
    → Distinct rows
    → length rows ≡ length (delete name rows) + (if Meta.is_some (lookup name rows) then 1 else 0)
unfolding lookup delete
length-delete name [] d = refl
length-delete name ((j, r) ∷ rows) d =
    ground (arith, bytes_eq.beq_iff j name, length-delete name rows d.1)

pub lookup-add_keyring :
    (d : Directory) (canon pub_key name k : List ℕ) (cred : KeyringCred)
    → lookup k (add_keyring d canon pub_key name).dyn_keyring ≡ some cred
    → ((k ≡ canon) × (cred.name ≡ name)) ⊎ (lookup k d.dyn_keyring ≡ some cred)
unfolding add_keyring
lookup-add_keyring d canon pub_key name k cred h = elim (Option-cases (lookup canon d.keyring)) [
  | inr (configured, static) ↦ inr (ground arith)
  | inl dynamic ↦ elim (Bool-cases (canon == k)) [
    | inl here ↦ inl (
      ground (arith, bytes_eq.beq_iff canon k),
      ground (arith, lookup-insert canon k (record { key = pub_key; name = name }) d.dyn_keyring),
    )
    | inr there ↦ inr (
        ground (arith, lookup-insert canon k (record { key = pub_key; name = name }) d.dyn_keyring))
  ]
]

pub Distinct-add_keyring :
    (d : Directory) (canon pub_key name : List ℕ)
    → Distinct d.dyn_keyring
    → Distinct (add_keyring d canon pub_key name).dyn_keyring
unfolding add_keyring
Distinct-add_keyring d canon pub_key name h = elim (Option-cases (lookup canon d.keyring)) [
  | inr (configured, static) ↦ rw (add_keyring, static) h
  | inl dynamic ↦ rw (add_keyring, dynamic) (Distinct-insert canon _ d.dyn_keyring h)
]
