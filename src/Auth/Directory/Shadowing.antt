-- ===== src/Auth/Directory/Shadowing.antt =====
-- What enrolling and removing keys at run time can do to the directory.
use quicsql.Prelude.{
  ℕ, ◌≡◌, ◌≢◌, refl, ◌==◌, bytes_eq, List, [], ◌∷◌, none, some, arith, Bool-cases, Option-cases,
  inl, inr,
}
use quicsql.Prelude.Map.{Map, lookup, Distinct}
use quicsql.Auth.Directory.{
  Directory, KeyringCred, lookup_keyring, add_keyring, remove_keyring_name, remove_keyring_key,
  without_name,
}

-- What happens to a directory while the server runs.
pub data Changes (d : Directory) : Directory → Type 0 where
  unchanged : Changes d d
  added :
      {e : Directory} (canon pub_key name : List ℕ)
      → Changes d e
      → Changes d (add_keyring e canon pub_key name)
  removed_name :
      {e : Directory} (name : List ℕ) → Changes d e → Changes d (remove_keyring_name e name)
  removed_key :
      {e : Directory} (canon : List ℕ) → Changes d e → Changes d (remove_keyring_key e canon).0

Changes-keyring : (d e : Directory) → Changes d e → e.keyring ≡ d.keyring
unfolding add_keyring remove_keyring_name remove_keyring_key
Changes-keyring d e unchanged = refl
Changes-keyring d e (added {e = f} canon pub_key name c) =
    elim (Option-cases (lookup canon f.keyring)) [
      | inl new ↦ rw (add_keyring, new) (Changes-keyring d f c)
      | inr (cred, old) ↦ rw (add_keyring, old) (Changes-keyring d f c)
    ]
Changes-keyring d e (removed_name {e = f} name c) = Changes-keyring d f c
Changes-keyring d e (removed_key {e = f} canon c) =
    elim (Option-cases (lookup canon f.dyn_keyring)) [
      | inl missing ↦ rw (remove_keyring_key, missing) (Changes-keyring d f c)
      | inr (cred, old) ↦ rw (remove_keyring_key, old) (Changes-keyring d f c)
    ]

-- A configured key keeps its identity: no sequence of enrolments and removals at run time changes
-- which principal and which public key it resolves to.
pub lookup_keyring-Changes :
    (d e : Directory) (canon : List ℕ) (cred : KeyringCred)
    → lookup canon d.keyring ≡ some cred
    → Changes d e
    → lookup_keyring e canon ≡ some cred
unfolding lookup_keyring
lookup_keyring-Changes d e canon cred configured c =
    rw (lookup_keyring, Changes-keyring d e c, configured) refl

pub lookup-without_name :
    (name canon : List ℕ) (m : Map (List ℕ) KeyringCred) (cred : KeyringCred)
    → lookup canon (without_name name m) ≡ some cred
    → cred.name ≢ name
unfolding lookup without_name
lookup-without_name name canon [] cred h = absurd (cc)
lookup-without_name name canon ((j, c) ∷ m) cred h = elim (Bool-cases (c.name == name)) [
  | inl gone ↦ lookup-without_name name canon m cred (ground arith)
  | inr kept ↦ elim (Bool-cases (j == canon)) [
    | inl here ↦ λ e. absurd (ground (arith, bytes_eq.beq_iff c.name name))
    | inr there ↦ lookup-without_name name canon m cred (ground arith)
  ]
]

-- After a principal is removed, the only keys that still resolve to its name are configured ones.
pub remove_keyring_name-lookup :
    (d : Directory) (name canon : List ℕ) (cred : KeyringCred)
    → lookup_keyring (remove_keyring_name d name) canon ≡ some cred
    → cred.name ≡ name
    → lookup canon d.keyring ≡ some cred
unfolding lookup_keyring remove_keyring_name
remove_keyring_name-lookup d name canon cred found same =
    elim (Option-cases (lookup canon d.keyring)) [
      | inl new ↦ absurd (lookup-without_name name canon d.dyn_keyring cred (ground arith) same)
      | inr (c, old) ↦ ground arith
    ]

-- Each key has one entry, and what is left was there.
pub without_name-lookup :
    (name canon : List ℕ) (m : Map (List ℕ) KeyringCred) (cred : KeyringCred)
    → Distinct m
    → lookup canon (without_name name m) ≡ some cred
    → lookup canon m ≡ some cred
unfolding lookup without_name
without_name-lookup name canon [] cred d h = absurd (cc)
without_name-lookup name canon ((j, c) ∷ m) cred d h =
    ground (arith, bytes_eq.beq_iff j canon, without_name-lookup name canon m cred d.1)

without_name-none :
    (name canon : List ℕ) (m : Map (List ℕ) KeyringCred)
    → lookup canon m ≡ none
    → lookup canon (without_name name m) ≡ none
unfolding lookup without_name
without_name-none name canon [] h = refl
without_name-none name canon ((j, c) ∷ m) h = ground (arith, without_name-none name canon m)

pub Distinct-without_name :
    (name : List ℕ) (m : Map (List ℕ) KeyringCred) → Distinct m → Distinct (without_name name m)
unfolding without_name
Distinct-without_name name [] d = tt
Distinct-without_name name ((j, c) ∷ m) d =
    ground (arith, without_name-none name j m d.0, Distinct-without_name name m d.1)
