-- ===== src/Prelude/Map.antt =====
-- Go's built-in maps as association lists: read, write, delete, and what counting entries needs.
use Prim.Native.Nat.{ℕ, ◌+◌}
use mathlib.Core.Path.{◌≡◌, refl}
use mathlib.Core.Bool.{Bool, false}
use mathlib.Core.Logic.{◌≢◌, ◌⊎◌, inl, inr}
use mathlib.Core.List.{List, [], ◌∷◌}
use mathlib.Core.Option
use mathlib.Core.Option.{Option, none, some}
use native.Mathlib.Omega.{arith}
use quicsql.Prelude.Tests.{Bool-cases, Option-cases, Eq, ◌==◌, if◌then◌else◌}

abbrev pub Map {ℓ κ} : Type ℓ → Type κ → Type (ℓ ⊔ κ)
Map K V = List (K × V)

module _ {ℓ κ} {K : Type ℓ} {V : Type κ} ⦃e : Eq K⦄ where
  unfoldable pub lookup : K → Map K V → Option V
  lookup k [] = none
  lookup k ((key, elem) ∷ rest) = if key == k then some elem else lookup k rest

  unfoldable pub insert : K → V → Map K V → Map K V
  insert k v [] = (k, v) ∷ []
  insert k v ((key, elem) ∷ rest) =
      if key == k then (k, v) ∷ rest else (key, elem) ∷ insert k v rest

  unfoldable pub delete : K → Map K V → Map K V
  delete k [] = []
  delete k ((j, v) ∷ m) = let rest = delete k m in if j == k then rest else (j, v) ∷ rest

  -- The zero value of the element type stands for a missing key.
  unfoldable pub lookup_or : V → K → Map K V → V
  lookup_or d k m = elim (lookup k m) [ none ↦ d | some v ↦ v ]

  -- A write through a pointer that the map holds under the key.
  unfoldable pub adjust : K → (V → V) → Map K V → Map K V
  adjust k f [] = []
  adjust k f ((j, v) ∷ m) = if j == k then (j, f v) ∷ m else (j, v) ∷ adjust k f m

  -- How many entries pass a test.
  unfoldable pub count : (V → Bool) → Map K V → ℕ
  count p [] = 0
  count p ((j, v) ∷ m) = (if p v then 1 else 0) + count p m

  pub lookup-insert :
      (k j : K) (x : V) (xs : Map K V)
      → lookup j (insert k x xs) ≡ (if k == j then some x else lookup j xs)
  unfolding insert lookup
  lookup-insert k j x ((key, elem) ∷ rest) =
      ground (arith, lookup-insert k j x rest, e.beq_iff key k, e.beq_iff key j, e.beq_iff k j)
  lookup-insert k j x [] = refl

  pub lookup-delete :
      (k j : K) (m : Map K V) → lookup j (delete k m) ≡ (if k == j then none else lookup j m)
  unfolding lookup delete
  lookup-delete k j [] = ground arith
  lookup-delete k j ((i, w) ∷ m) =
      ground (arith, e.beq_iff k j, e.beq_iff i k, e.beq_iff i j, lookup-delete k j m)

  -- Each key has one entry, as in every Go map.
  abbrev pub Distinct : Map K V → Type κ
  Distinct [] = Unit
  Distinct ((k, v) ∷ m) = (lookup k m ≡ none) × Distinct m

  pub lookup-adjust :
      (k j : K) (f : V → V) (m : Map K V)
      → lookup j (adjust k f m) ≡ (if k == j then Option.map f (lookup j m) else lookup j m)
  unfolding lookup adjust
  lookup-adjust k j f [] = ground arith
  lookup-adjust k j f ((i, w) ∷ m) =
      ground (arith, e.beq_iff k j, e.beq_iff i k, e.beq_iff i j, lookup-adjust k j f m)

  pub lookup_or-insert :
      (d : V) (k j : K) (v : V) (m : Map K V)
      → lookup_or d j (insert k v m) ≡ (if k == j then v else lookup_or d j m)
  unfolding lookup_or
  lookup_or-insert d k j v m = ground (arith, lookup-insert k j v m)

  pub Distinct-insert : (k : K) (v : V) (m : Map K V) → Distinct m → Distinct (insert k v m)
  unfolding lookup insert
  Distinct-insert k v [] h = (refl, tt)
  Distinct-insert k v ((j, w) ∷ m) h =
      ground (arith, e.beq_iff j k, e.beq_iff k j, lookup-insert k j v m, Distinct-insert k v m h.1)

  pub Distinct-delete : (k : K) (m : Map K V) → Distinct m → Distinct (delete k m)
  unfolding delete
  Distinct-delete k [] h = tt
  Distinct-delete k ((j, w) ∷ m) h = ground (arith, lookup-delete k j m, Distinct-delete k m h.1)

  pub Distinct-adjust : (k : K) (f : V → V) (m : Map K V) → Distinct m → Distinct (adjust k f m)
  unfolding adjust
  Distinct-adjust k f [] h = tt
  Distinct-adjust k f ((j, w) ∷ m) h =
      ground (arith, lookup-adjust k j f m, Distinct-adjust k f m h.1)

  pub count-delete_none :
      (p : V → Bool) (k : K) (m : Map K V) → lookup k m ≡ none → count p (delete k m) ≡ count p m
  unfolding lookup delete count
  count-delete_none p k [] h = refl
  count-delete_none p k ((j, w) ∷ m) h = ground (arith, count-delete_none p k m)

  pub count-delete :
      (p : V → Bool) (k : K) (v : V) (m : Map K V)
      → Distinct m
      → lookup k m ≡ some v
      → count p (delete k m) + (if p v then 1 else 0) ≡ count p m
  unfolding lookup delete count
  count-delete p k v [] d h = cc
  count-delete p k v ((j, w) ∷ m) d h =
      ground (arith, e.beq_iff j k, count-delete_none p k m, count-delete p k v m d.1)

  pub count-insert_none :
      (p : V → Bool) (k : K) (v : V) (m : Map K V)
      → lookup k m ≡ none
      → count p (insert k v m) ≡ count p m + (if p v then 1 else 0)
  unfolding lookup insert count
  count-insert_none p k v [] h = ground arith
  count-insert_none p k v ((j, w) ∷ m) h = ground (arith, count-insert_none p k v m)

  pub count-adjust :
      (p : V → Bool) (k : K) (f : V → V) (m : Map K V)
      → ((v : V) → p (f v) ≡ p v)
      → count p (adjust k f m) ≡ count p m
  unfolding adjust count
  count-adjust p k f [] h = refl
  count-adjust p k f ((j, w) ∷ m) h = ground (arith, h w, count-adjust p k f m h)

  pub lookup-adjust-cases :
      (k j : K) (f : V → V) (m : Map K V) (x : V)
      → lookup j (adjust k f m) ≡ some x
      → ((k ≡ j) × (w : V) × (lookup j m ≡ some w) × (x ≡ f w)) ⊎ ((k ≢ j) × (lookup j m ≡ some x))
  lookup-adjust-cases k j f m x h = elim (Bool-cases (k == j)) [
    | inr other ↦
        inr ((λ same. ground (arith, e.beq_iff k j)), ground (arith, lookup-adjust k j f m))
    | inl same ↦ elim (Option-cases (lookup j m)) [
      | inl gone ↦ absurd (ground (arith, lookup-adjust k j f m))
      | inr (w, found) ↦
          inl (ground (arith, e.beq_iff k j), w, found, ground (arith, lookup-adjust k j f m))
    ]
  ]

  pub count-none :
      (p : V → Bool) (m : Map K V)
      → Distinct m
      → ((k : K) (v : V) → lookup k m ≡ some v → p v ≡ false)
      → count p m ≡ 0
  unfolding lookup count
  count-none p [] d h = refl
  count-none p ((j, w) ∷ m) d h = ground (
    arith,
    h j w (ground (arith, e.beq_iff j j)),
    count-none p m d.1 (λ k v found. h k v (ground (arith, e.beq_iff j k))),
  )

  pub delete-none : (k : K) (m : Map K V) → lookup k m ≡ none → delete k m ≡ m
  unfolding lookup delete
  delete-none k [] h = refl
  delete-none k ((j, w) ∷ m) h = ground (arith, delete-none k m)

  pub delete-insert :
      (k : K) (v : V) (m : Map K V) → lookup k m ≡ none → delete k (insert k v m) ≡ m
  unfolding lookup delete insert
  delete-insert k v [] h = ground (arith, e.beq_iff k k)
  delete-insert k v ((j, w) ∷ m) h = ground (arith, delete-insert k v m)
