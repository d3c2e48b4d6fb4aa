-- ===== src/Hrana/Condition/Meaning.antt =====
-- Conditions as plain Boolean expressions, and the request that brings the evaluation down.
use quicsql.Prelude.{
  ℕ, zero, suc, ◌<◌, ◌≤◌, ◌≡◌, refl, sym, ap, [], ◌∷◌, Bool, true, false, not, ◌&&◌, ◌||◌, ◌==◌,
  string_eq, ltb, if◌then◌else◌, List, Option, none, some, String, length, arith, Bool-cases, inl,
  inr,
}
use quicsql.Prelude.Int.{ℤ, pos, negsuc}
use quicsql.Hrana.Condition.{
  Cond, cond, SubCond, absent, present, Conds, nil, cons, set_at, step_set, Seen, eval_cond,
  eval_sub, eval_and, eval_or,
}

abbrev pub AtLeastZero : Option ℤ → Type 0
AtLeastZero (some (negsuc i)) = ⊥
AtLeastZero _ = Unit

-- The slice has an entry at the index, and it is set.
abbrev pub there {ℓ} : {A : Type ℓ} → List (Option A) → ℕ → Bool
there [] i = false
there (none ∷ xs) zero = false
there (some a ∷ xs) zero = true
there (x ∷ xs) (suc i) = there xs i

abbrev pub step_holds {ℓ} : {A : Type ℓ} → Option ℤ → List (Option A) → Bool
step_holds (some (pos i)) xs = there xs i
step_holds _ xs = false

unfoldable mutual
  -- No step number in the condition is negative.
  pub InRange : Cond → Type 0
  InRange (cond kind step sub conds) = AtLeastZero step × SubInRange sub × AllInRange conds

  pub SubInRange : SubCond → Type 0
  SubInRange absent = Unit
  SubInRange (present c) = InRange c

  pub AllInRange : Conds → Type 0
  AllInRange nil = Unit
  AllInRange (cons c cs) = InRange c × AllInRange cs

module _ {ℓ κ} {R : Type ℓ} {E : Type κ} where
  unfoldable mutual
    pub holds : Seen R E → Cond → Bool
    holds v (cond kind step sub conds) =
        let inner = sub_fails v sub in
        let all = all_hold v conds in
        let any = any_holds v conds in
        if kind == "ok"
        then step_holds step v.results
        else if kind == "error"
        then step_holds step v.errs
        else if kind == "not"
        then inner
        else if kind == "and"
        then all
        else if kind == "or"
        then any
        else if kind == "is_autocommit"
        then v.ac
        else false

    pub sub_fails : Seen R E → SubCond → Bool
    sub_fails v absent = false
    sub_fails v (present c) = not (holds v c)

    pub all_hold : Seen R E → Conds → Bool
    all_hold v nil = true
    all_hold v (cons c cs) = holds v c && all_hold v cs

    pub any_holds : Seen R E → Conds → Bool
    any_holds v nil = false
    any_holds v (cons c cs) = holds v c || any_holds v cs

set_at-there {ℓ} :
    {A : Type ℓ} (xs : List (Option A)) (i : ℕ) → i < length xs → set_at xs i ≡ some (there xs i)
unfolding set_at
set_at-there [] i h = absurd (omega arith)
set_at-there (none ∷ xs) zero h = refl
set_at-there (some a ∷ xs) zero h = refl
set_at-there (x ∷ xs) (suc i) h = set_at-there xs i (omega arith)

there-past {ℓ} : {A : Type ℓ} (xs : List (Option A)) (i : ℕ) → length xs ≤ i → there xs i ≡ false
there-past [] i h = refl
there-past (x ∷ xs) zero h = absurd (omega arith)
there-past (none ∷ xs) (suc i) h = there-past xs i (omega arith)
there-past (some a ∷ xs) (suc i) h = there-past xs i (omega arith)

step_set_lem {ℓ} :
    {A : Type ℓ} (step : Option ℤ) (xs : List (Option A))
    → AtLeastZero step
    → step_set step xs ≡ some (step_holds step xs)
unfolding step_set
step_set_lem none xs h = refl
step_set_lem (some (pos i)) xs h = elim (Bool-cases (ltb i (length xs))) [
  | inl e ↦ rw e (set_at-there xs i (ground arith))
  | inr e ↦ rw e (ap some (sym (there-past xs i (ground arith))))
]
step_set_lem (some (negsuc i)) xs h = absurd h

some_if :
    (b : Bool) {x y : Option Bool} {p q : Bool}
    → x ≡ some p
    → y ≡ some q
    → (if b then x else y) ≡ some (if b then p else q)
some_if true h k = h
some_if false h k = k

either_none :
    (a b : Bool) (x : Option Bool)
    → (a || b) ≡ true
    → (if a then none else if b then none else x) ≡ none
either_none true b x h = refl
either_none false true x h = refl
either_none false false x h = cc

module _ {ℓ κ} {R : Type ℓ} {E : Type κ} (v : Seen R E) where
  mutual
    unfolding eval_cond holds InRange

    eval_cond-holds : (c : Cond) → InRange c → eval_cond v c ≡ some (holds v c)
    eval_cond-holds (cond kind step sub conds) (h, hs, hcs) =
        some_if (kind == "ok") (step_set_lem step v.results h) (
          some_if (kind == "error") (step_set_lem step v.errs h) (
            some_if (kind == "not") (eval_sub-holds sub hs) (
              some_if (kind == "and") (eval_and-holds conds hcs) (
                some_if (kind == "or") (eval_or-holds conds hcs)
                  (some_if (kind == "is_autocommit") refl refl)))))

    eval_sub-holds : (s : SubCond) → SubInRange s → eval_sub v s ≡ some (sub_fails v s)
    eval_sub-holds absent h = refl
    eval_sub-holds (present c) h = rw (eval_cond-holds c h)

    eval_and-holds : (cs : Conds) → AllInRange cs → eval_and v cs ≡ some (all_hold v cs)
    eval_and-holds nil h = refl
    eval_and-holds (cons c cs) h = ground (arith, eval_cond-holds c h.0, eval_and-holds cs h.1)

    eval_or-holds : (cs : Conds) → AllInRange cs → eval_or v cs ≡ some (any_holds v cs)
    eval_or-holds nil h = refl
    eval_or-holds (cons c cs) h = ground (arith, eval_cond-holds c h.0, eval_or-holds cs h.1)

  -- A condition with no negative step number evaluates, without a panic, to what it means: `ok` and
  -- `error` ask whether the step's result or error is there, a step out of range counting as not,
  -- and `not`, `and`, `or` are the Boolean operations, `not` of no condition being false.
  pub eval_cond-meaning : (c : Cond) → InRange c → eval_cond v c ≡ some (holds v c)
  eval_cond-meaning c h = eval_cond-holds c h

  negative_step :
      (kind : String) (n : ℕ) (sub : SubCond) (conds : Conds)
      → ((kind == "ok") || (kind == "error")) ≡ true
      → eval_cond v (cond kind (some (negsuc n)) sub conds) ≡ none
  unfolding eval_cond step_set
  negative_step kind n sub conds h = either_none (kind == "ok") (kind == "error") _ h

  eval_and-panics : (c : Cond) (cs : Conds) → eval_cond v c ≡ none → eval_and v (cons c cs) ≡ none
  unfolding eval_and
  eval_and-panics c cs e = rw e

  eval_or-panics : (c : Cond) (cs : Conds) → eval_cond v c ≡ none → eval_or v (cons c cs) ≡ none
  unfolding eval_or
  eval_or-panics c cs e = rw e

  -- A condition `ok` or `error` on a negative step number panics, whatever was run and whatever else
  -- the condition says, and so does a list of conditions under `and` or `or` that begins with it.
  pub eval_cond-negative :
      (kind : String) (n : ℕ) (sub : SubCond) (conds cs : Conds)
      → ((kind == "ok") || (kind == "error")) ≡ true
      → (eval_cond v (cond kind (some (negsuc n)) sub conds) ≡ none)
        × (eval_and v (cons (cond kind (some (negsuc n)) sub conds) cs) ≡ none)
        × (eval_or v (cons (cond kind (some (negsuc n)) sub conds) cs) ≡ none)
  eval_cond-negative kind n sub conds cs h =
      let bad = negative_step kind n sub conds h in
      (bad, eval_and-panics _ cs bad, eval_or-panics _ cs bad)
