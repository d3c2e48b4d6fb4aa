-- ===== src/Hrana/Condition.antt =====
-- httpapi/hrana.go, evalCond. A condition has the fields of the JSON object, which name a step by a
-- signed number; reading a slice at an index that it does not have is a panic, which is `none` here.
pub mod Meaning
use quicsql.Prelude.{
  ℕ, Bool, true, false, not, ◌==◌, string_eq, ltb, if◌then◌else◌, List, [], ◌∷◌, Option, none, some,
  String, length, get_elem?,
}
use quicsql.Prelude.Int.{ℤ, pos, negsuc}

mutual
  pub data Cond : Type 0 where
    cond : String → Option ℤ → SubCond → Conds → Cond

  pub data SubCond : Type 0 where
    absent : SubCond
    present : Cond → SubCond

  pub data Conds : Type 0 where
    nil : Conds
    cons : Cond → Conds → Conds

-- Whether an entry of a slice of pointers is set, `xs[i] != nil`. Past the end it is a panic.
unfoldable pub set_at {ℓ} : {A : Type ℓ} → List (Option A) → ℕ → Option Bool
set_at xs i = elim (get_elem? xs i) [
  | none ↦ none
  | some o ↦ elim o [ none ↦ some false | some a ↦ some true ]
]

-- `c.Step != nil && int(*c.Step) < len(xs) && xs[*c.Step] != nil`.
unfoldable pub step_set {ℓ} : {A : Type ℓ} → Option ℤ → List (Option A) → Option Bool
unfolding set_at
step_set none xs = some false
step_set (some (pos i)) xs = if ltb i (length xs) then set_at xs i else some false
step_set (some (negsuc i)) xs = none

abbrev pub negate : Option Bool → Option Bool
negate none = none
negate (some b) = some (not b)

-- What a condition may see: the results and the errors so far, and whether no transaction is open.
pub record Seen {ℓ κ} (R : Type ℓ) (E : Type κ) : Type (ℓ ⊔ κ) where
  pub results : List (Option R)
  pub errs : List (Option E)
  pub ac : Bool

module _ {ℓ κ} {R : Type ℓ} {E : Type κ} where
  unfoldable mutual
    pub eval_cond : Seen R E → Cond → Option Bool
    eval_cond v (cond kind step sub conds) =
        let inner = eval_sub v sub in
        let all = eval_and v conds in
        let any = eval_or v conds in
        if kind == "ok"
        then step_set step v.results
        else if kind == "error"
        then step_set step v.errs
        else if kind == "not"
        then inner
        else if kind == "and"
        then all
        else if kind == "or"
        then any
        else if kind == "is_autocommit"
        then some v.ac
        else some false

    -- `c.Cond != nil && !evalCond(c.Cond, …)`.
    pub eval_sub : Seen R E → SubCond → Option Bool
    eval_sub v absent = some false
    eval_sub v (present c) = negate (eval_cond v c)

    pub eval_and : Seen R E → Conds → Option Bool
    eval_and v nil = some true
    eval_and v (cons c cs) =
        let rest = eval_and v cs in
        elim (eval_cond v c) [ none ↦ none | some b ↦ if b then rest else some false ]

    pub eval_or : Seen R E → Conds → Option Bool
    eval_or v nil = some false
    eval_or v (cons c cs) =
        let rest = eval_or v cs in
        elim (eval_cond v c) [ none ↦ none | some b ↦ if b then some true else rest ]
