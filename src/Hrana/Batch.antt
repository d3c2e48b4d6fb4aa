-- ===== src/Hrana/Batch.antt =====
-- httpapi/hrana.go, runHranaBatch. The connection is a state that running a statement changes;
-- `exec` stands for execStmt on it and `autocommit` for the driver's flag. `emit` is the cursor's
-- callback, which may give the batch up.
use quicsql.Prelude.{
  ℕ, suc, Bool, true, false, List, [], ◌∷◌, ◌++◌, Option, none, some, length, set, replicate,
}
use quicsql.Prelude.Result.{Result, ok, err}
use quicsql.Hrana.Condition.{Cond, Seen, eval_cond}

pub record Step (S : Type 0) : Type 0 where
  pub condition : Option Cond
  pub stmt : S

-- What the loop has so far, and the steps that it reported.
pub record Progress (C R E : Type 0) : Type 0 where
  pub conn : C
  pub seen : Seen R E
  pub emitted : List ℕ

module _ {C S R E : Type 0} (exec : C → S → C × Result E R) (autocommit : C → Bool)
    (emit : ℕ → Bool) where
  abbrev pub stored : Seen R E → ℕ → Result E R → Seen R E
  stored v i (ok r) = record v { results = set v.results i (some r) }
  stored v i (err e) = record v { errs = set v.errs i (some e) }

  -- The condition of a step; `none` is a panic.
  unfoldable pub condition_holds : Seen R E → Option Cond → Option Bool
  condition_holds v none = some true
  condition_holds v (some c) = eval_cond v c

  -- The step at `i` is run and its outcome stored and reported.
  unfoldable pub execute : Progress C R E → ℕ → S → Progress C R E
  execute p i stmt =
      let (conn, r) = exec p.conn stmt in
      record { conn = conn; seen = stored p.seen i r; emitted = p.emitted ++ (i ∷ []) }

  unfoldable pub run_steps : Progress C R E → ℕ → List (Step S) → Option (Progress C R E)
  unfolding condition_holds execute
  run_steps p i [] = some p
  run_steps p i (step ∷ rest) = elim (condition_holds p.seen step.condition) [
    | none ↦ none
    | some b ↦ elim b [
      | false ↦ run_steps p (suc i) rest
      | true ↦
          let q = execute p i step.stmt in
          elim (emit i) [
            | false ↦ some q
            | true ↦
                run_steps (record q { seen = record q.seen { ac = autocommit q.conn } }) (suc i)
                  rest
          ]
    ]
  ]

  unfoldable pub run_batch : C → List (Step S) → Option (Progress C R E)
  unfolding run_steps
  run_batch conn steps =
      let n = length steps in
      run_steps
        (record {
          conn = conn;
          seen = record {
            results = replicate n none;
            errs = replicate n none;
            ac = autocommit conn;
          };
          emitted = [];
        })
        0 steps
