-- ===== src/Engine/Queries/Atomic.antt =====
-- A batch is all or nothing.
use quicsql.Prelude.{ℕ, ◌+◌, ◌≡◌, refl, sym, ap, List, [], ◌∷◌, Option, none, some, arith, subst}
use quicsql.Prelude.Result.{Result, ok, err}
use quicsql.Engine.Queries

module _ {D S R E : Type 0} (begin : D → Result E D) (run : D → S → D × Result E R)
    (commit : D → D × Option E) (rollback : D → D) where
  -- Running the statements one after the other in a transaction, each to its result.
  pub data Ran : D → List S → D → List R → Type 0 where
    done : {t : D} → Ran t [] t []
    step :
        {t u v : D} {s : S} {r : R} {ss : List S} {rs : List R}
        → run t s ≡ (u, ok r)
        → Ran u ss v rs
        → Ran t (s ∷ ss) v (r ∷ rs)

  -- The statements before the failing one ran, and it gave the error.
  pub data Failed : D → List S → ℕ → E → D → Type 0 where
    now : {t u : D} {s : S} {e : E} {ss : List S} → run t s ≡ (u, err e) → Failed t (s ∷ ss) 0 e u
    later :
        {t u v : D} {s : S} {r : R} {e : E} {ss : List S} {i : ℕ}
        → run t s ≡ (u, ok r)
        → Failed u ss i e v
        → Failed t (s ∷ ss) (i + 1) e v

  abbrev pub RunEnd : D → ℕ → List S → D × Result (ℕ × E) (List R) → Type 0
  RunEnd t i ss (u, ok out) = Ran t ss u out
  RunEnd t i ss (u, err (k, e)) = (j : ℕ) × (k ≡ i + j) × Failed t ss j e u

  run_all-RunEnd :
      (t : D) (i : ℕ) (ss : List S)
      → RunEnd t i ss (Queries.run_all begin run commit rollback t i ss)
  unfolding Queries.run_all
  run_all-RunEnd t i [] = done
  run_all-RunEnd t i (s ∷ ss) =
      after t i s ss (run t s) refl
        (Queries.run_all begin run commit rollback (run t s).0 (i + 1) ss)
        (run_all-RunEnd (run t s).0 (i + 1) ss)
    where
      after :
          (t : D) (i : ℕ) (s : S) (ss : List S) (u : D × Result E R)
          → run t s ≡ u
          → (rest : D × Result (ℕ × E) (List R)) → RunEnd u.0 (i + 1) ss rest
          → RunEnd t i (s ∷ ss) (elim u.1 [
            | err e ↦ (u.0, err (i, e))
            | ok r ↦ (rest.0, elim rest.1 [ err e ↦ err e | ok out ↦ ok (r ∷ out) ])
          ])
      after t i s ss (u, err e) ran rest h = (0, omega arith, now ran)
      after t i s ss (u, ok r) ran (v, ok out) h = step ran h
      after t i s ss (u, ok r) ran (v, err (k, e)) (j, k≡, failed) =
          (j + 1, omega (arith, k≡), later ran failed)

  -- What a batch that began leaves: every statement ran and the transaction was committed, or was
  -- not; or one failed, and the database is `d`.
  abbrev pub BatchEnd :
      D → D → List S → D × Result (Queries.BatchError begin run commit rollback) (List R) → Type 0
  BatchEnd d t ss (d', ok out) = (u : D) × Ran t ss u out × (commit u ≡ (d', none))
  BatchEnd d t ss (d', err (Queries.not_begun e)) = ⊥
  BatchEnd d t ss (d', err (Queries.not_committed e)) =
      (u : D) × (out : List R) × Ran t ss u out × (commit u ≡ (d', some e))
  BatchEnd d t ss (d', err (Queries.at_statement i e)) = (u : D) × Failed t ss i e u × (d' ≡ d)

  module _ (d : D) (Open : D → Type 0) (runs : (u : D) (s : S) → Open u → Open (run u s).0)
      (undone : (u : D) → Open u → rollback u ≡ d) where
    Failed-Open : (t u : D) (ss : List S) (i : ℕ) (e : E) → Failed t ss i e u → Open t → Open u
    Failed-Open t u ss i e (now {s = s} h) o = subst Open (ap (λ x. x.0) h) (runs t s o)
    Failed-Open t u ss i e (later {u = v} {s = s} {ss = rest} {i = j} h f) o =
        Failed-Open v u rest j e f (subst Open (ap (λ x. x.0) h) (runs t s o))

    finish_batch-BatchEnd :
        (t : D) (ss : List S) (r : D × Result (ℕ × E) (List R))
        → Open t
        → RunEnd t 0 ss r
        → BatchEnd d t ss (Queries.finish_batch begin run commit rollback r)
    unfolding Queries.finish_batch
    finish_batch-BatchEnd t ss (u, err (i, e)) o (j, i≡j, failed) =
        let same : i ≡ j = omega (arith, i≡j) in
        (
          u,
          subst (λ (k : ℕ). Failed t ss k e u) (sym same) failed,
          undone u (Failed-Open t u ss j e failed o),
        )
    finish_batch-BatchEnd t ss (u, ok out) o ran = after (commit u) refl
      where
        after :
            (c : D × Option E)
            → commit u ≡ c
            → BatchEnd d t ss
                (elim c.1 [ some e ↦ (c.0, err (Queries.not_committed e)) | none ↦ (c.0, ok out) ])
        after (d', none) h = (u, ran, h)
        after (d', some e) h = (u, out, ran, h)

  -- When a transaction begins: a batch that succeeds has run every statement in order, returns their
  -- results, and leaves what the commit gives; one that fails at a statement names the first that
  -- failed, after all before it had run, and leaves the database as it was before the batch. The
  -- driver's rolling back gives the database as it was out of every state (`Open`) that the
  -- statements of the transaction lead to.
  pub batch-BatchEnd :
      (d t : D) (ss : List S) (Open : D → Type 0)
      → begin d ≡ ok t
      → Open t
      → ((u : D) (s : S) → Open u → Open (run u s).0)
      → ((u : D) → Open u → rollback u ≡ d)
      → BatchEnd d t ss (Queries.batch begin run commit rollback d ss)
  unfolding Queries.batch
  batch-BatchEnd d t ss Open begun o runs undone =
      rw (Queries.batch, begun)
        (finish_batch-BatchEnd d Open runs undone t ss
          (Queries.run_all begin run commit rollback t 0 ss) o (run_all-RunEnd t 0 ss))
