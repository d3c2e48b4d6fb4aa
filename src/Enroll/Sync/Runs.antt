-- ===== src/Enroll/Sync/Runs.antt =====
-- The service as a transition system: the sections of its requests and removals, in any order that
-- its mutex allows. A removal takes the mutex for its last section only, so its other sections come
-- anywhere, also between the two halves of a registration.
use quicsql.Prelude.{
  ℕ, ◌+◌, ◌≡◌, refl, sym, ap, ◌∙◌, Bool, true, false, bytes_eq, List, none, some, arith, nat_eq,
}
use quicsql.Prelude.Map.{Map, delete-none}
use quicsql.Enroll.Refusal.{register-answered, consumed-enrolled}
use quicsql.Enroll.Service.{
  Enroll, Policies, Digests, Service, Faults, Answer, answered, registered, principal_name,
  register, admit, rollback_enroll, delete_row, forget_key, forget_grants, count_down, touch,
  flush_seen,
}
use quicsql.Enroll.Admission.{register-Admission}
use quicsql.Enroll.Sync.Counting.{
  Underway, Counted, Counted-same, Counted-writing, Counted-admit, Counted-rollback_enroll,
  Counted-delete, Counted-count_down, delete_row-some,
}
use quicsql.Enroll.Sync.Activity.{Counted-touch, Counted-flush_seen}

module _ {P : Type 0} (dg : Digests) (pol : Policies P) (cfg : Enroll) where
  -- The states that lead on from `s`, with the registration that holds the mutex and the number of
  -- removals whose row is gone and that are not counted yet. Any call of the store may fail, and
  -- grants come and go at any time.
  pub data Runs (s : Service P) : Service P → Underway → ℕ → Type 0 where
    start : Runs s s none 0
    writing :
        {n n' : Service P} {k : ℕ} (bad : Faults) (canon pub_key token name code : List ℕ) (now : ℕ)
        → Runs s n none k
        → register dg pol cfg bad n canon pub_key token now ≡ registered n' name code
        → Runs s (record n { store = n'.store }) (some (canon, pub_key, name)) k
    admitting :
        {n : Service P} {k : ℕ} (bad : Faults) (canon pub_key name : List ℕ)
        → Runs s n (some (canon, pub_key, name)) k
        → Runs s (admit dg pol cfg bad n canon pub_key name) none k
    refusing :
        {n n' : Service P} {k : ℕ} (bad : Faults) (a : Answer) (canon pub_key token : List ℕ)
        (now : ℕ)
        → Runs s n none k
        → register dg pol cfg bad n canon pub_key token now ≡ answered n' a
        → Runs s n' none k
    rolling_back :
        {n : Service P} {k : ℕ} (bad : Faults) (name code : List ℕ)
        → Runs s n none k
        → Runs s (rollback_enroll dg pol cfg bad n name code) none k
    removing :
        {n n' : Service P} {w : Underway} {k : ℕ} (bad : Faults) (name : List ℕ) (busy : Bool)
        → Runs s n w k
        → delete_row dg pol cfg bad n name busy ≡ (n', some true)
        → Runs s n' w (k + 1)
    not_removing :
        {n n' : Service P} {w : Underway} {k : ℕ} (bad : Faults) (name : List ℕ) (busy : Bool)
        → Runs s n w k
        → delete_row dg pol cfg bad n name busy ≡ (n', some false)
        → Runs s n' w k
    forgetting_key :
        {n : Service P} {w : Underway} {k : ℕ} (bad : Faults) (name : List ℕ)
        → Runs s n w k
        → Runs s (forget_key dg pol cfg bad n name) w k
    forgetting_grants :
        {n : Service P} {w : Underway} {k : ℕ} (bad : Faults) (name : List ℕ)
        → Runs s n w k
        → Runs s (forget_grants dg pol cfg bad n name) w k
    counting_down :
        {n : Service P} {k : ℕ} (bad : Faults)
        → Runs s n none (k + 1)
        → Runs s (count_down dg pol cfg bad n) none k
    granting :
        {n : Service P} {w : Underway} {k : ℕ} (policy : P)
        → Runs s n w k
        → Runs s (record n { policy = policy }) w k
    touching :
        {n : Service P} {w : Underway} {k : ℕ} (bad : Faults) (name : List ℕ) (now : ℕ)
        → Runs s n w k
        → Runs s (touch dg pol cfg bad n name now) w k
    flushing :
        {n : Service P} {w : Underway} {k : ℕ} (bad : Faults) (meanwhile : Map (List ℕ) ℕ)
        → Runs s n w k
        → Runs s (flush_seen dg pol cfg bad n meanwhile) w k

  pub Counted-Runs :
      (s n : Service P) (w : Underway) (k : ℕ)
      → Counted dg pol cfg s none 0
      → Runs s n w k
      → Counted dg pol cfg n w k
  unfolding forget_key forget_grants count_down
  Counted-Runs s n w k c start = c
  Counted-Runs s n w k c (writing {n = m} {n' = m'} bad canon pub_key token name code now r h) =
      let a = register-Admission dg pol cfg bad m m' canon pub_key token name code now h in
      Counted-writing dg pol cfg m _ a.st canon pub_key (principal_name dg canon) name now k bad
        (Counted-Runs s m none k c r) a.room
        (consumed-enrolled dg pol cfg bad m.store a.st code now a.spent)
        (a.written ∙ ap (λ x. some x.store) (sym a.after_it)) refl
  Counted-Runs s n w k c (admitting {n = m} bad canon pub_key name r) =
      Counted-admit dg pol cfg m _ (canon, pub_key, name) k (Counted-Runs s m _ k c r) refl refl
  Counted-Runs s n w k c (refusing {n = m} bad a canon pub_key token now r h) =
      let kept = register-answered dg pol cfg bad m n a canon pub_key token now h in
      Counted-same dg pol cfg m n none k (Counted-Runs s m none k c r) kept.rows kept.count
  Counted-Runs s n w k c (rolling_back {n = m} bad name code r) =
      Counted-rollback_enroll dg pol cfg bad m name code k (Counted-Runs s m none k c r)
  Counted-Runs s n w k c (removing {n = m} {k = j} bad name busy r h) =
      let (there, rows, count) = delete_row-some dg pol cfg bad m n name busy true h in
      Counted-delete dg pol cfg m n name w j (Counted-Runs s m w j c r) there rows count
  Counted-Runs s n w k c (not_removing {n = m} bad name busy r h) =
      let (missing, rows, count) = delete_row-some dg pol cfg bad m n name busy false h in
      Counted-same dg pol cfg m n w k (Counted-Runs s m w k c r)
        (rows ∙ delete-none name m.store.enrolled (ground arith)) count
  Counted-Runs s n w k c (forgetting_key {n = m} bad name r) =
      Counted-same dg pol cfg m _ w k (Counted-Runs s m w k c r) refl refl
  Counted-Runs s n w k c (forgetting_grants {n = m} bad name r) =
      Counted-same dg pol cfg m _ w k (Counted-Runs s m w k c r) refl refl
  Counted-Runs s n w k c (counting_down {n = m} bad r) =
      Counted-count_down dg pol cfg m _ k (Counted-Runs s m none (k + 1) c r) refl refl
  Counted-Runs s n w k c (granting {n = m} policy r) =
      Counted-same dg pol cfg m _ w k (Counted-Runs s m w k c r) refl refl
  Counted-Runs s n w k c (touching {n = m} bad name now r) =
      Counted-touch dg pol cfg bad m name now w k (Counted-Runs s m w k c r)
  Counted-Runs s n w k c (flushing {n = m} bad meanwhile r) =
      Counted-flush_seen dg pol cfg bad m meanwhile w k (Counted-Runs s m w k c r)
