-- ===== src/Enroll/Sync/Counting.antt =====
-- The count against the durable rows, at each section of a registration or a removal.
use quicsql.Prelude.{
  ℕ, suc, zero, ◌+◌, ◌≤◌, ◌≡◌, refl, sym, ap, subst, ◌∙◌, Bool, true, false, ◌&&◌, bytes_eq, ltb,
  List, length, Option, none, some, arith, nat_eq, Bool-cases, inl, inr, ◌⊎◌,
}
use mathlib.Core.Option.{some-injective}
use quicsql.Prelude.Int.{pos, succ, pred, at_least}
use quicsql.Prelude.Map.{lookup, delete, delete-none, Distinct, Distinct-insert, Distinct-delete}
use quicsql.Meta
use quicsql.Meta.{Store, Row}
use quicsql.Meta.Rows.{put_enrolled-some}
use quicsql.Enroll.Refusal.{released-enrolled}
use quicsql.Enroll.Service.{
  Enroll, Policies, Digests, Service, Faults, rollback_enroll, delete_row, full,
}
use quicsql.Enroll.Sync.{length-delete}

-- The row of a registration is written, and its key is still to be admitted.
abbrev pub Underway : Type 0
Underway = Option (List ℕ × List ℕ × List ℕ)

module _ {P : Type 0} (dg : Digests) (pol : Policies P) (cfg : Enroll) where
  -- The registrations that hold the mutex with their row written.
  abbrev pub underway : Underway → ℕ
  underway none = 0
  underway (some r) = 1

  -- The count and the registration underway are the durable rows and the removals underway; the
  -- rows and those removals are within a positive cap.
  pub record Counted (s : Service P) (w : Underway) (k : ℕ) : Type 0 where
    pub count : ℕ
    pub counted : s.count ≡ pos count
    pub balance : count + underway w ≡ length s.store.enrolled + k
    pub capped : (cfg.max_principals ≡ 0) ⊎ (length s.store.enrolled + k ≤ cfg.max_principals)
    pub rows : Distinct s.store.enrolled

  -- The cap still holds when there are no more rows and removals than before.
  pub fewer :
      (a b : ℕ)
      → b ≤ a
      → (cfg.max_principals ≡ 0) ⊎ (a ≤ cfg.max_principals)
      → (cfg.max_principals ≡ 0) ⊎ (b ≤ cfg.max_principals)
  fewer a b h (inl none_set) = inl none_set
  fewer a b h (inr within) = inr (omega arith)

  -- What the invariant reads stays as it was.
  pub Counted-same :
      (s s' : Service P) (w : Underway) (k : ℕ)
      → Counted s w k
      → s'.store.enrolled ≡ s.store.enrolled
      → s'.count ≡ s.count
      → Counted s' w k
  Counted-same s s' w k c rows count =
      let size = ap length rows in
      record {
        count = c.count;
        counted = count ∙ c.counted;
        balance = c.balance ∙ ap (λ n. n + k) (sym size);
        capped = fewer _ (length s'.store.enrolled + k) (omega (arith, size)) c.capped;
        rows = subst Distinct (sym rows) c.rows;
      }

  room-left :
      (s : Service P) (bad : Faults) (count : ℕ)
      → full dg pol cfg bad s ≡ false
      → s.count ≡ pos count
      → (cfg.max_principals ≡ 0) ⊎ (count + 1 ≤ cfg.max_principals)
  room-left s bad count room e = elim (Bool-cases (ltb 0 cfg.max_principals)) [
    | inl capped ↦
        let at : at_least cfg.max_principals (pos count) ≡ false =
          ap (at_least cfg.max_principals) (sym e) ∙ ground arith in
        inr (ground arith)
    | inr unset ↦ inl (ground arith)
  ]

  pub Counted-writing :
      (s s' : Service P) (st : Store) (canon pub_key name key_name : List ℕ) (now k : ℕ)
      (bad : Faults)
      → Counted s none k
      → full dg pol cfg bad s ≡ false
      → st.enrolled ≡ s.store.enrolled
      → Meta.put_enrolled st name canon now ≡ some s'.store
      → s'.count ≡ s.count
      → Counted s' (some (canon, pub_key, key_name)) k
  Counted-writing s s' st canon pub_key name key_name now k bad c room same put count =
      let (free, codes, size, found, rows) = put_enrolled-some st s'.store name canon now put in
      let longer : length s'.store.enrolled ≡ length s.store.enrolled + 1 =
        size ∙ ap (λ x. length x + 1) same in
      record {
        count = c.count;
        counted = count ∙ c.counted;
        balance = omega (arith, longer, c.balance);
        capped =
            fewer (c.count + 1) (length s'.store.enrolled + k) (omega (arith, longer, c.balance))
              (room-left s bad c.count room c.counted);
        rows =
            subst Distinct (sym rows)
              (Distinct-insert name _ st.enrolled (subst Distinct (sym same) c.rows));
      }

  pub Counted-admit :
      (s s' : Service P) (r : List ℕ × List ℕ × List ℕ) (k : ℕ)
      → Counted s (some r) k
      → s'.store.enrolled ≡ s.store.enrolled
      → s'.count ≡ succ s.count
      → Counted s' none k
  Counted-admit s s' r k c rows count =
      let size = ap length rows in
      record {
        count = c.count + 1;
        counted = count ∙ ap succ c.counted;
        balance = omega (arith, c.balance, size);
        capped = fewer _ (length s'.store.enrolled + k) (omega (arith, size)) c.capped;
        rows = subst Distinct (sym rows) c.rows;
      }

  pub Counted-delete :
      (s s' : Service P) (name : List ℕ) (w : Underway) (k : ℕ)
      → Counted s w k
      → Meta.is_some (lookup name s.store.enrolled) ≡ true
      → s'.store.enrolled ≡ delete name s.store.enrolled
      → s'.count ≡ s.count
      → Counted s' w (k + 1)
  Counted-delete s s' name w k c there rows count =
      let gone : length s.store.enrolled ≡ length (delete name s.store.enrolled) + 1 =
        length-delete name s.store.enrolled c.rows ∙ rw there refl in
      let size = ap length rows in
      record {
        count = c.count;
        counted = count ∙ c.counted;
        balance = omega (arith, c.balance, size, gone);
        capped = fewer _ (length s'.store.enrolled + (k + 1)) (omega (arith, size, gone)) c.capped;
        rows = subst Distinct (sym rows) (Distinct-delete name s.store.enrolled c.rows);
      }

  pred-pos : (n m : ℕ) → n ≡ m + 1 → pred (pos n) ≡ pos m
  pred-pos zero m h = absurd (omega arith)
  pred-pos (suc n) m h = ap pos (omega arith)

  pub Counted-count_down :
      (s s' : Service P) (k : ℕ)
      → Counted s none (k + 1)
      → s'.store.enrolled ≡ s.store.enrolled
      → s'.count ≡ pred s.count
      → Counted s' none k
  Counted-count_down s s' k c rows count =
      let size = ap length rows in
      record {
        count = length s.store.enrolled + k;
        counted = count ∙ (ap pred c.counted ∙ pred-pos c.count _ (omega (arith, c.balance)));
        balance = omega (arith, size);
        capped = fewer _ (length s'.store.enrolled + k) (omega (arith, size)) c.capped;
        rows = subst Distinct (sym rows) c.rows;
      }

  pub Counted-rollback_enroll :
      (bad : Faults) (s : Service P) (name code : List ℕ) (k : ℕ)
      → Counted s none k
      → Counted (rollback_enroll dg pol cfg bad s name code) none k
  unfolding rollback_enroll Meta.delete_enrolled
  Counted-rollback_enroll bad s name code k c = elim (Bool-cases bad.delete) [
    | inl failed ↦
        Counted-same s (rollback_enroll dg pol cfg bad s name code) none k c
          (released-enrolled dg pol cfg bad _ code ∙ ground arith) (ground arith)
    | inr works ↦ elim (Bool-cases (Meta.is_some (lookup name s.store.enrolled))) [
      | inl there ↦
          let gone = record s {
            store = record s.store { enrolled = delete name s.store.enrolled };
          } in
          Counted-count_down gone (rollback_enroll dg pol cfg bad s name code) k
            (Counted-delete s gone name none k c there refl refl)
            (released-enrolled dg pol cfg bad _ code ∙ ground arith) (ground arith)
      | inr missing ↦
          Counted-same s (rollback_enroll dg pol cfg bad s name code) none k c
            (released-enrolled dg pol cfg bad _ code
              ∙ (ground arith ∙ delete-none name s.store.enrolled (ground arith)))
            (ground arith)
    ]
  ]

  -- What the first section of a removal does when the store answers.
  pub delete_row-some :
      (bad : Faults) (s s' : Service P) (name : List ℕ) (busy existed : Bool)
      → delete_row dg pol cfg bad s name busy ≡ (s', some existed)
      → (Meta.is_some (lookup name s.store.enrolled) ≡ existed)
        × (s'.store.enrolled ≡ delete name s.store.enrolled)
        × (s'.count ≡ s.count)
  unfolding delete_row Meta.delete_enrolled
  delete_row-some bad s s' name busy existed h =
      elim (Bool-cases (cfg.provision && cfg.drop_on_revoke && busy)) [
        | inl held ↦ absurd (ground (arith, ap (λ x. x.1) h))
        | inr free ↦ elim (Bool-cases bad.delete) [
          | inl failed ↦ absurd (ground (arith, ap (λ x. x.1) h))
          | inr works ↦
              let done : ◌≡◌ {A = Service P × Option Bool}
                  (
                    record s { store = record s.store { enrolled = delete name s.store.enrolled } },
                    some (Meta.is_some (lookup name s.store.enrolled)),
                  )
                  (s', some existed) =
                rw (← h, delete_row, free, works) refl in
              (
                some-injective _ _ (ap (λ x. x.1) done),
                ap (λ x. x.0.store.enrolled) (sym done),
                ap (λ x. x.0.count) (sym done),
              )
        ]
      ]
