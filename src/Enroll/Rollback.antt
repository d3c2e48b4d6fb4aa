-- ===== src/Enroll/Rollback.antt =====
-- An enrolment that fails leaves no trace.
use quicsql.Prelude.{
  ℕ, suc, zero, ◌+◌, String, ◌≡◌, ◌≢◌, refl, sym, ap, subst, ◌∙◌, Bool, true, false, ◌||◌, ◌==◌,
  bytes_eq, if◌then◌else◌, List, [], ◌∷◌, Option, none, some, arith, Bool-cases, Option-cases, inl,
  inr, ◌⊎◌,
}
use quicsql.Prelude.Int.{ℤ, pos, negsuc, succ, pred}
use quicsql.Prelude.Map.{Map, lookup, insert, delete, delete-insert, lookup-insert, Distinct}
use quicsql.Auth.Directory.{Directory, KeyringCred, add_keyring, remove_keyring_name, without_name}
use quicsql.Meta
use quicsql.Meta.{Store, Row, enrolled_by_key}
use quicsql.Meta.Rows.{put_enrolled-some}
use quicsql.Enroll.Refusal.{
  Refused, unchanged, register-answered, consumed-enrolled, released-enrolled, released-consumed,
}
use quicsql.Enroll.Service.{
  Enroll, Policies, Digests, Service, Faults, Answer, Registered, answered, registered,
  principal_name, register, rollback_enroll, finish, enroll, released,
}
use quicsql.Enroll.Admission.{register-Admission}
use quicsql.Enroll.Sync.{Synced}

pred-succ : (c : ℤ) → pred (succ c) ≡ c
pred-succ (pos n) = ap pred (ap pos (next n)) ∙ refl
  where
    next : (n : ℕ) → n + 1 ≡ suc n
    next n = omega arith
pred-succ (negsuc zero) = refl
pred-succ (negsuc (suc n)) = ap negsuc (omega arith)

-- The name of a row that a key finds is the name of a row.
name_of_key-lookup :
    (k n : List ℕ) (rows : Map (List ℕ) Row)
    → Meta.name_of_key k rows ≡ some n
    → lookup n rows ≢ none
unfolding lookup
name_of_key-lookup k n [] h = absurd (cc)
name_of_key-lookup k n ((j, r) ∷ rows) h =
    λ e. ground (arith, bytes_eq.beq_iff j n, name_of_key-lookup k n rows)

without_name-absent :
    (name : List ℕ) (m : Map (List ℕ) KeyringCred)
    → Distinct m
    → ((k : List ℕ) (c : KeyringCred) → lookup k m ≡ some c → c.name ≢ name)
    → without_name name m ≡ m
unfolding lookup without_name
without_name-absent name [] d h = refl
without_name-absent name ((j, c) ∷ m) d h =
    let mine : c.name ≢ name = h j c (ground (arith, bytes_eq.beq_iff j j)) in
    let rest =
      without_name-absent name m d.1
        (λ k c' found. h k c' (ground (arith, bytes_eq.beq_iff j k))) in
    ground (arith, bytes_eq.beq_iff c.name name, mine, rest)

without_name-insert :
    (name canon pub_key : List ℕ) (m : Map (List ℕ) KeyringCred)
    → lookup canon m ≡ none
    → without_name name (insert canon (record { key = pub_key; name = name }) m)
      ≡ without_name name m
unfolding lookup insert without_name
without_name-insert name canon pub_key [] h = ground (arith, bytes_eq.beq_iff name name)
without_name-insert name canon pub_key ((j, c) ∷ m) h =
    ground (arith, without_name-insert name canon pub_key m)

-- A key that is added under a new name goes with its name.
add-remove :
    (d : Directory) (canon pub_key name : List ℕ)
    → Distinct d.dyn_keyring
    → lookup canon d.dyn_keyring ≡ none
    → ((k : List ℕ) (c : KeyringCred) → lookup k d.dyn_keyring ≡ some c → c.name ≢ name)
    → remove_keyring_name (add_keyring d canon pub_key name) name ≡ d
unfolding add_keyring remove_keyring_name
add-remove d canon pub_key name distinct new absent = elim (Option-cases (lookup canon d.keyring)) [
  | inr (configured, static) ↦
      rw (add_keyring, static)
        (λ i. record d { dyn_keyring = without_name-absent name d.dyn_keyring distinct absent i })
  | inl dynamic ↦
      rw (add_keyring, dynamic)
        (λ i. record d {
          dyn_keyring =
              (without_name-insert name canon pub_key d.dyn_keyring new
                  ∙ without_name-absent name d.dyn_keyring distinct absent)
                i;
        })
]

inserted_there :
    (n : List ℕ) (row : Row) (rows : Map (List ℕ) Row) → lookup n (insert n row rows) ≡ some row
inserted_there n row rows = ground (arith, lookup-insert n n row rows, bytes_eq.beq_iff n n)

Registered-cases :
    {P : Type 0} (x : Registered P)
    → ((s : Service P) × (a : Answer) × (x ≡ answered s a))
      ⊎ ((s : Service P) × (name : List ℕ) × (code : List ℕ) × (x ≡ registered s name code))
Registered-cases (answered s a) = inl (s, a, refl)
Registered-cases (registered s name code) = inr (s, name, code, refl)

unkeyed :
    {P : Type 0} (s : Service P) (canon : List ℕ)
    → Synced s
    → enrolled_by_key s.store canon ≡ none
    → lookup canon s.directory.dyn_keyring ≡ none
unkeyed s canon w new = elim (Option-cases (lookup canon s.directory.dyn_keyring)) [
  | inl missing ↦ missing
  | inr (cred, found) ↦ let there = w.live canon cred found in absurd (cc)
]

module _ {P : Type 0} (dg : Digests) (pol : Policies P) (cfg : Enroll) (bad : Faults) where
  finish-refused :
      (s s' : Service P) (a : Answer) (canon name code : List ℕ) (db : String) (created : Bool)
      → finish dg pol cfg bad s canon name code db created ≡ (s', a)
      → a.principal ≡ none
      → rollback_enroll dg pol cfg bad s name code ≡ s'
  unfolding finish
  finish-refused s s' a canon name code db created h refused = ground arith

  released-codes :
      (st st' : Store) (code : List ℕ)
      → st.codes ≡ st'.codes
      → (released dg pol cfg bad st code).codes ≡ (released dg pol cfg bad st' code).codes
  unfolding Meta.release_enroll_code
  released-codes st st' code e = elim (Bool-cases (code == [] || bad.release)) [
    | inl kept ↦ ground arith
    | inr back ↦ ground arith
  ]

  -- What undoing a registration makes of the state.
  rollback-fields :
      (s : Service P) (name code : List ℕ)
      → bad.delete ≡ false
      → ((rollback_enroll dg pol cfg bad s name code).store.enrolled ≡ delete name s.store.enrolled)
        × ((rollback_enroll dg pol cfg bad s name code).store.codes
            ≡ (released dg pol cfg bad s.store code).codes)
        × ((rollback_enroll dg pol cfg bad s name code).count
            ≡ (if Meta.is_some (lookup name s.store.enrolled) then pred s.count else s.count))
        × ((rollback_enroll dg pol cfg bad s name code).directory
            ≡ remove_keyring_name s.directory name)
  unfolding rollback_enroll Meta.delete_enrolled
  rollback-fields s name code works = (
    released-enrolled dg pol cfg bad _ code ∙ ground arith,
    released-codes _ s.store code (ground arith),
    ground arith,
    refl,
  )

  rollback-Refused :
      (s s1 : Service P) (canon pub_key token name code : List ℕ) (now : ℕ)
      → Synced s
      → bad.delete ≡ false
      → register dg pol cfg bad s canon pub_key token now ≡ registered s1 name code
      → Refused bad s (rollback_enroll dg pol cfg bad s1 name code)
  unfolding enrolled_by_key
  rollback-Refused s s1 canon pub_key token name code now w works h =
      let a = register-Admission dg pol cfg bad s s1 canon pub_key token name code now h in
      let pn = principal_name dg canon in
      let (free, codes, size, found, rows) = put_enrolled-some a.st a.rows pn canon now a.written in
      let (kept, good) = released-consumed dg pol cfg bad s.store a.st code now a.spent in
      let before = consumed-enrolled dg pol cfg bad s.store a.st code now a.spent in
      let (f_rows, f_codes, f_count, f_dir) = rollback-fields s1 name code works in
      let inserted : s1.store.enrolled
          ≡ insert pn (record { key = canon; created_at = now; last_seen = none }) a.st.enrolled =
        ap (λ x. x.store.enrolled) a.after_it ∙ rows in
      let row : Row = record { key = canon; created_at = now; last_seen = none } in
      let there : lookup name s1.store.enrolled ≡ some row =
        ap (λ n. lookup n s1.store.enrolled) a.named
        ∙ (ap (lookup pn) inserted ∙ inserted_there pn row a.st.enrolled) in
      record {
        rows =
            f_rows
            ∙ (ap (delete name) inserted
                ∙ (ap (λ n. delete n (insert pn row a.st.enrolled)) a.named
                    ∙ (delete-insert pn row a.st.enrolled free ∙ before)));
        codes = λ frees k.
            ap (lookup k) (
              f_codes
              ∙ released-codes s1.store a.st code (ap (λ x. x.store.codes) a.after_it ∙ codes))
            ∙ good frees k;
        directory =
            f_dir
            ∙ (ap (λ n. remove_keyring_name s1.directory n) a.named
                ∙ (ap (λ x. remove_keyring_name x.directory pn) a.after_it
                    ∙ add-remove s.directory canon pub_key pn w.keys (unkeyed s canon w a.new_key)
                        (λ k c found e.
                          name_of_key-lookup k c.name s.store.enrolled (w.live k c found) (
                            ap (λ n. lookup n s.store.enrolled) e
                            ∙ (ap (lookup pn) (sym before) ∙ free)))));
        count =
            f_count
            ∙ (ap (λ o. if Meta.is_some o then pred s1.count else s1.count) there
                ∙ (ap (λ x. pred x.count) a.after_it ∙ pred-succ s.count));
      }

  enroll-Refused :
      (s s' : Service P) (a : Answer) (is_post allowed : Bool) (proof : Option (List ℕ × List ℕ))
      (token : List ℕ) (db : String) (created : Bool) (now : ℕ)
      → Synced s
      → bad.delete ≡ false
      → enroll dg pol cfg bad s is_post allowed proof token db created now ≡ (s', a)
      → a.principal ≡ none
      → Refused bad s s'
  unfolding enroll
  enroll-Refused s s' a false allowed proof token db created now w works h refused =
      unchanged bad s s' (ap (λ x. x.0) h)
  enroll-Refused s s' a true false proof token db created now w works h refused =
      unchanged bad s s' (ap (λ x. x.0) h)
  enroll-Refused s s' a true true none token db created now w works h refused =
      unchanged bad s s' (ap (λ x. x.0) h)
  enroll-Refused s s' a true true (some (canon, pub_key)) token db created now w works h refused =
      elim (Registered-cases (register dg pol cfg bad s canon pub_key token now)) [
        | inl (s1, answer, said) ↦
            let same : s1 ≡ s' = ground arith in
            subst (Refused bad s) same
              (register-answered dg pol cfg bad s s1 answer canon pub_key token now said)
        | inr (s1, name, code, done) ↦
            let last : finish dg pol cfg bad s1 canon name code db created ≡ (s', a) =
              ground arith in
            subst (Refused bad s) (finish-refused s1 s' a canon name code db created last refused)
              (rollback-Refused s s1 canon pub_key token name code now w works done)
      ]

-- An enrolment that is refused, at whichever step, leaves the rows, the count and the live keys as
-- they were, and every code as good as it was. The service is in step, and the store carries out
-- the undoing: the deletion of the row and the release of the code.
pub enroll-refused :
    {P : Type 0} (dg : Digests) (pol : Policies P) (cfg : Enroll) (bad : Faults) (s s' : Service P)
    (a : Answer) (is_post allowed : Bool) (proof : Option (List ℕ × List ℕ)) (token : List ℕ)
    (db : String) (created : Bool) (now : ℕ)
    → Synced s
    → bad.delete ≡ false
    → bad.release ≡ false
    → enroll dg pol cfg bad s is_post allowed proof token db created now ≡ (s', a)
    → a.principal ≡ none
    → (s'.store.enrolled ≡ s.store.enrolled)
      × (s'.count ≡ s.count)
      × (s'.directory ≡ s.directory)
      × ((code : List ℕ) → lookup code s'.store.codes ≡ lookup code s.store.codes)
enroll-refused dg pol cfg bad s s' a is_post allowed proof token db created now w works frees h
      refused =
    let r =
      enroll-Refused dg pol cfg bad s s' a is_post allowed proof token db created now w works h
        refused in
    (r.rows, r.count, r.directory, r.codes frees)
