-- ===== src/Enroll/Admission.antt =====
-- What a registration that succeeds went through.
use quicsql.Prelude.{
  ℕ, ◌≡◌, refl, sym, ap, subst, Bool, true, false, not, ◌&&◌, ◌==◌, bytes_eq, if◌then◌else◌, List,
  [], none, some, arith, Bool-cases, Option-cases, inl, inr, ◌⊎◌, if_cases,
}
use quicsql.Prelude.Result.{Result, ok, err}
use quicsql.Encoding.Hex
use quicsql.Prelude.Int.{succ}
use quicsql.Auth.Directory.{add_keyring}
use quicsql.Meta
use quicsql.Meta.{Store, enrolled_by_key}
use quicsql.Enroll.Service.{
  Enroll, Policies, Digests, Service, Faults, Registered, answered, registered, contains,
  principal_name, validate_token, consumed, write_enrolled, register, full, granted_all,
}

-- What opens the token gate: a shared token, or a code that is good now.
pub data Opens (dg : Digests) (cfg : Enroll) (st : Store) (token : List ℕ) (now : ℕ)
    : List ℕ → Type 0 where
  no_gate : cfg.by_token ≡ false → Opens dg cfg st token now []
  shared : contains (Hex.encode (dg.sha256 token)) cfg.tokens ≡ true → Opens dg cfg st token now []
  by_code :
      (code : List ℕ)
      → code ≡ Hex.encode (dg.sha256 token)
      → cfg.codes_enabled ≡ true
      → Meta.enroll_code_valid st code now ≡ true
      → Opens dg cfg st token now code

pub Result-cases :
    {E A : Type 0} (x : Result E A) → ((a : A) × (x ≡ ok a)) ⊎ ((e : E) × (x ≡ err e))
Result-cases (ok a) = inl (a, refl)
Result-cases (err e) = inr (e, refl)

shut : {X : Type 0} → false ≡ true → X
shut e = absurd (cc)

module _ {P : Type 0} (dg : Digests) (pol : Policies P) (cfg : Enroll) (bad : Faults) where
  validate_token-Opens :
      (st : Store) (token : List ℕ) (now : ℕ)
      → (validate_token dg pol cfg bad st token now).0 ≡ true
      → Opens dg cfg st token now (validate_token dg pol cfg bad st token now).1
  unfolding validate_token
  validate_token-Opens st token now h =
      if_cases (λ (r : Bool × List ℕ). r.0 ≡ true → Opens dg cfg st token now r.1) (token == [])
        (λ none_given. shut)
        (λ given.
          if_cases (λ (r : Bool × List ℕ). r.0 ≡ true → Opens dg cfg st token now r.1)
            (contains (Hex.encode (dg.sha256 token)) cfg.tokens) (λ known e. shared known)
            (λ new.
              if_cases (λ (r : Bool × List ℕ). r.0 ≡ true → Opens dg cfg st token now r.1)
                (cfg.codes_enabled
                  && not bad.check
                  && Meta.enroll_code_valid st (Hex.encode (dg.sha256 token)) now)
                (λ good e.
                  by_code (Hex.encode (dg.sha256 token)) refl (ground arith) (ground arith))
                (λ no. shut)))
        h

module _ {P : Type 0} (dg : Digests) (pol : Policies P) (cfg : Enroll) (bad : Faults) where
  -- What a registration went through: no key yet, an open gate, room, the code consumed, and the row
  -- written.
  pub record Admission (s s' : Service P) (canon pub_key token name code : List ℕ) (now : ℕ)
      : Type 0 where
    pub new_key : enrolled_by_key s.store canon ≡ none
    pub opened : Opens dg cfg s.store token now code
    pub room : full dg pol cfg bad s ≡ false
    pub st : Store
    pub spent : consumed dg pol cfg bad s.store code now ≡ ok st
    pub rows : Store
    pub written : Meta.put_enrolled st (principal_name dg canon) canon now ≡ some rows
    pub named : name ≡ principal_name dg canon
    pub after_it : s' ≡ record s {
      store = rows;
      directory = add_keyring s.directory canon pub_key (principal_name dg canon);
      policy = granted_all pol cfg.grants (principal_name dg canon) s.policy;
      count = succ s.count;
    }

  abbrev pub service_of : Registered P → Service P
  service_of (answered s a) = s
  service_of (registered s name code) = s

  abbrev parts_of : Registered P → List ℕ × List ℕ
  parts_of (answered s a) = ([], [])
  parts_of (registered s name code) = (name, code)

  write_enrolled-registered :
      (s s' : Service P) (st : Store) (canon pub_key name got code_hash got_code : List ℕ) (now : ℕ)
      → write_enrolled dg pol cfg bad s st canon pub_key name code_hash now
        ≡ registered s' got got_code
      → (rows : Store) × (Meta.put_enrolled st name canon now ≡ some rows)
        × (registered
              (record s {
                store = rows;
                directory = add_keyring s.directory canon pub_key name;
                policy = granted_all pol cfg.grants name s.policy;
                count = succ s.count;
              })
              name
              code_hash
            ≡ registered s' got got_code)
  unfolding write_enrolled
  write_enrolled-registered s s' st canon pub_key name got code_hash got_code now h =
      elim (Bool-cases bad.insert) [
        | inl failed ↦ absurd (ground arith)
        | inr works ↦ elim (Option-cases (Meta.put_enrolled st name canon now)) [
          | inl clash ↦ absurd (ground arith)
          | inr (rows, put) ↦ (rows, put, rw (← h, write_enrolled, works, put) refl)
        ]
      ]

  -- The gate's verdict, and the code to consume.
  abbrev pub gate : Service P → List ℕ → ℕ → Bool × List ℕ
  gate s token now =
      if cfg.by_token then validate_token dg pol cfg bad s.store token now else (true, [])

  gate-Opens :
      (s : Service P) (token : List ℕ) (now : ℕ)
      → (gate s token now).0 ≡ true
      → Opens dg cfg s.store token now (gate s token now).1
  gate-Opens s token now =
      if_cases (λ (r : Bool × List ℕ). r.0 ≡ true → Opens dg cfg s.store token now r.1) cfg.by_token
        (λ on. validate_token-Opens dg pol cfg bad s.store token now) (λ off e. no_gate off)

  admitted :
      (s s' : Service P) (canon pub_key token name code : List ℕ) (now : ℕ) (st : Store)
      → enrolled_by_key s.store canon ≡ none
      → (gate s token now).0 ≡ true
      → full dg pol cfg bad s ≡ false
      → consumed dg pol cfg bad s.store (gate s token now).1 now ≡ ok st
      → write_enrolled dg pol cfg bad s st canon pub_key
          (principal_name dg canon)
          (gate s token now).1
          now
        ≡ registered s' name code
      → Admission s s' canon pub_key token name code now
  admitted s s' canon pub_key token name code now st new opened room spent through =
      let (rows, put, same) =
        write_enrolled-registered s s' st canon pub_key (principal_name dg canon) name
          (gate s token now).1 code now through in
      let parts : ((gate s token now).1 ≡ code) × (principal_name dg canon ≡ name) =
        (ap (λ x. (parts_of x).1) same, ap (λ x. (parts_of x).0) same) in
      record {
        new_key = new;
        opened = subst (Opens dg cfg s.store token now) parts.0 (gate-Opens s token now opened);
        room = room;
        st = st;
        spent = subst (λ c. consumed dg pol cfg bad s.store c now ≡ ok st) parts.0 spent;
        rows = rows;
        written = put;
        named = sym parts.1;
        after_it = ap service_of (sym same);
      }

  pub register-Admission :
      (s s' : Service P) (canon pub_key token name code : List ℕ) (now : ℕ)
      → register dg pol cfg bad s canon pub_key token now ≡ registered s' name code
      → Admission s s' canon pub_key token name code now
  unfolding register
  register-Admission s s' canon pub_key token name code now h = elim (Bool-cases bad.find) [
    | inl failed ↦ absurd (ground arith)
    | inr works ↦ elim (Option-cases (enrolled_by_key s.store canon)) [
      | inr (existing, old) ↦ absurd (ground arith)
      | inl new ↦ elim (Bool-cases (gate s token now).0) [
        | inr closed ↦ absurd (ground arith)
        | inl opened ↦ elim (Bool-cases (full dg pol cfg bad s)) [
          | inl crowded ↦ absurd (ground arith)
          | inr room ↦
              elim (Result-cases (consumed dg pol cfg bad s.store (gate s token now).1 now)) [
                | inr (status, failed) ↦ absurd (ground arith)
                | inl (st, spent) ↦
                    let through : write_enrolled dg pol cfg bad s st canon pub_key
                          (principal_name dg canon) (gate s token now).1 now
                        ≡ registered s' name code =
                      ground arith in
                    admitted s s' canon pub_key token name code now st new opened room spent through
              ]
        ]
      ]
    ]
  ]

  -- The code that was taken, if there was one to take.
  pub consumed-ok :
      (st st' : Store) (code : List ℕ) (now : ℕ)
      → consumed dg pol cfg bad st code now ≡ ok st'
      → ((code ≡ []) × (st' ≡ st))
        ⊎ ((code == [] ≡ false)
            × ((Meta.consume_enroll_code st code now).1 ≡ true)
            × (st' ≡ (Meta.consume_enroll_code st code now).0))
  unfolding consumed
  consumed-ok st st' code now h = elim (Bool-cases (code == [])) [
    | inl none_taken ↦ inl (ground (arith, bytes_eq.beq_iff code []), ground arith)
    | inr taken ↦ elim (Bool-cases (Meta.consume_enroll_code st code now).1) [
      | inl won ↦ inr (taken, won, ground arith)
      | inr lost ↦ absurd (ground arith)
    ]
  ]
