-- ===== src/Enroll/Refusal.antt =====
-- A registration that is refused gives its code back.
use quicsql.Prelude.{
  ℕ, ◌≡◌, sym, ap, ◌∙◌, true, false, ◌==◌, bytes_eq, List, none, some, arith, Bool-cases,
  Option-cases, inl, inr,
}
use quicsql.Prelude.Map.{Map, lookup, adjust, lookup-adjust}
use quicsql.Prelude.Result.{ok}
use quicsql.Meta
use quicsql.Meta.{Store, Code, enrolled_by_key}
use quicsql.Enroll.Service.{
  Enroll, Policies, Digests, Service, Faults, Answer, answered, principal_name, consumed,
  write_enrolled, register, full, released,
}
use quicsql.Enroll.Admission.{consumed-ok, Result-cases, gate}

-- A code that is consumed and released is as it was.
adjust_back :
    (hash h : List ℕ) (now : ℕ) (codes : Map (List ℕ) Code)
    → Meta.usable now (lookup hash codes) ≡ true
    → lookup h (
        adjust hash
          (λ c. record c { used_at = none })
          (adjust hash (λ c. record c { used_at = some now }) codes))
      ≡ lookup h codes
adjust_back hash h now codes good = elim (Bool-cases (hash == h)) [
  | inr other ↦ ground (
    arith,
    lookup-adjust hash h (λ c. record c { used_at = none })
        (adjust hash (λ c. record c { used_at = some now }) codes),
    lookup-adjust hash h (λ c. record c { used_at = some now }) codes,
  )
  | inl same ↦ elim (Option-cases (lookup hash codes)) [
    | inl missing ↦ absurd (ground arith)
    | inr (c, found) ↦
        let unused : c.used_at ≡ none = ground arith in
        let whole : c ≡ record c { used_at = none } = λ i. record c { used_at = unused i } in
        ground (
          arith,
          whole,
          bytes_eq.beq_iff hash h,
          lookup-adjust hash h (λ c. record c { used_at = none })
              (adjust hash (λ c. record c { used_at = some now }) codes),
          lookup-adjust hash h (λ c. record c { used_at = some now }) codes,
        )
  ]
]

consume-enrolled :
    (st : Store) (code : List ℕ) (now : ℕ)
    → (Meta.consume_enroll_code st code now).0.enrolled ≡ st.enrolled
unfolding Meta.consume_enroll_code
consume-enrolled st code now = ground arith

consume-release :
    (st : Store) (code k : List ℕ) (now : ℕ)
    → (Meta.consume_enroll_code st code now).1 ≡ true
    → lookup k (Meta.release_enroll_code (Meta.consume_enroll_code st code now).0 code).codes
      ≡ lookup k st.codes
unfolding Meta.consume_enroll_code Meta.release_enroll_code
consume-release st code k now won = elim (Bool-cases (Meta.usable now (lookup code st.codes))) [
  | inr stale ↦ absurd (ground arith)
  | inl good ↦ ground (arith, good, adjust_back code k now st.codes good)
]

-- A service that refused: nothing changes, but for a code that could not be given back.
pub record Refused {P : Type 0} (bad : Faults) (s s' : Service P) : Type 0 where
  pub rows : s'.store.enrolled ≡ s.store.enrolled
  pub codes : bad.release ≡ false → (h : List ℕ) → lookup h s'.store.codes ≡ lookup h s.store.codes
  pub directory : s'.directory ≡ s.directory
  pub count : s'.count ≡ s.count

pub unchanged : {P : Type 0} (bad : Faults) (s s' : Service P) → s ≡ s' → Refused bad s s'
unchanged bad s s' e = record {
  rows = ap (λ x. x.store.enrolled) (sym e);
  codes = λ works h. ap (λ x. lookup h x.store.codes) (sym e);
  directory = ap (λ x. x.directory) (sym e);
  count = ap (λ x. x.count) (sym e);
}

module _ {P : Type 0} (dg : Digests) (pol : Policies P) (cfg : Enroll) (bad : Faults) where
  pub released-enrolled :
      (st : Store) (code : List ℕ) → (released dg pol cfg bad st code).enrolled ≡ st.enrolled
  unfolding Meta.release_enroll_code
  released-enrolled st code = ground arith

  pub consumed-enrolled :
      (st st' : Store) (code : List ℕ) (now : ℕ)
      → consumed dg pol cfg bad st code now ≡ ok st'
      → st'.enrolled ≡ st.enrolled
  consumed-enrolled st st' code now h = elim (consumed-ok dg pol cfg bad st st' code now h) [
    | inl (none_taken, same) ↦ ap (λ x. x.enrolled) same
    | inr (taken, won, same) ↦ ap (λ x. x.enrolled) same ∙ consume-enrolled st code now
  ]

  -- The rows stay, and the codes come back.
  pub released-consumed :
      (st st' : Store) (code : List ℕ) (now : ℕ)
      → consumed dg pol cfg bad st code now ≡ ok st'
      → ((released dg pol cfg bad st' code).enrolled ≡ st.enrolled)
        × (bad.release ≡ false
            → (h : List ℕ) → lookup h (released dg pol cfg bad st' code).codes ≡ lookup h st.codes)
  released-consumed st st' code now h = elim (consumed-ok dg pol cfg bad st st' code now h) [
    | inl (none_taken, same) ↦
        let kept : released dg pol cfg bad st' code ≡ st = rw none_taken same in
        (ap (λ x. x.enrolled) kept, λ e k. ap (λ x. lookup k x.codes) kept)
    | inr (taken, won, same) ↦
        let rows : st'.enrolled ≡ st.enrolled =
          ap (λ x. x.enrolled) same ∙ consume-enrolled st code now in
        (
          released-enrolled st' code ∙ rows,
          λ e k.
              let freed : released dg pol cfg bad st' code ≡ Meta.release_enroll_code st' code =
                ground (arith, taken, e) in
              ap (λ x. lookup k x.codes) (freed ∙ ap (λ x. Meta.release_enroll_code x code) same)
              ∙ consume-release st code k now won,
        )
  ]

  write_enrolled-refused :
      (s s' : Service P) (a : Answer) (st : Store) (canon pub_key name code : List ℕ) (now : ℕ)
      → write_enrolled dg pol cfg bad s st canon pub_key name code now ≡ answered s' a
      → record s { store = released dg pol cfg bad st code } ≡ s'
  unfolding write_enrolled
  write_enrolled-refused s s' a st canon pub_key name code now h = elim (Bool-cases bad.insert) [
    | inl failed ↦ ground arith
    | inr works ↦ elim (Option-cases (Meta.put_enrolled st name canon now)) [
      | inl clash ↦ ground arith
      | inr (rows, put) ↦ absurd (ground arith)
    ]
  ]

  write_enrolled-answered :
      (s s' : Service P) (a : Answer) (st : Store) (canon pub_key name code : List ℕ) (now : ℕ)
      → consumed dg pol cfg bad s.store code now ≡ ok st
      → write_enrolled dg pol cfg bad s st canon pub_key name code now ≡ answered s' a
      → Refused bad s s'
  write_enrolled-answered s s' a st canon pub_key name code now spent h =
      let (rows, codes) = released-consumed s.store st code now spent in
      let same : record s { store = released dg pol cfg bad st code } ≡ s' =
        write_enrolled-refused s s' a st canon pub_key name code now h in
      record {
        rows = ap (λ x. x.store.enrolled) (sym same) ∙ rows;
        codes = λ works k. ap (λ x. lookup k x.store.codes) (sym same) ∙ codes works k;
        directory = ap (λ x. x.directory) (sym same);
        count = ap (λ x. x.count) (sym same);
      }

  -- The answer, and the state before and after but for the codes.
  pub register-answered :
      (s s' : Service P) (a : Answer) (canon pub_key token : List ℕ) (now : ℕ)
      → register dg pol cfg bad s canon pub_key token now ≡ answered s' a
      → Refused bad s s'
  unfolding register
  register-answered s s' a canon pub_key token now h = elim (Bool-cases bad.find) [
    | inl failed ↦ unchanged bad s s' (ground arith)
    | inr works ↦ elim (Option-cases (enrolled_by_key s.store canon)) [
      | inr (existing, old) ↦ unchanged bad s s' (ground arith)
      | inl new ↦ elim (Bool-cases (gate dg pol cfg bad s token now).0) [
        | inr closed ↦ unchanged bad s s' (ground arith)
        | inl opened ↦ elim (Bool-cases (full dg pol cfg bad s)) [
          | inl crowded ↦ unchanged bad s s' (ground arith)
          | inr room ↦
              elim (Result-cases
                (consumed dg pol cfg bad s.store (gate dg pol cfg bad s token now).1 now)) [
                  | inr (status, failed) ↦ unchanged bad s s' (ground arith)
                  | inl (st, spent) ↦
                      write_enrolled-answered s s' a st canon pub_key (principal_name dg canon)
                        (gate dg pol cfg bad s token now).1 now spent (ground arith)
                ]
        ]
      ]
    ]
  ]
