-- ===== src/Enroll/Gates.antt =====
-- Who gets registered.
use quicsql.Prelude.{
  ℕ, ◌≡◌, ap, ◌∙◌, true, false, bytes_eq, List, [], none, some, arith, Bool-cases, inl, inr, ◌⊎◌,
}
use quicsql.Prelude.Map.{lookup, lookup-adjust}
use quicsql.Meta
use quicsql.Meta.{Store, enrolled_by_key}
use quicsql.Meta.Rows.{put_enrolled-some}
use quicsql.Enroll.Service.{
  Enroll, Policies, Digests, Service, Faults, registered, principal_name, register, full,
}
use quicsql.Enroll.Admission.{Opens, register-Admission, consumed-ok}

-- A code that is consumed is no longer good at any time.
consumed-used :
    (st : Store) (hash : List ℕ) (now later : ℕ)
    → (Meta.consume_enroll_code st hash now).1 ≡ true
    → Meta.enroll_code_valid (Meta.consume_enroll_code st hash now).0 hash later ≡ false
unfolding Meta.consume_enroll_code Meta.enroll_code_valid
consumed-used st hash now later h = elim (Bool-cases (Meta.usable now (lookup hash st.codes))) [
  | inr bad ↦ absurd (ground arith)
  | inl good ↦ ground (
    arith,
    good,
    lookup-adjust hash hash (λ c. record c { used_at = some now }) st.codes,
    bytes_eq.beq_iff hash hash,
  )
]

valid_codes :
    (st st' : Store) (code : List ℕ) (now : ℕ)
    → st.codes ≡ st'.codes
    → Meta.enroll_code_valid st code now ≡ Meta.enroll_code_valid st' code now
unfolding Meta.enroll_code_valid
valid_codes st st' code now e = ap (λ m. Meta.usable now (lookup code m)) e

-- Whoever is registered presented a key that was not enrolled, found room under the cap if there is
-- one, and came with a shared token or with a single-use code that was good, unless the policy is
-- open; the key is then enrolled under the server's name for it, and a code that was used is not good
-- again at any time.
pub register-registered :
    {P : Type 0} (dg : Digests) (pol : Policies P) (cfg : Enroll) (bad : Faults) (s s' : Service P)
    (canon pub_key token name code : List ℕ) (now later : ℕ)
    → register dg pol cfg bad s canon pub_key token now ≡ registered s' name code
    → (enrolled_by_key s.store canon ≡ none)
      × (full dg pol cfg bad s ≡ false)
      × Opens dg cfg s.store token now code
      × (enrolled_by_key s'.store canon ≡ some (principal_name dg canon))
      × ((code ≡ []) ⊎ (Meta.enroll_code_valid s'.store code later ≡ false))
register-registered dg pol cfg bad s s' canon pub_key token name code now later h =
    let a = register-Admission dg pol cfg bad s s' canon pub_key token name code now h in
    let (new, codes, size, found, rows) =
      put_enrolled-some a.st a.rows (principal_name dg canon) canon now a.written in
    let store : s'.store ≡ a.rows = ap (λ x. x.store) a.after_it in
    (
      a.new_key,
      a.room,
      a.opened,
      ap (λ x. enrolled_by_key x canon) store
          ∙ (found canon ∙ ground (arith, bytes_eq.beq_iff canon canon)),
      elim (consumed-ok dg pol cfg bad s.store a.st code now a.spent) [
        | inl (none_taken, same) ↦ inl none_taken
        | inr (taken, won, same) ↦ inr (
            valid_codes s'.store (Meta.consume_enroll_code s.store code now).0 code later
              (ap (λ x. x.codes) store ∙ codes ∙ ap (λ x. x.codes) same)
            ∙ consumed-used s.store code now later won)
      ],
    )
