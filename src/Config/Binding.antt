-- ===== src/Config/Binding.antt =====
-- What the addresses of an accepted configuration satisfy.
use quicsql.Prelude.{
  ℕ, Bool, ◌≡◌, refl, sym, subst, true, false, ◌||◌, ◌==◌, bytes_eq, if◌then◌else◌, List, [], ◌∷◌,
  Option, none, some, arith, Bool-cases, inl, inr,
}
use quicsql.Config.Wiring.{
  WiringError, Endpoint, TlsProfile, ◌then_check◌, refuse_if, bind_key, taken, validate_wire,
  validate_endpoints, validate_transports, both_bind,
}

-- The keys of the listeners that bind an address.
abbrev pub bind_keys : List Endpoint → List (List ℕ)
bind_keys [] = []
bind_keys (lc ∷ lcs) =
    let rest = bind_keys lcs in if lc.address == [] then rest else bind_key lc ∷ rest

abbrev pub repeats : List (List ℕ) → Bool
repeats [] = false
repeats (k ∷ ks) = taken k ks || repeats ks

then_check-none : (a b : Option WiringError) → (a then_check b) ≡ none → (a ≡ none) × (b ≡ none)
then_check-none none b e = (refl, e)
then_check-none (some x) b e = absurd (ground arith)

-- No key of the second list is among the first.
abbrev pub Apart : List (List ℕ) → List (List ℕ) → Type 0
Apart bound ks = (k : List ℕ) → taken k bound ≡ true → taken k ks ≡ false

-- What holds of the keys of the listeners after `bound`.
abbrev pub Disjoint : List (List ℕ) → List (List ℕ) → Type 0
Disjoint bound ks = Apart bound ks × (repeats ks ≡ false)

Disjoint-cons :
    (bound ks : List (List ℕ)) (k : List ℕ)
    → taken k bound ≡ false
    → Disjoint (k ∷ bound) ks
    → Disjoint bound (k ∷ ks)
Disjoint-cons bound ks k new (apart, once) =
    let itself = apart k (ground (arith, bytes_eq.beq_iff k k)) in
    (
      λ j t. let later = apart j (ground arith) in ground (arith, bytes_eq.beq_iff k j),
      ground arith,
    )

bind_keys-silent :
    (lc : Endpoint) (lcs : List Endpoint)
    → (lc.address == []) ≡ true
    → bind_keys (lc ∷ lcs) ≡ bind_keys lcs
bind_keys-silent lc lcs e = ground arith

bind_keys-binds :
    (lc : Endpoint) (lcs : List Endpoint)
    → (lc.address == []) ≡ false
    → bind_keys (lc ∷ lcs) ≡ bind_key lc ∷ bind_keys lcs
bind_keys-binds lc lcs e = ground arith

if-true-none :
    (b : Bool) (x y : Option WiringError) → b ≡ true → (if b then x else y) ≡ none → x ≡ none
if-true-none b x y e h = ground arith

if-false-none :
    (b : Bool) (x y : Option WiringError) → b ≡ false → (if b then x else y) ≡ none → y ≡ none
if-false-none b x y e h = ground arith

validate_endpoints-Disjoint :
    (profiles : List TlsProfile) (bound : List (List ℕ)) (lcs : List Endpoint)
    → validate_endpoints profiles bound lcs ≡ none
    → Disjoint bound (bind_keys lcs)
unfolding validate_endpoints
validate_endpoints-Disjoint profiles bound [] e = (λ k t. refl, refl)
validate_endpoints-Disjoint profiles bound (lc ∷ lcs) e =
    let k = bind_key lc in
    let (e1, f1) = then_check-none (validate_wire profiles lc) _ e in
    elim (Bool-cases (lc.address == [])) [
      | inl silent ↦
          subst (Disjoint bound) (sym (bind_keys-silent lc lcs silent))
            (validate_endpoints-Disjoint profiles bound lcs (if-true-none _ _ _ silent f1))
      | inr binds ↦
          let (e2, f2) =
            then_check-none (refuse_if (taken k bound) both_bind) _
              (if-false-none _ _ _ binds f1) in
          subst (Disjoint bound) (sym (bind_keys-binds lc lcs binds)) (
            Disjoint-cons bound (bind_keys lcs) k (ground arith)
              (validate_endpoints-Disjoint profiles (k ∷ bound) lcs f2))
    ]

-- If `validate_transports` accepts the listeners, then no two of those with an address bind the
-- same address in the same family of sockets.
pub validate_transports-repeats :
    (lcs : List Endpoint) (profiles : List TlsProfile)
    → validate_transports lcs profiles ≡ none
    → repeats (bind_keys lcs) ≡ false
unfolding validate_transports
validate_transports-repeats lcs profiles e =
    let (e1, f1) = then_check-none (validate_endpoints profiles [] lcs) _ e in
    (validate_endpoints-Disjoint profiles [] lcs e1).1
