-- ===== src/Auth/Requests/Decisive.antt =====
-- Which method's credential decides.
use quicsql.Prelude.{
  ℕ, ◌≡◌, ◌≢◌, refl, sym, ap, ◌∙◌, Bool, true, false, not, ◌&&◌, ◌||◌, bytes_eq, List, [], ◌∷◌,
  Option, arith, Bool-cases, Option-cases, inl, inr, ◌⊎◌,
}
use quicsql.Prelude.Result.{ok}
use quicsql.Auth.Requests.{
  Request, Method, mtls, keyring, session, bearer, password, peercred, none_method, Attempt, absent,
  rejected, accepted, Caller, Crypto, Authenticator, Middleware, try, try_mtls, try_keyring,
  try_session, try_bearer, try_password, try_peercred, try_hard, hard_methods, is_session, soft,
  authenticate_for,
}

module _ {D : Type 0} (crypto : Crypto) (a : Authenticator D) (now : ℕ) (r : Request) (p : Caller)
    (s k : Option (List ℕ)) where
  try_mtls-method : try_mtls crypto a now r ≡ accepted p s k → p.method ≡ mtls
  unfolding try_mtls
  try_mtls-method h = ground arith

  try_keyring-method : try_keyring crypto a now r ≡ accepted p s k → p.method ≡ keyring
  unfolding try_keyring
  try_keyring-method h = ground arith

  try_session-method : try_session crypto a now r ≡ accepted p s k → p.method ≡ session
  unfolding try_session
  try_session-method h = ground arith

  try_bearer-method : try_bearer crypto a now r ≡ accepted p s k → p.method ≡ bearer
  unfolding try_bearer
  try_bearer-method h = ground arith

  try_password-method : try_password crypto a now r ≡ accepted p s k → p.method ≡ password
  unfolding try_password
  try_password-method h = ground arith

  try-method : (mth : Method) → try crypto a now mth r ≡ accepted p s k → p.method ≡ mth
  unfolding try
  try-method mtls h = try_mtls-method h
  try-method keyring h = try_keyring-method h
  try-method session h = try_session-method h
  try-method bearer h = try_bearer-method h
  try-method password h = try_password-method h
  try-method peercred h = absurd (cc)
  try-method none_method h = absurd (cc)

-- Methods that are not tried.
abbrev pub passed_over : {D : Type 0} → Middleware D → Bool → Method → Bool
passed_over m skip mth = not (m.accepted mth) || (skip && is_session mth)

Attempt-cases : (x : Attempt) → (x ≡ absent) ⊎ (x ≢ absent)
Attempt-cases absent = inl refl
Attempt-cases rejected = inr (λ e. absurd (cc))
Attempt-cases (accepted p s k) = inr (λ e. absurd (cc))

-- A method that finds a credential decides.
decided :
    (x rest : Attempt)
    → x ≢ absent
    → elim x [ absent ↦ rest | rejected ↦ rejected | accepted p s k ↦ accepted p s k ] ≡ x
decided absent rest h = absurd (h refl)
decided rejected rest h = refl
decided (accepted p s k) rest h = refl

pub try_hard-found :
    {D : Type 0} (crypto : Crypto) (m : Middleware D) (now : ℕ) (skip : Bool)
    (methods : List Method) (r : Request) (p : Caller) (s k : Option (List ℕ))
    → try_hard crypto m now skip methods r ≡ accepted p s k
    → (passed_over m skip p.method ≡ false) × (try crypto m.authn now p.method r ≡ accepted p s k)
unfolding try_hard
try_hard-found crypto m now skip [] r p s k h = absurd (cc)
try_hard-found crypto m now skip (mth ∷ methods) r p s k h =
    elim (Bool-cases (passed_over m skip mth)) [
      | inl over ↦ try_hard-found crypto m now skip methods r p s k (rw (← h, try_hard, over) refl)
      | inr tried ↦ elim (Attempt-cases (try crypto m.authn now mth r)) [
        | inl none_here ↦
            try_hard-found crypto m now skip methods r p s k
              (rw (← h, try_hard, tried, none_here) refl)
        | inr here ↦
            let found : try crypto m.authn now mth r ≡ accepted p s k =
              sym (decided _ (try_hard crypto m now skip methods r) here)
              ∙ rw (← h, try_hard, tried) refl in
            let same = try-method crypto m.authn now r p s k mth found in
            (
              ap (passed_over m skip) same ∙ tried,
              ap (λ x. try crypto m.authn now x r) same ∙ found,
            )
      ]
    ]

try_hard-absent :
    {D : Type 0} (crypto : Crypto) (m : Middleware D) (now : ℕ) (skip : Bool) (mth : Method)
    (methods : List Method) (r : Request)
    → try_hard crypto m now skip (mth ∷ methods) r ≡ absent
    → (passed_over m skip mth ≡ false → try crypto m.authn now mth r ≡ absent)
      × (try_hard crypto m now skip methods r ≡ absent)
unfolding try_hard
try_hard-absent crypto m now skip mth methods r h = ground arith

Attempt-split :
    (x : Attempt)
    → (x ≡ absent)
      ⊎ ((x ≡ rejected)
          ⊎ ((p : Caller) × (s : Option (List ℕ)) × (k : Option (List ℕ)) × (x ≡ accepted p s k)))
Attempt-split absent = inl refl
Attempt-split rejected = inr (inl refl)
Attempt-split (accepted p s k) = inr (inr (p, s, k, refl))

-- The methods of last resort.
abbrev pub IsSoft : Method → Type 0
IsSoft mth = (mth ≡ none_method) ⊎ (mth ≡ peercred)

soft-IsSoft :
    {D : Type 0} (crypto : Crypto) (m : Middleware D) (now : ℕ) (r : Request) (p : Caller)
    → soft crypto m now r ≡ ok p
    → IsSoft p.method
unfolding try_peercred
soft-IsSoft crypto m now r p h = elim (Bool-cases (m.accepted peercred)) [
  | inl on ↦ elim (Option-cases (try_peercred crypto m.authn now r)) [
    | inl unmapped ↦ inl (ground arith)
    | inr (q, mapped) ↦ inr (ground arith)
  ]
  | inr off ↦ inl (ground arith)
]

pub authenticate_for-cases :
    {D : Type 0} (crypto : Crypto) (m : Middleware D) (now : ℕ) (r : Request) (skip : Bool)
    (p : Caller)
    → authenticate_for crypto m now r skip ≡ ok p
    → ((try_hard crypto m now skip hard_methods r ≡ absent) × IsSoft p.method)
      ⊎ ((s : Option (List ℕ)) × (k : Option (List ℕ)) × (try_hard crypto m now skip hard_methods r
            ≡ accepted p s k))
unfolding authenticate_for
authenticate_for-cases crypto m now r skip p h =
    elim (Attempt-split (try_hard crypto m now skip hard_methods r)) [
      | inl nothing ↦
          inl (nothing, soft-IsSoft crypto m now r p (rw (← h, authenticate_for, nothing) refl))
      | inr (inl bad) ↦ absurd (ground arith)
      | inr (inr (q, s, k, found)) ↦ inr (s, k, ground arith)
    ]

-- When the session method is left out, no request is authenticated as a session.
pub authenticate_for-session :
    {D : Type 0} (crypto : Crypto) (m : Middleware D) (now : ℕ) (r : Request) (p : Caller)
    → authenticate_for crypto m now r true ≡ ok p
    → p.method ≢ session
unfolding try_hard
authenticate_for-session crypto m now r p h same =
    elim (authenticate_for-cases crypto m now r true p h) [
      | inl (nothing, last) ↦ ground arith
      | inr (s, k, found) ↦
          let over = (try_hard-found crypto m now true hard_methods r p s k found).0 in
          ground (arith, over, same)
    ]

-- When a request ends as the anonymous principal, or as its socket's peer, every method that the
-- listener accepts and that is not left out found nothing.
pub authenticate_for-downgrade :
    {D : Type 0} (crypto : Crypto) (m : Middleware D) (now : ℕ) (r : Request) (skip : Bool)
    (p : Caller) (mth : Method)
    → authenticate_for crypto m now r skip ≡ ok p
    → IsSoft p.method
    → m.accepted mth ≡ true
    → (skip && is_session mth) ≡ false
    → try crypto m.authn now mth r ≡ absent
unfolding try
authenticate_for-downgrade crypto m now r skip p mth h last on kept =
    elim (authenticate_for-cases crypto m now r skip p h) [
      | inr (s, k, found) ↦
          let real = (try_hard-found crypto m now skip hard_methods r p s k found).1 in
          elim last [
            | inl e ↦
                let bad : absent ≡ accepted p s k =
                  ap (λ x. try crypto m.authn now x r) (sym e) ∙ real in
                absurd (cc)
            | inr e ↦
                let bad : absent ≡ accepted p s k =
                  ap (λ x. try crypto m.authn now x r) (sym e) ∙ real in
                absurd (cc)
          ]
      | inl (nothing, also) ↦
          let (c1, t1) = try_hard-absent crypto m now skip mtls _ r nothing in
          let (c2, t2) = try_hard-absent crypto m now skip keyring _ r t1 in
          let (c3, t3) = try_hard-absent crypto m now skip session _ r t2 in
          let (c4, t4) = try_hard-absent crypto m now skip bearer _ r t3 in
          let (c5, t5) = try_hard-absent crypto m now skip password _ r t4 in
          elim mth as (λ x. passed_over m skip x ≡ false → try crypto m.authn now x r ≡ absent) [
            | mtls ↦ c1
            | keyring ↦ c2
            | session ↦ c3
            | bearer ↦ c4
            | password ↦ c5
            | peercred ↦ λ e. refl
            | none_method ↦ λ e. refl
          ]
            (rw (on, kept) refl)
    ]
