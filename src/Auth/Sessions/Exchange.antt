-- ===== src/Auth/Sessions/Exchange.antt =====
-- What the session endpoint mints a session for.
use quicsql.Prelude.{
  ℕ, ◌≡◌, ◌≢◌, refl, ap, ◌∙◌, true, false, ◌==◌, bytes_eq, List, [], Option, some, arith,
  Bool-cases, Option-cases, inl, inr, ◌⊎◌,
}
use quicsql.Prelude.Result.{Result, ok, err}
use quicsql.Auth.Minter.{Minter, SessionStore, mint}
use quicsql.Auth.Requests.{
  Request, Method, session, peercred, Caller, AuthError, invalid_credential, unauthenticated,
  accepted, Crypto, Middleware, try, try_peercred, soft, hard_methods, authenticate_for,
}
use quicsql.Auth.Requests.Decisive.{
  authenticate_for-cases, authenticate_for-session, try_hard-found,
}
use quicsql.Auth.Sessions.{serve_mint, granted, minted_claims}

-- The caller is proved by the credential of an accepted method that is not the session method, or
-- is the one whom the socket's peer is mapped to.
pub data Proved {D : Type 0} (crypto : Crypto) (m : Middleware D) (now : ℕ) (r : Request)
    (p : Caller) : Type 0 where
  by_method :
      (mth : Method) (s k : Option (List ℕ))
      → mth ≢ session
      → m.accepted mth ≡ true
      → try crypto m.authn now mth r ≡ accepted p s k
      → Proved crypto m now r p
  by_socket :
      m.accepted peercred ≡ true
      → try_peercred crypto m.authn now r ≡ some p
      → Proved crypto m now r p

soft-Proved :
    {D : Type 0} (crypto : Crypto) (m : Middleware D) (now : ℕ) (r : Request) (p : Caller)
    → soft crypto m now r ≡ ok p
    → (p.name == []) ≡ false
    → Proved crypto m now r p
unfolding try_peercred
soft-Proved crypto m now r p h named = elim (Bool-cases (m.accepted peercred)) [
  | inl on ↦ elim (Option-cases (try_peercred crypto m.authn now r)) [
    | inl unmapped ↦
        let bad : p.name ≡ [] = ground arith in absurd (ground (arith, bytes_eq.beq_iff p.name []))
    | inr (q, mapped) ↦ let same : q ≡ p = ground arith in by_socket on (mapped ∙ ap some same)
  ]
  | inr off ↦
      let bad : p.name ≡ [] = ground arith in absurd (ground (arith, bytes_eq.beq_iff p.name []))
]

authenticate_for-Proved :
    {D : Type 0} (crypto : Crypto) (m : Middleware D) (now : ℕ) (r : Request) (p : Caller)
    → authenticate_for crypto m now r true ≡ ok p
    → (p.name == []) ≡ false
    → Proved crypto m now r p
unfolding authenticate_for
authenticate_for-Proved crypto m now r p h named =
    elim (authenticate_for-cases crypto m now r true p h) [
      | inl (nothing, last) ↦
          soft-Proved crypto m now r p (rw (← h, authenticate_for, nothing) refl) named
      | inr (s, k, found) ↦
          let (kept, real) = try_hard-found crypto m now true hard_methods r p s k found in
          by_method p.method s k (authenticate_for-session crypto m now r p h) (ground arith) real
    ]

authenticated :
    (x : Result AuthError Caller)
    → (x ≡ err invalid_credential) ⊎ ((x ≡ err unauthenticated) ⊎ ((p : Caller) × (x ≡ ok p)))
authenticated (err invalid_credential) = inl refl
authenticated (err unauthenticated) = inr (inl refl)
authenticated (ok p) = inr (inr (p, refl))

-- A session that the POST of the endpoint grants is minted for a caller whom another credential
-- proves, a session token never: the caller has a name, and is accepted by a method of the listener
-- other than the session method, or is whom the socket's peer is mapped to. The token and the
-- minter are what minting for that caller, with the claims of the credential, gives.
pub serve_mint-Proved :
    {D : Type 0} (crypto : Crypto) (db : SessionStore D) (m : Middleware D) (now : ℕ) (s : Minter D)
    (r : Request) (sid : List ℕ)
    → (serve_mint crypto db m now s r sid).1.status ≡ 200
    → (p : Caller) × Proved crypto m now r p
      × (p.name ≢ [])
      × (serve_mint crypto db m now s r sid ≡ (
        (mint crypto.mac db s sid p.name (minted_claims p) now).0,
        granted m.authn p.name (mint crypto.mac db s sid p.name (minted_claims p) now).1,
      ))
unfolding serve_mint
serve_mint-Proved crypto db m now s r sid h =
    elim (authenticated (authenticate_for crypto m now r true)) [
      | inl bad ↦ absurd (ground arith)
      | inr (inl bad) ↦ absurd (ground arith)
      | inr (inr (p, who)) ↦ elim (Bool-cases (p.name == [])) [
        | inl nobody ↦ absurd (ground arith)
        | inr named ↦ (
          p,
          authenticate_for-Proved crypto m now r p who named,
          (λ e. ground (arith, bytes_eq.beq_iff p.name [])),
          rw (serve_mint, who, named) refl,
        )
      ]
    ]
