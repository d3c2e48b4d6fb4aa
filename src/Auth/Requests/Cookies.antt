-- ===== src/Auth/Requests/Cookies.antt =====
-- What a session cookie authorizes. A browser sends it on its own, so it needs the CSRF gate.
use quicsql.Prelude.{
  ℕ, ◌≡◌, sym, ap, ◌∙◌, Bool, true, bytes_eq, List, Option, none, some, arith, Option-cases, inl,
  inr,
}
use quicsql.Prelude.Result.{ok}
use quicsql.Encoding.Strings.{bytes, cut_prefix}
use quicsql.Auth.Requests.{
  Request, session, accepted, Caller, Crypto, Authenticator, Middleware, try, try_session,
  hard_methods, authenticate_for, session_token_from, csrf_safe,
}
use quicsql.Auth.Requests.Decisive.{authenticate_for-cases, try_hard-found}

session_token_from-cookie :
    {D : Type 0} (a : Authenticator D) (r : Request) (token : List ℕ) (from_cookie : Bool)
    → cut_prefix (bytes "Bearer ") r.authorization ≡ none
    → session_token_from a r ≡ some (token, from_cookie)
    → (from_cookie ≡ true) × (r.cookie a.cookie_name ≡ some token) × (a.cookie_mode ≡ true)
unfolding session_token_from
session_token_from-cookie a r token from_cookie bare h = ground arith

try_session-csrf_safe :
    {D : Type 0} (crypto : Crypto) (a : Authenticator D) (now : ℕ) (r : Request) (p : Caller)
    (s k : Option (List ℕ))
    → cut_prefix (bytes "Bearer ") r.authorization ≡ none
    → try_session crypto a now r ≡ accepted p s k
    → (a.cookie_mode ≡ true) × (csrf_safe r ≡ true)
unfolding try_session
try_session-csrf_safe crypto a now r p s k bare h = elim (Option-cases a.sessions) [
  | inl off ↦ absurd (ground arith)
  | inr (m, on) ↦ elim (Option-cases (session_token_from a r)) [
    | inl missing ↦ absurd (ground arith)
    | inr ((token, from_cookie), found) ↦
        let (cookie, value, mode) = session_token_from-cookie a r token from_cookie bare found in
        (mode, ground arith)
  ]
]

-- A request that carries no bearer credential is authenticated as a session only where cookies are
-- on, and only if it passes the CSRF gate: it is a GET, HEAD or OPTIONS request, or its
-- Sec-Fetch-Site header is missing, `same-origin` or `none`.
pub authenticate_for-csrf_safe :
    {D : Type 0} (crypto : Crypto) (m : Middleware D) (now : ℕ) (r : Request) (skip : Bool)
    (p : Caller)
    → cut_prefix (bytes "Bearer ") r.authorization ≡ none
    → authenticate_for crypto m now r skip ≡ ok p
    → p.method ≡ session
    → (m.authn.cookie_mode ≡ true) × (csrf_safe r ≡ true)
authenticate_for-csrf_safe crypto m now r skip p bare h same =
    elim (authenticate_for-cases crypto m now r skip p h) [
      | inl (nothing, inl last) ↦ absurd (cc)
      | inl (nothing, inr last) ↦ absurd (cc)
      | inr (s, k, found) ↦
          let real = (try_hard-found crypto m now skip hard_methods r p s k found).1 in
          try_session-csrf_safe crypto m.authn now r p s k bare
            (unfold try in (ap (λ x. try crypto m.authn now x r) (sym same) ∙ real))
    ]
