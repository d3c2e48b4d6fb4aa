-- ===== src/Auth/Requests/Presented.antt =====
-- A credential in a request is never passed over for the anonymous principal.
use quicsql.Prelude.{
  ℕ, ◌≡◌, ◌≢◌, Bool, true, false, ◌&&◌, bytes_eq, List, [], ◌∷◌, ◌++◌, some, arith,
}
use quicsql.Prelude.Result.{ok}
use quicsql.Prelude.Map.{lookup}
use quicsql.Encoding.Strings.{bytes, trim_space, cut_prefix-append}
use quicsql.Encoding.Hex
use quicsql.Auth.Minter.{Minter}
use quicsql.Auth.Requests.{
  Request, Cert, Method, mtls, keyring, session, bearer, password, absent, Caller, Crypto,
  Authenticator, Middleware, try, try_mtls, try_keyring, try_session, try_bearer, try_password,
  is_session, session_token_from, authenticate_for,
}
use quicsql.Auth.Requests.Decisive.{IsSoft, authenticate_for-downgrade}

-- The request carries a credential of the method, right or wrong: an `Authorization: Bearer` that
-- is not blank, a basic user and password, a keyring signature, a session token in the header or in
-- the cookie of a server that mints sessions, or a client certificate that is mapped to a name.
pub data Presents {D : Type 0} (crypto : Crypto) (a : Authenticator D) (r : Request)
    : Method → Type 0 where
  a_bearer :
      (token : List ℕ)
      → r.authorization ≡ bytes "Bearer " ++ token
      → trim_space token ≢ []
      → Presents crypto a r bearer
  a_password :
      (user pass : List ℕ) → r.basic_auth ≡ some (user, pass) → Presents crypto a r password
  a_signature : r.keyring_signature ≢ [] → Presents crypto a r keyring
  a_session :
      (s : Minter D) (token : List ℕ) (from_cookie : Bool)
      → a.sessions ≡ some s
      → session_token_from a r ≡ some (token, from_cookie)
      → Presents crypto a r session
  a_named_cert :
      (cert : Cert) (certs : List Cert) (name : List ℕ)
      → r.peer_certs ≡ cert ∷ certs
      → lookup cert.common_name a.directory.mtls_cn ≡ some name
      → Presents crypto a r mtls
  a_known_key :
      (cert : Cert) (certs : List Cert) (name : List ℕ)
      → r.peer_certs ≡ cert ∷ certs
      → lookup (Hex.encode (crypto.sha256 cert.raw_spki)) a.directory.mtls_spki ≡ some name
      → Presents crypto a r mtls

Presents-try :
    {D : Type 0} (crypto : Crypto) (a : Authenticator D) (now : ℕ) (r : Request) (mth : Method)
    → Presents crypto a r mth
    → try crypto a now mth r ≢ absent
unfolding try try_mtls try_keyring try_session try_bearer try_password
Presents-try crypto a now r mth (a_bearer token header there) e = there (
    ground (
      arith,
      header,
      cut_prefix-append (bytes "Bearer ") token,
      bytes_eq.beq_iff (trim_space token) [],
    ))
Presents-try crypto a now r mth (a_password user pass auth) e = ground arith
Presents-try crypto a now r mth (a_signature there) e =
    there (ground (arith, bytes_eq.beq_iff r.keyring_signature []))
Presents-try crypto a now r mth (a_session s token from_cookie on found) e = ground arith
Presents-try crypto a now r mth (a_named_cert cert certs name shown known) e = ground arith
Presents-try crypto a now r mth (a_known_key cert certs name shown known) e = ground arith

-- A request that ends as the anonymous principal, or as its socket's peer, carries no credential of
-- a method that the listener accepts and that is not left out, not even a wrong one: no bearer
-- token, no basic password, no keyring signature, no session token and no certificate that is mapped
-- to a name.
pub authenticate_for-Presents :
    {D : Type 0} (crypto : Crypto) (m : Middleware D) (now : ℕ) (r : Request) (skip : Bool)
    (p : Caller) (mth : Method)
    → authenticate_for crypto m now r skip ≡ ok p
    → IsSoft p.method
    → m.accepted mth ≡ true
    → (skip && is_session mth) ≡ false
    → ¬ Presents crypto m.authn r mth
authenticate_for-Presents crypto m now r skip p mth h last on kept shown =
    Presents-try crypto m.authn now r mth shown
      (authenticate_for-downgrade crypto m now r skip p mth h last on kept)
