-- ===== src/Auth/Sessions/Login.antt =====
-- A credential that is exchanged for a token, and a request that carries the token.
use quicsql.Prelude.{
  ℕ, ◌+◌, ◌<◌, ◌≤◌, ◌≡◌, refl, sym, ap, subst, ◌∙◌, true, false, ◌==◌, nat_eq, bytes_eq,
  if◌then◌else◌, List, [], ◌∷◌, ◌++◌, Option, none, some, arith, length, leb,
}
use quicsql.Prelude.Int.{ℤ}
use quicsql.Prelude.Result.{ok}
use quicsql.Encoding.Strings.{
  bytes, has_prefix, cut_prefix-append, has_prefix-append, trim_space-solid, IsSolid,
}
use quicsql.Encoding.Base64.{encode-IsSolid}
use quicsql.Encoding.Hex
use quicsql.Session.Baton.{Mac}
use quicsql.Auth.Token.{SessClaims, session_prefix, issue}
use quicsql.Auth.Minter.{Minter, SessionStore, Issued, mint, verify, is_revoked}
use quicsql.Auth.Minter.Renewal.{IsMac}
use quicsql.Auth.Requests.{
  Request, session, Caller, absent, accepted, Crypto, Authenticator, Middleware, authenticate_for,
  session_token_from, try_hard, try, try_session, try_mtls, try_keyring,
}
use quicsql.Auth.Sessions.{minted_claims, serve_mint, granted}
use quicsql.Auth.Sessions.Minting.{Mintable, carried, mint-verify}

issue-IsSolid :
    (mac : Mac) (key sid principal : List ℕ) (exp : ℤ) (hard_exp : Option ℤ) (c : SessClaims)
    → IsSolid (issue mac key sid principal exp hard_exp c)
unfolding issue
issue-IsSolid mac key sid principal exp hard_exp c = (refl, (refl, (refl, encode-IsSolid _)))

issue-has_prefix :
    (mac : Mac) (key sid principal : List ℕ) (exp : ℤ) (hard_exp : Option ℤ) (c : SessClaims)
    → has_prefix session_prefix (issue mac key sid principal exp hard_exp c) ≡ true
unfolding issue
issue-has_prefix mac key sid principal exp hard_exp c = has_prefix-append session_prefix _

-- A bearer credential that is a session token.
session_token_from-bearer :
    {D : Type 0} (a : Authenticator D) (r : Request) (token : List ℕ)
    → r.authorization ≡ bytes "Bearer " ++ token
    → IsSolid token
    → has_prefix session_prefix token ≡ true
    → session_token_from a r ≡ some (token, false)
unfolding session_token_from
session_token_from-bearer a r token e solid p =
    rw
      (
        session_token_from,
        e,
        cut_prefix-append (bytes "Bearer ") token,
        trim_space-solid token solid,
        p,
      )
      refl

try_mtls-bare :
    {D : Type 0} (crypto : Crypto) (a : Authenticator D) (r : Request) (now : ℕ)
    → r.peer_certs ≡ []
    → try_mtls crypto a now r ≡ absent
unfolding try_mtls
try_mtls-bare crypto a r now h = ground arith

try_keyring-bare :
    {D : Type 0} (crypto : Crypto) (a : Authenticator D) (r : Request) (now : ℕ)
    → r.keyring_signature ≡ []
    → try_keyring crypto a now r ≡ absent
unfolding try_keyring
try_keyring-bare crypto a r now h = ground arith

try_session-token :
    {D : Type 0} (crypto : Crypto) (a : Authenticator D) (s : Minter D) (r : Request) (now : ℕ)
    (token name sid_hex : List ℕ) (c : SessClaims)
    → a.sessions ≡ some s
    → session_token_from a r ≡ some (token, false)
    → verify crypto.mac s token now ≡ some (name, sid_hex, c)
    → try_session crypto a now r
      ≡ accepted (record { name = name; method = session; claims = some c }) (some name) none
unfolding try_session
try_session-token crypto a s r now token name sid_hex c on found h = ground arith

nonempty : (name : List ℕ) → 0 < length name → (name == []) ≡ false
nonempty [] h = absurd (omega arith)
nonempty (c ∷ name) h = refl

named-serve_mint :
    {D : Type 0} (crypto : Crypto) (db : SessionStore D) (m : Middleware D) (s : Minter D)
    (r : Request) (sid : List ℕ) (p : Caller) (t : ℕ)
    → authenticate_for crypto m t r true ≡ ok p
    → 0 < length p.name
    → serve_mint crypto db m t s r sid ≡ (
      (mint crypto.mac db s sid p.name (minted_claims p) t).0,
      granted m.authn p.name (mint crypto.mac db s sid p.name (minted_claims p) t).1,
    )
unfolding serve_mint
named-serve_mint crypto db m s r sid p t who named =
    let known : (p.name == []) ≡ false = nonempty p.name named in rw (serve_mint, who, known) refl

-- A request whose only credential is a session token that verifies.
authenticate_for-token :
    {D : Type 0} (crypto : Crypto) (m : Middleware D) (s : Minter D) (r : Request) (now : ℕ)
    (token name sid_hex : List ℕ) (c : SessClaims)
    → m.authn.sessions ≡ some s
    → session_token_from m.authn r ≡ some (token, false)
    → (r.peer_certs ≡ []) × (r.keyring_signature ≡ [])
    → m.accepted session ≡ true
    → verify crypto.mac s token now ≡ some (name, sid_hex, c)
    → authenticate_for crypto m now r false
      ≡ ok (record { name = name; method = session; claims = some c })
unfolding authenticate_for try_hard try
authenticate_for-token crypto m s r now token name sid_hex c on found bare taken h =
    let no_cert = try_mtls-bare crypto m.authn r now bare.0 in
    let no_key = try_keyring-bare crypto m.authn r now bare.1 in
    let in_session = try_session-token crypto m.authn s r now token name sid_hex c on found h in
    ground (arith, no_cert, no_key, in_session, taken)

mint-IsSolid :
    {D : Type 0} (mac : Mac) (db : SessionStore D) (s : Minter D) (sid principal : List ℕ)
    (c : SessClaims) (t : ℕ)
    → IsSolid (mint mac db s sid principal c t).1.token
      × (has_prefix session_prefix (mint mac db s sid principal c t).1.token ≡ true)
unfolding mint
mint-IsSolid mac db s sid principal c t =
    (issue-IsSolid mac s.key sid principal _ _ _, issue-has_prefix mac s.key sid principal _ _ _)

in_time :
    {A : Type 0} (until now : ℕ) (x : Option A)
    → now ≤ until
    → (if leb now until then x else none) ≡ x
in_time until now x h = ground arith

mint-key :
    {D : Type 0} (mac : Mac) (db : SessionStore D) (s : Minter D) (sid principal : List ℕ)
    (c : SessClaims) (t : ℕ)
    → (mint mac db s sid principal c t).0.key ≡ s.key
unfolding mint
mint-key mac db s sid principal c t = refl

-- Login: a principal with a name whose credential the listener accepts gets a token from the session
-- endpoint, and until its idle window ends a request that carries just this token is that
-- principal's, by the session method, with the tier and the factors of the exchanged credential.
-- The listener accepts session tokens, the session is not revoked, and what it is minted with fits
-- the token.
pub serve_mint-login :
    {D : Type 0} (crypto : Crypto) (db : SessionStore D) (m : Middleware D) (s n : Minter D)
    (r next : Request) (sid : List ℕ) (p : Caller) (i : Issued) (t now : ℕ)
    → IsMac crypto.mac
    → authenticate_for crypto m t r true ≡ ok p
    → Mintable s sid p.name (minted_claims p) t
    → mint crypto.mac db s sid p.name (minted_claims p) t ≡ (n, i)
    → next.authorization ≡ bytes "Bearer " ++ i.token
    → (next.peer_certs ≡ []) × (next.keyring_signature ≡ [])
    → m.accepted session ≡ true
    → is_revoked crypto.mac n sid now ≡ false
    → now ≤ t + s.idle_ttl
    → (serve_mint crypto db m t s r sid ≡ (n, granted m.authn p.name i))
      × (authenticate_for crypto
            (record m { authn = record m.authn { sessions = some n } })
            now
            next
            false
          ≡ ok (record {
            name = p.name;
            method = session;
            claims = some (carried (minted_claims p) t);
          }))
serve_mint-login crypto db m s n r next sid p i t now good who w e auth bare on live early =
    let token : i.token ≡ (mint crypto.mac db s sid p.name (minted_claims p) t).1.token =
      ap (λ x. x.1.token) (sym e) in
    let solid =
      subst (λ x. IsSolid x × (has_prefix session_prefix x ≡ true)) (sym token)
        (mint-IsSolid crypto.mac db s sid p.name (minted_claims p) t) in
    let key : n.key ≡ s.key =
      ap (λ x. x.0.key) (sym e) ∙ mint-key crypto.mac db s sid p.name (minted_claims p) t in
    (
      named-serve_mint crypto db m s r sid p t who w.name_size
          ∙ ap (λ x. (x.0, granted m.authn p.name x.1)) e,
      authenticate_for-token crypto (record m { authn = record m.authn { sessions = some n } }) n
          next now i.token p.name (Hex.encode sid) (carried (minted_claims p) t) refl
          (session_token_from-bearer (record m.authn { sessions = some n }) next i.token auth
            solid.0 solid.1)
          bare on
          (ap (λ x. verify crypto.mac n x now) token
            ∙ (mint-verify crypto.mac db s n sid p.name (minted_claims p) t now good w key live
                ∙ in_time (t + s.idle_ttl) now _ early)),
    )
