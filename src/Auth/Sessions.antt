-- ===== src/Auth/Sessions.antt =====
-- auth/auth.go and cookie.go: the endpoint that mints, renews and revokes session tokens, the other
-- ways a session is minted, and how a listener routes a request. What the random source gives is
-- a parameter; the wording of error bodies is left out.
pub mod Minting
pub mod Login
pub mod Exchange
use Prim.Native.Nat.{bit_or}
use quicsql.Prelude.{
  ℕ, Bool, true, false, ◌&&◌, ◌||◌, not, ◌==◌, nat_eq, bytes_eq, if◌then◌else◌, List, [], ◌∷◌,
  Option, none, some, length,
}
use quicsql.Prelude.Int.{ℤ, pos}
use quicsql.Prelude.Result.{Result, ok, err}
use quicsql.Encoding.Strings.{bytes, has_prefix}
use quicsql.Encoding.Hex
use quicsql.Authz.Assurance.{tier_data_only, tier_owner, factor_device_key, factor_password}
use quicsql.Auth.Token.{SessClaims, cred_len}
use quicsql.Auth.Minter.{
  Minter, SessionStore, Issued, TokenError, not_renewable, invalid_credential as token_invalid,
  mint, renew, revoke, maybe_refresh, verify, renewable,
}
use quicsql.Auth.Requests.{
  Request, Method, mtls, keyring, session, bearer, password, peercred, none_method, Caller,
  anonymous, AuthError, unauthenticated, Crypto, Authenticator, Middleware, session_token_from,
  csrf_safe, authenticate_for,
}

-- The cookie of a response: a token with its expiry, or one that deletes it.
pub data Cookie : Type 0 where
  set_cookie : List ℕ → ℤ → Cookie
  clear_cookie : Cookie

pub data Body : Type 0 where
  no_body error_body : Body
  session_body : (token principal : List ℕ) (expires_at : ℤ) (max_expires_at : Option ℤ) → Body

pub record Reply : Type 0 where
  pub status : ℕ
  pub cookie : Option Cookie
  pub body : Body

abbrev pub refused : ℕ → Reply
refused status = record { status = status; cookie = none; body = error_body }

-- `deny`.
abbrev pub denied : Reply
denied = refused 401

unfoldable pub write_session_transport : {D : Type 0} → Authenticator D → List ℕ → ℤ → Option Cookie
write_session_transport a token exp =
    if not a.cookie_mode then none else some (set_cookie token exp)

unfoldable pub clear_session_transport : {D : Type 0} → Authenticator D → Option Cookie
clear_session_transport a = if not a.cookie_mode then none else some clear_cookie

unfoldable pub amr_for_method : Method → ℕ
amr_for_method keyring = factor_device_key
amr_for_method mtls = factor_device_key
amr_for_method password = factor_password
amr_for_method bearer = factor_password
amr_for_method _ = 0

unfoldable pub session_token_from_request :
    {D : Type 0} → Authenticator D → Request → Option (List ℕ)
session_token_from_request a r = elim (session_token_from a r) [
  | none ↦ none
  | some (token, from_cookie) ↦ if from_cookie && not (csrf_safe r) then none else some token
]

abbrev pub granted : {D : Type 0} → Authenticator D → List ℕ → Issued → Reply
granted a principal i = record {
  status = 200;
  cookie = write_session_transport a i.token i.exp;
  body = session_body i.token principal i.exp i.hard_exp;
}

-- The claims of a session that a credential is exchanged for.
abbrev pub minted_claims : Caller → SessClaims
minted_claims p = record {
  tier = if has_prefix (bytes "u_") p.name then tier_owner else tier_data_only;
  scope = 0;
  factors = amr_for_method p.method;
  rot = 0;
  cred_id = [];
  auth_time = none;
  not_before = none;
}

module _ {D : Type 0} (crypto : Crypto) (db : SessionStore D) (m : Middleware D) (now : ℕ) where
  unfoldable pub serve_mint : Minter D → Request → List ℕ → Minter D × Reply
  serve_mint s r sid = elim (authenticate_for crypto m now r true) [
    | err e ↦ (s, denied)
    | ok p ↦
        if p.name == []
        then (s, denied)
        else let minted = mint crypto.mac db s sid p.name (minted_claims p) now in
          (minted.0, granted m.authn p.name minted.1)
  ]

  unfoldable pub serve_renew : Minter D → Request → Reply
  serve_renew s r = elim (session_token_from_request m.authn r) [
    | none ↦ denied
    | some token ↦ elim (renew crypto.mac s token now) [
      | ok i ↦ granted m.authn [] i
      | err not_renewable ↦ refused 409
      | err token_invalid ↦ denied
    ]
  ]

  unfoldable pub serve_revoke : Minter D → Request → Minter D × Reply
  serve_revoke s r = elim (session_token_from_request m.authn r) [
    | none ↦ (s, denied)
    | some token ↦ elim (revoke crypto.mac db s token now) [
      | none ↦ (s, denied)
      | some t ↦
          (t, record { status = 204; cookie = clear_session_transport m.authn; body = no_body })
    ]
  ]

  unfoldable pub serve_session : Minter D → Request → List ℕ → Minter D × Reply
  serve_session s r sid =
      if r.http_method == bytes "POST"
      then serve_mint s r sid
      else if r.http_method == bytes "PUT"
      then (s, serve_renew s r)
      else if r.http_method == bytes "DELETE"
      then serve_revoke s r
      else (s, refused 405)

abbrev pub cred_bytes : List ℕ → List ℕ
cred_bytes hex_id = elim (Hex.decode hex_id) [
  | none ↦ []
  | some b ↦ if length b == cred_len then b else []
]

-- Assurance as the account service hands it over.
pub record Prior : Type 0 where
  pub tier : ℕ
  pub factors : ℕ
  pub scope : ℕ
  pub auth_time : Option ℤ
  pub not_before : Option ℤ

-- The claims of a step-up.
abbrev pub stepped : Prior → ℕ → List ℕ → SessClaims
stepped prev add cred_hex = record {
  tier = prev.tier;
  scope = prev.scope;
  factors = bit_or prev.factors add;
  rot = 0;
  cred_id = cred_bytes cred_hex;
  auth_time = prev.auth_time;
  not_before = prev.not_before;
}

module _ {D : Type 0} (crypto : Crypto) (db : SessionStore D) (s : Minter D) (sid : List ℕ)
    (now : ℕ) where
  unfoldable pub mint_session_as : List ℕ → ℕ → ℕ → ℕ → List ℕ → Option ℤ → Minter D × Issued
  mint_session_as principal tier factors scope cred_hex not_before =
      mint crypto.mac db s sid principal
        (record {
          tier = tier;
          scope = scope;
          factors = factors;
          rot = 0;
          cred_id = cred_bytes cred_hex;
          auth_time = none;
          not_before = not_before;
        })
        now

  -- A factor more; the clock of the last authentication stays.
  unfoldable pub mint_step_up : List ℕ → Prior → ℕ → List ℕ → Minter D × Issued
  mint_step_up principal prev add cred_hex =
      mint crypto.mac db s sid principal (stepped prev add cred_hex) now

  unfoldable pub session_principal : Authenticator D → Request → Option (Caller × List ℕ)
  session_principal a r = elim (session_token_from_request a r) [
    | none ↦ none
    | some token ↦ elim (verify crypto.mac s token now) [
      | none ↦ none
      | some (name, sid_hex, claims) ↦
          some (record { name = name; method = session; claims = some claims }, sid_hex)
    ]
  ]

-- Where Wrap sends a request. One that is passed on has its principal and, if its session was
-- extended, the new token, its expiry and whether it goes out as a cookie.
pub data Routed : Type 0 where
  to_challenge to_session to_account to_enroll : Routed
  passed_on : Caller → Option (List ℕ × ℤ × Bool) → Routed
  turned_away : AuthError → Routed

-- The handlers that are mounted: the account handler's paths, and whether there is an enroll handler.
pub record Mounts : Type 0 where
  pub account : Option (List ℕ → Bool)
  pub enroll : Bool

abbrev pub owned : Option (List ℕ → Bool) → List ℕ → Bool
owned none path = false
owned (some paths) path = paths path

abbrev pub is_some : {A : Type 0} → Option A → Bool
is_some none = false
is_some (some a) = true

module _ {D : Type 0} (crypto : Crypto) (m : Middleware D) (now : ℕ) where
  abbrev pub is_session_caller : Method → Bool
  is_session_caller session = true
  is_session_caller mth = false

  unfoldable pub extension : Request → Caller → Option (List ℕ × ℤ × Bool)
  extension r p = elim m.authn.sessions [
    | none ↦ none
    | some s ↦
        if not (is_session_caller p.method && renewable s)
        then none
        else elim (session_token_from m.authn r) [
          | none ↦ none
          | some (token, from_cookie) ↦ elim (maybe_refresh crypto.mac s token now) [
            | none ↦ none
            -- The cookie goes out only in cookie mode, in which alone a token comes from one.
            | some i ↦ some (i.token, i.exp, from_cookie)
          ]
        ]
  ]

  unfoldable pub wrap : Mounts → Request → Routed
  wrap mounts r =
      if r.path == bytes "/_auth/challenge" && m.accepted keyring
      then to_challenge
      else if r.path == bytes "/_auth/session" && m.accepted session && is_some m.authn.sessions
      then to_session
      else if owned mounts.account r.path
      then to_account
      else if r.path == bytes "/_auth/enroll" && m.accepted keyring && mounts.enroll
      then to_enroll
      else if r.path == bytes "/_health"
      then passed_on anonymous none
      else elim (authenticate_for crypto m now r false) [
        | err e ↦ turned_away e
        | ok p ↦ passed_on p (extension r p)
      ]
