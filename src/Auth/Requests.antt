-- ===== src/Auth/Requests.antt =====
-- auth/auth.go and cookie.go: which principal a request comes from. Texts are bytes, and a header
-- that is missing is empty. Cryptography, TLS and the socket's peer are parameters; a hook that is
-- called is a part of the result.
pub mod Decisive
pub mod Cookies
pub mod Presented
use quicsql.Prelude.{
  ℕ, Bool, true, false, ◌&&◌, ◌||◌, not, ◌==◌, nat_eq, bytes_eq, bytes_beq, if◌then◌else◌, List, [],
  ◌∷◌, ◌++◌, Option, none, some, length,
}
use quicsql.Prelude.Map.{Map, lookup}
use quicsql.Prelude.Result.{Result, ok, err}
use quicsql.Encoding.Strings.{bytes, trim_space, has_prefix, cut_prefix}
use quicsql.Encoding.Hex
use quicsql.Session.Baton.{Mac}
use quicsql.Auth.Token.{SessClaims, session_prefix}
use quicsql.Auth.Minter.{Minter, verify}
use quicsql.Auth.Challenge.{valid}
use quicsql.Auth.Directory.{Directory, KeyringCred, SshKey, parse_ed25519, lookup_keyring}

pub data Method : Type 0 where
  mtls keyring session bearer password peercred none_method : Method

-- A client certificate: the subject's common name and the raw public key.
pub record Cert : Type 0 where
  pub common_name : List ℕ
  pub raw_spki : List ℕ

pub record Request : Type 0 where
  pub http_method : List ℕ
  pub path : List ℕ
  pub raw_query : List ℕ
  pub authorization : List ℕ
  pub sec_fetch_site : List ℕ
  pub keyring_signature : List ℕ
  pub keyring_key : List ℕ
  pub keyring_challenge : List ℕ
  pub cookie : List ℕ → Option (List ℕ)
  pub basic_auth : Option (List ℕ × List ℕ)
  pub peer_certs : List Cert
  pub peer_uid : Option ℕ

-- The code of other packages that decides on credentials.
pub record Crypto : Type 0 where
  pub mac : Mac
  pub sha256 : List ℕ → List ℕ
  pub bcrypt : List ℕ → List ℕ → Bool
  pub ssh : List ℕ → Option SshKey
  pub std_base64 : List ℕ → Option (List ℕ)
  pub verify_state : List (List ℕ) → List ℕ → List ℕ → Bool

pub record Authenticator (D : Type 0) : Type 0 where
  pub challenge_key : List ℕ
  pub sessions : Option (Minter D)
  pub cookie_mode : Bool
  pub cookie_name : List ℕ
  pub directory : Directory

-- The principal, with the claims of a session.
pub record Caller : Type 0 where
  pub name : List ℕ
  pub method : Method
  pub claims : Option SessClaims

abbrev pub anonymous : Caller
anonymous = record { name = []; method = none_method; claims = none }

pub data AuthError : Type 0 where
  invalid_credential unauthenticated : AuthError

-- A method's finding. `seen` is what the last-seen hook gets, `key_seen` what the credential's gets.
pub data Attempt : Type 0 where
  absent rejected : Attempt
  accepted : (caller : Caller) (seen key_seen : Option (List ℕ)) → Attempt

abbrev pub named : List ℕ → Method → Caller
named name method = record { name = name; method = method; claims = none }

-- A look-up that fails is a rejection.
abbrev pub matched : Option (List ℕ) → Method → Attempt
matched none method = rejected
matched (some name) method = accepted (named name method) none none

unfoldable pub csrf_safe : Request → Bool
csrf_safe r =
    if r.http_method == bytes "GET"
      || r.http_method == bytes "HEAD"
      || r.http_method == bytes "OPTIONS"
    then true
    else r.sec_fetch_site == []
      || r.sec_fetch_site == bytes "same-origin"
      || r.sec_fetch_site == bytes "none"

-- The token, and whether it came in the cookie.
unfoldable pub session_token_from :
    {D : Type 0} → Authenticator D → Request → Option (List ℕ × Bool)
session_token_from a r = elim (cut_prefix (bytes "Bearer ") r.authorization) [
  | some t ↦ let t = trim_space t in if has_prefix session_prefix t then some (t, false) else none
  | none ↦ if not a.cookie_mode then none else elim (r.cookie a.cookie_name) [
    | none ↦ none
    | some v ↦ if has_prefix session_prefix v then some (v, true) else none
  ]
]

abbrev pub signing_input : List ℕ → Request → List ℕ
signing_input chal r =
    chal ++ ((10 ∷ []) ++ (r.http_method ++ ((10 ∷ []) ++ (r.path ++ ((10 ∷ []) ++ r.raw_query)))))

module _ {D : Type 0} (crypto : Crypto) (a : Authenticator D) (now : ℕ) where
  unfoldable pub try_bearer : Request → Attempt
  try_bearer r = elim (cut_prefix (bytes "Bearer ") r.authorization) [
    | none ↦ absent
    | some t ↦
        let tok = trim_space t in
        if tok == []
        then absent
        else matched (lookup (Hex.encode (crypto.sha256 tok)) a.directory.bearer) bearer
  ]

  unfoldable pub try_session : Request → Attempt
  try_session r = elim a.sessions [
    | none ↦ absent
    | some m ↦ elim (session_token_from a r) [
      | none ↦ absent
      | some (tok, from_cookie) ↦
          if from_cookie && not (csrf_safe r)
          then rejected
          else elim (verify crypto.mac m tok now) [
            | none ↦ rejected
            | some (name, sid, claims) ↦
                accepted (record { name = name; method = session; claims = some claims })
                  (some name) none
          ]
    ]
  ]

  unfoldable pub try_password : Request → Attempt
  try_password r = elim r.basic_auth [
    | none ↦ absent
    | some (user, pass) ↦ elim (lookup user a.directory.password) [
      | none ↦ rejected
      | some cred ↦
          if not (crypto.bcrypt cred.hash pass)
          then rejected
          else accepted (named cred.name password) none none
    ]
  ]

  unfoldable pub try_mtls : Request → Attempt
  try_mtls r = elim r.peer_certs [
    | [] ↦ absent
    | ◌∷◌ cert certs ↦ elim (lookup cert.common_name a.directory.mtls_cn) [
      | some name ↦ accepted (named name mtls) none none
      | none ↦ elim (lookup (Hex.encode (crypto.sha256 cert.raw_spki)) a.directory.mtls_spki) [
        | some name ↦ accepted (named name mtls) none none
        | none ↦ absent
      ]
    ]
  ]

  -- The signature is over the challenge, the method, the path and the query.
  abbrev pub signed : List ℕ → Request → Bool
  signed pub_key r = elim (crypto.std_base64 r.keyring_signature) [
    | none ↦ false
    | some sig ↦ crypto.verify_state (pub_key ∷ []) (signing_input r.keyring_challenge r) sig
  ]

  abbrev pub challenged : Request → Bool
  challenged r =
      not (r.keyring_key == [])
      && not (r.keyring_challenge == [])
      && valid crypto.mac a.challenge_key r.keyring_challenge now

  unfoldable pub try_keyring : Request → Attempt
  try_keyring r =
      if r.keyring_signature == []
      then absent
      else if not (challenged r)
      then rejected
      else elim (parse_ed25519 crypto.ssh r.keyring_key) [
        | none ↦ rejected
        | some k ↦ elim (lookup_keyring a.directory k.canon) [
          | none ↦ rejected
          | some cred ↦
              if not (signed cred.key r)
              then rejected
              else accepted (named cred.name keyring) (some cred.name) (some k.canon)
        ]
      ]

  unfoldable pub try_peercred : Request → Option Caller
  try_peercred r = elim r.peer_uid [
    | none ↦ none
    | some uid ↦ elim (lookup uid a.directory.peercred) [
      | none ↦ none
      | some name ↦ some (named name peercred)
    ]
  ]

  unfoldable pub try : Method → Request → Attempt
  try mtls r = try_mtls r
  try keyring r = try_keyring r
  try session r = try_session r
  try bearer r = try_bearer r
  try password r = try_password r
  try peercred r = absent
  try none_method r = absent

  -- The canonical line and the key, if the request is signed by the key that it presents.
  unfoldable pub verify_presented : Request → Option (List ℕ × List ℕ)
  verify_presented r =
      if r.keyring_signature == [] || not (challenged r)
      then none
      else elim (parse_ed25519 crypto.ssh r.keyring_key) [
        | none ↦ none
        | some k ↦ if not (signed k.key r) then none else some (k.canon, k.key)
      ]

abbrev pub hard_methods : List Method
hard_methods = mtls ∷ keyring ∷ session ∷ bearer ∷ password ∷ []

abbrev pub is_session : Method → Bool
is_session session = true
is_session m = false

-- What a listener accepts; an empty list admits the anonymous principal.
pub record Middleware (D : Type 0) : Type 0 where
  pub authn : Authenticator D
  pub accepted : Method → Bool

module _ {D : Type 0} (crypto : Crypto) (m : Middleware D) (now : ℕ) where
  -- The first accepted method that finds a credential; `absent` if none does.
  unfoldable pub try_hard : Bool → List Method → Request → Attempt
  try_hard skip [] r = absent
  try_hard skip (mth ∷ methods) r =
      let rest = try_hard skip methods r in
      if not (m.accepted mth) || (skip && is_session mth)
      then rest
      else elim (try crypto m.authn now mth r) [
        | absent ↦ rest
        | rejected ↦ rejected
        | accepted p s k ↦ accepted p s k
      ]

  abbrev pub anonymous_for : Result AuthError Caller
  anonymous_for = if m.accepted none_method then ok anonymous else err unauthenticated

  abbrev pub soft : Request → Result AuthError Caller
  soft r =
      if m.accepted peercred
      then elim (try_peercred crypto m.authn now r) [ some p ↦ ok p | none ↦ anonymous_for ]
      else anonymous_for

  unfoldable pub authenticate_for : Request → Bool → Result AuthError Caller
  authenticate_for r skip = elim (try_hard skip hard_methods r) [
    | absent ↦ soft r
    | rejected ↦ err invalid_credential
    | accepted p s k ↦ ok p
  ]
