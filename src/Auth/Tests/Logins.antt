-- ===== src/Auth/Tests/Logins.antt =====
-- Requests on small examples: a bearer token, a cookie, and a login.
use Prim.Native.Nat.{bit_or}
use quicsql.Prelude.{
  ℕ, ◌≡◌, ◌≢◌, refl, true, false, ◌==◌, List, [], ◌∷◌, ◌++◌, none, some, arith, nat_eq, bytes_eq,
  inl,
}
use quicsql.Prelude.Int.{pos, int_eq}
use quicsql.Prelude.Map.{lookup}
use quicsql.Prelude.Result.{ok}
use quicsql.Encoding.Strings.{bytes, cut_prefix, trim_space, trim_left, trim_right, has_prefix}
use quicsql.Encoding.Hex
use quicsql.Auth.Token.{SessClaims, issue, cred_field}
use quicsql.Auth.Minter.{Minter, Issued, verify, is_revoked, mint}
use quicsql.Auth.Requests.{
  session, bearer, Request, Crypto, Middleware, Caller, named, anonymous, accepted, try, try_bearer,
  try_mtls, try_keyring, try_password, try_peercred, try_session, try_hard, authenticate_for,
  session_token_from, csrf_safe,
}
use quicsql.Auth.Requests.Presented.{Presents, authenticate_for-Presents}
use quicsql.Auth.Sessions.Exchange.{Proved, serve_mint-Proved}
use quicsql.Auth.Requests.Cookies.{authenticate_for-csrf_safe}
use quicsql.Auth.Sessions.{
  minted_claims, serve_mint, granted, mint_step_up, Prior, stepped, amr_for_method,
}
use quicsql.Auth.Sessions.Minting.{Mintable, carried, mint-verify, mint_step_up-verify}
use quicsql.Auth.Sessions.Login.{serve_mint-login}
use quicsql.Auth.Tests.{
  toy_mac, toy_mac-IsMac, toy_minter, toy_registry, sample_sid, sample_token, sample_token-parse,
  sample_claims, sample_directory,
}

abbrev toy_crypto : Crypto
toy_crypto = record {
  mac = toy_mac;
  sha256 = λ m. m;
  bcrypt = λ hash pass. hash == pass;
  ssh = λ line. none;
  std_base64 = λ s. some s;
  verify_state = λ keys input sig. true;
}

abbrev toy_listener : Middleware ℕ
toy_listener = record {
  authn = record {
    challenge_key = 5 ∷ [];
    sessions = some toy_minter;
    cookie_mode = true;
    cookie_name = bytes "c";
    directory = record sample_directory { bearer = (bytes "7879", bytes "bob") ∷ [] };
  };
  accepted = λ m. true;
}

-- A GET with no credential.
abbrev bare_request : Request
bare_request = record {
  http_method = bytes "GET";
  path = bytes "/db";
  raw_query = [];
  authorization = [];
  sec_fetch_site = bytes "cross-site";
  keyring_signature = [];
  keyring_key = [];
  keyring_challenge = [];
  cookie = λ name. none;
  basic_auth = none;
  peer_certs = [];
  peer_uid = none;
}

abbrev bearer_request : Request
bearer_request = record bare_request { authorization = bytes "Bearer xy" }

bearer_request-bob :
    authenticate_for toy_crypto toy_listener 20 bearer_request true
    ≡ ok (named (bytes "bob") bearer)
unfolding authenticate_for try_hard try try_mtls try_keyring try_bearer cut_prefix trim_space
    trim_left trim_right Hex.encode lookup Hex.hex_digit
bearer_request-bob = refl

bare_request-anonymous :
    authenticate_for toy_crypto toy_listener 20 bare_request false ≡ ok anonymous
unfolding authenticate_for try_hard try try_mtls try_keyring try_bearer try_session try_password
    try_peercred cut_prefix session_token_from
bare_request-anonymous = refl

authenticate_for-Presents_example : ¬ Presents toy_crypto toy_listener.authn bare_request bearer
authenticate_for-Presents_example =
    authenticate_for-Presents toy_crypto toy_listener 20 bare_request false anonymous bearer
      bare_request-anonymous (inl refl) refl refl

abbrev cookie_request : Request
cookie_request = record bare_request { cookie = λ name. some sample_token }

-- What the cookie's token stands for.
abbrev cookie_caller : Caller
cookie_caller = record { name = bytes "u_a"; method = session; claims = some sample_claims }

sample_live :
    verify toy_mac toy_minter sample_token 60
    ≡ some (bytes "u_a", Hex.encode sample_sid, sample_claims)
unfolding verify is_revoked lookup
sample_live = rw (verify, sample_token-parse) refl

cookie_request-token :
    session_token_from toy_listener.authn cookie_request ≡ some (sample_token, true)
unfolding session_token_from cut_prefix has_prefix issue
cookie_request-token = refl

cookie_request-session :
    try_session toy_crypto toy_listener.authn 60 cookie_request
    ≡ accepted cookie_caller (some (bytes "u_a")) none
unfolding try_session csrf_safe
cookie_request-session = rw (try_session, cookie_request-token, sample_live) refl

cookie_request-caller :
    authenticate_for toy_crypto toy_listener 60 cookie_request false ≡ ok cookie_caller
unfolding authenticate_for try_hard try try_mtls try_keyring
cookie_request-caller = rw (authenticate_for, try_hard, try, cookie_request-session) refl

authenticate_for-csrf_safe_example :
    (toy_listener.authn.cookie_mode ≡ true) × (csrf_safe cookie_request ≡ true)
authenticate_for-csrf_safe_example =
    authenticate_for-csrf_safe toy_crypto toy_listener 60 cookie_request false cookie_caller
      (unfold cut_prefix in refl) cookie_request-caller refl

abbrev sample_prior : Prior
sample_prior = record {
  tier = 1;
  factors = 8;
  scope = 0;
  auth_time = some (pos 5);
  not_before = none;
}

abbrev step_claims : SessClaims
step_claims = stepped sample_prior 2 []

step_up-Mintable : Mintable toy_minter sample_sid (bytes "u_a") step_claims 40
unfolding cred_field Hex.decode
step_up-Mintable = record {
  sid_size = refl;
  sid_bytes = ground arith;
  name_size = omega arith;
  name_bytes = ground arith;
  claims = record {
    tier = omega arith;
    scope = omega arith;
    factors = omega arith;
    rot = omega arith;
    cred_id = refl;
    cred_bytes = ground arith;
    auth_time = (omega arith, λ e. ground arith);
    not_before = tt;
  };
  idle = omega arith;
  hard = omega arith;
}

minter-open : is_revoked toy_mac toy_minter sample_sid 60 ≡ false
unfolding is_revoked lookup
minter-open = refl

abbrev step_up_got : List ℕ × List ℕ × SessClaims
step_up_got = (bytes "u_a", Hex.encode sample_sid, carried step_claims 40)

step_up-live :
    verify toy_mac toy_minter
      (mint_step_up toy_crypto toy_registry toy_minter sample_sid 40
        (bytes "u_a")
        sample_prior
        2
        []).1.token
      60
    ≡ some step_up_got
unfolding mint_step_up
step_up-live =
    mint-verify toy_mac toy_registry toy_minter toy_minter sample_sid (bytes "u_a") step_claims 40
      60 toy_mac-IsMac step_up-Mintable refl minter-open

mint_step_up-verify_example :
    (step_up_got.0 ≡ bytes "u_a")
    × (step_up_got.2.auth_time ≡ some (pos 5))
    × (step_up_got.2.factors ≡ bit_or 8 2)
    × (step_up_got.2.tier ≡ 1)
    × (step_up_got.2.scope ≡ 0)
    × (step_up_got.2.not_before ≡ none)
mint_step_up-verify_example =
    mint_step_up-verify toy_crypto toy_registry toy_minter sample_sid (bytes "u_a") sample_prior
      (pos 5) 2 [] 40 60 step_up_got toy_mac-IsMac refl step_up-Mintable step_up-live

abbrev bob : Caller
bob = named (bytes "bob") bearer

bob-Mintable : Mintable toy_minter sample_sid (bytes "bob") (minted_claims bob) 20
unfolding cred_field has_prefix amr_for_method
bob-Mintable = record {
  sid_size = refl;
  sid_bytes = ground arith;
  name_size = omega arith;
  name_bytes = ground arith;
  claims = record {
    tier = omega arith;
    scope = omega arith;
    factors = omega arith;
    rot = omega arith;
    cred_id = refl;
    cred_bytes = ground arith;
    auth_time = (omega arith, λ e. ground arith);
    not_before = tt;
  };
  idle = omega arith;
  hard = omega arith;
}

abbrev bob_minted : Minter ℕ × Issued
bob_minted = mint toy_mac toy_registry toy_minter sample_sid (bytes "bob") (minted_claims bob) 20

abbrev token_request : Request
token_request = record bare_request { authorization = bytes "Bearer " ++ bob_minted.1.token }

bob-open : is_revoked toy_mac bob_minted.0 sample_sid 60 ≡ false
unfolding mint is_revoked lookup
bob-open = refl

serve_mint-login_example :
    (serve_mint toy_crypto toy_registry toy_listener 20 toy_minter bearer_request sample_sid
      ≡ (bob_minted.0, granted toy_listener.authn (bytes "bob") bob_minted.1))
    × (authenticate_for toy_crypto
          (record toy_listener {
            authn = record toy_listener.authn { sessions = some bob_minted.0 };
          })
          60
          token_request
          false
        ≡ ok (record {
          name = bytes "bob";
          method = session;
          claims = some (carried (minted_claims bob) 20);
        }))
serve_mint-login_example =
    serve_mint-login toy_crypto toy_registry toy_listener toy_minter bob_minted.0 bearer_request
      token_request sample_sid bob bob_minted.1 20 60 toy_mac-IsMac bearer_request-bob bob-Mintable
      refl refl (refl, refl) refl bob-open (omega arith)

bob-granted :
    (serve_mint toy_crypto toy_registry toy_listener 20 toy_minter bearer_request
      sample_sid).1.status
    ≡ 200
unfolding serve_mint
bob-granted = rw (serve_mint, bearer_request-bob) refl

serve_mint-Proved_example :
    (p : Caller) × Proved toy_crypto toy_listener 20 bearer_request p
    × (p.name ≢ [])
    × (serve_mint toy_crypto toy_registry toy_listener 20 toy_minter bearer_request sample_sid ≡ (
      (mint toy_mac toy_registry toy_minter sample_sid p.name (minted_claims p) 20).0,
      granted toy_listener.authn p.name
          (mint toy_mac toy_registry toy_minter sample_sid p.name (minted_claims p) 20).1,
    ))
serve_mint-Proved_example =
    serve_mint-Proved toy_crypto toy_registry toy_listener 20 toy_minter bearer_request sample_sid
      bob-granted
