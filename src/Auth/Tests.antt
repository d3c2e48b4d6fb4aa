-- ===== src/Auth/Tests.antt =====
-- Tokens, challenges, the directory and requests on small examples. The MAC is a constant, a digest
-- is its argument, and every signature of the keys below is good.
mod Logins
use Prim.Native.Nat.{bit_or}
use quicsql.Prelude.{
  ℕ, ◌+◌, ◌<◌, ◌≤◌, ◌≡◌, ◌≢◌, refl, Bool, true, false, ◌==◌, List, [], ◌∷◌, ◌++◌, none, some,
  Option, length, replicate, All, leb, if◌then◌else◌, arith, nat_eq, bytes_eq, inl, inr,
}
use quicsql.Prelude.Int.{ℤ, pos, negsuc, int_eq}
use quicsql.Prelude.Map.{Map, lookup, insert}
use quicsql.Prelude.Result.{Result, ok, err}
use quicsql.Encoding.Strings.{bytes, cut_prefix}
use quicsql.Encoding.Hex
use quicsql.Encoding.Base64
use quicsql.Session.Baton.{Mac, sum_size}
use quicsql.Auth.Token.{SessClaims, Parsed, issue, parse, sid_len, unix_nano_or_zero}
use quicsql.Auth.Token.RoundTrip.{Fits, parse-issue}
use quicsql.Auth.Minter.{
  Minter, SessionStore, SessionRow, Issued, verify, renew, revoke, maybe_refresh, extended, after,
  later_of, is_revoked, mint, sweep, revoke_one,
}
use quicsql.Auth.Minter.Renewal.{IsMac, Renews, same, renewed, verify-Renews, parse-extended}
use quicsql.Auth.Token.Bounds.{WellFormed, parse-WellFormed}
use quicsql.Auth.Minter.Revocation.{Runs, start, minting, revoking_one, waiting, revoke-verify}
use quicsql.Auth.Challenge
use quicsql.Auth.Challenge.{challenge_ttl, valid-mint}
use quicsql.Auth.Directory.{
  Directory, KeyringCred, SshKey, lookup_keyring, add_keyring, remove_keyring_name,
}
use quicsql.Auth.Directory.Shadowing.{
  Changes, unchanged, added, removed_name, lookup_keyring-Changes,
}

abbrev toy_mac : Mac
toy_mac k m = replicate 32 7

toy_mac-IsMac : IsMac toy_mac
toy_mac-IsMac = record { size = λ k m. refl; bytes = λ k m. ground arith }

abbrev sample_sid : List ℕ
sample_sid = replicate 16 1

abbrev sample_claims : SessClaims
sample_claims = record {
  tier = 1;
  scope = 0;
  factors = 8;
  rot = 0;
  cred_id = replicate 16 2;
  auth_time = some (pos 5);
  not_before = none;
}

sample_claims-Fits : Fits sample_claims
sample_claims-Fits = record {
  tier = omega arith;
  scope = omega arith;
  factors = omega arith;
  rot = omega arith;
  cred_id = refl;
  cred_bytes = ground arith;
  auth_time = (omega arith, λ e. ground arith);
  not_before = tt;
}

abbrev sample_token : List ℕ
sample_token =
    issue toy_mac (5 ∷ []) sample_sid (bytes "u_a") (pos 100) (some (pos 1000)) sample_claims

abbrev sample_parsed : Parsed
sample_parsed = record {
  sid = sample_sid;
  exp = pos 100;
  hard_exp = pos 1000;
  principal = bytes "u_a";
  claims = sample_claims;
}

-- A token that cannot be renewed.
parse-issue_example :
    parse toy_mac
      (5 ∷ [])
      (issue toy_mac (5 ∷ []) sample_sid (bytes "bob") (pos 7) none sample_claims)
    ≡ some (record {
      sid = sample_sid;
      exp = pos 7;
      hard_exp = pos 0;
      principal = bytes "bob";
      claims = sample_claims;
    })
unfolding unix_nano_or_zero
parse-issue_example =
    parse-issue toy_mac (5 ∷ []) sample_sid (bytes "bob") (pos 7) none sample_claims
      toy_mac-IsMac.size toy_mac-IsMac.bytes refl (ground arith) (omega arith) (ground arith)
      (omega arith) tt sample_claims-Fits

sample_token-parse : parse toy_mac (5 ∷ []) sample_token ≡ some sample_parsed
unfolding unix_nano_or_zero
sample_token-parse =
    parse-issue toy_mac (5 ∷ []) sample_sid (bytes "u_a") (pos 100) (some (pos 1000)) sample_claims
      toy_mac-IsMac.size toy_mac-IsMac.bytes refl (ground arith) (omega arith) (ground arith)
      (omega arith) (omega arith, λ e. ground arith) sample_claims-Fits

-- A minter with no registry, a window of 80 and a cap of 1000.
abbrev toy_minter : Minter ℕ
toy_minter = record { key = 5 ∷ []; idle_ttl = 80; max_ttl = 1000; store = none; revoked = [] }

abbrev toy_registry : SessionStore ℕ
toy_registry = record {
  put = λ d row. d + 1;
  by_account = λ d account. some [];
  by_credential = λ d id. some [];
  delete_sessions = λ d ids. d;
}

abbrev renewed_token : Issued
renewed_token = extended toy_mac toy_minter sample_parsed 50

sample_parsed-WellFormed : WellFormed sample_parsed
sample_parsed-WellFormed =
    parse-WellFormed toy_mac (5 ∷ []) sample_token sample_parsed sample_token-parse

sample_renew : renew toy_mac toy_minter sample_token 50 ≡ ok renewed_token
unfolding renew is_revoked lookup
sample_renew = rw (renew, sample_token-parse) refl

sample_chain : Renews ℕ toy_mac (5 ∷ []) sample_token renewed_token.token
sample_chain = renewed toy_minter 50 renewed_token same refl sample_renew

abbrev sample_verified : List ℕ × List ℕ × SessClaims
sample_verified = (bytes "u_a", Hex.encode sample_sid, sample_claims)

sample_verify : verify toy_mac toy_minter renewed_token.token 60 ≡ some sample_verified
unfolding verify is_revoked lookup extended
sample_verify =
    rw
      (
        verify,
        parse-extended toy_mac toy_minter sample_parsed 50 toy_mac-IsMac sample_parsed-WellFormed
            (λ e. ground arith),
      )
      refl

verify-Renews_example :
    (sample_verified ≡ (bytes "u_a", Hex.encode sample_sid, sample_claims))
    × (after 60 (pos 1000) ≡ false)
verify-Renews_example =
    verify-Renews toy_mac toy_minter sample_token renewed_token.token sample_parsed 60
      sample_verified toy_mac-IsMac sample_token-parse sample_chain sample_verify

abbrev revoked_minter : Minter ℕ
revoked_minter = record toy_minter { revoked = (Hex.encode sample_sid, pos 1000) ∷ [] }

sample_revoke : revoke toy_mac toy_registry toy_minter sample_token 70 ≡ some revoked_minter
unfolding revoke sweep insert
sample_revoke = rw (revoke, sample_token-parse) refl

-- A session that is minted after the revocation, and revoked by its identifier.
abbrev minted_after : Minter ℕ
minted_after = (mint toy_mac toy_registry revoked_minter (9 ∷ []) (bytes "u_b") sample_claims 75).0

abbrev revoked_after : Minter ℕ
revoked_after = revoke_one toy_mac toy_registry minted_after (bytes "09") 80

after-Runs :
    Runs toy_mac toy_registry
      (Hex.encode sample_sid)
      (later_of sample_parsed.exp sample_parsed.hard_exp)
      70
      revoked_minter
      90
      revoked_after
unfolding Hex.encode Hex.hex_digit
after-Runs =
    waiting 90
      (revoking_one 80 (bytes "09")
        (minting 75 (9 ∷ []) (bytes "u_b") sample_claims start (omega arith)) (omega arith)
        (λ e. ground arith))
      (omega arith)

revoke-verify_example :
    (verify toy_mac revoked_after renewed_token.token 90 ≡ none)
    × (maybe_refresh toy_mac revoked_after renewed_token.token 90 ≡ none)
revoke-verify_example =
    revoke-verify toy_mac toy_registry toy_minter revoked_minter revoked_after sample_token
      renewed_token.token sample_parsed 70 90 toy_mac-IsMac sample_token-parse sample_revoke
      after-Runs sample_chain

valid-mint_example :
    Challenge.valid toy_mac (5 ∷ []) (Challenge.mint toy_mac (5 ∷ []) sample_sid 10) 60000000011
    ≡ false
valid-mint_example =
    valid-mint toy_mac (5 ∷ []) sample_sid 10 60000000011 toy_mac-IsMac refl (ground arith)
      (omega arith)

-- An operator's key, and one that is enrolled.
abbrev sample_directory : Directory
sample_directory = record {
  bearer = [];
  password = [];
  mtls_cn = [];
  mtls_spki = [];
  keyring = (bytes "k1", record { key = 1 ∷ []; name = bytes "ops" }) ∷ [];
  peercred = [];
  dyn_keyring = (bytes "k2", record { key = 2 ∷ []; name = bytes "u_a" }) ∷ [];
}

lookup_keyring-Changes_example :
    lookup_keyring
      (remove_keyring_name
        (add_keyring sample_directory (bytes "k1") (9 ∷ []) (bytes "evil"))
        (bytes "ops"))
      (bytes "k1")
    ≡ some (record { key = 1 ∷ []; name = bytes "ops" })
lookup_keyring-Changes_example =
    lookup_keyring-Changes sample_directory
      (remove_keyring_name (add_keyring sample_directory (bytes "k1") (9 ∷ []) (bytes "evil"))
        (bytes "ops"))
      (bytes "k1") (record { key = 1 ∷ []; name = bytes "ops" }) (unfold lookup in refl)
      (removed_name (bytes "ops") (added (bytes "k1") (9 ∷ []) (bytes "evil") unchanged))
