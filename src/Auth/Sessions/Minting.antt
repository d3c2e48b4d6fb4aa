-- ===== src/Auth/Sessions/Minting.antt =====
-- What a minted token stands for.
use Prim.Native.Nat.{bit_or}
use quicsql.Prelude.{
  ℕ, ◌+◌, ◌<◌, ◌^◌, ◌≡◌, refl, ap, ◌∙◌, false, nat_eq, bytes_eq, if◌then◌else◌, List, Option, none,
  some, arith, if_cases, All, length, leb,
}
use quicsql.Prelude.Int.{ℤ, pos}
use quicsql.Encoding.Hex
use quicsql.Session.Baton.{Mac}
use quicsql.Auth.Token.{
  SessClaims, Parsed, sid_len, cred_len, cred_field, parse, issue, token_payload, unix_nano_or_zero,
}
use quicsql.Auth.Token.RoundTrip.{IsTime, Fits, parse-issue, cred_field-whole}
use quicsql.Auth.Minter.{Minter, SessionStore, mint, verify, is_revoked, renewable}
use quicsql.Auth.Minter.Renewal.{IsMac}
use quicsql.Auth.Requests.{Crypto}
use quicsql.Auth.Sessions.{mint_step_up, Prior, stepped}

length-cred_field : (id : List ℕ) → length (cred_field id) ≡ cred_len
unfolding cred_field
length-cred_field id = ground arith

-- A shorter or longer credential is written as zeros.
issue-cred_field :
    (mac : Mac) (key sid principal : List ℕ) (exp : ℤ) (hard_exp : Option ℤ) (c : SessClaims)
    → issue mac key sid principal exp hard_exp c
      ≡ issue mac key sid principal exp hard_exp (record c { cred_id = cred_field c.cred_id })
unfolding issue token_payload
issue-cred_field mac key sid principal exp hard_exp c =
    rw (cred_field-whole (cred_field c.cred_id) (length-cred_field c.cred_id)) refl

-- The claims that a token minted at `t` carries.
abbrev pub carried : SessClaims → ℕ → SessClaims
carried c t = record c {
  cred_id = cred_field c.cred_id;
  auth_time = elim c.auth_time [ none ↦ some (pos t) | some at ↦ some at ];
}

-- What a session is minted with: a random identifier, a principal with a name, claims that fit their
-- fields, and expiries that are 64-bit times.
pub record Mintable {D : Type 0} (s : Minter D) (sid principal : List ℕ) (c : SessClaims) (t : ℕ)
    : Type 0 where
  pub sid_size : length sid ≡ sid_len
  pub sid_bytes : All (λ b. b < 256) sid
  pub name_size : 0 < length principal
  pub name_bytes : All (λ b. b < 256) principal
  pub claims : Fits (carried c t)
  pub idle : t + s.idle_ttl < 2 ^ 63
  pub hard : t + s.max_ttl < 2 ^ 63

hard-IsTime :
    {D : Type 0} (s : Minter D) (t : ℕ)
    → t + s.max_ttl < 2 ^ 63
    → IsTime (if renewable s then some (pos (t + s.max_ttl)) else none)
hard-IsTime s t h = if_cases IsTime (renewable s) (λ on. (h, λ e. ground arith)) (λ off. tt)

mint-parse :
    {D : Type 0} (mac : Mac) (db : SessionStore D) (s : Minter D) (sid principal : List ℕ)
    (c : SessClaims) (t : ℕ)
    → IsMac mac
    → Mintable s sid principal c t
    → (p : Parsed) × (parse mac s.key (mint mac db s sid principal c t).1.token ≡ some p)
      × (p.sid ≡ sid)
      × (p.principal ≡ principal)
      × (p.exp ≡ pos (t + s.idle_ttl))
      × (p.claims ≡ carried c t)
unfolding mint
mint-parse mac db s sid principal c t good w =
    let exp = pos (t + s.idle_ttl) in
    let hard = if renewable s then some (pos (t + s.max_ttl)) else none in
    (
      record {
        sid = sid;
        exp = exp;
        hard_exp = unix_nano_or_zero hard;
        principal = principal;
        claims = carried c t;
      },
      ap (parse mac s.key) (issue-cred_field mac s.key sid principal exp hard _)
          ∙ parse-issue mac s.key sid principal exp hard (carried c t) good.size good.bytes
              w.sid_size w.sid_bytes w.name_size w.name_bytes w.idle (hard-IsTime s t w.hard)
              w.claims,
      refl,
      refl,
      refl,
      refl,
    )

-- A session that is minted at `t` verifies until its idle window ends, in every state of the minter
-- with the same key that has not revoked it.
pub mint-verify :
    {D : Type 0} (mac : Mac) (db : SessionStore D) (s n : Minter D) (sid principal : List ℕ)
    (c : SessClaims) (t now : ℕ)
    → IsMac mac
    → Mintable s sid principal c t
    → n.key ≡ s.key
    → is_revoked mac n sid now ≡ false
    → verify mac n (mint mac db s sid principal c t).1.token now
      ≡ (if leb now (t + s.idle_ttl) then some (principal, Hex.encode sid, carried c t) else none)
unfolding verify
mint-verify mac db s n sid principal c t now good w key live =
    let (p, parsed, same, named, until, claims) = mint-parse mac db s sid principal c t good w in
    rw (verify, key, parsed, until, same, live, named, claims) (ground arith)

verify-some :
    {D : Type 0} (mac : Mac) (n : Minter D) (token : List ℕ) (p : Parsed) (now : ℕ)
    (got : List ℕ × List ℕ × SessClaims)
    → parse mac n.key token ≡ some p
    → verify mac n token now ≡ some got
    → got ≡ (p.principal, Hex.encode p.sid, p.claims)
unfolding verify
verify-some mac n token p now got parsed h = ground arith

-- The step-up keeps the clock: a token that adds a factor to a session carries the recency, the
-- tier, the scope and the hold of the session before it, and its factors are the old ones and the
-- new one. The session before it has a recency, and what it carries fits the token.
pub mint_step_up-verify :
    {D : Type 0} (crypto : Crypto) (db : SessionStore D) (s : Minter D) (sid principal : List ℕ)
    (prev : Prior) (at : ℤ) (add : ℕ) (cred_hex : List ℕ) (t now : ℕ)
    (got : List ℕ × List ℕ × SessClaims)
    → IsMac crypto.mac
    → prev.auth_time ≡ some at
    → Mintable s sid principal (stepped prev add cred_hex) t
    → verify crypto.mac s (mint_step_up crypto db s sid t principal prev add cred_hex).1.token now
      ≡ some got
    → (got.0 ≡ principal)
      × (got.2.auth_time ≡ some at)
      × (got.2.factors ≡ bit_or prev.factors add)
      × (got.2.tier ≡ prev.tier)
      × (got.2.scope ≡ prev.scope)
      × (got.2.not_before ≡ prev.not_before)
unfolding mint_step_up
mint_step_up-verify crypto db s sid principal prev at add cred_hex t now got good known w h =
    let (p, parsed, same, named, until, claims) =
      mint-parse crypto.mac db s sid principal (stepped prev add cred_hex) t good w in
    let all = verify-some crypto.mac s _ p now got parsed h in
    let kept : got.2 ≡ carried (stepped prev add cred_hex) t = ap (λ x. x.2) all ∙ claims in
    (
      ap (λ x. x.0) all ∙ named,
      ap (λ x. x.auth_time) kept ∙ rw known refl,
      ap (λ x. x.factors) kept,
      ap (λ x. x.tier) kept,
      ap (λ x. x.scope) kept,
      ap (λ x. x.not_before) kept,
    )
