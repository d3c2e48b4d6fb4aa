-- ===== src/Auth/Minter/Renewal.antt =====
-- A renewed token is the same session's, and a revoked session's tokens stay dead.
use quicsql.Prelude.{
  ℕ, ◌+◌, ◌<◌, ◌≤◌, ◌≡◌, ◌≢◌, refl, sym, ap, subst, ◌∙◌, true, false, nat_eq, bytes_eq, ltb,
  if_cases, List, length, some, All, arith, Option-cases, Bool-cases, inl, inr,
}
use mathlib.Core.Option.{some-injective}
use quicsql.Prelude.Int.{ℤ, pos, negsuc, int_eq}
use quicsql.Prelude.Result.{ok}
use quicsql.Encoding.Hex
use quicsql.Session.Baton.{Mac, sum_size}
use quicsql.Auth.Token.{Parsed, SessClaims, parse, unix_nano_or_zero}
use quicsql.Auth.Token.RoundTrip.{IsInt64, parse-issue}
use quicsql.Auth.Token.Bounds.{WellFormed, parse-WellFormed}
use quicsql.Auth.Minter.{
  Minter, Issued, after, later_of, slid, extended, renew, maybe_refresh, verify,
}

-- One instant is not after another.
abbrev pub ◌≤ℤ◌ : ℤ → ℤ → Type 0
pos a ≤ℤ pos b = a ≤ b
pos a ≤ℤ negsuc b = 1 ≤ 0
negsuc a ≤ℤ pos b = 0 ≤ 1
negsuc a ≤ℤ negsuc b = b ≤ a

infix 20 ◌≤ℤ◌
-- A MAC gives 32 bytes.
pub record IsMac (mac : Mac) : Type 0 where
  pub size : (k m : List ℕ) → length (mac k m) ≡ sum_size
  pub bytes : (k m : List ℕ) → All (λ b. b < 256) (mac k m)

slid-IsInt64 : (t : ℕ) (h : ℤ) → IsInt64 h → IsInt64 (slid t h)
slid-IsInt64 t (pos h) b = if_cases IsInt64 (ltb h t) (λ later. b) (λ in_time. ground arith)
slid-IsInt64 t (negsuc h) b = b

slid-le : (t : ℕ) (h : ℤ) → slid t h ≤ℤ h
slid-le t (pos h) =
    if_cases (λ r. r ≤ℤ pos h) (ltb h t) (λ later. omega arith) (λ in_time. ground arith)
slid-le t (negsuc h) = omega arith

-- A token that is renewed parses to the claims, the principal, the session and the hard deadline
-- of the old one.
pub parse-extended :
    {D : Type 0} (mac : Mac) (m : Minter D) (p : Parsed) (now : ℕ)
    → IsMac mac
    → WellFormed p
    → p.hard_exp ≢ pos 0
    → parse mac m.key (extended mac m p now).token
      ≡ some (record p { exp = (extended mac m p now).exp })
unfolding extended unix_nano_or_zero
parse-extended mac m p now good w live =
    parse-issue mac m.key p.sid p.principal (slid (now + m.idle_ttl) p.hard_exp) (some p.hard_exp)
      p.claims good.size good.bytes w.sid w.sid_bytes w.principal w.principal_bytes
      (slid-IsInt64 _ p.hard_exp w.hard_exp) (w.hard_exp, live) w.claims

-- The tokens that stem from `first` by renewing, at any times and in any states of the minter.
pub data Renews (D : Type 0) (mac : Mac) (key first : List ℕ) : List ℕ → Type 0 where
  same : Renews D mac key first first
  renewed :
      {token : List ℕ} (m : Minter D) (now : ℕ) (i : Issued)
      → Renews D mac key first token
      → m.key ≡ key
      → renew mac m token now ≡ ok i
      → Renews D mac key first i.token
  refreshed :
      {token : List ℕ} (m : Minter D) (now : ℕ) (i : Issued)
      → Renews D mac key first token
      → m.key ≡ key
      → maybe_refresh mac m token now ≡ some i
      → Renews D mac key first i.token

-- What `q` has from `p`: all but the sliding expiry, which the outer deadline of `p` bounds.
pub record SameSession (p q : Parsed) : Type 0 where
  pub sid : q.sid ≡ p.sid
  pub hard_exp : q.hard_exp ≡ p.hard_exp
  pub principal : q.principal ≡ p.principal
  pub claims : q.claims ≡ p.claims
  pub bounded : q.exp ≤ℤ later_of p.exp p.hard_exp

later_of-left : (a b : ℤ) → a ≤ℤ later_of a b
later_of-left (pos a) (pos b) = ground arith
later_of-left (pos a) (negsuc b) = omega arith
later_of-left (negsuc a) (pos b) = omega arith
later_of-left (negsuc a) (negsuc b) = ground arith

later_of-right : (a b : ℤ) → b ≤ℤ later_of a b
later_of-right (pos a) (pos b) = ground arith
later_of-right (pos a) (negsuc b) = omega arith
later_of-right (negsuc a) (pos b) = omega arith
later_of-right (negsuc a) (negsuc b) = ground arith

pub ≤ℤ_trans : (a b c : ℤ) → a ≤ℤ b → b ≤ℤ c → a ≤ℤ c
≤ℤ_trans (pos a) (pos b) (pos c) g h = omega arith
≤ℤ_trans (pos a) (pos b) (negsuc c) g h = absurd (omega arith)
≤ℤ_trans (pos a) (negsuc b) c g h = absurd (omega arith)
≤ℤ_trans (negsuc a) b (pos c) g h = omega arith
≤ℤ_trans (negsuc a) (pos b) (negsuc c) g h = absurd (omega arith)
≤ℤ_trans (negsuc a) (negsuc b) (negsuc c) g h = omega arith

pub after-≤ℤ : (now : ℕ) (a b : ℤ) → a ≤ℤ b → after now b ≡ true → after now a ≡ true
after-≤ℤ now (pos a) (pos b) h e = ground arith
after-≤ℤ now (pos a) (negsuc b) h e = absurd (omega arith)
after-≤ℤ now (negsuc a) b h e = refl

-- Whatever was renewed, by either operation, is the extension of a live, renewable token.
renew-ok :
    {D : Type 0} (mac : Mac) (m : Minter D) (token : List ℕ) (now : ℕ) (i : Issued)
    → renew mac m token now ≡ ok i
    → (p : Parsed) × (parse mac m.key token ≡ some p)
      × (p.hard_exp ≢ pos 0)
      × (extended mac m p now ≡ i)
unfolding renew
renew-ok mac m token now i e = elim (Option-cases (parse mac m.key token)) [
  | inl bad ↦ absurd (ground arith)
  | inr (p, parsed) ↦ (p, parsed, ground (arith, int_eq.beq_iff p.hard_exp (pos 0)), ground arith)
]

maybe_refresh-some :
    {D : Type 0} (mac : Mac) (m : Minter D) (token : List ℕ) (now : ℕ) (i : Issued)
    → maybe_refresh mac m token now ≡ some i
    → (p : Parsed) × (parse mac m.key token ≡ some p)
      × (p.hard_exp ≢ pos 0)
      × (extended mac m p now ≡ i)
unfolding maybe_refresh
maybe_refresh-some mac m token now i e = elim (Option-cases (parse mac m.key token)) [
  | inl bad ↦ absurd (ground arith)
  | inr (p, parsed) ↦ (p, parsed, ground (arith, int_eq.beq_iff p.hard_exp (pos 0)), ground arith)
]

SameSession-extended :
    {D : Type 0} (mac : Mac) (m : Minter D) (p q r : Parsed) (now : ℕ)
    → SameSession p q
    → q ≡ r
    → SameSession p (record r { exp = (extended mac m r now).exp })
unfolding extended
SameSession-extended mac m p q r now s e = record {
  sid = ap (λ x. x.sid) (sym e) ∙ s.sid;
  hard_exp = ap (λ x. x.hard_exp) (sym e) ∙ s.hard_exp;
  principal = ap (λ x. x.principal) (sym e) ∙ s.principal;
  claims = ap (λ x. x.claims) (sym e) ∙ s.claims;
  bounded = ≤ℤ_trans _ _ _ (slid-le (now + m.idle_ttl) r.hard_exp) (
      subst (λ h. h ≤ℤ later_of p.exp p.hard_exp) (sym (ap (λ x. x.hard_exp) (sym e) ∙ s.hard_exp))
        (later_of-right p.exp p.hard_exp));
}

Renews-step :
    {D : Type 0} (mac : Mac) (key token : List ℕ) (m : Minter D) (p q r : Parsed) (now : ℕ)
    (i : Issued)
    → IsMac mac
    → m.key ≡ key
    → SameSession p q
    → parse mac key token ≡ some q
    → parse mac m.key token ≡ some r
    → r.hard_exp ≢ pos 0
    → extended mac m r now ≡ i
    → (q' : Parsed) × (parse mac key i.token ≡ some q') × SameSession p q'
Renews-step mac key token m p q r now i good k s found parsed live e = (
  record r { exp = (extended mac m r now).exp },
  subst (λ j. parse mac key j.token ≡ some (record r { exp = (extended mac m r now).exp })) e
      (subst
        (λ x.
          parse mac x (extended mac m r now).token
          ≡ some (record r { exp = (extended mac m r now).exp }))
        k (parse-extended mac m r now good (parse-WellFormed mac m.key token r parsed) live)),
  SameSession-extended mac m p q r now s
      (some-injective _ _ (sym found ∙ ap (λ x. parse mac x token) (sym k) ∙ parsed)),
)

pub Renews-SameSession :
    {D : Type 0} (mac : Mac) (key first token : List ℕ) (p : Parsed)
    → IsMac mac
    → parse mac key first ≡ some p
    → Renews D mac key first token
    → (q : Parsed) × (parse mac key token ≡ some q) × SameSession p q
Renews-SameSession mac key first token p good parsed same = (
  p,
  parsed,
  record {
    sid = refl;
    hard_exp = refl;
    principal = refl;
    claims = refl;
    bounded = later_of-left p.exp p.hard_exp;
  },
)
Renews-SameSession mac key first token p good parsed (renewed {token = old} m now i r k e) =
    let (q, found, s) = Renews-SameSession mac key first old p good parsed r in
    let (t, read, live, ext) = renew-ok mac m old now i e in
    Renews-step mac key old m p q t now i good k s found read live ext
Renews-SameSession mac key first token p good parsed (refreshed {token = old} m now i r k e) =
    let (q, found, s) = Renews-SameSession mac key first old p good parsed r in
    let (t, read, live, ext) = maybe_refresh-some mac m old now i e in
    Renews-step mac key old m p q t now i good k s found read live ext

-- However often a token is renewed or refreshed, whatever verifies in the end gives the principal,
-- the session identifier and the assurance claims of the first token, and nothing verifies after
-- the later of the first token's expiry and its hard deadline. The MAC gives 32 bytes, and every
-- renewal is under the first token's key.
pub verify-Renews :
    {D : Type 0} (mac : Mac) (m : Minter D) (first token : List ℕ) (p : Parsed) (now : ℕ)
    (got : List ℕ × List ℕ × SessClaims)
    → IsMac mac
    → parse mac m.key first ≡ some p
    → Renews D mac m.key first token
    → verify mac m token now ≡ some got
    → (got ≡ (p.principal, Hex.encode p.sid, p.claims))
      × (after now (later_of p.exp p.hard_exp) ≡ false)
unfolding verify
verify-Renews mac m first token p now got good parsed r e =
    let (q, found, s) = Renews-SameSession mac m.key first token p good parsed r in
    elim (Bool-cases (after now (later_of p.exp p.hard_exp))) [
      | inl late ↦
          absurd (ground (arith, after-≤ℤ now q.exp (later_of p.exp p.hard_exp) s.bounded late))
      | inr early ↦ (ground (arith, s.sid, s.principal, s.claims), early)
    ]
