-- ===== src/Auth/Minter.antt =====
-- auth/session.go, sessionMinter: what it mints, renews, accepts and revokes. Instants are
-- nanoseconds; the tokens carry them as int64. The durable registry is an interface, and its rows a
-- state: a failed read is `none`, and a failed write is the implementation's.
pub mod Renewal
pub mod Revocation
use quicsql.Prelude.{
  ℕ, nat_eq, zero, ◌+◌, ◌-◌, ◌/◌, Bool, true, false, ◌||◌, ◌&&◌, not, ◌==◌, bytes_eq, ltb, leb,
  if◌then◌else◌, List, [], ◌∷◌, Option, none, some, length,
}
use quicsql.Prelude.Map.{Map, lookup, insert}
use quicsql.Prelude.Int.{ℤ, pos, negsuc, int_eq}
use quicsql.Prelude.Result.{Result, ok, err}
use quicsql.Encoding.Hex
use quicsql.Session.Baton.{Mac}
use quicsql.Auth.Token.{SessClaims, Parsed, issue, parse, cred_len}

pub data TokenError : Type 0 where
  invalid_credential not_renewable : TokenError

pub record Minter (D : Type 0) : Type 0 where
  pub key : List ℕ
  pub idle_ttl : ℕ
  pub max_ttl : ℕ
  pub store : Option D
  pub revoked : Map (List ℕ) ℤ

pub record SessionRow : Type 0 where
  pub sid : List ℕ
  pub account : List ℕ
  pub cred_id : List ℕ
  pub created : ℕ
  pub exp : ℤ
  pub hard_exp : ℤ

-- The SessionStore interface.
pub record SessionStore (D : Type 0) : Type 0 where
  pub put : D → SessionRow → D
  pub by_account : D → List ℕ → Option (Map (List ℕ) ℤ)
  pub by_credential : D → List ℕ → Option (Map (List ℕ) ℤ)
  pub delete_sessions : D → List (List ℕ) → D

pub record Issued : Type 0 where
  pub token : List ℕ
  pub exp : ℤ
  pub hard_exp : Option ℤ

-- `now > t` and `now >= t`.
abbrev pub after : ℕ → ℤ → Bool
after now (pos t) = ltb t now
after now (negsuc t) = true

abbrev pub at_or_after : ℕ → ℤ → Bool
at_or_after now (pos t) = leb t now
at_or_after now (negsuc t) = true

-- The later of two instants.
abbrev pub later_of : ℤ → ℤ → ℤ
later_of (pos a) (pos b) = pos (if ltb a b then b else a)
later_of (pos a) (negsuc b) = pos a
later_of (negsuc a) (pos b) = pos b
later_of (negsuc a) (negsuc b) = negsuc (if ltb a b then a else b)

-- `now + idleTTL`, but not after the hard deadline.
abbrev pub slid : ℕ → ℤ → ℤ
slid t (pos h) = if ltb h t then pos h else pos t
slid t (negsuc h) = negsuc h

abbrev pub all_zero : List ℕ → Bool
all_zero [] = true
all_zero (b ∷ bs) = b == 0 && all_zero bs

-- An entry that has passed its deadline goes.
unfoldable pub sweep : ℕ → Map (List ℕ) ℤ → Map (List ℕ) ℤ
sweep now [] = []
sweep now ((id, e) ∷ m) = let rest = sweep now m in if after now e then rest else (id, e) ∷ rest

-- The entries that a revocation of several sessions writes, but for the acting one.
unfoldable pub marked : Map (List ℕ) ℤ → List ℕ → Map (List ℕ) ℤ → Map (List ℕ) ℤ
marked [] kept m = m
marked ((sid, deadline) ∷ sids) kept m =
    marked sids kept (if sid == kept then m else insert sid deadline m)

abbrev pub others : Map (List ℕ) ℤ → List ℕ → List (List ℕ)
others [] kept = []
others ((sid, deadline) ∷ sids) kept =
    let rest = others sids kept in if sid == kept then rest else sid ∷ rest

abbrev pub renewable : {D : Type 0} → Minter D → Bool
renewable m = ltb 0 m.max_ttl

-- The token is in the first half of its idle window, or at its hard deadline. Both are still to
-- come, hence positive, where this is asked.
abbrev pub still_fresh : ℕ → ℕ → ℤ → ℤ → Bool
still_fresh idle now (pos e) (pos h) = ltb (idle / 2) (e - now) || leb h e
still_fresh idle now exp hard = true

module _ {D : Type 0} (mac : Mac) where
  unfoldable pub is_revoked : Minter D → List ℕ → ℕ → Bool
  is_revoked m sid now = elim (lookup (Hex.encode sid) m.revoked) [
    | none ↦ false
    | some until ↦ not (after now until)
  ]

  -- A live, renewable token again, under the same session, deadline and claims.
  unfoldable pub extended : Minter D → Parsed → ℕ → Issued
  extended m p now =
      let exp = slid (now + m.idle_ttl) p.hard_exp in
      record {
        token = issue mac m.key p.sid p.principal exp (some p.hard_exp) p.claims;
        exp = exp;
        hard_exp = some p.hard_exp;
      }

  unfoldable pub renew : Minter D → List ℕ → ℕ → Result TokenError Issued
  renew m token now = elim (parse mac m.key token) [
    | none ↦ err invalid_credential
    | some p ↦
        if p.hard_exp == pos 0
        then err not_renewable
        else if after now p.exp || at_or_after now p.hard_exp
        then err invalid_credential
        else if is_revoked m p.sid now
        then err invalid_credential
        else ok (extended m p now)
  ]

  unfoldable pub maybe_refresh : Minter D → List ℕ → ℕ → Option Issued
  maybe_refresh m token now = elim (parse mac m.key token) [
    | none ↦ none
    | some p ↦
        if p.hard_exp == pos 0
        then none
        else if after now p.exp || at_or_after now p.hard_exp
        then none
        else if still_fresh m.idle_ttl now p.exp p.hard_exp
        then none
        else if is_revoked m p.sid now
        then none
        else some (extended m p now)
  ]

  -- The principal, the session's identifier in hex, and the claims.
  unfoldable pub verify : Minter D → List ℕ → ℕ → Option (List ℕ × List ℕ × SessClaims)
  verify m token now = elim (parse mac m.key token) [
    | none ↦ none
    | some p ↦
        if after now p.exp
        then none
        else if is_revoked m p.sid now
        then none
        else some (p.principal, Hex.encode p.sid, p.claims)
  ]

module _ {D : Type 0} (mac : Mac) (db : SessionStore D) where
  -- `sid` is what the random source gave.
  unfoldable pub mint : Minter D → List ℕ → List ℕ → SessClaims → ℕ → Minter D × Issued
  mint m sid principal c now =
      let claims = record c {
        auth_time = elim c.auth_time [ none ↦ some (pos now) | some t ↦ some t ];
      } in
      let exp : ℤ = pos (now + m.idle_ttl) in
      let hard : Option ℤ = if renewable m then some (pos (now + m.max_ttl)) else none in
      let row : SessionRow = record {
        sid = Hex.encode sid;
        account = principal;
        cred_id =
            if length c.cred_id == cred_len && not (all_zero c.cred_id)
            then Hex.encode c.cred_id
            else [];
        created = now;
        exp = exp;
        hard_exp = elim hard [ none ↦ pos 0 | some h ↦ h ];
      } in
      (
        record m { store = elim m.store [ none ↦ none | some d ↦ some (db.put d row) ] },
        record {
          token = issue mac m.key sid principal exp hard claims;
          exp = exp;
          hard_exp = hard;
        },
      )

  abbrev pub dropped_rows : Option D → List (List ℕ) → Option D
  dropped_rows none sids = none
  dropped_rows (some d) [] = some d
  dropped_rows (some d) (sid ∷ sids) = some (db.delete_sessions d (sid ∷ sids))

  unfoldable pub revoke_sids : Minter D → Map (List ℕ) ℤ → List ℕ → Minter D
  revoke_sids m sids kept = record m {
    revoked = marked sids kept m.revoked;
    store = dropped_rows m.store (others sids kept);
  }

  -- `none` is an error of the store.
  unfoldable pub revoke_account : Minter D → List ℕ → List ℕ → Option (Minter D)
  revoke_account m account kept = elim m.store [
    | none ↦ some m
    | some d ↦ elim (db.by_account d account) [
      | none ↦ none
      | some sids ↦ some (revoke_sids m sids kept)
    ]
  ]

  unfoldable pub revoke_by_credential : Minter D → List ℕ → Option (Minter D)
  revoke_by_credential m cred_id = elim m.store [
    | none ↦ some m
    | some d ↦ elim (db.by_credential d cred_id) [
      | none ↦ none
      | some sids ↦ some (revoke_sids m sids [])
    ]
  ]

  unfoldable pub revoke_one : Minter D → List ℕ → ℕ → Minter D
  revoke_one m sid now = revoke_sids m ((sid, pos (now + (m.idle_ttl + m.max_ttl))) ∷ []) []

  unfoldable pub revoke : Minter D → List ℕ → ℕ → Option (Minter D)
  revoke m token now = elim (parse mac m.key token) [
    | none ↦ none
    | some p ↦
        if after now p.exp
        then none
        else some (record m {
          revoked = insert (Hex.encode p.sid) (later_of p.exp p.hard_exp) (sweep now m.revoked);
          store = dropped_rows m.store (Hex.encode p.sid ∷ []);
        })
  ]
