-- ===== src/Authz/Assurance.antt =====
-- authz/assurance.go: the gate on actions that change an account. Tiers and scopes are the bytes
-- of the session token, a set of factors is a 16-bit mask, instants and windows are nanoseconds.
-- `now - t` on ℕ stops at 0 where Go's difference is negative: for a window of at least 0 both
-- compare alike.
pub mod Gate
use Prim.Native.Nat.{bit_and, bit_or}
use quicsql.Prelude.{
  ℕ, String, ◌&&◌, ◌||◌, ◌==◌, nat_eq, ltb, leb, if◌then◌else◌, ◌-◌, Option, none, some, List, [],
  ◌∷◌,
}

abbrev pub tier_data_only : ℕ
tier_data_only = 0

abbrev pub tier_owner : ℕ
tier_owner = 1

abbrev pub factor_password : ℕ
factor_password = 1

abbrev pub factor_otp : ℕ
factor_otp = 2

abbrev pub factor_webauthn : ℕ
factor_webauthn = 4

abbrev pub factor_device_key : ℕ
factor_device_key = 8

abbrev pub factor_recovery : ℕ
factor_recovery = 16

abbrev pub strict_factors : ℕ
strict_factors = bit_or (bit_or factor_webauthn factor_device_key) factor_recovery

abbrev pub scope_full : ℕ
scope_full = 0

abbrev pub scope_reduced : ℕ
scope_reduced = 1

unfoldable pub tier_string : ℕ → String
tier_string t = if leb tier_owner t then "owner" else "data-only"

unfoldable pub scope_string : ℕ → String
scope_string s = if s == scope_reduced then "reduced" else "full"

named_factors : List (ℕ × String)
named_factors =
    (factor_webauthn, "webauthn")
    ∷ (factor_device_key, "device_key")
    ∷ (factor_recovery, "recovery")
    ∷ (factor_password, "password")
    ∷ (factor_otp, "otp")
    ∷ []

names_among : ℕ → List (ℕ × String) → List String
names_among f [] = []
names_among f ((bit, name) ∷ rest) =
    let out = names_among f rest in if bit_and f bit == 0 then out else name ∷ out

-- `Factor.Names`.
unfoldable pub names : ℕ → List String
unfolding named_factors names_among
names f = names_among f named_factors

pub record Assurance : Type 0 where
  pub tier : ℕ
  pub factors : ℕ
  pub auth_time : ℕ
  pub cred_id : String
  pub scope : ℕ
  pub not_before_destructive : ℕ

pub data ActionClass : Type 0 where
  data_write credential_mgmt destructive recovery_root : ActionClass

pub record AssurancePolicy : Type 0 where
  pub credential_mgmt : ℕ
  pub destructive : ℕ
  pub step_up_window : ℕ

abbrev pub ten_minutes : ℕ
ten_minutes = 600_000_000_000

unfoldable pub with_defaults : AssurancePolicy → AssurancePolicy
with_defaults p = record {
  credential_mgmt = if p.credential_mgmt == 0 then strict_factors else p.credential_mgmt;
  destructive = if p.destructive == 0 then strict_factors else p.destructive;
  step_up_window = if p.step_up_window == 0 then ten_minutes else p.step_up_window;
}

pub data AssuranceError : Type 0 where
  owner_required step_up_required scope_reduced_error : AssuranceError

-- The case of `CredentialMgmt` and `Destructive`, with the mask that the action needs.
unfoldable pub require_manage : Assurance → ℕ → ℕ → ℕ → Option AssuranceError
require_manage a need window now =
    if ltb a.tier tier_owner
    then some owner_required
    else if a.scope == scope_reduced && ltb now a.not_before_destructive
    then some scope_reduced_error
    else if bit_and a.factors need == 0 || ltb window (now - a.auth_time)
    then some step_up_required
    else none

unfoldable pub require_root : Assurance → ℕ → ℕ → Option AssuranceError
require_root a window now =
    if bit_and a.factors factor_recovery == 0 || a.scope == scope_reduced
    then some step_up_required
    else if ltb window (now - a.auth_time)
    then some step_up_required
    else none

unfoldable pub require_some : Assurance → ActionClass → AssurancePolicy → ℕ → Option AssuranceError
unfolding require_manage require_root
require_some a data_write pol now = none
require_some a credential_mgmt pol now = require_manage a pol.credential_mgmt pol.step_up_window now
require_some a destructive pol now = require_manage a pol.destructive pol.step_up_window now
require_some a recovery_root pol now = require_root a pol.step_up_window now

-- `none` is Go's nil error.
unfoldable pub require_assurance :
    Option Assurance → ActionClass → AssurancePolicy → ℕ → Option AssuranceError
unfolding require_some with_defaults
require_assurance a data_write pol now = none
require_assurance none action pol now = some owner_required
require_assurance (some a) action pol now = require_some a action (with_defaults pol) now
