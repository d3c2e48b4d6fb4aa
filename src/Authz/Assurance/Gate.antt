-- ===== src/Authz/Assurance/Gate.antt =====
-- The gate against its rules, read off the comments of authz/assurance.go one action at a time.
use Prim.Native.Nat.{bit_and}
use quicsql.Prelude.{
  ℕ, zero, suc, nat_eq, ◌+◌, ◌≡◌, refl, ◌↔◌, ◌≢◌, ◌≤◌, ◌<◌, ◌⊎◌, Option, none, some, arith,
}
use quicsql.Authz.Assurance.{
  Assurance, ActionClass, data_write, credential_mgmt, destructive, recovery_root, AssurancePolicy,
  AssuranceError, owner_required, scope_reduced_error, with_defaults, require_manage, require_root,
  require_some, require_assurance, tier_owner, scope_reduced, factor_recovery, strict_factors,
}

-- A factor of the mask was used, at most `window` ago.
abbrev pub Fresh : Assurance → ℕ → ℕ → ℕ → Type 0
Fresh a need window now = (bit_and a.factors need ≢ 0) × (now ≤ a.auth_time + window)

-- A session may manage its account with the factors of `need`.
pub record MayManage (a : Assurance) (need window now : ℕ) : Type 0 where
  pub owner : tier_owner ≤ a.tier
  pub unheld : (a.scope ≢ scope_reduced) ⊎ (a.not_before_destructive ≤ now)
  pub fresh : Fresh a need window now

pub record MayReachRoot (a : Assurance) (window now : ℕ) : Type 0 where
  pub unreduced : a.scope ≢ scope_reduced
  pub fresh : Fresh a factor_recovery window now

abbrev pub MayDo : Assurance → ActionClass → AssurancePolicy → ℕ → Type 0
MayDo a data_write pol now = Unit
MayDo a credential_mgmt pol now = MayManage a pol.credential_mgmt pol.step_up_window now
MayDo a destructive pol now = MayManage a pol.destructive pol.step_up_window now
MayDo a recovery_root pol now = MayReachRoot a pol.step_up_window now

require_manage_iff :
    (a : Assurance) (need window now : ℕ)
    → (require_manage a need window now ≡ none) ↔ MayManage a need window now
unfolding require_manage
require_manage_iff a need window now = (λ h. ground arith, λ h. ground arith)

require_root_iff :
    (a : Assurance) (window now : ℕ)
    → (require_root a window now ≡ none) ↔ MayReachRoot a window now
unfolding require_root
require_root_iff a window now = (λ h. ground arith, λ h. ground arith)

-- The gate lets a session through exactly when the rules of the action allow it, under the policy
-- with its defaults filled in: always for data; for credentials and destructive actions an owner,
-- past any hold on its reduced scope, with a required factor used within the window; for root an
-- unreduced session with the recovery key used within the window.
pub require_assurance_iff :
    (a : Assurance) (c : ActionClass) (pol : AssurancePolicy) (now : ℕ)
    → (require_assurance (some a) c pol now ≡ none) ↔ MayDo a c (with_defaults pol) now
unfolding require_assurance
require_assurance_iff a data_write pol now = (λ h. tt, λ h. refl)
require_assurance_iff a credential_mgmt pol now = require_manage_iff a _ _ now
require_assurance_iff a destructive pol now = require_manage_iff a _ _ now
require_assurance_iff a recovery_root pol now = require_root_iff a _ now

abbrev pub Refused : Option AssuranceError → Type 0
Refused r = (e : AssuranceError) × (r ≡ some e)

Refused-of : (r : Option AssuranceError) → r ≢ none → Refused r
Refused-of none h = absurd (h refl)
Refused-of (some e) h = (e, refl)

weak_masks : (f : ℕ) → f < 4 → (bit_and f strict_factors ≡ 0) × (bit_and f factor_recovery ≡ 0)
weak_masks zero h = (refl, refl)
weak_masks (suc zero) h = (refl, refl)
weak_masks (suc (suc zero)) h = (refl, refl)
weak_masks (suc (suc (suc zero))) h = (refl, refl)
weak_masks (suc (suc (suc (suc f)))) h = absurd (omega arith)

default_masks :
    (pol : AssurancePolicy)
    → pol.credential_mgmt ≡ 0
    → pol.destructive ≡ 0
    → ((with_defaults pol).credential_mgmt ≡ strict_factors)
      × ((with_defaults pol).destructive ≡ strict_factors)
unfolding with_defaults
default_masks pol c d = (ground arith, ground arith)

-- Under a policy that leaves both factor masks at zero, a session that used nothing but a password
-- and a one-time code is refused every account action, whatever its tier, scope and age; a request
-- with no session is refused every account action under any policy, with the owner error.
pub weak_factors-Refused :
    (a : Assurance) (c : ActionClass) (pol : AssurancePolicy) (now : ℕ)
    → c ≢ data_write
    → pol.credential_mgmt ≡ 0
    → pol.destructive ≡ 0
    → a.factors < 4
    → Refused (require_assurance (some a) c pol now)
      × (require_assurance none c pol now ≡ some owner_required)
weak_factors-Refused a data_write pol now other hc hd weak = absurd (other refl)
weak_factors-Refused a credential_mgmt pol now other hc hd weak = (
  Refused-of _ λ h.
      ((require_assurance_iff a credential_mgmt pol now).0 h).fresh.0
        (rw ((default_masks pol hc hd).0) (weak_masks a.factors weak).0),
  unfold require_assurance in refl,
)
weak_factors-Refused a destructive pol now other hc hd weak = (
  Refused-of _ λ h.
      ((require_assurance_iff a destructive pol now).0 h).fresh.0
        (rw ((default_masks pol hc hd).1) (weak_masks a.factors weak).0),
  unfold require_assurance in refl,
)
weak_factors-Refused a recovery_root pol now other hc hd weak = (
  Refused-of _ λ h.
      ((require_assurance_iff a recovery_root pol now).0 h).fresh.0 (weak_masks a.factors weak).1,
  unfold require_assurance in refl,
)

-- A destructive action is refused with the scope error exactly when the session is an owner's, its
-- scope is reduced and its hold has not passed.
pub held_owner_error :
    (a : Assurance) (pol : AssurancePolicy) (now : ℕ)
    → (require_assurance (some a) destructive pol now ≡ some scope_reduced_error)
      ↔ ((tier_owner ≤ a.tier) × (a.scope ≡ scope_reduced) × (now < a.not_before_destructive))
unfolding require_assurance require_manage require_some
held_owner_error a pol now = (λ h. ground arith, λ h. ground arith)
