-- ===== src/Authz/Tests.antt =====
-- The policy and the gate on small examples.
use quicsql.Prelude.{◌≡◌, ◌↔◌, string_eq, refl, false, none, some, arith}
use quicsql.Prelude.Map.{lookup, insert}
use quicsql.Authz.Level.{read_only, read_write, admin}
use quicsql.Authz.Assurance.{
  Assurance, AssurancePolicy, destructive, require_assurance, with_defaults, scope_reduced,
  tier_owner,
}
use quicsql.Authz.Assurance.Gate.{MayDo, require_assurance_iff}
use quicsql.Authz.Policy.{Principal, Policy, new_policy, grant, revoke_principal, level}
use quicsql.Authz.Policy.Effects.{level-grant, level-revoke_principal}

abbrev alice : Principal
alice = record { name = "alice"; method = "ssh"; assurance = none }

abbrev everyone_reads : Policy
everyone_reads = grant (grant (new_policy false) "main" "*" read_only) "main" "alice" admin

level-grant_example :
    level (grant everyone_reads "logs" "alice" read_write) (some alice) "logs" ≡ read_write
unfolding grant new_policy level lookup insert
level-grant_example = level-grant everyone_reads "logs" "alice" read_write (some alice) "logs" refl

level-revoke_principal_example :
    (level (revoke_principal everyone_reads "alice") (some alice) "main"
      ≡ level everyone_reads none "main")
    × (level (revoke_principal everyone_reads "alice") none "main"
        ≡ level everyone_reads none "main")
level-revoke_principal_example =
    level-revoke_principal everyone_reads "alice" alice "main"
      (λ h. ground (arith, string_eq.beq_iff "alice" "*"))

-- An owner that signed in by a passkey, on a session whose destructive actions are held.
abbrev new_device : Assurance
new_device = record {
  tier = tier_owner;
  factors = 4;
  auth_time = 1000;
  cred_id = "key";
  scope = scope_reduced;
  not_before_destructive = 9000;
}

abbrev password_only : Assurance
password_only = record new_device { factors = 1; scope = 0 }

abbrev plain_policy : AssurancePolicy
plain_policy = record { credential_mgmt = 0; destructive = 0; step_up_window = 0 }

require_assurance_iff_example :
    (require_assurance (some new_device) destructive plain_policy 2000 ≡ none)
    ↔ MayDo new_device destructive (with_defaults plain_policy) 2000
require_assurance_iff_example = require_assurance_iff new_device destructive plain_policy 2000
