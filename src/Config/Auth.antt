-- ===== src/Config/Auth.antt =====
-- config/load.go: validateAuth, validateEnroll and ValidateProvision. The warnings are left out.
use quicsql.Prelude.{
  ℕ, Bool, true, false, ◌&&◌, ◌||◌, not, ◌==◌, nat_eq, bytes_eq, ltb, if◌then◌else◌, List, [], ◌∷◌,
  Option, none, some, length,
}
use quicsql.Prelude.Int.{ℤ, pos, negsuc}
use quicsql.Encoding.Strings.{bytes, has_prefix}
use quicsql.Config.Names.{
  member, known_backends, listener_auth_methods, known_auth_methods, grant_levels, valid_db_name,
}

pub data ConfigError : Type 0 where
  unknown_listener_method peercred_not_unix mtls_without_tls session_disabled negative_ttl
        max_below_idle :
      ConfigError
  no_explicit_auth no_control_plane invalid_policy no_token_source negative_quota invalid_grant_db
        invalid_grant_level :
      ConfigError
  template_without_principal unknown_backend invalid_level invalid_on_revoke negative_max_bytes
        max_bytes_below_page :
      ConfigError
  vault_block_mismatch empty_principal reserved_principal duplicate_principal not_one_method
        unknown_method :
      ConfigError
  unknown_level unknown_grantee no_admins unknown_admin : ConfigError

pub record Listener : Type 0 where
  pub transport : List ℕ
  pub tls : List ℕ
  pub auth : List (List ℕ)

-- The names of the methods of each entry.
pub record PrincipalConfig : Type 0 where
  pub name : List ℕ
  pub methods : List (List (List ℕ))

pub record GrantConfig : Type 0 where
  pub subject : List ℕ
  pub level : List ℕ

pub record ProvisionConfig : Type 0 where
  pub enabled : Bool
  pub name_template : List ℕ
  pub backend : List ℕ
  pub has_vault : Bool
  pub level : List ℕ
  pub max_bytes : ℤ
  pub on_revoke : List ℕ

-- `quotas` are the four that must not be negative; a rate is negative or not.
pub record EnrollConfig : Type 0 where
  pub enabled : Bool
  pub policy : List ℕ
  pub tokens : List (List ℕ)
  pub codes_enabled : Bool
  pub max_principals : ℤ
  pub negative_rate : Bool
  pub code_ttl : ℤ
  pub idle_ttl : ℤ
  pub grants : List (List ℕ × List ℕ)
  pub provision : ProvisionConfig

pub record Config : Type 0 where
  pub listeners : List Listener
  pub session_enabled : Bool
  pub idle_ttl : ℤ
  pub max_ttl : ℤ
  pub enroll : EnrollConfig
  pub principals : List PrincipalConfig
  pub databases : List (List GrantConfig)
  pub control_plane : Bool
  pub admins : List (List ℕ)

-- The first error.
infixr 4 ◌then_check◌
abbrev pub ◌then_check◌ : Option ConfigError → Option ConfigError → Option ConfigError
none then_check e = e
some e then_check f = some e

abbrev pub refuse_if : Bool → ConfigError → Option ConfigError
refuse_if bad e = if bad then some e else none

abbrev pub negative : ℤ → Bool
negative (pos n) = false
negative (negsuc n) = true

-- `0 < max` and `max < idle`.
abbrev pub below : ℤ → ℤ → Bool
below (pos m) (pos i) = ltb 0 m && ltb m i
below m i = false

unfoldable pub any_grants : List (List GrantConfig) → Bool
any_grants [] = false
any_grants (g ∷ dbs) = not (length g == 0) || any_grants dbs

unfoldable pub auth_configured : Config → Bool
auth_configured c = not (length c.principals == 0) || any_grants c.databases

abbrev pub contains : List ℕ → List ℕ → Bool
contains part [] = has_prefix part []
contains part (b ∷ s) = has_prefix part (b ∷ s) || contains part s

abbrev pub page_size : ℕ
page_size = 4096

-- `0 < bytes` and `bytes < page_size`.
abbrev pub below_page : ℤ → Bool
below_page (pos n) = ltb 0 n && ltb n page_size
below_page (negsuc n) = false

unfoldable pub validate_provision : ProvisionConfig → Option ConfigError
validate_provision p =
    refuse_if (not (p.name_template == []) && not (contains (bytes "{principal}") p.name_template))
      template_without_principal
    then_check refuse_if (not (p.backend == []) && not (member p.backend known_backends))
        unknown_backend
    then_check refuse_if
        (not (p.level == [])
          && not (p.level == bytes "read-only")
          && not (p.level == bytes "read-write"))
        invalid_level
    then_check refuse_if
        (not (p.on_revoke == [])
          && not (p.on_revoke == bytes "keep")
          && not (p.on_revoke == bytes "drop"))
        invalid_on_revoke
    then_check refuse_if (negative p.max_bytes) negative_max_bytes
    then_check refuse_if (below_page p.max_bytes) max_bytes_below_page
    then_check refuse_if (p.has_vault && not (p.backend == []) && not (p.backend == bytes "vault"))
        vault_block_mismatch

unfoldable pub validate_enroll_grants : List (List ℕ × List ℕ) → Option ConfigError
validate_enroll_grants [] = none
validate_enroll_grants ((db, level) ∷ grants) =
    refuse_if (not (valid_db_name db)) invalid_grant_db
    then_check refuse_if (not (level == bytes "read-only") && not (level == bytes "read-write"))
        invalid_grant_level
    then_check validate_enroll_grants grants

unfoldable pub validate_enroll : Config → Option ConfigError
validate_enroll c =
    let e = c.enroll in
    if not e.enabled
    then none
    else refuse_if (not (auth_configured c)) no_explicit_auth
      then_check refuse_if (not c.control_plane) no_control_plane
      then_check refuse_if (not (e.policy == bytes "open") && not (e.policy == bytes "token"))
          invalid_policy
      then_check refuse_if
          (e.policy == bytes "token" && length e.tokens == 0 && not e.codes_enabled) no_token_source
      then_check refuse_if
          (negative e.max_principals
            || e.negative_rate
            || negative e.code_ttl
            || negative e.idle_ttl)
          negative_quota
      then_check validate_enroll_grants e.grants
      then_check (if e.provision.enabled then validate_provision e.provision else none)

unfoldable pub validate_methods : Config → Listener → List (List ℕ) → Option ConfigError
validate_methods c lc [] = none
validate_methods c lc (m ∷ ms) =
    refuse_if (not (member m listener_auth_methods)) unknown_listener_method
    then_check refuse_if (m == bytes "peercred" && not (lc.transport == bytes "unix"))
        peercred_not_unix
    then_check refuse_if (m == bytes "mtls" && lc.tls == []) mtls_without_tls
    then_check refuse_if (m == bytes "session" && not c.session_enabled) session_disabled
    then_check validate_methods c lc ms

unfoldable pub validate_listeners : Config → List Listener → Option ConfigError
validate_listeners c [] = none
validate_listeners c (lc ∷ lcs) = validate_methods c lc lc.auth then_check validate_listeners c lcs

abbrev pub among : List ℕ → List (List ℕ) → Bool
among name [] = false
among name (n ∷ ns) = n == name || among name ns

unfoldable pub validate_credentials : List (List (List ℕ)) → Option ConfigError
validate_credentials [] = none
validate_credentials ([] ∷ rest) = some not_one_method
validate_credentials ((m ∷ []) ∷ rest) =
    refuse_if (not (member m known_auth_methods)) unknown_method
    then_check validate_credentials rest
validate_credentials ((m ∷ n ∷ ms) ∷ rest) = some not_one_method

-- `seen` are the names before.
unfoldable pub validate_principals : List (List ℕ) → List PrincipalConfig → Option ConfigError
validate_principals seen [] = none
validate_principals seen (p ∷ ps) =
    refuse_if (p.name == []) empty_principal
    then_check refuse_if (has_prefix (bytes "u_") p.name) reserved_principal
    then_check refuse_if (among p.name seen) duplicate_principal
    then_check validate_credentials p.methods
    then_check validate_principals (p.name ∷ seen) ps

abbrev pub principal_names : List PrincipalConfig → List (List ℕ)
principal_names [] = []
principal_names (p ∷ ps) = p.name ∷ principal_names ps

unfoldable pub validate_grants : List (List ℕ) → List GrantConfig → Option ConfigError
validate_grants names [] = none
validate_grants names (g ∷ gs) =
    refuse_if (not (member g.level grant_levels)) unknown_level
    then_check refuse_if (not (g.subject == bytes "*") && not (among g.subject names))
        unknown_grantee
    then_check validate_grants names gs

unfoldable pub validate_databases : List (List ℕ) → List (List GrantConfig) → Option ConfigError
validate_databases names [] = none
validate_databases names (gs ∷ dbs) =
    validate_grants names gs then_check validate_databases names dbs

unfoldable pub validate_admins : List (List ℕ) → List (List ℕ) → Option ConfigError
validate_admins names [] = none
validate_admins names (a ∷ as') =
    refuse_if (not (among a names)) unknown_admin then_check validate_admins names as'

unfoldable pub validate_auth : Config → Option ConfigError
validate_auth c =
    let names = principal_names c.principals in
    validate_listeners c c.listeners
    then_check refuse_if (negative c.idle_ttl || negative c.max_ttl) negative_ttl
    then_check refuse_if (below c.max_ttl c.idle_ttl) max_below_idle
    then_check validate_enroll c
    then_check validate_principals [] c.principals
    then_check validate_databases names c.databases
    then_check refuse_if (c.control_plane && length c.admins == 0) no_admins
    then_check validate_admins names c.admins
