-- ===== src/Config/Tests.antt =====
-- A small configuration with enrolment. Digests are their arguments.
use quicsql.Prelude.{◌≡◌, List, refl, true, false, [], ◌∷◌, none}
use quicsql.Prelude.Int.{pos}
use quicsql.Encoding.Strings.{bytes, has_prefix}
use quicsql.Enroll.Service.{Digests, principal_name}
use quicsql.Config.Names.{valid_db_name}
use quicsql.Config.Auth.{
  Config, ProvisionConfig, EnrollConfig, among, principal_names, any_grants, auth_configured,
  validate_auth, validate_principals, validate_grants, validate_databases, validate_admins,
  validate_credentials, validate_listeners, validate_methods, validate_enroll,
  validate_enroll_grants, validate_provision,
}
use quicsql.Config.Wiring.{
  Endpoint, TlsProfile, validate_transports, validate_endpoints, validate_wire, validate_profiles,
}
use quicsql.Config.Binding.{bind_keys, repeats, validate_transports-repeats}
use quicsql.Config.Sound.{granted, validate_auth-principal_name}

abbrev toy_digests : Digests
toy_digests = record { sha256 = λ m. m; base32 = λ m. m }

abbrev sample_provision : ProvisionConfig
sample_provision = record {
  enabled = true;
  name_template = bytes "{principal}";
  backend = bytes "vault";
  has_vault = true;
  level = bytes "read-write";
  max_bytes = pos 4096;
  on_revoke = bytes "drop";
}

abbrev sample_enroll : EnrollConfig
sample_enroll = record {
  enabled = true;
  policy = bytes "token";
  tokens = bytes "t" ∷ [];
  codes_enabled = false;
  max_principals = pos 10;
  negative_rate = false;
  code_ttl = pos 0;
  idle_ttl = pos 0;
  grants = (bytes "app", bytes "read-only") ∷ [];
  provision = sample_provision;
}

abbrev sample_config : Config
sample_config = record {
  listeners =
      record {
        transport = bytes "unix";
        tls = [];
        auth = (bytes "peercred" ∷ bytes "keyring" ∷ []);
      }
      ∷ [];
  session_enabled = false;
  idle_ttl = pos 0;
  max_ttl = pos 0;
  enroll = sample_enroll;
  principals = record { name = bytes "ann"; methods = ((bytes "keyring" ∷ []) ∷ []) } ∷ [];
  databases =
      (record { subject = bytes "ann"; level = bytes "admin" }
        ∷ record { subject = bytes "*"; level = bytes "read-only" }
        ∷ [])
      ∷ [];
  control_plane = true;
  admins = bytes "ann" ∷ [];
}

sample_config-valid : validate_auth sample_config ≡ none
unfolding has_prefix valid_db_name any_grants auth_configured validate_auth validate_principals
    validate_grants validate_databases validate_admins validate_credentials validate_listeners
    validate_methods validate_enroll validate_enroll_grants validate_provision
sample_config-valid = refl

validate_auth-principal_name_example :
    (among (principal_name toy_digests (bytes "k")) (principal_names sample_config.principals)
      ≡ false)
    × (among (principal_name toy_digests (bytes "k")) sample_config.admins ≡ false)
    × (granted (principal_name toy_digests (bytes "k")) sample_config.databases ≡ false)
validate_auth-principal_name_example =
    validate_auth-principal_name sample_config toy_digests (bytes "k") sample_config-valid

abbrev sample_profile : TlsProfile
sample_profile = record {
  name = bytes "p";
  mode = bytes "self_signed";
  subdomain = [];
  cert = [];
  key = [];
  min_version = bytes "1.3";
}

-- One port over TCP and over UDP.
abbrev sample_endpoints : List Endpoint
sample_endpoints =
    record { transport = bytes "h2"; address = bytes ":443"; tls = bytes "p"; advertise = false }
    ∷ record { transport = bytes "h3"; address = bytes ":443"; tls = bytes "p"; advertise = true }
    ∷ []

sample_endpoints-valid : validate_transports sample_endpoints (sample_profile ∷ []) ≡ none
unfolding validate_transports validate_endpoints validate_wire validate_profiles
sample_endpoints-valid = refl

validate_transports-repeats_example : repeats (bind_keys sample_endpoints) ≡ false
validate_transports-repeats_example =
    validate_transports-repeats sample_endpoints (sample_profile ∷ []) sample_endpoints-valid
