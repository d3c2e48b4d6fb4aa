-- ===== src/Enroll/Tests.antt =====
-- Enrolments on small examples: a single-use code, and a database that cannot be created. Digests
-- are their arguments, and the policy is a number that nothing changes.
use quicsql.Prelude.{
  ℕ, ◌≡◌, refl, true, false, List, [], ◌∷◌, none, some, nat_eq, bytes_eq, string_eq, ◌⊎◌, inr,
  arith,
}
use quicsql.Prelude.Int.{pos}
use quicsql.Prelude.Map.{delete, lookup, insert, adjust}
use quicsql.Encoding.Strings.{bytes, to_lower}
use quicsql.Encoding.Hex
use quicsql.Auth.Directory.{add_keyring}
use quicsql.Meta
use quicsql.Meta.{Store, Code, enrolled_by_key}
use quicsql.Enroll.Service.{
  Enroll, Policies, Digests, Service, Faults, registered, principal_name, register, validate_token,
  consumed, write_enrolled, granted_all, full, enroll, finish, rollback_enroll, delete_row, admit,
}
use quicsql.Enroll.Admission.{Opens}
use quicsql.Enroll.Gates.{register-registered}
use quicsql.Enroll.Rollback.{enroll-refused}
use quicsql.Enroll.Sync.{Synced}
use quicsql.Enroll.Sync.Counting.{Counted}
use quicsql.Enroll.Sync.Runs.{start, writing, removing, admitting, Counted-Runs}

abbrev toy_digests : Digests
toy_digests = record { sha256 = λ m. m; base32 = λ m. m }

abbrev toy_policies : Policies ℕ
toy_policies = record { grant = λ p db name level. p; revoke_principal = λ p name. p }

abbrev toy_enroll : Enroll
toy_enroll = record {
  by_token = true;
  tokens = [];
  codes_enabled = true;
  code_ttl = 100;
  max_principals = 2;
  grants = [];
  idle_ttl = 0;
  provision = true;
  provision_level = "read-write";
  drop_on_revoke = false;
}

abbrev no_faults : Faults
no_faults = record {
  find = false;
  check = false;
  consume = false;
  insert = false;
  confirm = false;
  delete = false;
  release = false;
  touch = false;
  scan = false;
}

-- The code "c", whose hash is "63", and nobody enrolled.
abbrev toy_service : Service ℕ
toy_service = record {
  store = record {
    enrolled = [];
    codes = (bytes "63", record { created_at = 0; expires_at = 100; used_at = none }) ∷ [];
  };
  directory = record {
    bearer = [];
    password = [];
    mtls_cn = [];
    mtls_spki = [];
    keyring = [];
    peercred = [];
    dyn_keyring = [];
  };
  policy = 0;
  count = pos 0;
  seen = [];
}

toy_service-Synced : Synced toy_service
unfolding enrolled_by_key lookup
toy_service-Synced = record {
  counted = refl;
  rows = tt;
  keys = tt;
  live = λ canon cred h. absurd (cc);
}

-- The service after the key "k" is registered.
abbrev enrolled_service : Service ℕ
enrolled_service = record {
  store = record {
    enrolled = (bytes "u_k", record { key = bytes "k"; created_at = 9; last_seen = none }) ∷ [];
    codes = (bytes "63", record { created_at = 0; expires_at = 100; used_at = some 9 }) ∷ [];
  };
  directory = record toy_service.directory {
    dyn_keyring = (bytes "k", record { key = 1 ∷ []; name = bytes "u_k" }) ∷ [];
  };
  policy = 0;
  count = pos 1;
  seen = [];
}

sample_register :
    register toy_digests toy_policies toy_enroll no_faults toy_service
      (bytes "k")
      (1 ∷ [])
      (bytes "c")
      9
    ≡ registered enrolled_service (bytes "u_k") (bytes "63")
unfolding register validate_token consumed write_enrolled granted_all principal_name to_lower
    enrolled_by_key add_keyring lookup insert adjust Hex.encode Hex.hex_digit Meta.enroll_code_valid
    Meta.consume_enroll_code Meta.put_enrolled
sample_register = refl

register-registered_example :
    (enrolled_by_key toy_service.store (bytes "k") ≡ none)
    × (full toy_digests toy_policies toy_enroll no_faults toy_service ≡ false)
    × Opens toy_digests toy_enroll toy_service.store (bytes "c") 9 (bytes "63")
    × (enrolled_by_key enrolled_service.store (bytes "k")
        ≡ some (principal_name toy_digests (bytes "k")))
    × ((bytes "63" ≡ []) ⊎ (Meta.enroll_code_valid enrolled_service.store (bytes "63") 10 ≡ false))
register-registered_example =
    register-registered toy_digests toy_policies toy_enroll no_faults toy_service enrolled_service
      (bytes "k") (1 ∷ []) (bytes "c") (bytes "u_k") (bytes "63") 9 10 sample_register

-- The row is removed between its writing and the admission of the key.
abbrev written_service : Service ℕ
written_service = record toy_service { store = enrolled_service.store }

abbrev orphaned_service : Service ℕ
orphaned_service = record written_service {
  store = record enrolled_service.store { enrolled = [] };
}

sample_removal :
    delete_row toy_digests toy_policies toy_enroll no_faults written_service (bytes "u_k") false
    ≡ (orphaned_service, some true)
unfolding delete_row Meta.delete_enrolled delete lookup
sample_removal = refl

abbrev late_service : Service ℕ
late_service =
    admit toy_digests toy_policies toy_enroll no_faults orphaned_service (bytes "k") (1 ∷ [])
      (bytes "u_k")

Counted-Runs_example : Counted toy_digests toy_policies toy_enroll late_service none 1
Counted-Runs_example =
    Counted-Runs toy_digests toy_policies toy_enroll toy_service late_service none 1
      (record { count = 0; counted = refl; balance = refl; capped = inr (omega arith); rows = tt })
      (admitting no_faults (bytes "k") (1 ∷ []) (bytes "u_k") (
        removing no_faults (bytes "u_k") false
          (writing no_faults (bytes "k") (1 ∷ []) (bytes "c") (bytes "u_k") (bytes "63") 9 start
            sample_register)
          sample_removal))

-- The service after the database could not be created.
abbrev undone_service : Service ℕ
undone_service =
    rollback_enroll toy_digests toy_policies toy_enroll no_faults enrolled_service (bytes "u_k")
      (bytes "63")

sample_enroll :
    enroll toy_digests toy_policies toy_enroll no_faults toy_service true true
      (some (bytes "k", 1 ∷ []))
      (bytes "c")
      "u_k"
      false
      9
    ≡ (undone_service, record { status = 500; principal = none })
unfolding enroll finish enrolled_by_key
sample_enroll = rw (enroll, sample_register) refl

enroll-refused_example :
    (undone_service.store.enrolled ≡ [])
    × (undone_service.count ≡ pos 0)
    × (undone_service.directory ≡ toy_service.directory)
    × ((code : List ℕ)
        → lookup code undone_service.store.codes ≡ lookup code toy_service.store.codes)
enroll-refused_example =
    enroll-refused toy_digests toy_policies toy_enroll no_faults toy_service undone_service
      (record { status = 500; principal = none }) true true (some (bytes "k", 1 ∷ [])) (bytes "c")
      "u_k" false 9 toy_service-Synced refl refl sample_enroll refl
