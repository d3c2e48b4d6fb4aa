-- ===== src/Config/Wiring.antt =====
-- config/load.go: ValidateDatabase, validateVault and validateTransports. An error is a constructor
-- for each return of the source, and `none` is nil.
use quicsql.Prelude.{
  ℕ, String, Bool, true, false, ◌&&◌, ◌||◌, not, ◌==◌, nat_eq, bytes_eq, leb, if◌then◌else◌, List,
  [], ◌∷◌, ◌++◌, Option, none, some, length,
}
use quicsql.Encoding.Strings.{bytes}
use quicsql.Config.Names.{member, known_backends, valid_db_name}

pub data WiringError : Type 0 where
  empty_database_name invalid_database_name missing_backend unknown_backend invalid_mode
        invalid_tx_lock :
      WiringError
  invalid_preset vault_block_mismatch invalid_compression invalid_cipher invalid_anchor
        key_and_identities :
      WiringError
  missing_transport unknown_transport tls_required unknown_profile advertise_not_h3 both_bind :
      WiringError
  invalid_zone files_incomplete missing_mode unknown_mode invalid_min_version : WiringError

pub record Vault : Type 0 where
  pub compression : List ℕ
  pub cipher : List ℕ
  pub key : List ℕ
  pub identities : List (List ℕ)
  pub anchor_type : Option (List ℕ)

pub record Database : Type 0 where
  pub name : List ℕ
  pub backend : List ℕ
  pub mode : List ℕ
  pub tx_lock : List ℕ
  pub pragmas_preset : List ℕ
  pub vault : Option Vault

pub record Endpoint : Type 0 where
  pub transport : List ℕ
  pub address : List ℕ
  pub tls : List ℕ
  pub advertise : Bool

pub record TlsProfile : Type 0 where
  pub name : List ℕ
  pub mode : List ℕ
  pub subdomain : List ℕ
  pub cert : List ℕ
  pub key : List ℕ
  pub min_version : List ℕ

infixr 4 ◌then_check◌
abbrev pub ◌then_check◌ : Option WiringError → Option WiringError → Option WiringError
none then_check e = e
some e then_check f = some e

abbrev pub refuse_if : Bool → WiringError → Option WiringError
refuse_if bad e = if bad then some e else none

abbrev vault_compression : List String
vault_compression = "" ∷ "none" ∷ "fastest" ∷ "fast" ∷ "default" ∷ "better" ∷ "best" ∷ []

abbrev vault_ciphers : List String
vault_ciphers = "" ∷ "adiantum" ∷ "aes-xts" ∷ []

abbrev vault_anchors : List String
vault_anchors = "" ∷ "file" ∷ "tpm" ∷ "kms" ∷ []

abbrev known_anchor : Option (List ℕ) → Bool
known_anchor none = true
known_anchor (some type) = member type vault_anchors

unfoldable pub validate_vault : Database → Option WiringError
validate_vault db = elim db.vault [
  | none ↦ none
  | some vc ↦
      refuse_if (not (db.backend == bytes "vault")) vault_block_mismatch
      then_check refuse_if (not (member vc.compression vault_compression)) invalid_compression
      then_check refuse_if (not (member vc.cipher vault_ciphers)) invalid_cipher
      then_check refuse_if (not (known_anchor vc.anchor_type)) invalid_anchor
      then_check refuse_if (not (vc.key == []) && not (length vc.identities == 0))
          key_and_identities
]

unfoldable pub validate_database : Database → Option WiringError
validate_database db =
    refuse_if (db.name == []) empty_database_name
    then_check refuse_if (not (valid_db_name db.name)) invalid_database_name
    then_check refuse_if (db.backend == []) missing_backend
    then_check refuse_if (not (member db.backend known_backends)) unknown_backend
    then_check refuse_if (not (member db.mode ("" ∷ "rw" ∷ "ro" ∷ "rwc" ∷ []))) invalid_mode
    then_check refuse_if
        (not (member db.tx_lock ("" ∷ "deferred" ∷ "immediate" ∷ "exclusive" ∷ []))) invalid_tx_lock
    then_check refuse_if (not (member db.pragmas_preset ("" ∷ "recommended" ∷ []))) invalid_preset
    then_check validate_vault db

abbrev pub transport_family : List ℕ → List ℕ
transport_family transport =
    if transport == bytes "h3"
    then bytes "udp"
    else if transport == bytes "unix"
    then bytes "unix"
    else bytes "tcp"

abbrev pub bind_key : Endpoint → List ℕ
bind_key lc = transport_family lc.transport ++ (0 ∷ lc.address)

abbrev pub has_profile : List ℕ → List TlsProfile → Bool
has_profile name [] = false
has_profile name (p ∷ ps) = p.name == name || has_profile name ps

abbrev pub taken : List ℕ → List (List ℕ) → Bool
taken k [] = false
taken k (x ∷ xs) = x == k || taken k xs

-- The checks of one listener before its address.
unfoldable pub validate_wire : List TlsProfile → Endpoint → Option WiringError
validate_wire profiles lc =
    refuse_if (lc.transport == []) missing_transport
    then_check refuse_if (not (member lc.transport ("h1" ∷ "h2" ∷ "h2c" ∷ "h3" ∷ "unix" ∷ [])))
        unknown_transport
    then_check refuse_if
        ((lc.transport == bytes "h2" || lc.transport == bytes "h3") && lc.tls == []) tls_required
    then_check refuse_if (not (lc.tls == []) && not (has_profile lc.tls profiles)) unknown_profile
    then_check refuse_if (lc.advertise && not (lc.transport == bytes "h3")) advertise_not_h3

-- `bound` are the keys of the addresses before.
unfoldable pub validate_endpoints :
    List TlsProfile → List (List ℕ) → List Endpoint → Option WiringError
validate_endpoints profiles bound [] = none
validate_endpoints profiles bound (lc ∷ lcs) =
    let none_bound = validate_endpoints profiles bound lcs in
    let one_bound = validate_endpoints profiles (bind_key lc ∷ bound) lcs in
    validate_wire profiles lc
    then_check (if lc.address == []
        then none_bound
        else refuse_if (taken (bind_key lc) bound) both_bind then_check one_bound)

abbrev is_zone_char : ℕ → Bool
is_zone_char c =
    leb b'a' c && leb c b'z'
    || leb b'A' c && leb c b'Z'
    || leb b'0' c && leb c b'9'
    || c == b'.'
    || c == b'-'

abbrev pub valid_qip_zone : List ℕ → Bool
valid_qip_zone [] = true
valid_qip_zone (c ∷ zone) = is_zone_char c && valid_qip_zone zone

abbrev pub validate_mode : TlsProfile → Option WiringError
validate_mode p =
    if p.mode == bytes "self_signed"
    then none
    else if p.mode == bytes "qip"
    then refuse_if (not (valid_qip_zone p.subdomain)) invalid_zone
    else if p.mode == bytes "files"
    then refuse_if (p.cert == [] || p.key == []) files_incomplete
    else if p.mode == []
    then some missing_mode
    else some unknown_mode

unfoldable pub validate_profiles : List TlsProfile → Option WiringError
validate_profiles [] = none
validate_profiles (p ∷ ps) =
    validate_mode p
    then_check refuse_if (not (member p.min_version ("" ∷ "1.2" ∷ "1.3" ∷ []))) invalid_min_version
    then_check validate_profiles ps

unfoldable pub validate_transports : List Endpoint → List TlsProfile → Option WiringError
validate_transports lcs profiles =
    validate_endpoints profiles [] lcs then_check validate_profiles profiles
