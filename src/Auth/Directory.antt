-- ===== src/Auth/Directory.antt =====
-- auth/auth.go and methods.go: the credential directory. It is compiled from the configured
-- principals and the authorized_keys file, and it holds the keys enrolled at run time. Names, keys
-- and parameters are bytes; a parameter that is not set is empty.
pub mod Shadowing
use quicsql.Prelude.{
  ℕ, ◌^◌, Bool, true, false, ◌&&◌, ◌||◌, not, ◌==◌, nat_eq, bytes_eq, if◌then◌else◌, List, [], ◌∷◌,
  Option, none, some, String,
}
use quicsql.Prelude.Map.{Map, lookup, insert, delete}
use quicsql.Prelude.Result.{Result, ok, err}
use quicsql.Encoding.Strings.{bytes, trim_space, to_lower, parse_uint, has_prefix}

pub record KeyringCred : Type 0 where
  pub key : List ℕ
  pub name : List ℕ

pub record PasswordCred : Type 0 where
  pub hash : List ℕ
  pub name : List ℕ

-- The maps of the Authenticator.
pub record Directory : Type 0 where
  pub bearer : Map (List ℕ) (List ℕ)
  pub password : Map (List ℕ) PasswordCred
  pub mtls_cn : Map (List ℕ) (List ℕ)
  pub mtls_spki : Map (List ℕ) (List ℕ)
  pub keyring : Map (List ℕ) KeyringCred
  pub peercred : Map ℕ (List ℕ)
  pub dyn_keyring : Map (List ℕ) KeyringCred

-- What secret.Resolver's Bytes gives: a value, ErrMalformedRef or ErrUnknownSource, another error.
pub data Secret : Type 0 where
  value : List ℕ → Secret
  not_reference unreadable : Secret

-- golang.org/x/crypto/ssh: a parsed key line, with the ed25519 key if it is one.
pub record SshKey : Type 0 where
  pub ed25519 : Option (List ℕ)
  pub marshalled : List ℕ
  pub comment : List ℕ

pub record CanonicalKey : Type 0 where
  pub canon : List ℕ
  pub key : List ℕ
  pub comment : List ℕ

-- `none` is an unreadable reference.
unfoldable pub resolve : (List ℕ → Secret) → List ℕ → Option (List ℕ)
resolve sec v =
    if v == []
    then some []
    else elim (sec v) [ value b ↦ some (trim_space b) | not_reference ↦ some v | unreadable ↦ none ]

unfoldable pub parse_ed25519 : (List ℕ → Option SshKey) → List ℕ → Option CanonicalKey
parse_ed25519 ssh line = elim (ssh line) [
  | none ↦ none
  | some k ↦ elim k.ed25519 [
    | none ↦ none
    | some pub_key ↦
        some (record { canon = trim_space k.marshalled; key = pub_key; comment = k.comment })
  ]
]

pub data CompileError : Type 0 where
  unresolved missing bad_key unknown_method : CompileError

-- A parameter that has to be set, after its reference is resolved.
abbrev pub required : (List ℕ → Secret) → List ℕ → Result CompileError (List ℕ)
required sec v = elim (resolve sec v) [
  | none ↦ err unresolved
  | some h ↦ if h == [] then err missing else ok h
]

module _ (sec : List ℕ → Secret) (ssh : List ℕ → Option SshKey) where
  abbrev pub compile_bearer : Directory → (List ℕ → List ℕ) → List ℕ → Result CompileError Directory
  compile_bearer d p principal = elim (required sec (p (bytes "token_hash"))) [
    | err e ↦ err e
    | ok h ↦ ok (record d { bearer = insert (to_lower h) principal d.bearer })
  ]

  abbrev pub compile_password :
      Directory → (List ℕ → List ℕ) → List ℕ → Result CompileError Directory
  compile_password d p principal =
      if p (bytes "user") == []
      then err missing
      else elim (required sec (p (bytes "password_hash"))) [
        | err e ↦ err e
        | ok h ↦ ok (record d {
          password = insert (p (bytes "user")) (record { hash = h; name = principal }) d.password;
        })
      ]

  abbrev pub compile_mtls : Directory → (List ℕ → List ℕ) → List ℕ → Result CompileError Directory
  compile_mtls d p principal =
      let cn = p (bytes "subject_cn") in
      let spki = p (bytes "spki_sha256") in
      if cn == [] && spki == []
      then err missing
      else ok (record d {
        mtls_cn = if not (cn == []) then insert cn principal d.mtls_cn else d.mtls_cn;
        mtls_spki =
            if not (spki == []) then insert (to_lower spki) principal d.mtls_spki else d.mtls_spki;
      })

  abbrev pub compile_keyring :
      Directory → (List ℕ → List ℕ) → List ℕ → Result CompileError Directory
  compile_keyring d p principal = elim (required sec (p (bytes "ed25519"))) [
    | err e ↦ err e
    | ok line ↦ elim (parse_ed25519 ssh line) [
      | none ↦ err bad_key
      | some k ↦ ok (record d {
        keyring = insert k.canon (record { key = k.key; name = principal }) d.keyring;
      })
    ]
  ]

  abbrev pub compile_peercred :
      Directory → (List ℕ → List ℕ) → List ℕ → Result CompileError Directory
  compile_peercred d p principal = elim (parse_uint (2 ^ 32) (p (bytes "uid"))) [
    | none ↦ err missing
    | some uid ↦ ok (record d { peercred = insert uid principal d.peercred })
  ]

  unfoldable pub compile :
      Directory → List ℕ → (List ℕ → List ℕ) → List ℕ → Result CompileError Directory
  compile d method p principal =
      if method == bytes "bearer"
      then compile_bearer d p principal
      else if method == bytes "password"
      then compile_password d p principal
      else if method == bytes "mtls"
      then compile_mtls d p principal
      else if method == bytes "keyring"
      then compile_keyring d p principal
      else if method == bytes "peercred"
      then compile_peercred d p principal
      else err unknown_method

  unfoldable pub roster_line : Directory → List ℕ → Option Directory
  roster_line d line =
      if line == [] || has_prefix (b'#' ∷ []) line then some d else elim (parse_ed25519 ssh line) [
        | none ↦ none
        | some k ↦
            if k.comment == []
            then some d
            else some (record d {
              keyring = insert k.canon (record { key = k.key; name = k.comment }) d.keyring;
            })
      ]

  -- The lines of an authorized_keys file that ParseAuthorizedKeys accepted.
  unfoldable pub load_roster : Directory → List (List ℕ) → Option Directory
  load_roster d [] = some d
  load_roster d (line ∷ lines) = elim (roster_line d (trim_space line)) [
    | none ↦ none
    | some e ↦ load_roster e lines
  ]

-- Configured keys come first.
unfoldable pub lookup_keyring : Directory → List ℕ → Option KeyringCred
lookup_keyring d canon = elim (lookup canon d.keyring) [
  | some cred ↦ some cred
  | none ↦ lookup canon d.dyn_keyring
]

unfoldable pub add_keyring : Directory → List ℕ → List ℕ → List ℕ → Directory
add_keyring d canon pub_key name = elim (lookup canon d.keyring) [
  | some configured ↦ d
  | none ↦ record d {
    dyn_keyring = insert canon (record { key = pub_key; name = name }) d.dyn_keyring;
  }
]

unfoldable pub without_name : List ℕ → Map (List ℕ) KeyringCred → Map (List ℕ) KeyringCred
without_name name [] = []
without_name name ((canon, cred) ∷ m) =
    let rest = without_name name m in if cred.name == name then rest else (canon, cred) ∷ rest

unfoldable pub remove_keyring_name : Directory → List ℕ → Directory
remove_keyring_name d name = record d { dyn_keyring = without_name name d.dyn_keyring }

-- Whether a key was removed, and the directory after.
unfoldable pub remove_keyring_key : Directory → List ℕ → Directory × Bool
remove_keyring_key d canon = elim (lookup canon d.dyn_keyring) [
  | none ↦ (d, false)
  | some cred ↦ (record d { dyn_keyring = delete canon d.dyn_keyring }, true)
]
