-- ===== src/Config/Names.antt =====
-- config/load.go: the names of databases and the vocabularies.
use quicsql.Prelude.{
  ℕ, String, Bool, true, false, ◌&&◌, ◌||◌, ◌==◌, nat_eq, bytes_eq, leb, if◌then◌else◌, List, [],
  ◌∷◌,
}
use quicsql.Encoding.Strings.{bytes, has_prefix}

abbrev pub member : List ℕ → List String → Bool
member s [] = false
member s (w ∷ ws) = s == bytes w || member s ws

abbrev pub reserved : List String
reserved = "_server" ∷ "_meta" ∷ "_admin" ∷ "_auth" ∷ "_health" ∷ "_metrics" ∷ []

abbrev pub endpoint_tokens : List String
endpoint_tokens =
    "query" ∷ "v2" ∷ "v3" ∷ "export" ∷ "backup" ∷ "changeset" ∷ "blob" ∷ "changes" ∷ []

abbrev pub known_backends : List String
known_backends = "file" ∷ "memory" ∷ "memory-shared" ∷ "mvcc" ∷ "memdb" ∷ "vault" ∷ []

abbrev pub listener_auth_methods : List String
listener_auth_methods =
    "none" ∷ "peercred" ∷ "bearer" ∷ "password" ∷ "mtls" ∷ "keyring" ∷ "session" ∷ []

abbrev pub known_auth_methods : List String
known_auth_methods = "peercred" ∷ "bearer" ∷ "password" ∷ "mtls" ∷ "keyring" ∷ []

abbrev pub grant_levels : List String
grant_levels = "none" ∷ "read-only" ∷ "read-write" ∷ "admin" ∷ []

abbrev pub is_name_char : ℕ → Bool
is_name_char c =
    leb b'a' c && leb c b'z'
    || leb b'A' c && leb c b'Z'
    || leb b'0' c && leb c b'9'
    || c == b'-'
    || c == b'.'
    || c == b'_'

abbrev pub all_name_chars : List ℕ → Bool
all_name_chars [] = true
all_name_chars (c ∷ s) = is_name_char c && all_name_chars s

unfoldable pub valid_db_name : List ℕ → Bool
valid_db_name s =
    if s == [] || s == bytes "." || s == bytes ".."
    then false
    else if has_prefix (bytes "_") s || member s reserved
    then false
    else if member s endpoint_tokens
    then false
    else all_name_chars s
