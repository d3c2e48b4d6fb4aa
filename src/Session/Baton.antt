-- ===== src/Session/Baton.antt =====
-- session/session.go, mint and verify. The MAC (HMAC-SHA-256 of Go's library) is a function of a
-- key and a message; what is used of it is that a sum has 32 bytes. Texts are lists of bytes.
pub mod RoundTrip
use quicsql.Prelude.{
  ℕ, ◌+◌, ◌≡◌, Bool, ◌==◌, nat_eq, bytes_eq, if◌then◌else◌, List, ◌++◌, length, take, drop, Option,
  none, some, not, ◌&&◌, [], ◌∷◌,
}
use quicsql.Encoding.BigEndian.{put_uint64, uint64}
use quicsql.Encoding.Base64

abbrev pub id_len : ℕ
id_len = 16

abbrev pub sum_size : ℕ
sum_size = 32

abbrev pub Mac : Type 0
Mac = List ℕ → List ℕ → List ℕ

unfoldable pub payload : List ℕ → ℕ → List ℕ
payload id gen = id ++ put_uint64 gen

-- An HMAC-signed baton over (id, generation).
unfoldable pub mint : Mac → List ℕ → List ℕ → ℕ → List ℕ
unfolding payload
mint mac key id gen = let p = payload id gen in Base64.encode (p ++ mac key p)

-- The decoded token, cut into what is signed and the signature.
unfoldable pub verify_token : Mac → List ℕ → List ℕ → Option (List ℕ × ℕ)
verify_token mac key tok =
    if not (length tok == id_len + 8 + sum_size)
    then none
    else let signed = take (id_len + 8) tok in
      if not (drop (id_len + 8) tok == mac key signed)
      then none
      else some (take id_len signed, uint64 (drop id_len signed))

-- `none` is ErrBadBaton.
unfoldable pub verify : Mac → List ℕ → List ℕ → Option (List ℕ × ℕ)
unfolding verify_token
verify mac key baton = elim (Base64.decode baton) [
  | none ↦ none
  | some tok ↦ verify_token mac key tok
]
