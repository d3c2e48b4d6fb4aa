-- ===== src/Auth/Challenge.antt =====
-- auth/challenge.go: the stateless challenges of the ed25519 method. Instants are nanoseconds.
use quicsql.Prelude.{
  ℕ, ◌+◌, ◌*◌, ◌^◌, ◌<◌, ◌≡◌, ap, ◌∙◌, Bool, false, not, ◌==◌, nat_eq, bytes_eq, leb, if◌then◌else◌,
  List, ◌++◌, length, take, drop, none, some, All, All-append, arith, length-append, take_append,
  take_whole, drop_append,
}
use quicsql.Prelude.Int.{ℤ, pos}
use quicsql.Encoding.BigEndian.{put_uint64, uint64, put_uint64-All, length-put_uint64}
use quicsql.Encoding.Base64
use quicsql.Session.Baton.{Mac, sum_size}
use quicsql.Auth.Token.{int64, of_int64}
use quicsql.Auth.Token.RoundTrip.{int64-of_int64}
use quicsql.Auth.Minter.{after}
use quicsql.Auth.Minter.Renewal.{IsMac}

abbrev pub challenge_ttl : ℕ
challenge_ttl = 60 * 1000000000

abbrev pub nonce_len : ℕ
nonce_len = 16

abbrev pub challenge_len : ℕ
challenge_len = nonce_len + 8 + sum_size

-- `nonce` is what the random source gave.
unfoldable pub mint : Mac → List ℕ → List ℕ → ℕ → List ℕ
mint mac key nonce now =
    let buf = nonce ++ put_uint64 (of_int64 (pos (now + challenge_ttl))) in
    Base64.encode (buf ++ mac key buf)

abbrev pub challenge_exp : List ℕ → ℤ
challenge_exp payload = int64 (uint64 (take 8 (drop nonce_len payload)))

unfoldable pub valid : Mac → List ℕ → List ℕ → ℕ → Bool
valid mac key s now = elim (Base64.decode s) [
  | none ↦ false
  | some tok ↦
      if not (length tok == challenge_len)
      then false
      else let payload = take (nonce_len + 8) tok in
        if not (drop (nonce_len + 8) tok == mac key payload)
        then false
        else not (after now (challenge_exp payload))
]

-- A challenge is accepted up to a minute after it was minted, and never later. The MAC gives 32
-- bytes, the nonce has 16, and the expiry is a 64-bit time.
pub valid-mint :
    (mac : Mac) (key nonce : List ℕ) (minted now : ℕ)
    → IsMac mac
    → length nonce ≡ nonce_len
    → All (λ b. b < 256) nonce
    → minted + challenge_ttl < 2 ^ 63
    → valid mac key (mint mac key nonce minted) now ≡ leb now (minted + challenge_ttl)
unfolding valid mint
valid-mint mac key nonce minted now good size bytes small =
    let stamp = put_uint64 (of_int64 (pos (minted + challenge_ttl))) in
    let buf = nonce ++ stamp in
    let long : length buf ≡ nonce_len + 8 = omega (
      arith,
      length-append nonce stamp,
      length-put_uint64 (of_int64 (pos (minted + challenge_ttl))),
      size,
    ) in
    let whole : length (buf ++ mac key buf) ≡ challenge_len =
      omega (arith, length-append buf (mac key buf), long, good.size key buf) in
    let head : take (nonce_len + 8) (buf ++ mac key buf) ≡ buf =
      take_append (nonce_len + 8) buf (mac key buf) long in
    let tail : drop (nonce_len + 8) (buf ++ mac key buf) ≡ mac key buf =
      drop_append (nonce_len + 8) buf (mac key buf) long in
    let exp : challenge_exp buf ≡ pos (minted + challenge_ttl) =
      ap (λ x. int64 (uint64 (take 8 x))) (drop_append nonce_len nonce stamp size)
      ∙ (ap (λ x. int64 (uint64 x)) (take_whole 8 stamp (length-put_uint64 _))
          ∙ int64-of_int64 (pos (minted + challenge_ttl)) (omega arith)) in
    let ok =
      Base64.decode-encode (buf ++ mac key buf)
        (All-append _ buf _ (All-append _ nonce _ bytes (put_uint64-All _)) (good.bytes key buf)) in
    rw (valid, mint, ok, whole, head, tail, exp)
      (ground (arith, bytes_eq.beq_iff (mac key buf) (mac key buf)))
