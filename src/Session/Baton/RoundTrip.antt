-- ===== src/Session/Baton/RoundTrip.antt =====
-- A minted baton verifies to what was signed, and nothing else verifies.
use quicsql.Prelude.{
  ℕ, ◌+◌, ◌<◌, ◌≡◌, refl, nat_eq, bytes_eq, List, ◌++◌, length, take, drop, none, some, All, arith,
  take_append, drop_append, length-append, All-append, Option-cases, inl, inr,
}
use quicsql.Encoding.BigEndian.{
  put_uint64, uint64, uint64-put_uint64, word, put_uint64-All, length-put_uint64,
}
use quicsql.Encoding.Base64
use quicsql.Session.Baton.{Mac, id_len, sum_size, payload, mint, verify_token, verify}

length-payload : (id : List ℕ) (gen : ℕ) → length id ≡ id_len → length (payload id gen) ≡ id_len + 8
unfolding payload
length-payload id gen h = omega (arith, h, length-append id (put_uint64 gen), length-put_uint64 gen)

-- The token that `mint` encodes passes the checks of `verify`.
verify_token_lem :
    (mac : Mac) (key id : List ℕ) (gen : ℕ)
    → length id ≡ id_len
    → gen < word
    → length (mac key (payload id gen)) ≡ sum_size
    → verify_token mac key (payload id gen ++ mac key (payload id gen)) ≡ some (id, gen)
unfolding verify_token
verify_token_lem mac key id gen hid hgen hsum =
    rw
      (
        take_append _ (payload id gen) (mac key (payload id gen)) (length-payload id gen hid),
        drop_append _ (payload id gen) (mac key (payload id gen)) (length-payload id gen hid),
        length-append (payload id gen) (mac key (payload id gen)),
        length-payload id gen hid,
        hsum,
        (bytes_eq.beq_iff (mac key (payload id gen)) _).1 refl,
      )
      (unfold payload in
        rw (
          take_append id_len id (put_uint64 gen) hid,
          drop_append id_len id (put_uint64 gen) hid,
          uint64-put_uint64 gen hgen,
        ))

-- The baton of a session verifies, under the key that signed it, to that session's identifier and
-- generation, for every 16-byte identifier and 64-bit generation, when the MAC gives 32 bytes.
pub verify-mint :
    (mac : Mac) (key id : List ℕ) (gen : ℕ)
    → ((k m : List ℕ) → length (mac k m) ≡ sum_size)
    → ((k m : List ℕ) → All (λ b. b < 256) (mac k m))
    → length id ≡ id_len
    → All (λ b. b < 256) id
    → gen < word
    → verify mac key (mint mac key id gen) ≡ some (id, gen)
unfolding verify mint
verify-mint mac key id gen sized bytes hid hbytes hgen =
    rw
      (
        verify,
        mint,
        Base64.decode-encode (payload id gen ++ mac key (payload id gen))
            (All-append _ (payload id gen) _ payload_bytes (bytes key (payload id gen))),
      )
      (verify_token_lem mac key id gen hid hgen (sized key (payload id gen)))
  where
    payload_bytes : All (λ b. b < 256) (payload id gen)
    payload_bytes = unfold payload in All-append _ id (put_uint64 gen) hbytes (put_uint64-All gen)

-- What an accepted baton decodes to.
pub record Signed (mac : Mac) (key baton id : List ℕ) (gen : ℕ) : Type 0 where
  pub token : List ℕ
  pub decoded : Base64.decode baton ≡ some token
  pub sized : length token ≡ id_len + 8 + sum_size
  pub signed : drop (id_len + 8) token ≡ mac key (take (id_len + 8) token)
  pub same_id : take id_len (take (id_len + 8) token) ≡ id
  pub same_gen : uint64 (drop id_len (take (id_len + 8) token)) ≡ gen

verify_token-Signed :
    (mac : Mac) (key tok id : List ℕ) (gen : ℕ)
    → verify_token mac key tok ≡ some (id, gen)
    → (length tok ≡ id_len + 8 + sum_size)
      × (drop (id_len + 8) tok ≡ mac key (take (id_len + 8) tok))
      × (take id_len (take (id_len + 8) tok) ≡ id)
      × (uint64 (drop id_len (take (id_len + 8) tok)) ≡ gen)
unfolding verify_token
verify_token-Signed mac key tok id gen h =
    ground (arith, bytes_eq.beq_iff (drop (id_len + 8) tok) (mac key (take (id_len + 8) tok)))

-- Every accepted baton decodes to 56 bytes of which the last 32 are the MAC of the first 24 under
-- the store's key, and the identifier and generation are read from those 24: nothing unsigned, cut
-- short or signed with another MAC is accepted.
pub verify-Signed :
    (mac : Mac) (key baton id : List ℕ) (gen : ℕ)
    → verify mac key baton ≡ some (id, gen)
    → Signed mac key baton id gen
verify-Signed mac key baton id gen h = elim (Option-cases (Base64.decode baton)) [
  | inl e ↦ absurd (refused e)
  | inr (tok, e) ↦
      let parts = verify_token-Signed mac key tok id gen (accepted tok e) in
      record {
        token = tok;
        decoded = e;
        sized = parts.0;
        signed = parts.1;
        same_id = parts.2;
        same_gen = parts.3;
      }
]
  where
    refused : Base64.decode baton ≡ none → ⊥
    refused e = unfold verify in ground arith

    accepted :
        (tok : List ℕ) → Base64.decode baton ≡ some tok → verify_token mac key tok ≡ some (id, gen)
    accepted tok e = unfold verify in ground arith
