-- ===== src/Auth/Minter/Revocation.antt =====
-- What a revocation does to the tokens of a session.
use quicsql.Prelude.{
  ℕ, ◌≤◌, ◌≡◌, refl, sym, ap, subst, ◌+◌, ◌∙◌, Option, Option-cases, All, true, false, ◌==◌,
  if◌then◌else◌, bytes_eq, List, [], ◌∷◌, none, some, arith, Bool-cases, inl, inr, ◌⊎◌,
}
use mathlib.Core.Option.{some-injective}
use quicsql.Prelude.Int.{ℤ, pos, negsuc, int_eq}
use quicsql.Prelude.Map.{Map, lookup, insert, lookup-insert}
use quicsql.Encoding.Hex
use quicsql.Session.Baton.{Mac}
use quicsql.Auth.Token.{Parsed, SessClaims, parse}
use quicsql.Auth.Minter.{
  Minter, SessionStore, after, later_of, sweep, is_revoked, maybe_refresh, verify, revoke, mint,
  dropped_rows, marked, revoke_sids, revoke_one, revoke_account, revoke_by_credential,
}
use quicsql.Auth.Minter.Renewal.{IsMac, ◌≤ℤ◌, ≤ℤ_trans, after-≤ℤ, Renews, Renews-SameSession}

after-le : (t now : ℕ) (a : ℤ) → t ≤ now → after t a ≡ true → after now a ≡ true
after-le t now (pos a) h e = ground arith
after-le t now (negsuc a) h e = refl

≤ℤ_refl : (a : ℤ) → a ≤ℤ a
≤ℤ_refl (pos a) = omega arith
≤ℤ_refl (negsuc a) = omega arith

-- An entry whose deadline is still to come survives.
lookup-sweep :
    (now : ℕ) (id : List ℕ) (u : ℤ) (m : Map (List ℕ) ℤ)
    → lookup id m ≡ some u
    → after now u ≡ false
    → lookup id (sweep now m) ≡ some u
unfolding lookup sweep
lookup-sweep now id u [] h live = absurd (cc)
lookup-sweep now id u ((j, e) ∷ m) h live = elim (Bool-cases (j == id)) [
  | inl same ↦ ground (arith, bytes_eq.beq_iff j id)
  | inr other ↦ ground (arith, bytes_eq.beq_iff j id, lookup-sweep now id u m (ground arith) live)
]

-- The session is marked until the deadline, or the deadline has passed.
data Marked {D : Type 0} (id : List ℕ) (until : ℤ) (now : ℕ) (m : Minter D) : Type 0 where
  entry : (u : ℤ) → lookup id m.revoked ≡ some u → until ≤ℤ u → Marked id until now m
  passed : after now until ≡ true → Marked id until now m

-- None of the entries for the session has an earlier deadline.
abbrev pub NoEarlier : List ℕ → ℤ → Map (List ℕ) ℤ → Type 0
NoEarlier id until = All (λ e. e.0 ≡ id → until ≤ℤ e.1)

-- What the minter does after, as time goes on: mint sessions, and revoke one by its token or its
-- identifier, or all of an account or of a credential but for the acting one. A revocation under
-- the same identifier has no earlier deadline.
pub data Runs {D : Type 0} (mac : Mac) (db : SessionStore D) (id : List ℕ) (until : ℤ) (t : ℕ)
    (m : Minter D) : ℕ → Minter D → Type 0 where
  start : Runs mac db id until t m t m
  minting :
      {now : ℕ} {n : Minter D} (later : ℕ) (sid principal : List ℕ) (c : SessClaims)
      → Runs mac db id until t m now n
      → now ≤ later
      → Runs mac db id until t m later (mint mac db n sid principal c later).0
  revoking :
      {now : ℕ} {n n' : Minter D} (later : ℕ) (token : List ℕ) (q : Parsed)
      → Runs mac db id until t m now n
      → now ≤ later
      → parse mac n.key token ≡ some q
      → revoke mac db n token later ≡ some n'
      → (Hex.encode q.sid ≡ id → until ≤ℤ later_of q.exp q.hard_exp)
      → Runs mac db id until t m later n'
  revoking_one :
      {now : ℕ} {n : Minter D} (later : ℕ) (sid : List ℕ)
      → Runs mac db id until t m now n
      → now ≤ later
      → (sid ≡ id → until ≤ℤ pos (later + (n.idle_ttl + n.max_ttl)))
      → Runs mac db id until t m later (revoke_one mac db n sid later)
  revoking_account :
      {now : ℕ} {n n' : Minter D} (account kept : List ℕ)
      → Runs mac db id until t m now n
      → ((d : D) (sids : Map (List ℕ) ℤ)
          → db.by_account d account ≡ some sids
          → NoEarlier id until sids)
      → revoke_account mac db n account kept ≡ some n'
      → Runs mac db id until t m now n'
  revoking_credential :
      {now : ℕ} {n n' : Minter D} (cred_id : List ℕ)
      → Runs mac db id until t m now n
      → ((d : D) (sids : Map (List ℕ) ℤ)
          → db.by_credential d cred_id ≡ some sids
          → NoEarlier id until sids)
      → revoke_by_credential mac db n cred_id ≡ some n'
      → Runs mac db id until t m now n'
  waiting :
      {now : ℕ} {n : Minter D} (later : ℕ)
      → Runs mac db id until t m now n
      → now ≤ later
      → Runs mac db id until t m later n

revoke-revoked :
    {D : Type 0} (mac : Mac) (db : SessionStore D) (n n' : Minter D) (token : List ℕ) (q : Parsed)
    (now : ℕ)
    → parse mac n.key token ≡ some q
    → revoke mac db n token now ≡ some n'
    → (n'.key ≡ n.key)
      × (n'.revoked ≡ insert (Hex.encode q.sid) (later_of q.exp q.hard_exp) (sweep now n.revoked))
unfolding revoke
revoke-revoked mac db n n' token q now parsed e = elim (Bool-cases (after now q.exp)) [
  | inl dead ↦ absurd (ground arith)
  | inr live ↦
      let out : revoke mac db n token now
          ≡ some (record n {
            revoked = insert (Hex.encode q.sid) (later_of q.exp q.hard_exp) (sweep now n.revoked);
            store = dropped_rows mac db n.store (Hex.encode q.sid ∷ []);
          }) =
        rw (revoke, parsed, live) refl in
      let same = some-injective _ _ (sym e ∙ out) in
      (ap (λ x. x.key) same, ap (λ x. x.revoked) same)
]

Marked-revoke :
    {D : Type 0} (mac : Mac) (db : SessionStore D) (id : List ℕ) (until : ℤ) (now later : ℕ)
    (n n' : Minter D) (q : Parsed)
    → n'.revoked ≡ insert (Hex.encode q.sid) (later_of q.exp q.hard_exp) (sweep later n.revoked)
    → (Hex.encode q.sid ≡ id → until ≤ℤ later_of q.exp q.hard_exp)
    → now ≤ later
    → Marked id until now n
    → Marked id until later n'
Marked-revoke mac db id until now later n n' q e own h (passed p) =
    passed (after-le now later until h p)
Marked-revoke mac db id until now later n n' q e own h (entry u found le) =
    elim (Bool-cases (Hex.encode q.sid == id)) [
      | inl same ↦
          entry (later_of q.exp q.hard_exp)
            (ground (
              arith,
              e,
              lookup-insert (Hex.encode q.sid) id (later_of q.exp q.hard_exp)
                  (sweep later n.revoked),
            ))
            (own (ground (arith, bytes_eq.beq_iff (Hex.encode q.sid) id)))
      | inr other ↦ elim (Bool-cases (after later u)) [
        | inl late ↦ passed (after-≤ℤ later until u le late)
        | inr live ↦
            entry u
              (ground (
                arith,
                e,
                lookup-sweep later id u n.revoked found live,
                lookup-insert (Hex.encode q.sid) id (later_of q.exp q.hard_exp)
                    (sweep later n.revoked),
              ))
              le
      ]
    ]

-- One entry of a revocation, which the acting session is spared.
marked_one :
    (id kept sid : List ℕ) (until deadline : ℤ) (m : Map (List ℕ) ℤ) (u : ℤ)
    → (sid ≡ id → until ≤ℤ deadline)
    → lookup id m ≡ some u
    → until ≤ℤ u
    → (v : ℤ) × (lookup id (if sid == kept then m else insert sid deadline m) ≡ some v)
      × (until ≤ℤ v)
marked_one id kept sid until deadline m u own found le = elim (Bool-cases (sid == id)) [
  | inl same ↦ elim (Bool-cases (sid == kept)) [
    | inl acting ↦ (u, ground arith, le)
    | inr other ↦ (
      deadline,
      ground (arith, lookup-insert sid id deadline m),
      own (ground (arith, bytes_eq.beq_iff sid id)),
    )
  ]
  | inr apart ↦ (u, ground (arith, lookup-insert sid id deadline m), le)
]

marked-entry :
    (id kept : List ℕ) (until : ℤ) (sids m : Map (List ℕ) ℤ) (u : ℤ)
    → NoEarlier id until sids
    → lookup id m ≡ some u
    → until ≤ℤ u
    → (v : ℤ) × (lookup id (marked sids kept m) ≡ some v) × (until ≤ℤ v)
unfolding marked
marked-entry id kept until [] m u h found le = (u, found, le)
marked-entry id kept until ((sid, deadline) ∷ sids) m u h found le =
    let (v, there, later) = marked_one id kept sid until deadline m u h.0 found le in
    marked-entry id kept until sids _ v h.1 there later

-- A revocation of several sessions keeps a mark.
Marked-revoke_sids :
    {D : Type 0} (mac : Mac) (db : SessionStore D) (id kept : List ℕ) (until : ℤ) (now : ℕ)
    (n : Minter D) (sids : Map (List ℕ) ℤ)
    → NoEarlier id until sids
    → Marked id until now n
    → Marked id until now (revoke_sids mac db n sids kept)
unfolding revoke_sids
Marked-revoke_sids mac db id kept until now n sids h (passed p) = passed p
Marked-revoke_sids mac db id kept until now n sids h (entry u found le) =
    let (v, there, later) = marked-entry id kept until sids n.revoked u h found le in
    entry v there later

-- A revocation of all that the store lists leaves the minter as it was, or revokes what it lists.
listed-Marked :
    {D : Type 0} (mac : Mac) (db : SessionStore D) (id kept : List ℕ) (until : ℤ) (now : ℕ)
    (n n' : Minter D) (listed : D → Option (Map (List ℕ) ℤ))
    → ((d : D) (sids : Map (List ℕ) ℤ) → listed d ≡ some sids → NoEarlier id until sids)
    → ◌≡◌ {A = Option (Minter D)}
        (elim n.store [
          | none ↦ some n
          | some d ↦ elim (listed d) [
            | none ↦ none
            | some sids ↦ some (revoke_sids mac db n sids kept)
          ]
        ])
        (some n')
    → Marked id until now n
    → (n'.key ≡ n.key) × Marked id until now n'
unfolding revoke_sids
listed-Marked mac db id kept until now n n' listed h e mark = elim (Option-cases n.store) [
  | inl none_kept ↦
      let same : n ≡ n' = some-injective _ _ (ground arith) in
      (ap (λ x. x.key) (sym same), subst (Marked id until now) same mark)
  | inr (d, stored) ↦ elim (Option-cases (listed d)) [
    | inl failed ↦ absurd (ground arith)
    | inr (sids, found) ↦
        let same : revoke_sids mac db n sids kept ≡ n' = some-injective _ _ (ground arith) in
        (
          ap (λ x. x.key) (sym same),
          subst (Marked id until now) same
              (Marked-revoke_sids mac db id kept until now n sids (h d sids found) mark),
        )
  ]
]

Marked-later :
    {D : Type 0} (id : List ℕ) (until : ℤ) (now later : ℕ) (n : Minter D)
    → now ≤ later
    → Marked id until now n
    → Marked id until later n
Marked-later id until now later n h (entry u found le) = entry u found le
Marked-later id until now later n h (passed p) = passed (after-le now later until h p)

Runs-Marked :
    {D : Type 0} (mac : Mac) (db : SessionStore D) (id : List ℕ) (until : ℤ) (t : ℕ) (m : Minter D)
    (now : ℕ) (n : Minter D)
    → Marked id until t m
    → Runs mac db id until t m now n
    → (n.key ≡ m.key) × Marked id until now n
unfolding mint revoke_one revoke_sids revoke_account revoke_by_credential
Runs-Marked mac db id until t m now n k start = (refl, k)
Runs-Marked mac db id until t m now n k
      (minting {now = before} {n = old} later sid principal c r h) =
    let (same, mark) = Runs-Marked mac db id until t m before old k r in
    (
      same,
      elim mark [
        | entry u found le ↦ entry u found le
        | passed p ↦ passed (after-le before later until h p)
      ],
    )
Runs-Marked mac db id until t m now n k
      (revoking {now = before} {n = old} later token q r h parsed e own) =
    let (same, mark) = Runs-Marked mac db id until t m before old k r in
    let (key, marks) = revoke-revoked mac db old n token q later parsed e in
    (key ∙ same, Marked-revoke mac db id until before later old n q marks own h mark)
Runs-Marked mac db id until t m now n k (revoking_one {now = before} {n = old} later sid r h own) =
    let (same, mark) = Runs-Marked mac db id until t m before old k r in
    (
      same,
      Marked-revoke_sids mac db id [] until later old _ (own, tt)
          (Marked-later id until before later old h mark),
    )
Runs-Marked mac db id until t m now n k (revoking_account {n = old} account kept r own e) =
    let (same, mark) = Runs-Marked mac db id until t m now old k r in
    let (key, still) =
      listed-Marked mac db id kept until now old n (λ d. db.by_account d account) own e mark in
    (key ∙ same, still)
Runs-Marked mac db id until t m now n k (revoking_credential {n = old} cred_id r own e) =
    let (same, mark) = Runs-Marked mac db id until t m now old k r in
    let (key, still) =
      listed-Marked mac db id [] until now old n (λ d. db.by_credential d cred_id) own e mark in
    (key ∙ same, still)
Runs-Marked mac db id until t m now n k (waiting {now = before} later r h) =
    let (same, mark) = Runs-Marked mac db id until t m before n k r in
    (same, Marked-later id until before later n h mark)

Marked-dead :
    {D : Type 0} (mac : Mac) (q : Parsed) (id : List ℕ) (until : ℤ) (now : ℕ) (n : Minter D)
    → id ≡ Hex.encode q.sid
    → q.exp ≤ℤ until
    → Marked id until now n
    → (after now q.exp ≡ true) ⊎ (is_revoked mac n q.sid now ≡ true)
unfolding is_revoked
Marked-dead mac q id until now n same le (passed p) = inl (after-≤ℤ now q.exp until le p)
Marked-dead mac q id until now n same le (entry u found h) = elim (Bool-cases (after now u)) [
  | inl late ↦ inl (after-≤ℤ now q.exp u (≤ℤ_trans q.exp until u le h) late)
  | inr live ↦ inr (rw (is_revoked, ← same, found, live) refl)
]

pub revoke-verify :
    {D : Type 0} (mac : Mac) (db : SessionStore D) (m m' n : Minter D) (token descendant : List ℕ)
    (p : Parsed) (t now : ℕ)
    → IsMac mac
    → parse mac m.key token ≡ some p
    → revoke mac db m token t ≡ some m'
    → Runs mac db (Hex.encode p.sid) (later_of p.exp p.hard_exp) t m' now n
    → Renews D mac m.key token descendant
    → (verify mac n descendant now ≡ none) × (maybe_refresh mac n descendant now ≡ none)
unfolding verify maybe_refresh
revoke-verify mac db m m' n token descendant p t now good parsed e runs r =
    let (key, marks) = revoke-revoked mac db m m' token p t parsed e in
    let first : Marked (Hex.encode p.sid) (later_of p.exp p.hard_exp) t m' =
      entry (later_of p.exp p.hard_exp)
        (ground (
          arith,
          marks,
          bytes_eq.beq_iff (Hex.encode p.sid) (Hex.encode p.sid),
          lookup-insert (Hex.encode p.sid) (Hex.encode p.sid) (later_of p.exp p.hard_exp)
              (sweep t m.revoked),
        ))
        (≤ℤ_refl _) in
    let (same, mark) = Runs-Marked mac db _ _ t m' now n first runs in
    let (q, found, s) = Renews-SameSession mac m.key token descendant p good parsed r in
    let parsed_later = ap (λ x. parse mac x descendant) (same ∙ key) ∙ found in
    elim (Marked-dead mac q (Hex.encode p.sid) _ now n (ap Hex.encode (sym s.sid)) s.bounded mark) [
      | inl late ↦ (ground (arith, parsed_later, late), ground (arith, parsed_later, late))
      | inr gone ↦ (ground (arith, parsed_later, gone), ground (arith, parsed_later, gone))
    ]
