-- ===== src/Registry/Using.antt =====
-- Get and its release: an entry that comes into use, and a user who leaves.
use quicsql.Prelude.{
  ℕ, ◌+◌, ◌≡◌, refl, sym, ap, subst, ◌∙◌, String, false, not, ◌==◌, string_eq, nat_eq,
  if◌then◌else◌, none, some, arith, Option-cases, Bool-cases, inl, inr, if_cases,
}
use quicsql.Prelude.Map.{
  Distinct, Map, lookup, insert, delete, adjust, count, lookup-insert, lookup-delete, lookup-adjust,
  Distinct-insert, Distinct-delete, count-insert_none, count-delete, lookup-adjust-cases,
}
use quicsql.Registry.{
  Entry, Registry, shared, points_to, join_entry, Joined, join, returned, release,
}
use quicsql.Registry.Invariant.{Held, Inv, users, moved}

-- An update of an entry that keeps what its users rely on.
abbrev pub Gentle : (Entry → Entry) → Type 0
Gentle f =
    (e : Entry)
    → ((f e).name ≡ e.name)
      × ((f e).db ≡ e.db)
      × ((f e).opening ≡ e.opening)
      × ((f e).reserved ≡ e.reserved)

abbrev pub touched : Registry → ℕ → (Entry → Entry) → Map ℕ ℕ → Registry
touched r p f tickets = record r { heap = adjust p f r.heap; tickets = tickets }

-- The users after the tickets changed: as before on another entry, and counted on this one.
abbrev pub Counted : Registry → ℕ → (Entry → Entry) → Map ℕ ℕ → Type 0
Counted r p f tickets =
    (q : ℕ) (e : Entry)
    → lookup q r.heap ≡ some e
    → e.refs ≡ users r q + (if e.opening then 1 else 0)
    → (if p == q then (f e).refs else e.refs)
      ≡ count (λ (x : ℕ). x == q) tickets + (if e.opening then 1 else 0)

touched-Held :
    (r : Registry) (p q : ℕ) (f : Entry → Entry) (tickets : Map ℕ ℕ)
    → Gentle f
    → Held r q
    → Held (touched r p f tickets) q
touched-Held r p q f tickets gentle k =
    let (name≡, db≡, opening≡, reserved≡) = gentle k.entry in
    elim (Bool-cases (p == q)) [
      | inr other ↦
          moved r (touched r p f tickets) q k (ground (arith, k.at, lookup-adjust p q f r.heap))
            k.live k.unclosed
      | inl same ↦ record {
        entry = f k.entry;
        db = k.db;
        at = ground (arith, k.at, lookup-adjust p q f r.heap);
        live = ap (λ (n : String). lookup n r.entries) name≡ ∙ k.live;
        has_db = db≡ ∙ k.has_db;
        named = k.named ∙ sym name≡;
        ready = opening≡ ∙ k.ready;
        free = reserved≡ ∙ k.free;
        unclosed = k.unclosed;
      }
    ]

touched-Inv :
    (r : Registry) (p : ℕ) (f : Entry → Entry) (tickets : Map ℕ ℕ)
    → Inv r
    → Gentle f
    → Distinct tickets
    → ((t q : ℕ) → lookup t tickets ≡ some q → Held r q)
    → Counted r p f tickets
    → Inv (touched r p f tickets)
touched-Inv r p f tickets v gentle distinct held counted = record {
  distinct = distinct;
  named = λ name q h.
      let (e, at, called) = v.named name q h in
      elim (Bool-cases (p == q)) [
        | inl same ↦ (f e, ground (arith, lookup-adjust p q f r.heap), (gentle e).0 ∙ called)
        | inr other ↦ (e, ground (arith, lookup-adjust p q f r.heap), called)
      ];
  balanced = λ q e at live. elim (lookup-adjust-cases p q f r.heap e at) [
    | inl (same, w, at', e≡) ↦
        ground (arith, counted q w at', v.balanced q w at', gentle w, e≡, nat_eq.beq_iff p q)
    | inr (other, at') ↦
        ground (arith, counted q e at', v.balanced q e at' live, nat_eq.beq_iff p q)
  ];
  pending = λ q e at opening. elim (lookup-adjust-cases p q f r.heap e at) [
    | inl (same, w, at', e≡) ↦
        let g = gentle w in
        let (live, none_yet, plain) = v.pending q w at' (ground arith) in
        (ground (arith, g, e≡), ground (arith, g, e≡), ground (arith, g, e≡))
    | inr (other, at') ↦ v.pending q e at' opening
  ];
  settled = λ q e at live quiet plain. elim (lookup-adjust-cases p q f r.heap e at) [
    | inl (same, w, at', e≡) ↦
        let g = gentle w in
        let (db, has, called, unclosed) =
          v.settled q w at' (ground (arith, g, e≡)) (ground (arith, g, e≡))
            (ground (arith, g, e≡)) in
        (db, ground (arith, g, e≡), ground (arith, g, e≡), unclosed)
    | inr (other, at') ↦ v.settled q e at' live quiet plain
  ];
  held = λ t q h. touched-Held r p q f tickets gentle (held t q h);
  apart = λ q q' e e' d d' at at' has has' same. elim (lookup-adjust-cases p q f r.heap e at) [
    | inl (is, w, back, e≡) ↦ elim (lookup-adjust-cases p q' f r.heap e' at') [
      | inl (is', w', back', e≡') ↦ sym is ∙ is'
      | inr (other, back') ↦
          v.apart q q' w e' d d' back back' (ground (arith, gentle w, e≡)) has' same
    ]
    | inr (other, back) ↦ elim (lookup-adjust-cases p q' f r.heap e' at') [
      | inl (is', w', back', e≡') ↦
          v.apart q q' e w' d d' back back' has (ground (arith, gentle w', e≡')) same
      | inr (other', back') ↦ v.apart q q' e e' d d' back back' has has' same
    ]
  ];
}

shared-Gentle : (now : ℕ) → Gentle (shared now)
shared-Gentle now e = (refl, refl, refl, refl)

returned-Gentle : (now : ℕ) → Gentle (returned now)
returned-Gentle now e = (refl, refl, refl, refl)

-- The entry that a waiter shares is live, ready and not reserved, so it has a handle.
live-Held :
    (r : Registry) (p : ℕ) (e : Entry)
    → Inv r
    → lookup p r.heap ≡ some e
    → lookup e.name r.entries ≡ some p
    → e.opening ≡ false
    → e.reserved ≡ false
    → Held r p
live-Held r p e v at live quiet plain =
    let (db, has, called, unclosed) = v.settled p e at live quiet plain in
    record {
      entry = e;
      db = db;
      at = at;
      live = live;
      has_db = has;
      named = called;
      ready = quiet;
      free = plain;
      unclosed = unclosed;
    }

join_entry-Inv :
    (r : Registry) (p : ℕ) (e : Entry) (now ticket : ℕ)
    → Inv r
    → lookup p r.heap ≡ some e
    → lookup e.name r.entries ≡ some p
    → e.opening ≡ false
    → lookup ticket r.tickets ≡ none
    → Inv (join_entry r p e now ticket).0
unfolding join_entry
join_entry-Inv r p e now ticket v at live quiet new =
    if_cases (λ (u : Registry × Joined). Inv u.0) e.failed (λ _. v)
      λ _.
        if_cases (λ (u : Registry × Joined). Inv u.0) e.reserved (λ _. v)
          λ plain.
            touched-Inv r p (shared now) (insert ticket p r.tickets) v (shared-Gentle now)
              (Distinct-insert ticket p r.tickets v.distinct)
              (λ t q h. elim (Bool-cases (ticket == t)) [
                | inl same ↦
                    subst (λ (x : ℕ). Held r x) (ground (arith, lookup-insert ticket t p r.tickets))
                      (live-Held r p e v at live quiet plain)
                | inr other ↦ v.held t q (ground (arith, lookup-insert ticket t p r.tickets))
              ])
              (λ q f at' balanced.
                ground
                  (arith, balanced, count-insert_none (λ (x : ℕ). x == q) ticket p r.tickets new))

pub join-Inv :
    (r : Registry) (name : String) (p : ℕ) (e : Entry) (now ticket : ℕ)
    → Inv r
    → lookup p r.heap ≡ some e
    → e.opening ≡ false
    → lookup ticket r.tickets ≡ none
    → Inv (join r name p now ticket).0
unfolding join
join-Inv r name p e now ticket v at quiet new =
    if_cases (λ (u : Registry × Joined). Inv u.0) (not (points_to (lookup name r.entries) p))
      (λ _. v)
      λ pointed. elim (Option-cases (lookup name r.entries)) [
        | inl gone ↦ absurd (ground arith)
        | inr (q, there) ↦
            let (e', at', called) = v.named name q there in
            rw at
              (join_entry-Inv r p e now ticket v at (ground (arith, nat_eq.beq_iff q p)) quiet new)
      ]

pub release-Inv : (r : Registry) (ticket now : ℕ) → Inv r → Inv (release r ticket now)
unfolding release
release-Inv r ticket now v = elim (Option-cases (lookup ticket r.tickets)) [
  | inl gone ↦ rw (release, gone) v
  | inr (p, there) ↦
      rw (release, there)
        (touched-Inv r p (returned now) (delete ticket r.tickets) v (returned-Gentle now)
          (Distinct-delete ticket r.tickets v.distinct)
          (λ t q h. v.held t q (ground (arith, lookup-delete ticket t r.tickets)))
          (λ q e at balanced. ground (
            arith,
            balanced,
            nat_eq.beq_iff p q,
            count-delete (λ (x : ℕ). x == q) ticket p r.tickets v.distinct there,
            (v.held ticket p there).ready,
          )))
]
