-- ===== src/Registry/Opening.antt =====
-- The opener's section of Get: the backend gave a handle, or an error.
use quicsql.Prelude.{
  ℕ, ◌≡◌, ◌≢◌, refl, sym, subst, ◌∙◌, true, ◌==◌, string_eq, nat_eq, Option, none, some, arith,
  Bool-cases, inl, inr,
}
use quicsql.Prelude.Map.{
  Map, lookup, insert, delete, adjust, lookup-insert, lookup-delete, lookup-adjust, Distinct-insert,
  count-insert_none, lookup-adjust-cases,
}
use quicsql.Registry.{Backend, Db, Entry, Registry, spoiled, opened, finish_get}
use quicsql.Registry.Steps.{Unclosed, NewHandle}
use quicsql.Registry.Invariant.{Held, Inv, moved}

-- What the entry of an open in progress is.
abbrev Opening : Registry → ℕ → Entry → Type 0
Opening r p e = (lookup p r.heap ≡ some e) × (e.opening ≡ true)

-- An open in progress has no user yet.
Opening-free :
    (r : Registry) (p : ℕ) (e : Entry)
    → Inv r
    → Opening r p e
    → (t : ℕ) → lookup t r.tickets ≢ some p
Opening-free r p e v (at, opening) t h = ground (arith, (v.held t p h).at, (v.held t p h).ready)

failed-Inv :
    (r : Registry) (p : ℕ) (e : Entry)
    → Inv r
    → Opening r p e
    → Inv (record r { entries = delete e.name r.entries; heap = adjust p spoiled r.heap })
failed-Inv r p e v (at, opening) = record {
  distinct = v.distinct;
  named = λ name q h.
      let (e', at', called) =
        v.named name q (ground (arith, lookup-delete e.name name r.entries)) in
      elim (Bool-cases (p == q)) [
        | inl same ↦ absurd (
            ground (
              arith,
              nat_eq.beq_iff p q,
              lookup-delete e.name name r.entries,
              string_eq.beq_iff e.name name,
            ))
        | inr other ↦ (e', ground (arith, lookup-adjust p q spoiled r.heap), called)
      ];
  balanced = λ q f at' live. elim (lookup-adjust-cases p q spoiled r.heap f at') [
    | inl (same, w, back, f≡) ↦
        absurd (
          ground
            (arith, f≡, lookup-delete e.name f.name r.entries, string_eq.beq_iff e.name f.name))
    | inr (other, back) ↦
        v.balanced q f back (ground (arith, lookup-delete e.name f.name r.entries))
  ];
  pending = λ q f at' opening'. elim (lookup-adjust-cases p q spoiled r.heap f at') [
    | inl (same, w, back, f≡) ↦ absurd (ground (arith, f≡))
    | inr (other, back) ↦
        let (live, none_yet, plain) = v.pending q f back opening' in
        let (own, _, _) = v.pending p e at opening in
        (
          ground (
            arith,
            lookup-delete e.name f.name r.entries,
            string_eq.beq_iff e.name f.name,
            own,
            live,
            other,
          ),
          none_yet,
          plain,
        )
  ];
  settled = λ q f at' live quiet plain. elim (lookup-adjust-cases p q spoiled r.heap f at') [
    | inl (same, w, back, f≡) ↦
        absurd (
          ground
            (arith, f≡, lookup-delete e.name f.name r.entries, string_eq.beq_iff e.name f.name))
    | inr (other, back) ↦
        v.settled q f back (ground (arith, lookup-delete e.name f.name r.entries)) quiet plain
  ];
  held = λ t q h.
      let k = v.held t q h in
      let (own, _, _) = v.pending p e at opening in
      let other : p ≢ q = λ same. Opening-free r p e v (at, opening) t (ground (arith, same)) in
      moved r (record r { entries = delete e.name r.entries; heap = adjust p spoiled r.heap }) q k
        (ground (arith, k.at, lookup-adjust p q spoiled r.heap, nat_eq.beq_iff p q, other))
        (ground (
          arith,
          k.live,
          own,
          other,
          lookup-delete e.name k.entry.name r.entries,
          string_eq.beq_iff e.name k.entry.name,
        ))
        k.unclosed;
  apart = λ q q' f f' d d' at' at'' has has' same.
      elim (lookup-adjust-cases p q spoiled r.heap f at') [
        | inl (is, w, back, f≡) ↦ absurd (ground (arith, f≡, v.pending p e at opening))
        | inr (other, back) ↦ elim (lookup-adjust-cases p q' spoiled r.heap f' at'') [
          | inl (is, w, back', f≡) ↦ absurd (ground (arith, f≡, v.pending p e at opening))
          | inr (other', back') ↦ v.apart q q' f f' d d' back back' has has' same
        ]
      ];
}

opened-Held :
    (r : Registry) (p : ℕ) (e : Entry) (db : Db) (now : ℕ) (tickets : Map ℕ ℕ)
    → Inv r
    → Opening r p e
    → db.name ≡ e.name
    → Unclosed r db.handle
    → Held (record r { heap = adjust p (opened db now) r.heap; tickets = tickets }) p
opened-Held r p e db now tickets v (at, opening) called unclosed = record {
  entry = opened db now e;
  db = db;
  at = ground (arith, at, lookup-adjust p p (opened db now) r.heap, nat_eq.beq_iff p p);
  live = (v.pending p e at opening).0;
  has_db = refl;
  named = called;
  ready = refl;
  free = (v.pending p e at opening).2;
  unclosed = unclosed;
}

opened-Inv :
    (r : Registry) (p : ℕ) (e : Entry) (db : Db) (now ticket : ℕ)
    → Inv r
    → Opening r p e
    → db.name ≡ e.name
    → lookup ticket r.tickets ≡ none
    → NewHandle r (some db.handle)
    → Inv (record r { heap = adjust p (opened db now) r.heap; tickets = insert ticket p r.tickets })
opened-Inv r p e db now ticket v (at, opening) called new (unseen, unclosed) = record {
  distinct = Distinct-insert ticket p r.tickets v.distinct;
  named = λ name q h.
      let (f, at', called') = v.named name q h in
      elim (Bool-cases (p == q)) [
        | inl same ↦
            (opened db now f, ground (arith, lookup-adjust p q (opened db now) r.heap), called')
        | inr other ↦ (f, ground (arith, lookup-adjust p q (opened db now) r.heap), called')
      ];
  balanced = λ q f at' live. elim (lookup-adjust-cases p q (opened db now) r.heap f at') [
    | inl (same, w, back, f≡) ↦ ground (
      arith,
      same,
      f≡,
      v.balanced q w back,
      nat_eq.beq_iff p q,
      count-insert_none (λ (x : ℕ). x == q) ticket p r.tickets new,
    )
    | inr (other, back) ↦ ground (
      arith,
      v.balanced q f back live,
      nat_eq.beq_iff p q,
      other,
      count-insert_none (λ (x : ℕ). x == q) ticket p r.tickets new,
    )
  ];
  pending = λ q f at' opening'. elim (lookup-adjust-cases p q (opened db now) r.heap f at') [
    | inl (same, w, back, f≡) ↦ absurd (ground (arith, f≡))
    | inr (other, back) ↦ v.pending q f back opening'
  ];
  settled = λ q f at' live quiet plain.
      elim (lookup-adjust-cases p q (opened db now) r.heap f at') [
        | inl (same, w, back, f≡) ↦
            (db, ground (arith, f≡), ground (arith, f≡, same, back, at, called), unclosed)
        | inr (other, back) ↦ v.settled q f back live quiet plain
      ];
  held = λ t q h. elim (Bool-cases (ticket == t)) [
    | inl same ↦
        subst
          (λ (x : ℕ).
            Held
              (record r {
                heap = adjust p (opened db now) r.heap;
                tickets = insert ticket p r.tickets;
              })
              x)
          (ground (arith, lookup-insert ticket t p r.tickets))
          (opened-Held r p e db now (insert ticket p r.tickets) v (at, opening) called unclosed)
    | inr other ↦
        let there : lookup t r.tickets ≡ some q =
          ground (arith, lookup-insert ticket t p r.tickets) in
        let k = v.held t q there in
        let apart : p ≢ q = λ same. Opening-free r p e v (at, opening) t (ground (arith, same)) in
        moved r
          (record r { heap = adjust p (opened db now) r.heap; tickets = insert ticket p r.tickets })
          q k
          (ground
            (arith, k.at, lookup-adjust p q (opened db now) r.heap, nat_eq.beq_iff p q, apart))
          k.live k.unclosed
  ];
  apart = λ q q' f f' d d' at' at'' has has' same.
      elim (lookup-adjust-cases p q (opened db now) r.heap f at') [
        | inl (is, w, back, f≡) ↦ elim (lookup-adjust-cases p q' (opened db now) r.heap f' at'') [
          | inl (is', w', back', f≡') ↦ sym is ∙ is'
          | inr (other, back') ↦ absurd (unseen q' f' d' back' has' (ground (arith, f≡)))
        ]
        | inr (other, back) ↦ elim (lookup-adjust-cases p q' (opened db now) r.heap f' at'') [
          | inl (is', w', back', f≡') ↦ absurd (unseen q f d back has (ground (arith, f≡')))
          | inr (other', back') ↦ v.apart q q' f f' d d' back back' has has' same
        ]
      ];
}

pub finish_get-Inv :
    (r : Registry) (be : Backend) (p : ℕ) (e : Entry) (answer : Option ℕ) (now ticket : ℕ)
    → Inv r
    → lookup p r.heap ≡ some e
    → e.opening ≡ true
    → lookup ticket r.tickets ≡ none
    → NewHandle r answer
    → Inv (finish_get r e.name be p answer now ticket).0
unfolding finish_get
finish_get-Inv r be p e none now ticket v at opening new fresh = failed-Inv r p e v (at, opening)
finish_get-Inv r be p e (some h) now ticket v at opening new fresh =
    opened-Inv r p e
      (record { name = e.name; kind = be.kind; read_only = be.read_only; handle = h }) now ticket v
      (at, opening) refl new fresh
