-- ===== src/Registry/Invariant.antt =====
-- What every step of the registry keeps: the users of an entry are counted, and an entry in use is
-- the one under its name, with a handle that was not detached.
use quicsql.Prelude.{
  ℕ, ◌+◌, ◌<◌, ◌≡◌, ◌≢◌, String, true, false, ◌==◌, string_eq, nat_eq, if◌then◌else◌, none, some,
  arith, Bool-cases, inl, inr, not,
}
use quicsql.Prelude.Map.{lookup, insert, count, Distinct, lookup-insert, count-delete, count-none}
use quicsql.Registry.{Db, Entry, Registry}
use quicsql.Registry.Steps.{Unclosed}

-- The release functions of an entry that were not called yet.
abbrev pub users : Registry → ℕ → ℕ
users r p = count (λ (q : ℕ). q == p) r.tickets

pub record Held (r : Registry) (p : ℕ) : Type 0 where
  pub entry : Entry
  pub db : Db
  pub at : lookup p r.heap ≡ some entry
  pub live : lookup entry.name r.entries ≡ some p
  pub has_db : entry.db ≡ some db
  pub named : db.name ≡ entry.name
  pub ready : entry.opening ≡ false
  pub free : entry.reserved ≡ false
  pub unclosed : Unclosed r db.handle

pub record Inv (r : Registry) : Type 0 where
  pub distinct : Distinct r.tickets
  pub named :
      (name : String) (p : ℕ)
      → lookup name r.entries ≡ some p
      → (e : Entry) × (lookup p r.heap ≡ some e) × (e.name ≡ name)
  pub balanced :
      (p : ℕ) (e : Entry)
      → lookup p r.heap ≡ some e
      → lookup e.name r.entries ≡ some p
      → e.refs ≡ users r p + (if e.opening then 1 else 0)
  pub pending :
      (p : ℕ) (e : Entry)
      → lookup p r.heap ≡ some e
      → e.opening ≡ true
      → (lookup e.name r.entries ≡ some p) × (e.db ≡ none) × (e.reserved ≡ false)
  pub settled :
      (p : ℕ) (e : Entry)
      → lookup p r.heap ≡ some e
      → lookup e.name r.entries ≡ some p
      → e.opening ≡ false
      → e.reserved ≡ false
      → (db : Db) × (e.db ≡ some db) × (db.name ≡ e.name) × Unclosed r db.handle
  pub held : (t p : ℕ) → lookup t r.tickets ≡ some p → Held r p
  pub apart :
      (p q : ℕ) (e f : Entry) (d d' : Db)
      → lookup p r.heap ≡ some e
      → lookup q r.heap ≡ some f
      → e.db ≡ some d
      → f.db ≡ some d'
      → d.handle ≡ d'.handle
      → p ≡ q

unused :
    (r : Registry) (p : ℕ)
    → Distinct r.tickets
    → ((t : ℕ) → lookup t r.tickets ≢ some p)
    → users r p ≡ 0
unused r p d h =
    count-none (λ (q : ℕ). q == p) r.tickets d
      λ t q e. elim (Bool-cases (q == p)) [
        | inl same ↦ absurd (h t (ground (arith, nat_eq.beq_iff q p)))
        | inr other ↦ other
      ]

-- A ticket counts.
pub used :
    (r : Registry) (t p : ℕ) → Distinct r.tickets → lookup t r.tickets ≡ some p → 0 < users r p
used r t p d h =
    ground (arith, count-delete (λ (q : ℕ). q == p) t p r.tickets d h, nat_eq.beq_iff p p)

-- An entry that a step leaves as it was stays in use.
pub moved :
    (r u : Registry) (p : ℕ) (k : Held r p)
    → lookup p u.heap ≡ some k.entry
    → lookup k.entry.name u.entries ≡ some p
    → Unclosed u k.db.handle
    → Held u p
moved r u p k at live unclosed = record {
  entry = k.entry;
  db = k.db;
  at = at;
  live = live;
  has_db = k.has_db;
  named = k.named;
  ready = k.ready;
  free = k.free;
  unclosed = unclosed;
}

-- An entry that is put under a name that has none.
abbrev pub placed : Registry → String → ℕ → Entry → Registry
placed r name p e = record r { entries = insert name p r.entries; heap = insert p e r.heap }

pub placed-Inv :
    (r : Registry) (p : ℕ) (new : Entry)
    → Inv r
    → lookup new.name r.entries ≡ none
    → lookup p r.heap ≡ none
    → new.db ≡ none
    → new.reserved ≡ not new.opening
    → new.refs ≡ (if new.opening then 1 else 0)
    → Inv (placed r new.name p new)
placed-Inv r p new v vacant fresh closed plain count_one = record {
  distinct = v.distinct;
  named = λ name q h. elim (Bool-cases (new.name == name)) [
    | inl same ↦ (
      new,
      ground (
        arith,
        lookup-insert new.name name p r.entries,
        lookup-insert p q new r.heap,
        nat_eq.beq_iff p q,
      ),
      ground (arith, string_eq.beq_iff new.name name),
    )
    | inr other ↦
        let (e, at, called) =
          v.named name q (ground (arith, lookup-insert new.name name p r.entries)) in
        (e, ground (arith, lookup-insert p q new r.heap, nat_eq.beq_iff p q), called)
  ];
  balanced = λ q e at live. elim (Bool-cases (p == q)) [
    | inl same ↦ ground (
      arith,
      lookup-insert p q new r.heap,
      nat_eq.beq_iff p q,
      unused r p v.distinct (λ t h. ground (arith, (v.held t p h).at)),
    )
    | inr other ↦
        v.balanced q e (ground (arith, lookup-insert p q new r.heap))
          (ground (arith, lookup-insert new.name e.name p r.entries, nat_eq.beq_iff p q))
  ];
  pending = λ q e at opening. elim (Bool-cases (p == q)) [
    | inl same ↦
        let e≡new : e ≡ new = ground (arith, lookup-insert p q new r.heap) in
        (
          ground (
            arith,
            e≡new,
            nat_eq.beq_iff p q,
            lookup-insert new.name e.name p r.entries,
            string_eq.beq_iff new.name e.name,
          ),
          ground (arith, e≡new),
          ground (arith, e≡new),
        )
    | inr other ↦
        let (live, none_yet, free) =
          v.pending q e (ground (arith, lookup-insert p q new r.heap)) opening in
        (
          ground
              (arith, lookup-insert new.name e.name p r.entries, string_eq.beq_iff new.name e.name),
          none_yet,
          free,
        )
  ];
  settled = λ q e at live quiet plain_entry. elim (Bool-cases (p == q)) [
    | inl same ↦ absurd (ground (arith, lookup-insert p q new r.heap))
    | inr other ↦
        v.settled q e (ground (arith, lookup-insert p q new r.heap))
          (ground (arith, lookup-insert new.name e.name p r.entries, nat_eq.beq_iff p q)) quiet
          plain_entry
  ];
  held = λ t q h.
      let k = v.held t q h in
      moved r (placed r new.name p new) q k
        (ground (arith, k.at, lookup-insert p q new r.heap, nat_eq.beq_iff p q))
        (ground (
          arith,
          k.live,
          lookup-insert new.name k.entry.name p r.entries,
          string_eq.beq_iff new.name k.entry.name,
        ))
        k.unclosed;
  apart = λ q q' e f d d' at at' has has' same.
      v.apart q q' e f d d' (ground (arith, lookup-insert p q new r.heap))
        (ground (arith, lookup-insert p q' new r.heap)) has has' same;
}
