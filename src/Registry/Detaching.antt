-- ===== src/Registry/Detaching.antt =====
-- Entries that leave the map: an idle one with its handle, or the placeholder of a reservation.
use quicsql.Prelude.{
  subst, ℕ, ◌≡◌, ◌≢◌, refl, sym, ap, String, true, false, ltb, not, string_eq, nat_eq, List, [],
  ◌∷◌, ◌++◌, All, All-append, Option, none, some, arith, Option-cases, Bool-cases, inl, inr,
  if_cases,
}
use quicsql.Prelude.Map.{Map, lookup, delete, lookup-delete}
use quicsql.Registry.{
  Backend, Db, Entry, Registry, handle_of, entry_of, detach_idle, unreserve, in_use, kept,
  reap_entry, reap_names, reap_idle,
}
use quicsql.Registry.Invariant.{Inv, used, moved}

pub entry_of-at :
    (r : Registry) (name : String) (p : ℕ) (e : Entry)
    → entry_of r name ≡ some (p, e)
    → (lookup name r.entries ≡ some p) × (lookup p r.heap ≡ some e)
unfolding entry_of
entry_of-at r name p e h = elim (Option-cases (lookup name r.entries)) [
  | inl gone ↦ absurd (ground arith)
  | inr (q, there) ↦ elim (Option-cases (lookup q r.heap)) [
    | inl gone ↦ absurd (ground arith)
    | inr (f, at) ↦ (ground arith, ground arith)
  ]
]

abbrev pub dropped : Registry → String → List Db → Registry
dropped r name gone = record r { entries = delete name r.entries; closed = r.closed ++ gone }

pub dropped-Inv :
    (r : Registry) (name : String) (p : ℕ) (e : Entry) (gone : List Db)
    → Inv r
    → lookup name r.entries ≡ some p
    → lookup p r.heap ≡ some e
    → e.opening ≡ false
    → ((t : ℕ) → lookup t r.tickets ≢ some p)
    → ((h : ℕ) → ((d : Db) → e.db ≡ some d → d.handle ≢ h) → All (λ (d : Db). d.handle ≢ h) gone)
    → Inv (dropped r name gone)
dropped-Inv r name p e gone v there at quiet free only = record {
  distinct = v.distinct;
  named = λ other q h. v.named other q (ground (arith, lookup-delete name other r.entries));
  balanced =
      λ q f at' live. v.balanced q f at' (ground (arith, lookup-delete name f.name r.entries));
  pending = λ q f at' opening.
      let (live, none_yet, plain) = v.pending q f at' opening in
      (
        ground (arith, lookup-delete name f.name r.entries, string_eq.beq_iff name f.name),
        none_yet,
        plain,
      );
  settled = λ q f at' live quiet' plain.
      let live' : lookup f.name r.entries ≡ some q =
        ground (arith, lookup-delete name f.name r.entries) in
      let (db, has, called, unclosed) = v.settled q f at' live' quiet' plain in
      let (e', at'', name≡) = v.named name p there in
      (
        db,
        has,
        called,
        All-append (λ (d : Db). d.handle ≢ db.handle) r.closed gone unclosed
            (only db.handle λ d has' same.
              let p≡q = v.apart p q e f d db at at' has' has same in
              ground
                (arith, p≡q, lookup-delete name f.name r.entries, string_eq.beq_iff name f.name)),
      );
  held = λ t q h.
      let k = v.held t q h in
      moved r (dropped r name gone) q k k.at
        (ground (
          arith,
          k.live,
          free t,
          lookup-delete name k.entry.name r.entries,
          string_eq.beq_iff name k.entry.name,
        ))
        (All-append (λ (d : Db). d.handle ≢ k.db.handle) r.closed gone k.unclosed
          (only k.db.handle λ d has same.
            free t (ground (arith, v.apart p q e k.entry d k.db at k.at has k.has_db same))));
  apart = v.apart;
}

handle_of-only :
    (o : Option Db) (h : ℕ)
    → ((d : Db) → o ≡ some d → d.handle ≢ h)
    → All (λ (d : Db). d.handle ≢ h) (handle_of o)
handle_of-only none h only = tt
handle_of-only (some d) h only = (only d refl, tt)

idle-free :
    (r : Registry) (name : String) (p : ℕ) (e : Entry)
    → Inv r
    → lookup name r.entries ≡ some p
    → lookup p r.heap ≡ some e
    → e.opening ≡ false
    → e.refs ≡ 0
    → (t : ℕ) → lookup t r.tickets ≢ some p
idle-free r name p e v there at quiet none_left t h =
    let k = v.held t p h in ground (arith, v.balanced p e at, k.live, k.at, used r t p v.distinct h)

pub idle-Inv :
    (r : Registry) (name : String) (p : ℕ) (e : Entry)
    → Inv r
    → entry_of r name ≡ some (p, e)
    → in_use e ≡ false
    → Inv (dropped r name (handle_of e.db))
idle-Inv r name p e v h idle =
    let (there, at) = entry_of-at r name p e h in
    dropped-Inv r name p e (handle_of e.db) v there at (ground arith)
      (idle-free r name p e v there at (ground arith) (ground arith)) (handle_of-only e.db)

entry_of-none :
    (r : Registry) (name : String) → Inv r → entry_of r name ≡ none → lookup name r.entries ≡ none
unfolding entry_of
entry_of-none r name v h = elim (Option-cases (lookup name r.entries)) [
  | inl gone ↦ gone
  | inr (p, there) ↦ let (e, at, called) = v.named name p there in absurd (ground arith)
]

append-nil : (ds : List Db) → ds ++ [] ≡ ds
append-nil [] = refl
append-nil (d ∷ ds) = ap (λ (rest : List Db). d ∷ rest) (append-nil ds)

-- The backends have no part in it.
pub backends-Inv : (r : Registry) (b : Map String Backend) → Inv r → Inv (record r { backends = b })
backends-Inv r b v = record {
  distinct = v.distinct;
  named = v.named;
  balanced = v.balanced;
  pending = v.pending;
  settled = v.settled;
  held = λ t q h.
      let k = v.held t q h in moved r (record r { backends = b }) q k k.at k.live k.unclosed;
  apart = v.apart;
}

-- A name that is detached has no entry afterwards, and what is allocated stays allocated.
pub detach_idle-Inv :
    (r u : Registry) (name : String)
    → Inv r
    → detach_idle r name ≡ some u
    → Inv u × (lookup name u.entries ≡ none) × (u.heap ≡ r.heap)
unfolding detach_idle
detach_idle-Inv r u name v h = elim (Option-cases (entry_of r name)) [
  | inl gone ↦
      let same : u ≡ r = ground arith in
      subst (λ (w : Registry). Inv w × (lookup name w.entries ≡ none) × (w.heap ≡ r.heap))
        (sym same) (v, entry_of-none r name v gone, refl)
  | inr ((p, e), found) ↦ elim (Bool-cases (in_use e)) [
    | inl used ↦ absurd (ground arith)
    | inr idle ↦
        let u≡ : u ≡ dropped r name (handle_of e.db) = ground arith in
        subst (λ (w : Registry). Inv w × (lookup name w.entries ≡ none) × (w.heap ≡ r.heap))
          (sym u≡)
          (
            idle-Inv r name p e v found idle,
            ground (arith, lookup-delete name name r.entries, string_eq.beq_iff name name),
            refl,
          )
  ]
]

pub unreserve-Inv :
    (r : Registry) (name : String) (p : ℕ) (e : Entry)
    → Inv r
    → entry_of r name ≡ some (p, e)
    → e.reserved ≡ true
    → Inv (unreserve r name)
unfolding unreserve
unreserve-Inv r name p e v found reserved =
    let (there, at) = entry_of-at r name p e found in
    let none_open : e.opening ≡ false = ground (arith, v.pending p e at) in
    subst (λ (c : List Db). Inv (record r { entries = delete name r.entries; closed = c }))
      (append-nil r.closed)
      (dropped-Inv r name p e [] v there at none_open
        (λ t h. let k = v.held t p h in ground (arith, k.at, k.free, at)) (λ h only. tt))

reap_entry-Inv :
    (r : Registry) (now idle_ttl : ℕ) (name : String) → Inv r → Inv (reap_entry r now idle_ttl name)
unfolding reap_entry kept
reap_entry-Inv r now idle_ttl name v = elim (Option-cases (entry_of r name)) [
  | inl gone ↦ rw (reap_entry, gone) v
  | inr ((p, e), found) ↦
      rw (reap_entry, found)
        (if_cases (λ (u : Registry). Inv u) (kept now idle_ttl e) (λ _. v)
          λ open_idle. idle-Inv r name p e v found (ground arith))
]

reap_names-Inv :
    (r : Registry) (now idle_ttl : ℕ) (m : Map String ℕ) → Inv r → Inv (reap_names r now idle_ttl m)
unfolding reap_names
reap_names-Inv r now idle_ttl [] v = v
reap_names-Inv r now idle_ttl ((name, p) ∷ m) v =
    reap_names-Inv (reap_entry r now idle_ttl name) now idle_ttl m
      (reap_entry-Inv r now idle_ttl name v)

pub reap_idle-Inv : (r : Registry) (now idle_ttl : ℕ) → Inv r → Inv (reap_idle r now idle_ttl)
unfolding reap_idle
reap_idle-Inv r now idle_ttl v =
    if_cases (λ (u : Registry). Inv u) (not (ltb 0 idle_ttl)) (λ _. v)
      (λ _. reap_names-Inv r now idle_ttl r.entries v)
