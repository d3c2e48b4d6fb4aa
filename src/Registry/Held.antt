-- ===== src/Registry/Held.antt =====
-- A handle in use is never detached, and the users of a database share one handle.
use quicsql.Prelude.{
  ℕ, ◌<◌, ◌≡◌, refl, sym, ap, subst, ◌∙◌, String, true, string_eq, nat_eq, none, some, arith,
  Option-cases, inl, inr,
}
use quicsql.Prelude.Map.{Map, lookup, insert}
use quicsql.Registry.{
  busy, Backend, Entry, Registry, new_registry, opening_entry, placeholder, entry_of, begin_get,
  detach_idle, reserve, add, remove, in_use,
}
use quicsql.Registry.Steps.{
  Step, Steps, begins, opens, joins, releases, reserves, unreserves, adds, removes, reaps, here,
  next,
}
use quicsql.Registry.Invariant.{Held, Inv, users, used, placed-Inv}
use quicsql.Registry.Detaching.{backends-Inv, detach_idle-Inv, unreserve-Inv, reap_idle-Inv}
use quicsql.Registry.Using.{join-Inv, release-Inv}
use quicsql.Registry.Opening.{finish_get-Inv}

begin_get-Inv :
    (r : Registry) (name : String) (fresh : ℕ)
    → Inv r
    → lookup fresh r.heap ≡ none
    → Inv (begin_get r name fresh).0
unfolding begin_get
begin_get-Inv r name fresh v new = elim (Option-cases (lookup name r.entries)) [
  | inr (p, there) ↦ rw (begin_get, there) v
  | inl vacant ↦ elim (Option-cases (lookup name r.backends)) [
    | inl gone ↦ rw (begin_get, vacant, gone) v
    | inr (be, known) ↦
        rw (begin_get, vacant, known)
          (placed-Inv r fresh (opening_entry name) v vacant new refl refl refl)
  ]
]

reserve-Inv :
    (r : Registry) (name : String) (fresh : ℕ)
    → Inv r
    → lookup fresh r.heap ≡ none
    → Inv (reserve r name fresh).0
unfolding reserve
reserve-Inv r name fresh v new = elim (Option-cases (lookup name r.backends)) [
  | inl gone ↦ rw (reserve, gone) v
  | inr (be, known) ↦ elim (Option-cases (detach_idle r name)) [
    | inl used ↦ rw (reserve, known, used) v
    | inr (u, detached) ↦
        let (w, vacant, same) = detach_idle-Inv r u name v detached in
        rw (reserve, known, detached)
          (placed-Inv u fresh (placeholder name) w vacant
            (ap (λ (h : Map ℕ Entry). lookup fresh h) same ∙ new) refl refl refl)
  ]
]

remove-Inv : (r : Registry) (name : String) → Inv r → Inv (remove r name).0
unfolding remove
remove-Inv r name v = elim (Option-cases (lookup name r.backends)) [
  | inl gone ↦ rw (remove, gone) v
  | inr (be, known) ↦ elim (Option-cases (detach_idle r name)) [
    | inl used ↦ rw (remove, known, used) v
    | inr (u, detached) ↦
        let (w, _, _) = detach_idle-Inv r u name v detached in
        rw (remove, known, detached) (backends-Inv u _ w)
  ]
]

add-Inv : (r : Registry) (name : String) (be : Backend) → Inv r → Inv (add r name be).0
unfolding add
add-Inv r name be v = elim (Option-cases (lookup name r.backends)) [
  | inr (other, taken) ↦ rw (add, taken) v
  | inl free ↦ rw (add, free) (backends-Inv r (insert name be r.backends) v)
]

Step-Inv : (r u : Registry) → Step r u → Inv r → Inv u
Step-Inv r u (begins name fresh new e) v =
    subst (λ (x : Registry). Inv x) (sym e) (begin_get-Inv r name fresh v new)
Step-Inv r u (opens be p f answer now ticket at opening new fresh e) v =
    subst (λ (x : Registry). Inv x) (sym e)
      (finish_get-Inv r be p f answer now ticket v at opening new fresh)
Step-Inv r u (joins name p f now ticket at quiet new e) v =
    subst (λ (x : Registry). Inv x) (sym e) (join-Inv r name p f now ticket v at quiet new)
Step-Inv r u (releases ticket now e) v =
    subst (λ (x : Registry). Inv x) (sym e) (release-Inv r ticket now v)
Step-Inv r u (reserves name fresh new e) v =
    subst (λ (x : Registry). Inv x) (sym e) (reserve-Inv r name fresh v new)
Step-Inv r u (unreserves name p f found reserved e) v =
    subst (λ (x : Registry). Inv x) (sym e) (unreserve-Inv r name p f v found reserved)
Step-Inv r u (adds name be e) v = subst (λ (x : Registry). Inv x) (sym e) (add-Inv r name be v)
Step-Inv r u (removes name e) v = subst (λ (x : Registry). Inv x) (sym e) (remove-Inv r name v)
Step-Inv r u (reaps now idle_ttl e) v =
    subst (λ (x : Registry). Inv x) (sym e) (reap_idle-Inv r now idle_ttl v)

new_registry-Inv : (backends : Map String Backend) → Inv (new_registry backends)
unfolding new_registry
new_registry-Inv backends = record {
  distinct = tt;
  named = λ name p h. absurd (unfold lookup in ground (arith, h));
  balanced = λ p e at live. absurd (unfold lookup in ground (arith, at));
  pending = λ p e at opening. absurd (unfold lookup in ground (arith, at));
  settled = λ p e at live quiet plain. absurd (unfold lookup in ground (arith, at));
  held = λ t p h. absurd (unfold lookup in ground (arith, h));
  apart = λ p q e f d d' at at' has has' same. absurd (unfold lookup in ground (arith, at));
}

Steps-Inv : (r u : Registry) → Steps r u → Inv r → Inv u
Steps-Inv r u here v = v
Steps-Inv r u (next {u = w} steps step) v = Step-Inv w u step (Steps-Inv r w steps v)

-- From a new registry, after any interleaving of opens, joins, releases, reservations, additions,
-- removals and reaps: whoever has not released its Get yet has the entry that stands under its
-- name, ready and not reserved, with a handle that was never detached, and the count of the entry
-- is the number of such users and not 0.
pub users-Steps :
    (backends : Map String Backend) (r : Registry) (ticket p : ℕ)
    → Steps (new_registry backends) r
    → lookup ticket r.tickets ≡ some p
    → (k : Held r p) × (k.entry.refs ≡ users r p) × (0 < users r p)
users-Steps backends r ticket p steps h =
    let v = Steps-Inv (new_registry backends) r steps (new_registry-Inv backends) in
    let k = v.held ticket p h in
    let w = v.balanced p k.entry k.at k.live in
    (k, ground (arith, w, k.ready), used r ticket p v.distinct h)

-- Two users of one database have the same handle at every point of every such interleaving.
pub users-share :
    (backends : Map String Backend) (r : Registry) (t t' p p' : ℕ) (e e' : Entry)
    → Steps (new_registry backends) r
    → lookup t r.tickets ≡ some p
    → lookup t' r.tickets ≡ some p'
    → lookup p r.heap ≡ some e
    → lookup p' r.heap ≡ some e'
    → e.name ≡ e'.name
    → (p ≡ p') × (e.db ≡ e'.db)
users-share backends r t t' p p' e e' steps h h' at at' same =
    let v = Steps-Inv (new_registry backends) r steps (new_registry-Inv backends) in
    let k = v.held t p h in
    let k' = v.held t' p' h' in
    let p≡p' : p ≡ p' = ground (arith, k.at, k'.at, k.live, k'.live, at, at', same) in
    (p≡p', ground (arith, p≡p', at, at'))

detach_idle-used :
    (r : Registry) (name : String) (p : ℕ) (e : Entry)
    → lookup name r.entries ≡ some p
    → lookup p r.heap ≡ some e
    → in_use e ≡ true
    → detach_idle r name ≡ none
unfolding detach_idle entry_of
detach_idle-used r name p e there at used =
    rw (detach_idle, entry_of, there, at) (ground (arith, used))

-- After any such interleaving, a reservation and a removal of a database that somebody uses are
-- refused as busy and change nothing.
pub busy-users :
    (backends : Map String Backend) (r : Registry) (name : String) (ticket p fresh : ℕ)
    (be : Backend)
    → Steps (new_registry backends) r
    → lookup ticket r.tickets ≡ some p
    → lookup name r.entries ≡ some p
    → lookup name r.backends ≡ some be
    → (reserve r name fresh ≡ (r, some busy)) × (remove r name ≡ (r, some busy))
unfolding reserve remove
busy-users backends r name ticket p fresh be steps h there known =
    let v = Steps-Inv (new_registry backends) r steps (new_registry-Inv backends) in
    let k = v.held ticket p h in
    let w = v.balanced p k.entry k.at k.live in
    let busy_entry =
      detach_idle-used r name p k.entry there k.at
        (ground (arith, w, used r ticket p v.distinct h)) in
    (rw (reserve, known, busy_entry) refl, rw (remove, known, busy_entry) refl)
