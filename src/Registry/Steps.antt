-- ===== src/Registry/Steps.antt =====
-- registry/registry.go as a transition system: one step for each critical section, in any order, by
-- any number of goroutines. Close is left out: it asks that no work is accepted any more.
use quicsql.Prelude.{ℕ, ◌≡◌, ◌≢◌, String, true, false, All, Option, none, some, string_eq, nat_eq}
use quicsql.Prelude.Map.{lookup}
use quicsql.Registry.{
  Backend, Db, Entry, Registry, entry_of, begin_get, finish_get, join, release, reserve, unreserve,
  add, remove, reap_idle,
}

-- The handles that were detached do not include this one.
abbrev pub Unclosed : Registry → ℕ → Type 0
Unclosed r h = All (λ (d : Db). d.handle ≢ h) r.closed

-- A backend opens a handle that is not one of an earlier open.
abbrev pub NewHandle : Registry → Option ℕ → Type 0
NewHandle r none = Unit
NewHandle r (some h) =
    ((p : ℕ) (e : Entry) (d : Db) → lookup p r.heap ≡ some e → e.db ≡ some d → d.handle ≢ h)
    × Unclosed r h

pub data Step (r u : Registry) : Type 0 where
  begins :
      (name : String) (fresh : ℕ)
      → lookup fresh r.heap ≡ none
      → u ≡ (begin_get r name fresh).0
      → Step r u
  opens :
      (be : Backend) (p : ℕ) (e : Entry) (answer : Option ℕ) (now ticket : ℕ)
      → lookup p r.heap ≡ some e
      → e.opening ≡ true
      → lookup ticket r.tickets ≡ none
      → NewHandle r answer
      → u ≡ (finish_get r e.name be p answer now ticket).0
      → Step r u
  joins :
      (name : String) (p : ℕ) (e : Entry) (now ticket : ℕ)
      → lookup p r.heap ≡ some e
      → e.opening ≡ false
      → lookup ticket r.tickets ≡ none
      → u ≡ (join r name p now ticket).0
      → Step r u
  releases : (ticket now : ℕ) → u ≡ release r ticket now → Step r u
  reserves :
      (name : String) (fresh : ℕ)
      → lookup fresh r.heap ≡ none
      → u ≡ (reserve r name fresh).0
      → Step r u
  unreserves :
      (name : String) (p : ℕ) (e : Entry)
      → entry_of r name ≡ some (p, e)
      → e.reserved ≡ true
      → u ≡ unreserve r name
      → Step r u
  adds : (name : String) (be : Backend) → u ≡ (add r name be).0 → Step r u
  removes : (name : String) → u ≡ (remove r name).0 → Step r u
  reaps : (now idle_ttl : ℕ) → u ≡ reap_idle r now idle_ttl → Step r u

pub data Steps (r : Registry) : Registry → Type 0 where
  here : Steps r r
  next : {u v : Registry} → Steps r u → Step u v → Steps r v
