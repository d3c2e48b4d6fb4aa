-- ===== src/Registry.antt =====
-- registry/registry.go: one shared handle for each database name, opened on first use and counted
-- while in use. An entry is shared through a pointer, which is a key of `heap` here. Get lets go of
-- the mutex while the backend opens or while it waits, so it is a first section and then the
-- opener's or the waiter's section. A release function is a ticket, in `tickets` until it is first
-- called. `closed` are the handles that were detached for `closeHandle` to close, in order.
mod Tests
pub mod Steps
pub mod Invariant
pub mod Detaching
pub mod Using
pub mod Held
pub mod Opening
use quicsql.Prelude.{
  ℕ, suc, ◌+◌, ◌-◌, String, Bool, true, false, ◌||◌, not, ◌==◌, ltb, if◌then◌else◌, List, [], ◌∷◌,
  ◌++◌, Option, none, some, string_eq, nat_eq,
}
use quicsql.Prelude.Map.{Map, lookup, insert, delete, adjust}
use quicsql.Prelude.Result.{Result, ok, err}

-- What the registry reads of a backend besides its Open.
pub record Backend : Type 0 where
  pub kind : String
  pub read_only : Bool

pub record Db : Type 0 where
  pub name : String
  pub kind : String
  pub read_only : Bool
  pub handle : ℕ

pub record Entry : Type 0 where
  pub name : String
  pub opening : Bool
  pub db : Option Db
  pub failed : Bool
  pub refs : ℕ
  pub last : ℕ
  pub reserved : Bool

pub record Registry : Type 0 where
  pub entries : Map String ℕ
  pub heap : Map ℕ Entry
  pub backends : Map String Backend
  pub tickets : Map ℕ ℕ
  pub closed : List Db

pub data RegistryError : Type 0 where
  unknown_db is_reserved busy exists open_failed : RegistryError

unfoldable pub new_registry : Map String Backend → Registry
new_registry backends = record {
  entries = [];
  heap = [];
  backends = backends;
  tickets = [];
  closed = [];
}

abbrev pub opening_entry : String → Entry
opening_entry name = record {
  name = name;
  opening = true;
  db = none;
  failed = false;
  refs = 1;
  last = 0;
  reserved = false;
}

abbrev pub placeholder : String → Entry
placeholder name = record {
  name = name;
  opening = false;
  db = none;
  failed = false;
  refs = 0;
  last = 0;
  reserved = true;
}

-- What the first section of Get finds: nothing to open, an entry to open, or one to wait for.
pub data Begun : Type 0 where
  unknown : Begun
  opener waiter : ℕ → Begun

-- `fresh` is the pointer that an allocation gives.
unfoldable pub begin_get : Registry → String → ℕ → Registry × Begun
begin_get r name fresh = elim (lookup name r.entries) [
  | some p ↦ (r, waiter p)
  | none ↦ elim (lookup name r.backends) [
    | none ↦ (r, unknown)
    | some be ↦ (
      record r {
        entries = insert name fresh r.entries;
        heap = insert fresh (opening_entry name) r.heap;
      },
      opener fresh,
    )
  ]
]

abbrev pub spoiled : Entry → Entry
spoiled e = record e { opening = false; failed = true; refs = 0 }

abbrev pub opened : Db → ℕ → Entry → Entry
opened db now e = record e { opening = false; db = some db; last = now }

-- The opener's section, after the backend answered with a handle or an error.
unfoldable pub finish_get :
    Registry → String → Backend → ℕ → Option ℕ → ℕ → ℕ → Registry × Result RegistryError Db
finish_get r name be p none now ticket =
    (record r { entries = delete name r.entries; heap = adjust p spoiled r.heap }, err open_failed)
finish_get r name be p (some h) now ticket =
    let db : Db = record { name = name; kind = be.kind; read_only = be.read_only; handle = h } in
    (
      record r { heap = adjust p (opened db now) r.heap; tickets = insert ticket p r.tickets },
      ok db,
    )

-- What the waiter's section finds: its entry gone, an error, or the handle.
pub data Joined : Type 0 where
  retry : Joined
  refused : RegistryError → Joined
  joined : Option Db → Joined

abbrev pub shared : ℕ → Entry → Entry
shared now e = record e { refs = e.refs + 1; last = now }

unfoldable pub join_entry : Registry → ℕ → Entry → ℕ → ℕ → Registry × Joined
join_entry r p e now ticket =
    if e.failed
    then (r, refused open_failed)
    else if e.reserved
    then (r, refused is_reserved)
    else (
      record r { heap = adjust p (shared now) r.heap; tickets = insert ticket p r.tickets },
      joined e.db,
    )

abbrev pub points_to : Option ℕ → ℕ → Bool
points_to none p = false
points_to (some q) p = q == p

-- The waiter's section, once the entry is ready.
unfoldable pub join : Registry → String → ℕ → ℕ → ℕ → Registry × Joined
unfolding join_entry
join r name p now ticket =
    if not (points_to (lookup name r.entries) p)
    then (r, retry)
    else elim (lookup p r.heap) [ none ↦ (r, retry) | some e ↦ join_entry r p e now ticket ]

abbrev pub returned : ℕ → Entry → Entry
returned now e = record e { refs = e.refs - 1; last = now }

-- A call of a release function: only the first does something.
unfoldable pub release : Registry → ℕ → ℕ → Registry
release r ticket now = elim (lookup ticket r.tickets) [
  | none ↦ r
  | some p ↦ record r { tickets = delete ticket r.tickets; heap = adjust p (returned now) r.heap }
]

abbrev pub in_use : Entry → Bool
in_use e = e.opening || ltb 0 e.refs || e.reserved

-- The entry under a name, with its pointer.
unfoldable pub entry_of : Registry → String → Option (ℕ × Entry)
entry_of r name = elim (lookup name r.entries) [
  | none ↦ none
  | some p ↦ elim (lookup p r.heap) [ none ↦ none | some e ↦ some (p, e) ]
]

-- The handle of an entry, if it has one.
abbrev pub handle_of : Option Db → List Db
handle_of none = []
handle_of (some db) = db ∷ []

-- `detachIdleLocked` and the `closeHandle` of the handle that it gives.
unfoldable pub detach_idle : Registry → String → Option Registry
detach_idle r name = elim (entry_of r name) [
  | none ↦ some r
  | some (p, e) ↦
      if in_use e
      then none
      else some (record r { entries = delete name r.entries; closed = r.closed ++ handle_of e.db })
]

unfoldable pub reserve : Registry → String → ℕ → Registry × Option RegistryError
unfolding detach_idle
reserve r name fresh = elim (lookup name r.backends) [
  | none ↦ (r, some unknown_db)
  | some be ↦ elim (detach_idle r name) [
    | none ↦ (r, some busy)
    | some r' ↦ (
      record r' {
        entries = insert name fresh r'.entries;
        heap = insert fresh (placeholder name) r'.heap;
      },
      none,
    )
  ]
]

-- The release of a reservation.
unfoldable pub unreserve : Registry → String → Registry
unreserve r name = record r { entries = delete name r.entries }

unfoldable pub add : Registry → String → Backend → Registry × Option RegistryError
add r name be = elim (lookup name r.backends) [
  | some other ↦ (r, some exists)
  | none ↦ (record r { backends = insert name be r.backends }, none)
]

unfoldable pub remove : Registry → String → Registry × Option RegistryError
unfolding detach_idle
remove r name = elim (lookup name r.backends) [
  | none ↦ (r, some unknown_db)
  | some be ↦ elim (detach_idle r name) [
    | none ↦ (r, some busy)
    | some r' ↦ (record r' { backends = delete name r'.backends }, none)
  ]
]

-- An entry that ReapIdle passes over.
unfoldable pub kept : ℕ → ℕ → Entry → Bool
kept now idle_ttl e =
    in_use e || (elim e.db [ none ↦ true | some db ↦ false ]) || ltb (now - e.last) idle_ttl

unfoldable pub reap_entry : Registry → ℕ → ℕ → String → Registry
unfolding kept
reap_entry r now idle_ttl name = elim (entry_of r name) [
  | none ↦ r
  | some (p, e) ↦
      if kept now idle_ttl e
      then r
      else record r { entries = delete name r.entries; closed = r.closed ++ handle_of e.db }
]

unfoldable pub reap_names : Registry → ℕ → ℕ → Map String ℕ → Registry
unfolding reap_entry
reap_names r now idle_ttl [] = r
reap_names r now idle_ttl ((name, p) ∷ rest) =
    reap_names (reap_entry r now idle_ttl name) now idle_ttl rest

-- A timeout of 0 or less is 0 here.
unfoldable pub reap_idle : Registry → ℕ → ℕ → Registry
unfolding reap_names
reap_idle r now idle_ttl = if not (ltb 0 idle_ttl) then r else reap_names r now idle_ttl r.entries

pub record DbInfo : Type 0 where
  pub name : String
  pub kind : String
  pub is_open : Bool
  pub refs : ℕ

info_of : Registry → String → Backend → DbInfo
info_of r name be = elim (entry_of r name) [
  | none ↦ record { name = name; kind = be.kind; is_open = false; refs = 0 }
  | some (p, e) ↦ record {
    name = name;
    kind = be.kind;
    is_open = elim e.db [ none ↦ false | some db ↦ true ];
    refs = e.refs;
  }
]

list_backends : Registry → Map String Backend → List DbInfo
unfolding info_of
list_backends r [] = []
list_backends r ((name, be) ∷ rest) = info_of r name be ∷ list_backends r rest

unfoldable pub list : Registry → List DbInfo
unfolding list_backends
list r = list_backends r r.backends

-- The section of Close: the map is emptied and its entries are kept for the wait that follows.
unfoldable pub begin_close : Registry → Registry × Map String ℕ
begin_close r = (record r { entries = [] }, r.entries)

-- Close, when an entry that it waited for is ready.
unfoldable pub close_entry : Registry → ℕ → Registry
close_entry r p = elim (lookup p r.heap) [
  | none ↦ r
  | some e ↦ elim e.db [ none ↦ r | some db ↦ record r { closed = r.closed ++ (db ∷ []) } ]
]
