-- ===== src/Registry/Tests.antt =====
-- A database that is opened once and used by two.
use quicsql.Prelude.{
  ℕ, ◌≡◌, ◌<◌, refl, String, Bool, true, false, [], ◌∷◌, Option, none, some, arith, string_eq,
  nat_eq,
}
use quicsql.Prelude.Map.{Map, lookup, insert, adjust}
use quicsql.Registry.{
  busy, Backend, Db, Entry, Registry, new_registry, begin_get, finish_get, join, reserve, remove,
}
use quicsql.Registry.Steps.{Steps, begins, opens, joins, here, next}
use quicsql.Registry.Invariant.{Held, users}
use quicsql.Registry.Held.{users-Steps, users-share, busy-users}

abbrev file_backend : Backend
file_backend = record { kind = "file"; read_only = false }

abbrev one_backend : Map String Backend
one_backend = ("main", file_backend) ∷ []

abbrev main_db : Db
main_db = record { name = "main"; kind = "file"; read_only = false; handle = 3 }

abbrev entry_with : Bool → Option Db → ℕ → ℕ → Entry
entry_with opening db refs last = record {
  name = "main";
  opening = opening;
  db = db;
  failed = false;
  refs = refs;
  last = last;
  reserved = false;
}

abbrev opening_main : Registry
opening_main = record (new_registry one_backend) {
  entries = ("main", 0) ∷ [];
  heap = (0, entry_with true none 1 0) ∷ [];
}

abbrev opened_main : Registry
opened_main = record opening_main {
  heap = (0, entry_with false (some main_db) 1 10) ∷ [];
  tickets = (5, 0) ∷ [];
}

abbrev shared_main : Registry
shared_main = record opened_main {
  heap = (0, entry_with false (some main_db) 2 20) ∷ [];
  tickets = (5, 0) ∷ (6, 0) ∷ [];
}

two_users : Steps (new_registry one_backend) shared_main
unfolding new_registry begin_get finish_get join lookup insert adjust
two_users =
    next
      (next (next here (begins "main" 0 refl refl)) (
        opens file_backend 0 (entry_with true none 1 0) (some 3) 10 5 refl refl refl
          ((λ p e d at has. ground (arith, at, has)), tt) refl))
      (joins "main" 0 (entry_with false (some main_db) 1 10) 20 6 refl refl refl refl)

first_ticket : lookup 5 shared_main.tickets ≡ some 0
unfolding lookup
first_ticket = refl

second_ticket : lookup 6 shared_main.tickets ≡ some 0
unfolding lookup
second_ticket = refl

main_entry : lookup 0 shared_main.heap ≡ some (entry_with false (some main_db) 2 20)
unfolding lookup
main_entry = refl

users-Steps_example :
    (k : Held shared_main 0) × (k.entry.refs ≡ users shared_main 0) × (0 < users shared_main 0)
users-Steps_example = users-Steps one_backend shared_main 5 0 two_users first_ticket

users-share_example : (◌≡◌ {A = ℕ} 0 0) × (some main_db ≡ some main_db)
users-share_example =
    users-share one_backend shared_main 5 6 0 0 (entry_with false (some main_db) 2 20)
      (entry_with false (some main_db) 2 20) two_users first_ticket second_ticket main_entry
      main_entry refl

main_live : lookup "main" shared_main.entries ≡ some 0
unfolding lookup
main_live = refl

main_known : lookup "main" shared_main.backends ≡ some file_backend
unfolding lookup new_registry
main_known = refl

busy-users_example :
    (reserve shared_main "main" 9 ≡ (shared_main, some busy))
    × (remove shared_main "main" ≡ (shared_main, some busy))
busy-users_example =
    busy-users one_backend shared_main "main" 5 0 9 file_backend two_users first_ticket main_live
      main_known
