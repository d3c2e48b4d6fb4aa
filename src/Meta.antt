-- ===== src/Meta.antt =====
-- meta/meta.go: the tables of the enrolled principals and of the enrollment codes, each a map by
-- its primary key. A statement that the database fails changes nothing, so what is here is what
-- each statement does when it is carried out. Times are in seconds.
pub mod Rows
use quicsql.Prelude.{
  ℕ, Bool, true, false, ◌&&◌, ◌||◌, not, ◌==◌, bytes_eq, ltb, leb, if◌then◌else◌, List, [], ◌∷◌,
  Option, none, some,
}
use quicsql.Prelude.Map.{Map, lookup, insert, delete, adjust}

pub record Row : Type 0 where
  pub key : List ℕ
  pub created_at : ℕ
  pub last_seen : Option ℕ

pub record Code : Type 0 where
  pub created_at : ℕ
  pub expires_at : ℕ
  pub used_at : Option ℕ

pub record Store : Type 0 where
  pub enrolled : Map (List ℕ) Row
  pub codes : Map (List ℕ) Code

abbrev pub name_of_key : List ℕ → Map (List ℕ) Row → Option (List ℕ)
name_of_key key [] = none
name_of_key key ((name, row) ∷ rows) =
    let rest = name_of_key key rows in if row.key == key then some name else rest

unfoldable pub enrolled_by_key : Store → List ℕ → Option (List ℕ)
enrolled_by_key s key = name_of_key key s.enrolled

abbrev pub is_some : {A : Type 0} → Option A → Bool
is_some none = false
is_some (some a) = true

-- Name and key are both unique: `none` is a constraint error.
unfoldable pub put_enrolled : Store → List ℕ → List ℕ → ℕ → Option Store
put_enrolled s name key now =
    if is_some (lookup name s.enrolled) || is_some (enrolled_by_key s key)
    then none
    else some (record s {
      enrolled = insert name (record { key = key; created_at = now; last_seen = none }) s.enrolled;
    })

unfoldable pub delete_enrolled : Store → List ℕ → Store × Bool
delete_enrolled s name =
    (record s { enrolled = delete name s.enrolled }, is_some (lookup name s.enrolled))

-- The row after its last activity has moved forward.
abbrev pub touched : ℕ → Row → Row
touched at row = elim row.last_seen [
  | none ↦ record row { last_seen = some at }
  | some last ↦ if ltb last at then record row { last_seen = some at } else row
]

unfoldable pub touch_rows : Map (List ℕ) ℕ → Map (List ℕ) Row → Map (List ℕ) Row
touch_rows [] rows = rows
touch_rows ((name, at) ∷ seen) rows = touch_rows seen (adjust name (touched at) rows)

unfoldable pub touch_enrolled : Store → Map (List ℕ) ℕ → Store
touch_enrolled s seen = record s { enrolled = touch_rows seen s.enrolled }

-- COALESCE(last_seen, created_at).
abbrev pub activity : Row → ℕ
activity row = elim row.last_seen [ none ↦ row.created_at | some at ↦ at ]

abbrev pub idle_names : ℕ → Map (List ℕ) Row → List (List ℕ)
idle_names cutoff [] = []
idle_names cutoff ((name, row) ∷ rows) =
    let rest = idle_names cutoff rows in if ltb (activity row) cutoff then name ∷ rest else rest

unfoldable pub idle_enrolled : Store → ℕ → List (List ℕ)
idle_enrolled s cutoff = idle_names cutoff s.enrolled

-- `none` is a constraint error.
unfoldable pub put_enroll_code : Store → List ℕ → ℕ → ℕ → Option Store
put_enroll_code s hash now expires_at =
    if is_some (lookup hash s.codes)
    then none
    else some (record s {
      codes =
          insert hash (record { created_at = now; expires_at = expires_at; used_at = none })
            s.codes;
    })

-- used_at IS NULL AND expires_at > now.
abbrev pub usable : ℕ → Option Code → Bool
usable now none = false
usable now (some c) = not (is_some c.used_at) && ltb now c.expires_at

unfoldable pub enroll_code_valid : Store → List ℕ → ℕ → Bool
enroll_code_valid s hash now = usable now (lookup hash s.codes)

unfoldable pub consume_enroll_code : Store → List ℕ → ℕ → Store × Bool
consume_enroll_code s hash now =
    if usable now (lookup hash s.codes)
    then (record s { codes = adjust hash (λ c. record c { used_at = some now }) s.codes }, true)
    else (s, false)

unfoldable pub release_enroll_code : Store → List ℕ → Store
release_enroll_code s hash = record s {
  codes = adjust hash (λ c. record c { used_at = none }) s.codes;
}

unfoldable pub gc_codes : ℕ → Map (List ℕ) Code → Map (List ℕ) Code
gc_codes now [] = []
gc_codes now ((hash, c) ∷ codes) =
    let rest = gc_codes now codes in
    if is_some c.used_at || leb c.expires_at now then rest else (hash, c) ∷ rest

unfoldable pub gc_enroll_codes : Store → ℕ → Store
gc_enroll_codes s now = record s { codes = gc_codes now s.codes }
