-- ===== src/Authz/Level.antt =====
-- authz/authz.go, the capability ladder: `Level`, its names and its tests. The Go type is an int
-- of which only the four constants are made; they are compared through `rank`.
use quicsql.Prelude.{
  ◌&&◌, ℕ, String, Bool, true, false, ◌||◌, ◌==◌, string_eq, leb, ltb, if◌then◌else◌,
}
use quicsql.Prelude.{◌≡◌, refl, arith}

pub data Level : Type 0 where
  none read_only read_write admin : Level

abbrev pub rank : Level → ℕ
rank none = 0
rank read_only = 1
rank read_write = 2
rank admin = 3

-- The level and whether the text names one.
unfoldable pub parse_level : String → Level × Bool
parse_level s =
    if s == "none"
    then (none, true)
    else if s == "read-only" || s == "readonly" || s == "ro"
    then (read_only, true)
    else if s == "read-write" || s == "readwrite" || s == "rw"
    then (read_write, true)
    else if s == "admin"
    then (admin, true)
    else (none, false)

unfoldable pub to_string : Level → String
to_string read_only = "read-only"
to_string read_write = "read-write"
to_string admin = "admin"
to_string none = "none"

unfoldable pub can_read : Level → Bool
can_read l = leb (rank read_only) (rank l)

unfoldable pub can_write : Level → Bool
can_write l = leb (rank read_write) (rank l)

unfoldable pub can_admin : Level → Bool
can_admin l = leb (rank admin) (rank l)

-- The larger of two levels, as `Grant` and `Policy.Level` choose it.
abbrev pub join : Level → Level → Level
join a b = if ltb (rank a) (rank b) then b else a

pub rank-join : (a b : Level) → rank (join a b) ≡ (if ltb (rank a) (rank b) then rank b else rank a)
rank-join a b = ground arith

pub rank_injective : (a b : Level) → rank a ≡ rank b → a ≡ b
rank_injective none none h = refl
rank_injective read_only read_only h = refl
rank_injective read_write read_write h = refl
rank_injective admin admin h = refl
rank_injective a b h = absurd (omega arith)

pub join_assoc : (a b c : Level) → join (join a b) c ≡ join a (join b c)
join_assoc a b c = ground arith

-- Parsing the printed name of any level gives that level back, and each capability includes the
-- ones below it.
pub parse_level-to_string :
    (l : Level)
    → (parse_level (to_string l) ≡ (l, true))
      × ((can_admin l && can_write l) ≡ can_admin l)
      × ((can_write l && can_read l) ≡ can_write l)
unfolding parse_level to_string can_read can_write can_admin
parse_level-to_string none = (refl, refl, refl)
parse_level-to_string read_only = (refl, refl, refl)
parse_level-to_string read_write = (refl, refl, refl)
parse_level-to_string admin = (refl, refl, refl)
