-- ===== src/Authz/Policy.antt =====
-- authz/authz.go, the principals and the compiled grant table. The mutex makes each method one
-- step; the context accessors are `Option` with `Anonymous` for nil.
pub mod Effects
use quicsql.Prelude.{
  String, Bool, true, false, ◌&&◌, not, ◌==◌, string_eq, if◌then◌else◌, Option, none, some, List,
  [], ◌∷◌, map, ltb, ◌||◌,
}
use quicsql.Prelude.Map.{Map, lookup, lookup_or, insert, delete}
use quicsql.Authz.Level.{Level, rank, read_write}
use quicsql.Authz.Assurance.{Assurance}

pub record Principal : Type 0 where
  pub name : String
  pub method : String
  pub assurance : Option Assurance

abbrev pub anonymous : Principal
anonymous = record { name = ""; method = "none"; assurance = none }

-- `none` is the nil pointer.
unfoldable pub is_anonymous : Option Principal → Bool
is_anonymous none = true
is_anonymous (some p) = p.name == ""

unfoldable pub from_context : Option Principal → Principal
from_context none = anonymous
from_context (some p) = p

abbrev pub wildcard : String
wildcard = "*"

pub record Policy : Type 0 where
  pub grants : Map String (Map String Level)
  pub is_open : Bool

unfoldable pub new_policy : Bool → Policy
new_policy o = record { grants = []; is_open = o }

-- The inner map after the write: the highest level is kept.
unfoldable pub raise : String → Level → Map String Level → Map String Level
raise principal level m = elim (lookup principal m) [
  | none ↦ insert principal level m
  | some cur ↦ if ltb (rank cur) (rank level) then insert principal level m else m
]

unfoldable pub grant : Policy → String → String → Level → Policy
unfolding raise
grant p db principal level = record p {
  grants = insert db (raise principal level (lookup_or [] db p.grants)) p.grants;
}

unfoldable pub revoke : Policy → String → Policy
revoke p db = record p { grants = delete db p.grants }

unfoldable pub revoke_in : String → Map String (Map String Level) → Map String (Map String Level)
revoke_in principal [] = []
revoke_in principal ((db, m) ∷ rest) = (db, delete principal m) ∷ revoke_in principal rest

unfoldable pub revoke_principal : Policy → String → Policy
unfolding revoke_in
revoke_principal p principal = record p { grants = revoke_in principal p.grants }

-- The levels of one database: the wildcard's, raised by the principal's own.
unfoldable pub level_in : Map String Level → Option Principal → Level
level_in m pr =
    let lvl = lookup_or Level.none wildcard m in
    elim pr [
      | none ↦ lvl
      | some p ↦
          if not (p.name == "")
          then elim (lookup p.name m) [
            | none ↦ lvl
            | some l ↦ if ltb (rank lvl) (rank l) then l else lvl
          ]
          else lvl
    ]

unfoldable pub level : Policy → Option Principal → String → Level
unfolding level_in
level p pr db =
    if p.is_open
    then read_write
    else elim (lookup db p.grants) [ none ↦ Level.none | some m ↦ level_in m pr ]
