-- ===== src/Authz/Policy/Effects.antt =====
-- What a grant and the two revocations do to every principal's level on every database.
use quicsql.Prelude.{
  String, Bool, true, false, ◌&&◌, ◌||◌, not, ◌==◌, string_eq, if◌then◌else◌, Option, none, some,
  ◌≡◌, refl, ◌≢◌, arith, [], ◌∷◌, sym, Bool-cases, inl, inr, Option-cases,
}
use mathlib.Core.Option
use quicsql.Prelude.Map.{
  Map, lookup, lookup_or, delete, lookup-insert, lookup-delete, lookup_or-insert,
}
use quicsql.Authz.Level.{Level, join, join_assoc}
use quicsql.Authz.Policy.{
  Principal, Policy, wildcard, raise, grant, revoke, revoke_in, revoke_principal, level_in, level,
}

-- Whether a grant to `who` reaches the principal.
abbrev pub reaches : String → Option Principal → Bool
reaches who none = who == wildcard
reaches who (some p) = who == wildcard || (not (p.name == "") && who == p.name)

lookup_or-raise :
    (who k : String) (l : Level) (m : Map String Level)
    → lookup_or Level.none k (raise who l m)
      ≡ (if who == k then join (lookup_or Level.none k m) l else lookup_or Level.none k m)
unfolding raise lookup_or
lookup_or-raise who k l m = ground (arith, lookup-insert who k l m, string_eq.beq_iff who k)

level_in_lem :
    (m : Map String Level) (p : Principal)
    → level_in m (some p) ≡ (
        if not (p.name == "")
        then join (lookup_or Level.none wildcard m) (lookup_or Level.none p.name m)
        else lookup_or Level.none wildcard m)
unfolding level_in lookup_or
level_in_lem m p = ground arith

join_left : (a b l : Level) → join (join a l) b ≡ join (join a b) l
join_left a b l = ground arith

join_both : (a b l : Level) → join (join a l) (join b l) ≡ join (join a b) l
join_both a b l = ground arith

-- Raising the two levels that a principal's level joins raises the join.
raise_joined :
    (unnamed wild own : Bool) (a b l : Level)
    → (if not unnamed
        then join (if wild then join a l else a) (if own then join b l else b)
        else (if wild then join a l else a))
      ≡ (if wild || (not unnamed && own)
          then join (if not unnamed then join a b else a) l
          else (if not unnamed then join a b else a))
raise_joined true true own a b l = refl
raise_joined true false own a b l = refl
raise_joined false true true a b l = join_both a b l
raise_joined false true false a b l = join_left a b l
raise_joined false false true a b l = sym (join_assoc a b l)
raise_joined false false false a b l = refl

level_in-raise :
    (who : String) (l : Level) (m : Map String Level) (pr : Option Principal)
    → level_in (raise who l m) pr
      ≡ (if reaches who pr then join (level_in m pr) l else level_in m pr)
level_in-raise who l m none = unfold level_in in lookup_or-raise who wildcard l m
level_in-raise who l m (some p) =
    rw
      (
        level_in_lem m p,
        level_in_lem (raise who l m) p,
        lookup_or-raise who wildcard l m,
        lookup_or-raise who p.name l m,
      )
      (raise_joined (p.name == "") (who == wildcard) (who == p.name) _ _ l)

level_lem :
    (p : Policy) (pr : Option Principal) (db : String)
    → p.is_open ≡ false
    → level p pr db ≡ level_in (lookup_or [] db p.grants) pr
unfolding level lookup_or lookup
level_lem p none db h = ground arith
level_lem p (some q) db h = ground arith

-- In a policy that is not open, a grant raises to the granted level at least (the level joined
-- with it) exactly the levels that it names: those on its database of the principals that its
-- subject reaches, everyone for the wildcard and otherwise the named principal. Every other level
-- stays as it was.
pub level-grant :
    (p : Policy) (db who : String) (l : Level) (pr : Option Principal) (db' : String)
    → p.is_open ≡ false
    → level (grant p db who l) pr db'
      ≡ (if db == db' && reaches who pr then join (level p pr db') l else level p pr db')
unfolding grant
level-grant p db who l pr db' h =
    rw
      (
        level_lem p pr db' h,
        level_lem (grant p db who l) pr db' h,
        lookup_or-insert [] db db' (raise who l (lookup_or [] db p.grants)) p.grants,
      )
      (elim (Bool-cases (db == db')) [
        | inl same ↦
            rw (same, (string_eq.beq_iff db db').0 same)
              (level_in-raise who l (lookup_or [] db' p.grants) pr)
        | inr other ↦ rw other
      ])

-- Forgetting a database leaves nobody a level on it, and every level elsewhere as it was.
pub level-revoke :
    (p : Policy) (db : String) (pr : Option Principal) (db' : String)
    → p.is_open ≡ false
    → level (revoke p db) pr db' ≡ (if db == db' then Level.none else level p pr db')
unfolding revoke level
level-revoke p db pr db' h = ground (arith, lookup-delete db db' p.grants)

lookup-revoke_in :
    (who db : String) (g : Map String (Map String Level))
    → lookup db (revoke_in who g) ≡ Option.map (delete who) (lookup db g)
unfolding lookup revoke_in
lookup-revoke_in who db [] = refl
lookup-revoke_in who db ((j, m) ∷ g) = ground (arith, lookup-revoke_in who db g)

level_in-delete :
    (who : String) (m : Map String Level) (q : Principal)
    → who ≢ wildcard
    → level_in (delete who m) (some q)
      ≡ (if who == q.name then level_in m none else level_in m (some q))
unfolding level_in lookup_or
level_in-delete who m q h = ground (
  arith,
  lookup-delete who wildcard m,
  lookup-delete who q.name m,
  string_eq.beq_iff who wildcard,
  string_eq.beq_iff who q.name,
)

level_in-delete_anonymous :
    (who : String) (m : Map String Level)
    → who ≢ wildcard
    → level_in (delete who m) none ≡ level_in m none
unfolding level_in lookup_or
level_in-delete_anonymous who m h =
    ground (arith, lookup-delete who wildcard m, string_eq.beq_iff who wildcard)

-- Revoking a principal other than the wildcard leaves it, on every database, exactly the level of
-- the anonymous principal; the level of the anonymous principal and of every principal with
-- another name stays as it was.
pub level-revoke_principal :
    (p : Policy) (who : String) (q : Principal) (db : String)
    → who ≢ wildcard
    → (level (revoke_principal p who) (some q) db
        ≡ (if who == q.name then level p none db else level p (some q) db))
      × (level (revoke_principal p who) none db ≡ level p none db)
unfolding level revoke_principal
level-revoke_principal p who q db h = elim (Option-cases (lookup db p.grants)) [
  | inl e ↦ (
    ground (arith, lookup-revoke_in who db p.grants),
    ground (arith, lookup-revoke_in who db p.grants),
  )
  | inr (m, e) ↦ (
    ground (arith, lookup-revoke_in who db p.grants, level_in-delete who m q h),
    ground (arith, lookup-revoke_in who db p.grants, level_in-delete_anonymous who m h),
  )
]
