-- ===== src/Config/Sound.antt =====
-- What an accepted configuration guarantees to enrolment.
use quicsql.Prelude.{
  ℕ, Bool, ◌≡◌, refl, true, false, ◌&&◌, ◌||◌, ◌==◌, not, nat_eq, bytes_eq, List, [], ◌∷◌, none,
  some, arith, Option, length,
}
use quicsql.Encoding.Strings.{bytes, has_prefix, has_prefix-append}
use quicsql.Enroll.Service.{Digests, principal_name}
use quicsql.Config.Auth.{
  Config, ConfigError, PrincipalConfig, GrantConfig, among, principal_names, validate_auth,
  validate_principals, validate_grants, validate_databases, validate_admins, ◌then_check◌,
  refuse_if, validate_listeners, negative, negative_ttl, below, max_below_idle, validate_enroll,
  no_admins, reserved_principal, unknown_admin, unknown_grantee,
}

-- The subjects of a database's grants.
abbrev pub subjects : List GrantConfig → List (List ℕ)
subjects [] = []
subjects (g ∷ gs) = g.subject ∷ subjects gs

-- Some database grants something to the name.
abbrev pub granted : List ℕ → List (List GrantConfig) → Bool
granted name [] = false
granted name (gs ∷ dbs) = among name (subjects gs) || granted name dbs

then_check-none : (a b : Option ConfigError) → (a then_check b) ≡ none → (a ≡ none) × (b ≡ none)
then_check-none none b e = (refl, e)
then_check-none (some x) b e = absurd (ground arith)

refuse_if-none : (bad : Bool) (x : ConfigError) → refuse_if bad x ≡ none → bad ≡ false
refuse_if-none bad x e = ground arith

-- A name with the reserved prefix.
abbrev IsReserved : List ℕ → Type 0
IsReserved name = has_prefix (bytes "u_") name ≡ true

other-name :
    (a name : List ℕ) → has_prefix (bytes "u_") a ≡ false → IsReserved name → (a == name) ≡ false
other-name a name h r = ground (arith, bytes_eq.beq_iff a name)

validate_principals-among :
    (seen : List (List ℕ)) (ps : List PrincipalConfig) (name : List ℕ)
    → IsReserved name
    → validate_principals seen ps ≡ none
    → among name (principal_names ps) ≡ false
unfolding validate_principals
validate_principals-among seen [] name r e = refl
validate_principals-among seen (p ∷ ps) name r e =
    let (e1, f1) = then_check-none _ _ e in
    let (e2, f2) = then_check-none _ _ f1 in
    let (e3, f3) = then_check-none _ _ f2 in
    let (e4, f4) = then_check-none _ _ f3 in
    let fresh = refuse_if-none (has_prefix (bytes "u_") p.name) reserved_principal e2 in
    let rest = validate_principals-among (p.name ∷ seen) ps name r f4 in
    ground (arith, other-name p.name name fresh r, rest)

validate_admins-among :
    (names admins : List (List ℕ)) (name : List ℕ)
    → among name names ≡ false
    → validate_admins names admins ≡ none
    → among name admins ≡ false
unfolding validate_admins
validate_admins-among names [] name h e = refl
validate_admins-among names (a ∷ admins) name h e =
    let (e1, f1) = then_check-none _ _ e in
    let known = refuse_if-none (not (among a names)) unknown_admin e1 in
    let rest = validate_admins-among names admins name h f1 in
    ground (arith, bytes_eq.beq_iff a name, rest)

validate_grants-among :
    (names : List (List ℕ)) (gs : List GrantConfig) (name : List ℕ)
    → IsReserved name
    → among name names ≡ false
    → validate_grants names gs ≡ none
    → among name (subjects gs) ≡ false
unfolding validate_grants has_prefix
validate_grants-among names [] name r h e = refl
validate_grants-among names (g ∷ gs) name r h e =
    let (e1, f1) = then_check-none _ _ e in
    let (e2, f2) = then_check-none _ _ f1 in
    let known =
      refuse_if-none (not (g.subject == bytes "*") && not (among g.subject names)) unknown_grantee
        e2 in
    let rest = validate_grants-among names gs name r h f2 in
    let star = other-name (bytes "*") name refl r in
    ground (
      arith,
      bytes_eq.beq_iff g.subject name,
      bytes_eq.beq_iff g.subject (bytes "*"),
      bytes_eq.beq_iff (bytes "*") name,
      rest,
      star,
    )

validate_databases-granted :
    (names : List (List ℕ)) (dbs : List (List GrantConfig)) (name : List ℕ)
    → IsReserved name
    → among name names ≡ false
    → validate_databases names dbs ≡ none
    → granted name dbs ≡ false
unfolding validate_databases
validate_databases-granted names [] name r h e = refl
validate_databases-granted names (gs ∷ dbs) name r h e =
    let (e1, f1) = then_check-none _ _ e in
    ground (
      arith,
      validate_grants-among names gs name r h e1,
      validate_databases-granted names dbs name r h f1,
    )

principal_name-IsReserved : (dg : Digests) (canon : List ℕ) → IsReserved (principal_name dg canon)
unfolding principal_name
principal_name-IsReserved dg canon = has_prefix-append (bytes "u_") _

-- Under a configuration that `validate_auth` accepts, the name that an enrolment gives to a key,
-- whatever the key, is not the name of a configured principal, is not an administrator of the
-- control plane, and is the subject of no grant of a configured database.
pub validate_auth-principal_name :
    (c : Config) (dg : Digests) (canon : List ℕ)
    → validate_auth c ≡ none
    → (among (principal_name dg canon) (principal_names c.principals) ≡ false)
      × (among (principal_name dg canon) c.admins ≡ false)
      × (granted (principal_name dg canon) c.databases ≡ false)
unfolding validate_auth
validate_auth-principal_name c dg canon e =
    let name = principal_name dg canon in
    let r = principal_name-IsReserved dg canon in
    let names = principal_names c.principals in
    let (e1, f1) = then_check-none (validate_listeners c c.listeners) _ e in
    let (e2, f2) =
      then_check-none (refuse_if (negative c.idle_ttl || negative c.max_ttl) negative_ttl) _ f1 in
    let (e3, f3) = then_check-none (refuse_if (below c.max_ttl c.idle_ttl) max_below_idle) _ f2 in
    let (e4, f4) = then_check-none (validate_enroll c) _ f3 in
    let (e5, f5) = then_check-none (validate_principals [] c.principals) _ f4 in
    let (e6, f6) = then_check-none (validate_databases names c.databases) _ f5 in
    let (e7, e8) =
      then_check-none (refuse_if (c.control_plane && length c.admins == 0) no_admins) _ f6 in
    let new = validate_principals-among [] c.principals name r e5 in
    (
      new,
      validate_admins-among names c.admins name new e8,
      validate_databases-granted names c.databases name r new e6,
    )
