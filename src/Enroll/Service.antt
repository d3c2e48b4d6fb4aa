-- ===== src/Enroll/Service.antt =====
-- enroll/enroll.go: the service. Names, keys, tokens and hashes are bytes, times are seconds. The
-- policy is an interface, and so is what creates and drops an enrollee's database. The rate limit
-- comes before all this: it is a Boolean here.
use quicsql.Prelude.{
  ℕ, nat_eq, ◌+◌, ◌-◌, String, Bool, true, false, ◌&&◌, ◌||◌, not, ◌==◌, bytes_eq, ltb,
  if◌then◌else◌, List, [], ◌∷◌, ◌++◌, Option, none, some, take,
}
use quicsql.Prelude.Int.{ℤ, succ, pred, at_least}
use quicsql.Prelude.Map.{Map, lookup, insert}
use quicsql.Prelude.Result.{Result, ok, err}
use quicsql.Encoding.Strings.{bytes, to_lower, has_prefix}
use quicsql.Encoding.Hex
use quicsql.Authz.Level.{Level, parse_level}
use quicsql.Meta
use quicsql.Meta.{Store, Row, enrolled_by_key}
use quicsql.Auth.Directory.{Directory, add_keyring, remove_keyring_name}

pub record Enroll : Type 0 where
  pub by_token : Bool
  pub tokens : List (List ℕ)
  pub codes_enabled : Bool
  pub code_ttl : ℕ
  pub max_principals : ℕ
  pub grants : List (String × String)
  pub idle_ttl : ℕ
  pub provision : Bool
  pub provision_level : String
  pub drop_on_revoke : Bool

-- authz.Policy, and the digests.
pub record Policies (P : Type 0) : Type 0 where
  pub grant : P → String → List ℕ → Level → P
  pub revoke_principal : P → List ℕ → P

pub record Digests : Type 0 where
  pub sha256 : List ℕ → List ℕ
  pub base32 : List ℕ → List ℕ

pub record Service (P : Type 0) : Type 0 where
  pub store : Store
  pub directory : Directory
  pub policy : P
  pub count : ℤ
  pub seen : Map (List ℕ) ℕ

-- The calls of the meta store that fail.
pub record Faults : Type 0 where
  pub find : Bool
  pub check : Bool
  pub consume : Bool
  pub insert : Bool
  pub confirm : Bool
  pub delete : Bool
  pub release : Bool
  pub touch : Bool
  pub scan : Bool

-- A status, and on success the principal and whether it was created.
pub record Answer : Type 0 where
  pub status : ℕ
  pub principal : Option (List ℕ × Bool)

pub data Registered (P : Type 0) : Type 0 where
  answered : Service P → Answer → Registered P
  registered : Service P → (name code_hash : List ℕ) → Registered P

abbrev pub refused : {P : Type 0} → Service P → ℕ → Registered P
refused s status = answered s (record { status = status; principal = none })

abbrev pub contains : List ℕ → List (List ℕ) → Bool
contains x [] = false
contains x (y ∷ ys) = y == x || contains x ys

unfoldable pub principal_name : Digests → List ℕ → List ℕ
principal_name dg canon = bytes "u_" ++ to_lower (dg.base32 (take 10 (dg.sha256 canon)))

module _ {P : Type 0} (pol : Policies P) where
  unfoldable pub granted_all : List (String × String) → List ℕ → P → P
  granted_all [] name p = p
  granted_all ((db, level) ∷ grants) name p =
      let (lvl, is_level) = parse_level level in
      granted_all grants name (if is_level then pol.grant p db name lvl else p)

module _ {P : Type 0} (dg : Digests) (pol : Policies P) (cfg : Enroll) (bad : Faults) where
  -- Whether the token passes, and the hash of the code to consume.
  unfoldable pub validate_token : Store → List ℕ → ℕ → Bool × List ℕ
  validate_token st token now =
      let hexsum = Hex.encode (dg.sha256 token) in
      if token == []
      then (false, [])
      else if contains hexsum cfg.tokens
      then (true, [])
      else if cfg.codes_enabled && not bad.check && Meta.enroll_code_valid st hexsum now
      then (true, hexsum)
      else (false, [])

  abbrev pub released : Store → List ℕ → Store
  released st code_hash =
      if code_hash == [] || bad.release then st else Meta.release_enroll_code st code_hash

  -- The code is consumed, if there is one; otherwise the status to refuse with.
  unfoldable pub consumed : Store → List ℕ → ℕ → Result ℕ Store
  consumed st code_hash now =
      if code_hash == []
      then ok st
      else if bad.consume
      then err 500
      else let (st1, won) = Meta.consume_enroll_code st code_hash now in
        if won then ok st1 else err 403

  -- What a registration does in memory once its row is written.
  abbrev pub admit : Service P → List ℕ → List ℕ → List ℕ → Service P
  admit s canon pub_key name = record s {
    directory = add_keyring s.directory canon pub_key name;
    policy = granted_all pol cfg.grants name s.policy;
    count = succ s.count;
  }

  unfoldable pub write_enrolled :
      Service P → Store → List ℕ → List ℕ → List ℕ → List ℕ → ℕ → Registered P
  write_enrolled s st canon pub_key name code_hash now =
      elim (if bad.insert then none else Meta.put_enrolled st name canon now) [
        | none ↦ refused (record s { store = released st code_hash }) 500
        | some st1 ↦ registered (admit (record s { store = st1 }) canon pub_key name) name code_hash
      ]

  abbrev pub full : Service P → Bool
  full s = ltb 0 cfg.max_principals && at_least cfg.max_principals s.count

  -- The locked section, behind the possession proof.
  unfoldable pub register : Service P → List ℕ → List ℕ → List ℕ → ℕ → Registered P
  register s canon pub_key token now =
      if bad.find then refused s 500 else elim (enrolled_by_key s.store canon) [
        | some existing ↦ answered s (record { status = 200; principal = some (existing, false) })
        | none ↦
            let (passed, code_hash) =
              if cfg.by_token then validate_token s.store token now else (true, []) in
            if not passed
            then refused s 403
            else if full s
            then refused s 429
            else elim (consumed s.store code_hash now) [
              | err status ↦ refused s status
              | ok st ↦ write_enrolled s st canon pub_key (principal_name dg canon) code_hash now
            ]
      ]

  unfoldable pub rollback_enroll : Service P → List ℕ → List ℕ → Service P
  rollback_enroll s name code_hash =
      let (st, existed) =
        if bad.delete then (s.store, false) else Meta.delete_enrolled s.store name in
      record s {
        store = released st code_hash;
        count = if existed then pred s.count else s.count;
        directory = remove_keyring_name s.directory name;
        policy = pol.revoke_principal s.policy name;
      }

  -- `created` is whether the enrollee's database, whose name is `db`, could be created or was there.
  unfoldable pub finish : Service P → List ℕ → List ℕ → List ℕ → String → Bool → Service P × Answer
  finish s canon name code_hash db created =
      let done : Answer = record { status = 200; principal = some (name, true) } in
      if not cfg.provision
      then (s, done)
      else if bad.confirm || not (Meta.is_some (enrolled_by_key s.store canon))
      then (rollback_enroll s name code_hash, record { status = 409; principal = none })
      else if not created
      then (rollback_enroll s name code_hash, record { status = 500; principal = none })
      else let (lvl, is_level) = parse_level cfg.provision_level in
        ((if is_level then record s { policy = pol.grant s.policy db name lvl } else s), done)

  -- A request that nothing comes in between of. `proof` is what VerifyPresented gives.
  unfoldable pub enroll :
      Service P
      → Bool
      → Bool
      → Option (List ℕ × List ℕ)
      → List ℕ
      → String
      → Bool
      → ℕ
      → Service P × Answer
  enroll s is_post allowed proof token db created now =
      if not is_post
      then (s, record { status = 405; principal = none })
      else if not allowed
      then (s, record { status = 429; principal = none })
      else elim proof [
        | none ↦ (s, record { status = 401; principal = none })
        | some (canon, pub_key) ↦ elim (register s canon pub_key token now) [
          | answered s1 a ↦ (s1, a)
          | registered s1 name code_hash ↦ finish s1 canon name code_hash db created
        ]
      ]

  -- A removal up to its row. `busy` is that the enrollee's database could not be dropped; `none` is
  -- an error, else whether there was a row.
  unfoldable pub delete_row : Service P → List ℕ → Bool → Service P × Option Bool
  delete_row s name busy =
      if cfg.provision && cfg.drop_on_revoke && busy
      then (s, none)
      else if bad.delete
      then (s, none)
      else let (st, existed) = Meta.delete_enrolled s.store name in
        (record s { store = st }, some existed)

  unfoldable pub forget_key : Service P → List ℕ → Service P
  forget_key s name = record s { directory = remove_keyring_name s.directory name }

  unfoldable pub forget_grants : Service P → List ℕ → Service P
  forget_grants s name = record s { policy = pol.revoke_principal s.policy name }

  -- The locked section of a removal, its last.
  unfoldable pub count_down : Service P → Service P
  count_down s = record s { count = pred s.count }

  -- A removal that nothing comes in between of.
  unfoldable pub delete : Service P → List ℕ → Bool → Service P × Option Bool
  delete s name busy =
      let (s1, gone) = delete_row s name busy in
      elim gone [
        | none ↦ (s1, none)
        | some existed ↦
            if existed
            then (count_down (forget_grants (forget_key s1 name) name), some true)
            else (s1, some false)
      ]

  unfoldable pub touch : Service P → List ℕ → ℕ → Service P
  touch s name now =
      if cfg.idle_ttl == 0 || not (has_prefix (bytes "u_") name)
      then s
      else record s { seen = insert name now s.seen }

  -- What a failed flush puts back: the later time of each name.
  unfoldable pub rebuffered : Map (List ℕ) ℕ → Map (List ℕ) ℕ → Map (List ℕ) ℕ
  rebuffered [] seen = seen
  rebuffered ((name, at) ∷ batch) seen = rebuffered batch (elim (lookup name seen) [
    | none ↦ insert name at seen
    | some cur ↦ if ltb cur at then insert name at seen else seen
  ])

  -- `meanwhile` is what was touched while the flush was writing.
  unfoldable pub flush_seen : Service P → Map (List ℕ) ℕ → Service P
  flush_seen s meanwhile =
      if bad.touch
      then record s { seen = rebuffered s.seen meanwhile }
      else record s { seen = meanwhile; store = Meta.touch_enrolled s.store s.seen }

  -- Each idle name in turn, with how many went.
  unfoldable pub reap_names : Service P → List (List ℕ) → (List ℕ → Bool) → Service P × ℕ
  reap_names s [] busy = (s, 0)
  reap_names s (name ∷ names) busy =
      let (s1, gone) = delete s name (busy name) in
      let (s2, n) = reap_names s1 names busy in
      (s2, elim gone [ none ↦ n | some existed ↦ if existed then n + 1 else n ])

  unfoldable pub reap : Service P → ℕ → (List ℕ → Bool) → Service P × ℕ
  reap s now busy =
      if cfg.idle_ttl == 0
      then (s, 0)
      else let s1 = flush_seen s [] in
        if bad.scan
        then (s1, 0)
        else reap_names s1 (Meta.idle_enrolled s1.store (now - cfg.idle_ttl)) busy

  -- The store with the code, and when it expires.
  unfoldable pub mint_code : Store → List ℕ → ℕ → Option (Store × ℕ)
  mint_code st code now =
      if not cfg.codes_enabled
      then none
      else elim (Meta.put_enroll_code (Meta.gc_enroll_codes st now) (Hex.encode (dg.sha256 code))
          now (now + cfg.code_ttl)) [ none ↦ none | some st1 ↦ some (st1, now + cfg.code_ttl) ]
