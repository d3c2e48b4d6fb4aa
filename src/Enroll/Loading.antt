-- ===== src/Enroll/Loading.antt =====
-- enroll/enroll.go, LoadExisting: the enrolled principals of the store come back at startup. A row
-- whose key does not parse is skipped.
use quicsql.Prelude.{
  ℕ, ◌+◌, ◌≡◌, ◌≢◌, refl, sym, ap, subst, ◌∙◌, bytes_eq, if◌then◌else◌, List, [], ◌∷◌, length,
  Option, none, some, All, arith, Bool-cases, Option-cases, inl, inr,
}
use mathlib.Core.Option.{none-ne-some}
use quicsql.Prelude.Int.{pos}
use quicsql.Prelude.Map.{Map, lookup, Distinct}
use quicsql.Auth.Directory.{SshKey, KeyringCred, parse_ed25519, add_keyring}
use quicsql.Meta.{Row, enrolled_by_key}
use quicsql.Enroll.Service.{Enroll, Policies, Service, Faults, granted_all}
use quicsql.Enroll.Sync.{Synced, lookup-add_keyring, Distinct-add_keyring}

module _ {P : Type 0} (pol : Policies P) (cfg : Enroll) (ssh : List ℕ → Option SshKey) where
  -- The rows in turn, with how many were admitted so far.
  unfoldable pub load_rows : Map (List ℕ) Row → Service P → ℕ → Service P × ℕ
  load_rows [] s n = (s, n)
  load_rows ((name, row) ∷ rows) s n = elim (parse_ed25519 ssh row.key) [
    | none ↦ load_rows rows s n
    | some k ↦
        load_rows rows
          (record s {
            directory = add_keyring s.directory row.key k.key name;
            policy = granted_all pol cfg.grants name s.policy;
          })
          (n + 1)
  ]

  -- `none` is that the rows cannot be read.
  unfoldable pub load_existing : Faults → Service P → Option (Service P)
  load_existing bad s =
      if bad.scan
      then none
      else let (s1, n) = load_rows s.store.enrolled s 0 in some (record s1 { count = pos n })

  -- The keys that are live agree with the rows.
  pub record Live (s : Service P) : Type 0 where
    pub keys : Distinct s.directory.dyn_keyring
    pub live :
        (canon : List ℕ) (cred : KeyringCred)
        → lookup canon s.directory.dyn_keyring ≡ some cred
        → enrolled_by_key s.store canon ≡ some cred.name

  -- A key that parses and that finds its own row.
  abbrev Loadable : Service P → List ℕ × Row → Type 0
  Loadable s x = (parse_ed25519 ssh x.1.key ≢ none) × (enrolled_by_key s.store x.1.key ≡ some x.0)

  add_zero : {n k : ℕ} → n ≡ 0 + k → n ≡ k
  add_zero e = omega (arith, e)

  Live-fresh : (s : Service P) → s.directory.dyn_keyring ≡ [] → Live s
  unfolding lookup
  Live-fresh s fresh = record {
    keys = subst Distinct (sym fresh) tt;
    live = λ canon cred h. absurd (none-ne-some cred (ap (lookup canon) (sym fresh) ∙ h));
  }

  Live-added :
      (s : Service P) (name pub_key : List ℕ) (row : Row) (p : P)
      → enrolled_by_key s.store row.key ≡ some name
      → Live s
      → Live (record s { directory = add_keyring s.directory row.key pub_key name; policy = p })
  Live-added s name pub_key row p found w = record {
    keys = Distinct-add_keyring s.directory row.key pub_key name w.keys;
    live = λ canon cred h. elim (lookup-add_keyring s.directory row.key pub_key name canon cred h) [
      | inl (same, named) ↦ ap (enrolled_by_key s.store) same ∙ (found ∙ ap some (sym named))
      | inr old ↦ w.live canon cred old
    ];
  }

  load_rows-Live :
      (rows : Map (List ℕ) Row) (s : Service P) (n : ℕ)
      → All (λ x. Loadable s x) rows
      → Live s
      → Live (load_rows rows s n).0
        × ((load_rows rows s n).0.store ≡ s.store)
        × ((load_rows rows s n).1 ≡ n + length rows)
  unfolding load_rows
  load_rows-Live [] s n h w = (w, refl, omega arith)
  load_rows-Live ((name, row) ∷ rows) s n h w = elim (Option-cases (parse_ed25519 ssh row.key)) [
    | inl bad ↦ absurd (h.0.0 bad)
    | inr (k, parsed) ↦
        let s1 = record s {
          directory = add_keyring s.directory row.key k.key name;
          policy = granted_all pol cfg.grants name s.policy;
        } in
        let (live, same, size) =
          load_rows-Live rows s1 (n + 1) h.1 (Live-added s name k.key row _ h.0.1 w) in
        rw (load_rows, parsed) (live, same, omega (arith, size))
  ]

  -- At startup the service is in step: the rows are distinct, each key parses and belongs to one row,
  -- and nothing is enrolled at run time yet.
  pub load_existing-Synced :
      (bad : Faults) (s s' : Service P)
      → Distinct s.store.enrolled
      → All
          (λ x. (parse_ed25519 ssh x.1.key ≢ none) × (enrolled_by_key s.store x.1.key ≡ some x.0))
          s.store.enrolled
      → s.directory.dyn_keyring ≡ []
      → load_existing bad s ≡ some s'
      → Synced s'
  unfolding load_existing
  load_existing-Synced bad s s' d h fresh e = elim (Bool-cases bad.scan) [
    | inl failed ↦ absurd (ground arith)
    | inr works ↦
        let (w, same, size) = load_rows-Live s.store.enrolled s 0 h (Live-fresh s fresh) in
        let loaded : record (load_rows s.store.enrolled s 0).0 {
          count = pos (load_rows s.store.enrolled s 0).1;
        }
            ≡ s' =
          ground arith in
        subst Synced loaded (record {
          counted = ap pos (add_zero size ∙ ap (λ x. length x.enrolled) (sym same));
          rows = subst (λ x. Distinct x.enrolled) (sym same) d;
          keys = w.keys;
          live = w.live;
        })
  ]
