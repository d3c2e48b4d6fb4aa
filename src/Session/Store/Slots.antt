-- ===== src/Session/Store/Slots.antt =====
-- The per-database count under every interleaving of the store's critical sections: it is the
-- number of live sessions and of opens in progress, and never above the cap.
pub mod Reachable
use quicsql.Prelude.{
  ℕ, ◌+◌, ◌-◌, ◌≤◌, ◌<◌, ◌≡◌, refl, String, Bool, true, false, ◌==◌, string_eq, bytes_eq, List,
  Option, none, some, if◌then◌else◌, arith, suc, Option-cases, Bool-cases, inl, inr, ◌∷◌, [], sym,
  ap, ◌∙◌, ◌⊎◌,
}
use quicsql.Prelude.Map.{
  Map, lookup, insert, delete, adjust, count, Distinct, lookup-insert, lookup-delete, lookup-adjust,
  lookup_or-insert, Distinct-insert, Distinct-delete, Distinct-adjust, count-delete,
  count-insert_none, count-adjust,
}
use quicsql.Session.Store.{Session, Store, slots, release_slot, close_found, close_locked, reapable}
use quicsql.Session.Store.Reaping.{reap_among, close_idle_among}

-- The sessions of the store on a database.
abbrev pub live : Store → String → ℕ
live st db = count (λ (s : Session). s.db_name == db) st.sessions

-- `waiting` counts the opens that hold a slot and have no session yet.
pub record Inv (st : Store) (waiting : String → ℕ) : Type 0 where
  pub distinct : Distinct st.sessions
  pub named : (id : List ℕ) (s : Session) → lookup id st.sessions ≡ some s → s.id ≡ id
  pub balanced : (db : String) → slots st db ≡ live st db + waiting db
  pub capped : (db : String) → slots st db ≤ st.max

pub slots-release_slot :
    (st : Store) (db db' : String)
    → slots (release_slot st db) db' ≡ (if db == db' then slots st db' - 1 else slots st db')
unfolding release_slot
slots-release_slot st db db' =
    ground (arith, string_eq.beq_iff db db', lookup_or-insert 0 db db' (slots st db - 1) st.per_db)

pub release_slot-sessions :
    (st : Store) (db : String)
    → ((release_slot st db).sessions ≡ st.sessions) × ((release_slot st db).max ≡ st.max)
unfolding release_slot
release_slot-sessions st db = (ground arith, ground arith)

close_found-slots :
    (st : Store) (id : List ℕ) (s : Session) (db : String)
    → slots (close_found st id s) db ≡ (if s.db_name == db then slots st db - 1 else slots st db)
unfolding close_found release_slot
close_found-slots st id s db = ground (
  arith,
  string_eq.beq_iff s.db_name db,
  lookup_or-insert 0 s.db_name db (slots st s.db_name - 1) st.per_db,
)

close_found-rest :
    (st : Store) (id : List ℕ) (s : Session)
    → ((close_found st id s).sessions ≡ delete id st.sessions)
      × ((close_found st id s).max ≡ st.max)
unfolding close_found release_slot
close_found-rest st id s = (ground arith, ground arith)

close_found-Inv :
    (st : Store) (waiting : String → ℕ) (id : List ℕ) (s : Session)
    → lookup id st.sessions ≡ some s
    → Inv st waiting
    → Inv (close_found st id s) waiting
close_found-Inv st waiting id s e v = record {
  distinct = rw ((close_found-rest st id s).0) (Distinct-delete id st.sessions v.distinct);
  named = λ id' s' h. v.named id' s' (kept id' s' (rw ((close_found-rest st id s).0) at h));
  balanced = λ db. balance db;
  capped = λ db. rw (close_found-slots st id s db, (close_found-rest st id s).1) (below db);
}
  where
    kept :
        (id' : List ℕ) (s' : Session)
        → lookup id' (delete id st.sessions) ≡ some s'
        → lookup id' st.sessions ≡ some s'
    kept id' s' h = ground (arith, lookup-delete id id' st.sessions)

    balance :
        (db : String) → slots (close_found st id s) db ≡ live (close_found st id s) db + waiting db
    balance db =
        rw (close_found-slots st id s db, (close_found-rest st id s).0)
          (ground (
            arith,
            v.balanced db,
            count-delete (λ (t : Session). t.db_name == db) id s st.sessions v.distinct e,
          ))

    below : (db : String) → (if s.db_name == db then slots st db - 1 else slots st db) ≤ st.max
    below db = ground (arith, v.capped db)

pub close_locked-Inv :
    (st : Store) (waiting : String → ℕ) (id : List ℕ)
    → Inv st waiting
    → Inv (close_locked st id) waiting
unfolding close_locked
close_locked-Inv st waiting id v = elim (Option-cases (lookup id st.sessions)) [
  | inl e ↦ rw (close_locked, e) v
  | inr (s, e) ↦ rw (close_locked, e) (close_found-Inv st waiting id s e v)
]

-- A write through a session's pointer that leaves its identifier and database alone.
pub adjust-Inv :
    (st : Store) (waiting : String → ℕ) (id : List ℕ) (f : Session → Session)
    → ((s : Session) → (f s).id ≡ s.id)
    → ((s : Session) → (f s).db_name ≡ s.db_name)
    → Inv st waiting
    → Inv (record st { sessions = adjust id f st.sessions }) waiting
adjust-Inv st waiting id f same_id same_db v = record {
  distinct = Distinct-adjust id f st.sessions v.distinct;
  named = λ id' s' h. renamed id' s' (Option-cases (lookup id' st.sessions)) h;
  balanced = λ db.
      v.balanced db
      ∙ ap (λ (n : ℕ). n + waiting db)
          (sym
            (count-adjust (λ (s : Session). s.db_name == db) id f st.sessions λ s. rw (same_db s)));
  capped = v.capped;
}
  where
    renamed :
        (id' : List ℕ) (s' : Session)
        → (lookup id' st.sessions ≡ none) ⊎ ((s : Session) × (lookup id' st.sessions ≡ some s))
        → lookup id' (adjust id f st.sessions) ≡ some s'
        → s'.id ≡ id'
    renamed id' s' (inl e) h = ground (arith, lookup-adjust id id' f st.sessions)
    renamed id' s' (inr (s, e)) h =
        ground (arith, lookup-adjust id id' f st.sessions, same_id s, v.named id' s e)

pub reap_among-Inv :
    (st : Store) (waiting : String → ℕ) (now : ℕ) (m : Map (List ℕ) Session)
    → Inv st waiting
    → Inv (reap_among st now m) waiting
unfolding reap_among
reap_among-Inv st waiting now [] v = v
reap_among-Inv st waiting now ((id, s) ∷ m) v = elim (Bool-cases (reapable st now s)) [
  | inl e ↦
      rw e (reap_among-Inv (close_locked st id) waiting now m (close_locked-Inv st waiting id v))
  | inr e ↦ rw e (reap_among-Inv st waiting now m v)
]

pub close_idle_among-Inv :
    (st : Store) (waiting : String → ℕ) (m : Map (List ℕ) Session)
    → Inv st waiting
    → Inv (close_idle_among st m) waiting
unfolding close_idle_among
close_idle_among-Inv st waiting [] v = v
close_idle_among-Inv st waiting ((id, s) ∷ m) v = elim (Bool-cases s.busy) [
  | inl e ↦ rw e (close_idle_among-Inv st waiting m v)
  | inr e ↦
      rw e (close_idle_among-Inv (close_locked st id) waiting m (close_locked-Inv st waiting id v))
]
