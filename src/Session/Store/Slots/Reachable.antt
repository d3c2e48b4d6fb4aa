-- ===== src/Session/Store/Slots/Reachable.antt =====
-- Every step keeps the invariant, so every reachable store has it.
use quicsql.Prelude.{
  ℕ, ◌+◌, ◌-◌, ◌≤◌, ◌<◌, ◌≡◌, refl, String, ◌==◌, string_eq, bytes_eq, List, none, some, arith,
  Option-cases, Bool-cases, inl, inr, subst, nat_eq, length,
}
use quicsql.Prelude.Map.{
  lookup, insert, count, lookup-insert, lookup_or, lookup_or-insert, Distinct-insert,
  count-insert_none,
}
use quicsql.Prelude.Int.{ℤ}
use quicsql.Encoding.Base64
use quicsql.Session.Baton.{Mac, id_len}
use quicsql.Session.Store.{
  Session, Store, slots, release_slot, set_capture, take_capture, store_sql, drop_sql, new_store,
}
use quicsql.Session.Store.Open.{Request, reserve, finish_open, new_session}
use quicsql.Session.Store.Requests.{resume, baton, close, consume, idle_at}
use quicsql.Session.Store.Requests.Outcomes.{resume_cases}
use quicsql.Session.Store.Reaping.{reap, close_all, kill, kill_id}
use quicsql.Session.Store.Steps.{
  World, Step, Steps, raised, lowered, begins, gives_up, has_no_id, publishes, resumes, finishes,
  closes, kills, reaps, shuts_down, stores_sql, drops_sql, captures, hands_over, here, next,
}
use quicsql.Session.Store.Slots.{
  Inv, live, slots-release_slot, release_slot-sessions, close_locked-Inv, adjust-Inv,
  reap_among-Inv, close_idle_among-Inv,
}

reserved : Store → String → Store
reserved st db = record st { per_db = insert db (slots st db + 1) st.per_db }

reserve-some :
    (st st' : Store) (db : String)
    → reserve st db ≡ some st'
    → (slots st db < st.max) × (reserved st db ≡ st')
unfolding reserve reserved
reserve-some st st' db h = (ground arith, ground arith)

reserved-Inv :
    (st : Store) (waiting : String → ℕ) (db : String)
    → slots st db < st.max
    → Inv st waiting
    → Inv (reserved st db) (raised db waiting)
unfolding reserved
reserved-Inv st waiting db h v = record {
  distinct = v.distinct;
  named = v.named;
  balanced = λ d.
      rw (lookup_or-insert 0 db d (slots st db + 1) st.per_db)
        (ground (arith, v.balanced d, v.balanced db, string_eq.beq_iff db d));
  capped =
      λ d. rw (lookup_or-insert 0 db d (slots st db + 1) st.per_db) (ground (arith, v.capped d));
}

reserve-Inv :
    (st st' : Store) (waiting : String → ℕ) (db : String)
    → reserve st db ≡ some st'
    → Inv st waiting
    → Inv st' (raised db waiting)
reserve-Inv st st' waiting db h v =
    let r = reserve-some st st' db h in
    subst (λ (t : Store). Inv t (raised db waiting)) r.1 (reserved-Inv st waiting db r.0 v)

give_up-Inv :
    (st : Store) (waiting : String → ℕ) (db : String)
    → 0 < waiting db
    → Inv st waiting
    → Inv (release_slot st db) (lowered db waiting)
give_up-Inv st waiting db h v = record {
  distinct = rw ((release_slot-sessions st db).0) v.distinct;
  named = rw ((release_slot-sessions st db).0) v.named;
  balanced = λ d.
      rw (slots-release_slot st db d, (release_slot-sessions st db).0)
        (ground (arith, v.balanced d, string_eq.beq_iff db d));
  capped = λ d.
      rw (slots-release_slot st db d, (release_slot-sessions st db).1) (ground (arith, v.capped d));
}

no_id-Inv :
    (st : Store) (waiting : String → ℕ) (r : Request) (conn now : ℕ)
    → 0 < waiting r.db_name
    → Inv st waiting
    → Inv (finish_open st r conn none now).0 (lowered r.db_name waiting)
unfolding finish_open
no_id-Inv st waiting r conn now h v = record {
  distinct = v.distinct;
  named = v.named;
  balanced = λ d.
      rw (lookup_or-insert 0 r.db_name d (slots st r.db_name - 1) st.per_db)
        (ground (arith, v.balanced d, v.balanced r.db_name, string_eq.beq_iff r.db_name d));
  capped = λ d.
      rw (lookup_or-insert 0 r.db_name d (slots st r.db_name - 1) st.per_db)
        (ground (arith, v.capped d, v.capped r.db_name));
}

publish-Inv :
    (st : Store) (waiting : String → ℕ) (r : Request) (conn : ℕ) (id : List ℕ) (now : ℕ)
    → 0 < waiting r.db_name
    → lookup id st.sessions ≡ none
    → Inv st waiting
    → Inv (finish_open st r conn (some id) now).0 (lowered r.db_name waiting)
unfolding finish_open
publish-Inv st waiting r conn id now h fresh v = record {
  distinct = Distinct-insert id (new_session r id conn now) st.sessions v.distinct;
  named = λ id' s' e. ground (
    arith,
    lookup-insert id id' (new_session r id conn now) st.sessions,
    bytes_eq.beq_iff id id',
    v.named id' s',
  );
  balanced = λ d. ground (
    arith,
    v.balanced d,
    count-insert_none (λ (s : Session). s.db_name == d) id (new_session r id conn now) st.sessions
        fresh,
    string_eq.beq_iff r.db_name d,
  );
  capped = v.capped;
}

kill_id-Inv :
    (st : Store) (waiting : String → ℕ) (id : List ℕ)
    → Inv st waiting
    → Inv (kill_id st id).0 waiting
unfolding kill_id
kill_id-Inv st waiting id v = elim (Option-cases (lookup id st.sessions)) [
  | inl e ↦ rw (kill_id, e) v
  | inr (s, e) ↦ elim (Bool-cases s.busy) [
    | inl b ↦ rw (kill_id, e, b) v
    | inr b ↦ rw (kill_id, e, b) (close_locked-Inv st waiting id v)
  ]
]

kill-Inv :
    (st : Store) (waiting : String → ℕ) (text : List ℕ)
    → Inv st waiting
    → Inv (kill st text).0 waiting
unfolding kill
kill-Inv st waiting text v = elim (Option-cases (Base64.decode text)) [
  | inl e ↦ rw (kill, e) v
  | inr (raw, e) ↦ elim (Bool-cases (length raw == id_len)) [
    | inl l ↦ rw (kill, e, l) (kill_id-Inv st waiting raw v)
    | inr l ↦ rw (kill, e, l) v
  ]
]

close_all-Inv : (st : Store) (waiting : String → ℕ) → Inv st waiting → Inv (close_all st) waiting
unfolding close_all
close_all-Inv st waiting v =
    let c = close_idle_among-Inv st waiting st.sessions v in
    record { distinct = c.distinct; named = c.named; balanced = c.balanced; capped = c.capped }

resume-Inv :
    (mac : Mac) (st : Store) (waiting : String → ℕ) (text : List ℕ) (db principal : String)
    (now : ℕ)
    → Inv st waiting
    → Inv (resume mac st text db principal now).0 waiting
unfolding consume
resume-Inv mac st waiting text db principal now v =
    resume_cases mac st text db principal now (λ r. Inv r.0 waiting) (λ e. v)
      (λ id s _ _ _. close_locked-Inv st waiting id v)
      (λ id gen s _ _ _. adjust-Inv st waiting id (consume now) (λ t. refl) (λ t. refl) v)

pub Step-Inv :
    (mac : Mac) {w u : World} → Step mac w u → Inv w.store w.waiting → Inv u.store u.waiting
Step-Inv mac {w} (begins db st h e) v = rw e (reserve-Inv w.store st w.waiting db h v)
Step-Inv mac {w} (gives_up db h e) v = rw e (give_up-Inv w.store w.waiting db h v)
Step-Inv mac {w} (has_no_id r conn now h e) v = rw e (no_id-Inv w.store w.waiting r conn now h v)
Step-Inv mac {w} (publishes r conn id now h fresh e) v =
    rw e (publish-Inv w.store w.waiting r conn id now h fresh v)
Step-Inv mac {w} (resumes text db principal now e) v =
    rw e (resume-Inv mac w.store w.waiting text db principal now v)
Step-Inv mac {w} (finishes s now e) v = rw e (
    unfold baton idle_at in
    adjust-Inv w.store w.waiting s.id (idle_at now) (λ t. refl) (λ t. refl) v)
Step-Inv mac {w} (closes s e) v = rw e (unfold close in close_locked-Inv w.store w.waiting s.id v)
Step-Inv mac {w} (kills text e) v = rw e (kill-Inv w.store w.waiting text v)
Step-Inv mac {w} (reaps now e) v =
    rw e (unfold reap in reap_among-Inv w.store w.waiting now w.store.sessions v)
Step-Inv mac {w} (shuts_down e) v = rw e (close_all-Inv w.store w.waiting v)
Step-Inv mac {w} (stores_sql id key text e) v = rw e (
    unfold store_sql in
    adjust-Inv w.store w.waiting id (λ s. store_sql s key text) (λ t. refl) (λ t. refl) v)
Step-Inv mac {w} (drops_sql id key e) v = rw e (
    unfold drop_sql in
    adjust-Inv w.store w.waiting id (λ s. drop_sql s key) (λ t. refl) (λ t. refl) v)
Step-Inv mac {w} (captures id c e) v = rw e (
    unfold set_capture in
    adjust-Inv w.store w.waiting id (λ s. set_capture s c) (λ t. refl) (λ t. refl) v)
Step-Inv mac {w} (hands_over id e) v = rw e (
    unfold take_capture in
    adjust-Inv w.store w.waiting id (λ s. (take_capture s).0) (λ t. refl) (λ t. refl) v)

pub Steps-Inv :
    (mac : Mac) {w : World} {n : ℕ} {u : World}
    → Inv w.store w.waiting
    → Steps mac w n u
    → Inv u.store u.waiting
Steps-Inv mac v here = v
Steps-Inv mac v (next r st) = Step-Inv mac st (Steps-Inv mac v r)

abbrev pub fresh_world : List ℕ → ℤ → ℤ → ℤ → World
fresh_world key ttl max_life max = record {
  store = new_store key ttl max_life max;
  waiting = λ db. 0;
}

new_store-Inv :
    (key : List ℕ) (ttl max_life max : ℤ) → Inv (new_store key ttl max_life max) (λ db. 0)
unfolding new_store
new_store-Inv key ttl max_life max = record {
  distinct = tt;
  named = λ id s h. unfold lookup in cc;
  balanced = λ db. unfold lookup lookup_or count in refl;
  capped = λ db. unfold lookup lookup_or in omega arith;
}

-- From a new store, after any interleaving of opens, resumes, responses, closes, kills, reaps,
-- shutdowns and uses of a session, the count of each database is the number of its live sessions
-- and of its opens in progress, and is at most the cap.
pub slots-Steps :
    (mac : Mac) (key : List ℕ) (ttl max_life max : ℤ) (n : ℕ) (u : World) (db : String)
    → Steps mac (fresh_world key ttl max_life max) n u
    → (slots u.store db ≡ live u.store db + u.waiting db)
      × (live u.store db + u.waiting db ≤ u.store.max)
slots-Steps mac key ttl max_life max n u db r =
    let v = Steps-Inv mac (new_store-Inv key ttl max_life max) r in
    (v.balanced db, omega (arith, v.balanced db, v.capped db))
