-- ===== src/Session/Store/Evolution.antt =====
-- How one operation may change the sessions of the store: which stay, which go, and what of a
-- session can change.
use quicsql.Prelude.{
  ℕ, ◌+◌, ◌%◌, ◌≡◌, refl, false, ◌==◌, bytes_eq, List, none, some, arith, ◌⊎◌, inl, inr, [], ◌∷◌,
  Option-cases, if_cases, length, nat_eq, if◌then◌else◌, not,
}
use quicsql.Prelude.Map.{Map, lookup, delete, adjust, lookup-delete, lookup-adjust}
use quicsql.Encoding.Base64
use quicsql.Encoding.BigEndian.{word}
use quicsql.Session.Baton.{id_len}
use quicsql.Session.Store.{Session, Store, release_slot, close_found, close_locked, reapable}
use quicsql.Session.Store.Requests.{consume}
use quicsql.Session.Store.Reaping.{
  KillResult, reap_among, close_idle_among, kill, kill_id, killed, not_found, kill_busy,
}

-- Sessions only go away.
abbrev pub Shrinks : Store → Store → Type 0
Shrinks st st' =
    (id : List ℕ) (s : Session) → lookup id st'.sessions ≡ some s → lookup id st.sessions ≡ some s

-- What a session keeps for life, and how its generation moves.
pub record Moves (s t : Session) : Type 0 where
  pub same_id : t.id ≡ s.id
  pub same_conn : t.conn ≡ s.conn
  pub same_db : t.db_name ≡ s.db_name
  pub same_principal : t.principal ≡ s.principal
  pub same_mode : (t.read_only ≡ s.read_only) × (t.attach ≡ s.attach)
  pub gen_moves : (t.gen ≡ s.gen) ⊎ (t.gen ≡ (s.gen + 1) % word)

close_found-sessions :
    (st : Store) (id : List ℕ) (s : Session)
    → (close_found st id s).sessions ≡ delete id st.sessions
unfolding close_found release_slot
close_found-sessions st id s = ground arith

-- After closing `id` a lookup finds what it found, but nothing under `id`.
pub lookup-close_locked :
    (st : Store) (id j : List ℕ)
    → lookup j (close_locked st id).sessions ≡ (if id == j then none else lookup j st.sessions)
unfolding close_locked
lookup-close_locked st id j = elim (Option-cases (lookup id st.sessions)) [
  | inl e ↦ rw (close_locked, e) (ground (arith, bytes_eq.beq_iff id j))
  | inr (s, e) ↦ rw (close_locked, e, close_found-sessions st id s) (lookup-delete id j st.sessions)
]

pub close_locked-Shrinks : (st : Store) (id : List ℕ) → Shrinks st (close_locked st id)
close_locked-Shrinks st id j s h = ground (arith, lookup-close_locked st id j)

reapable-close_locked :
    (st : Store) (id : List ℕ) (now : ℕ) (s : Session)
    → reapable (close_locked st id) now s ≡ reapable st now s
unfolding reapable close_locked close_found release_slot
reapable-close_locked st id now s = ground arith

pub reap_among-Shrinks :
    (st : Store) (now : ℕ) (m : Map (List ℕ) Session) → Shrinks st (reap_among st now m)
unfolding reap_among
reap_among-Shrinks st now [] = λ j s h. h
reap_among-Shrinks st now ((id, t) ∷ m) =
    if_cases (λ st'. Shrinks st (reap_among st' now m)) (reapable st now t)
      (λ _ j s h.
        close_locked-Shrinks st id j s (reap_among-Shrinks (close_locked st id) now m j s h))
      (λ _. reap_among-Shrinks st now m)

pub close_idle_among-Shrinks :
    (st : Store) (m : Map (List ℕ) Session) → Shrinks st (close_idle_among st m)
unfolding close_idle_among
close_idle_among-Shrinks st [] = λ j s h. h
close_idle_among-Shrinks st ((id, t) ∷ m) =
    if_cases (λ st'. Shrinks st (close_idle_among st' m)) t.busy
      (λ _. close_idle_among-Shrinks st m)
      (λ _ j s h.
        close_locked-Shrinks st id j s (close_idle_among-Shrinks (close_locked st id) m j s h))

-- Kill leaves the store alone, or closes one session that has no request in flight.
pub kill_cases {ℓ} :
    (st : Store) (text : List ℕ) (P : Store × KillResult → Type ℓ)
    → P (st, not_found)
    → P (st, kill_busy)
    → ((id : List ℕ) (s : Session)
        → lookup id st.sessions ≡ some s
        → s.busy ≡ false
        → P (close_locked st id, killed))
    → P (kill st text)
unfolding kill
kill_cases st text P missing busy idle = elim (Option-cases (Base64.decode text)) [
  | inl e ↦ rw (kill, e) missing
  | inr (raw, e) ↦
      rw (kill, e)
        (if_cases P (not (length raw == id_len)) (λ _. missing)
          λ _. elim (Option-cases (lookup raw st.sessions)) [
            | inl l ↦ unfold kill_id in rw (kill_id, l) missing
            | inr (s, l) ↦
                unfold kill_id in rw (kill_id, l) (if_cases P s.busy (λ _. busy) (idle raw s l))
          ])
]

pub kill-Shrinks : (st : Store) (text : List ℕ) → Shrinks st (kill st text).0
kill-Shrinks st text =
    kill_cases st text (λ r. Shrinks st r.0) (λ j s h. h) (λ j s h. h)
      λ id s _ _. close_locked-Shrinks st id

-- A session found after a write through a pointer is the old one, or the old one written to.
pub lookup-adjust-some :
    (st : Store) (id : List ℕ) (f : Session → Session) (j : List ℕ) (t : Session)
    → lookup j (adjust id f st.sessions) ≡ some t
    → (s : Session) × (lookup j st.sessions ≡ some s) × ((t ≡ s) ⊎ (t ≡ f s))
lookup-adjust-some st id f j t e = elim (Option-cases (lookup j st.sessions)) [
  | inl l ↦ absurd (ground (arith, lookup-adjust id j f st.sessions))
  | inr (s, l) ↦ (s, l, ground (arith, lookup-adjust id j f st.sessions))
]

pub Moves-refl : (s : Session) → Moves s s
Moves-refl s = record {
  same_id = refl;
  same_conn = refl;
  same_db = refl;
  same_principal = refl;
  same_mode = (refl, refl);
  gen_moves = inl refl;
}

pub consume-Moves : (now : ℕ) (s : Session) → Moves s (consume now s)
unfolding consume
consume-Moves now s = record {
  same_id = refl;
  same_conn = refl;
  same_db = refl;
  same_principal = refl;
  same_mode = (refl, refl);
  gen_moves = inr refl;
}

-- A write that leaves what a session is bound to, and its generation.
pub unmoved :
    (s t : Session)
    → t.id ≡ s.id
    → t.conn ≡ s.conn
    → t.db_name ≡ s.db_name
    → t.principal ≡ s.principal
    → t.read_only ≡ s.read_only
    → t.attach ≡ s.attach
    → t.gen ≡ s.gen
    → Moves s t
unmoved s t a b c d e f g = record {
  same_id = a;
  same_conn = b;
  same_db = c;
  same_principal = d;
  same_mode = (e, f);
  gen_moves = inl g;
}

abbrev pub Descends : Store → Store → Type 0
Descends st st' =
    (j : List ℕ) (t : Session)
    → lookup j st'.sessions ≡ some t
    → (s : Session) × (lookup j st.sessions ≡ some s) × Moves s t

pub Shrinks-Descends : (st st' : Store) → Shrinks st st' → Descends st st'
Shrinks-Descends st st' h j t e = (t, h j t e, Moves-refl t)

pub adjust-Descends :
    (st : Store) (id : List ℕ) (f : Session → Session)
    → ((s : Session) → Moves s (f s))
    → Descends st (record st { sessions = adjust id f st.sessions })
adjust-Descends st id f h j t e =
    let (s, l, c) = lookup-adjust-some st id f j t e in
    (s, l, elim c [ inl p ↦ rw p (Moves-refl s) | inr p ↦ rw p (h s) ])
