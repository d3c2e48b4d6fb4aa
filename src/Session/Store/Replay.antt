-- ===== src/Session/Store/Replay.antt =====
-- A baton is good for one request: what a step can do to a session, and why a baton that was
-- resumed is never resumed again.
pub mod Refused
use quicsql.Prelude.{
  ℕ, zero, suc, ◌+◌, ◌%◌, ◌<◌, ◌≤◌, ◌≡◌, refl, String, Bool, true, false, ◌==◌, bytes_eq, List,
  Option, none, some, arith, ◌⊎◌, inl, inr, Option-cases, subst, sym, ◌∙◌, ◌≢◌, if_cases,
  if◌then◌else◌,
}
use quicsql.Prelude.Map.{lookup, insert, adjust, lookup-insert, lookup-adjust}
use quicsql.Prelude.Result.{Result, ok, err}
use quicsql.Encoding.BigEndian.{word}
use quicsql.Session.Baton.{Mac, verify}
use quicsql.Session.Store.{
  Session, Store, release_slot, close_locked, set_capture, take_capture, store_sql, drop_sql,
}
use quicsql.Session.Store.Open.{Request, reserve, finish_open, new_session, publish}
use quicsql.Session.Store.Requests.{
  ResumeError, bad_baton, resume, resume_verified, resume_found, baton, close, consume, idle_at,
}
use quicsql.Session.Store.Requests.Outcomes.{resume_cases, Admits}
use quicsql.Session.Store.Reaping.{reap, reap_among, close_all, kill}
use quicsql.Session.Store.Slots.{release_slot-sessions}
use quicsql.Session.Store.Steps.{
  World, Step, Steps, written, begins, gives_up, has_no_id, publishes, resumes, finishes, closes,
  kills, reaps, shuts_down, stores_sql, drops_sql, captures, hands_over, here, next,
}
use quicsql.Session.Store.Evolution.{
  Moves, Moves-refl, consume-Moves, unmoved, Shrinks, Descends, Shrinks-Descends, adjust-Descends,
  close_locked-Shrinks, reap_among-Shrinks, close_idle_among-Shrinks, kill-Shrinks,
}

resume-Descends :
    (mac : Mac) (st : Store) (text : List ℕ) (db principal : String) (now : ℕ)
    → Descends st (resume mac st text db principal now).0
resume-Descends mac st text db principal now =
    resume_cases mac st text db principal now (λ r. Descends st r.0)
      (λ e. Shrinks-Descends st st (λ j s h. h))
      (λ id s _ _ _. Shrinks-Descends st (close_locked st id) (close_locked-Shrinks st id))
      (λ id gen s _ _ _. adjust-Descends st id (consume now) (consume-Moves now))

reserve-Descends : (st st' : Store) (db : String) → reserve st db ≡ some st' → Descends st st'
unfolding reserve
reserve-Descends st st' db h = Shrinks-Descends st st' λ j s e. ground arith

-- Whether a step publishes a session under the identifier.
abbrev pub Mints : {mac : Mac} {w u : World} → List ℕ → Step mac w u → Type 0
Mints j (publishes r conn id now h fresh e) = id ≡ j
Mints j _ = ⊥

-- The session under one identifier comes from the session that was there.
abbrev pub DescendsAt : List ℕ → Store → Store → Type 0
DescendsAt j st st' =
    (t : Session)
    → lookup j st'.sessions ≡ some t
    → (s : Session) × (lookup j st.sessions ≡ some s) × Moves s t

finish_open-DescendsAt :
    (j : List ℕ) (st : Store) (r : Request) (conn : ℕ) (id : List ℕ) (now : ℕ)
    → ¬ (id ≡ j)
    → DescendsAt j st (finish_open st r conn (some id) now).0
unfolding finish_open
finish_open-DescendsAt j st r conn id now h t e = (
  t,
  ground (arith, lookup-insert id j (new_session r id conn now) st.sessions, bytes_eq.beq_iff id j),
  Moves-refl t,
)

pub Step-Descends :
    (mac : Mac) (j : List ℕ) {w u : World} (st : Step mac w u)
    → ¬ Mints j st
    → DescendsAt j w.store u.store
Step-Descends mac j {w} (begins db st h e) m = rw e (reserve-Descends w.store st db h j)
Step-Descends mac j {w} (gives_up db h e) m =
    rw e (rw (release_slot-sessions w.store db).0 (λ t l. (t, l, Moves-refl t)))
Step-Descends mac j {w} (has_no_id r conn now h e) m =
    rw e (unfold finish_open in λ t l. (t, l, Moves-refl t))
Step-Descends mac j {w} (publishes r conn id now h fresh e) m =
    rw e (finish_open-DescendsAt j w.store r conn id now m)
Step-Descends mac j {w} (resumes text db principal now e) m =
    rw e (resume-Descends mac w.store text db principal now j)
Step-Descends mac j {w} (finishes s now e) m = rw e (
    unfold baton idle_at in
    adjust-Descends w.store s.id (idle_at now) (λ t. unmoved t _ refl refl refl refl refl refl refl)
      j)
Step-Descends mac j {w} (closes s e) m = rw e (
    unfold close in
    Shrinks-Descends w.store (close_locked w.store s.id) (close_locked-Shrinks w.store s.id) j)
Step-Descends mac j {w} (kills text e) m =
    rw e (Shrinks-Descends w.store (kill w.store text).0 (kill-Shrinks w.store text) j)
Step-Descends mac j {w} (reaps now e) m = rw e (
    unfold reap in
    Shrinks-Descends w.store (reap_among w.store now w.store.sessions)
      (reap_among-Shrinks w.store now w.store.sessions) j)
Step-Descends mac j {w} (shuts_down e) m = rw e (
    unfold close_all in
    λ t l. (t, close_idle_among-Shrinks w.store w.store.sessions j t l, Moves-refl t))
Step-Descends mac j {w} (stores_sql id key text e) m = rw e (
    unfold store_sql in
    adjust-Descends w.store id (λ s. store_sql s key text)
      (λ t. unmoved t _ refl refl refl refl refl refl refl) j)
Step-Descends mac j {w} (drops_sql id key e) m = rw e (
    unfold drop_sql in
    adjust-Descends w.store id (λ s. drop_sql s key)
      (λ t. unmoved t _ refl refl refl refl refl refl refl) j)
Step-Descends mac j {w} (captures id c e) m = rw e (
    unfold set_capture in
    adjust-Descends w.store id (λ s. set_capture s c)
      (λ t. unmoved t _ refl refl refl refl refl refl refl) j)
Step-Descends mac j {w} (hands_over id e) m = rw e (
    unfold take_capture in
    adjust-Descends w.store id (λ s. (take_capture s).0)
      (λ t. unmoved t _ refl refl refl refl refl refl refl) j)

-- Steps that never publish a session under the identifier: identifiers are 16 random bytes, and a
-- closed session's is not drawn again.
pub data StepsWithout (mac : Mac) (j : List ℕ) (w : World) : ℕ → World → Type 0 where
  none_yet : StepsWithout mac j w 0 w
  and_then :
      {n : ℕ} {u v : World}
      → StepsWithout mac j w n u
      → (st : Step mac u v) → ¬ Mints j st
      → StepsWithout mac j w (suc n) v

-- The session under `j`, if any, has moved past generation `g`, by at most `k`.
abbrev pub Past : List ℕ → ℕ → ℕ → Store → Type 0
Past j g k st = (s : Session) → lookup j st.sessions ≡ some s → (g < s.gen) × (s.gen ≤ g + k)

Step-Past :
    (mac : Mac) (j : List ℕ) (g k : ℕ) {w u : World} (st : Step mac w u)
    → ¬ Mints j st
    → g + suc k < word
    → Past j g k w.store
    → Past j g (suc k) u.store
Step-Past mac j g k st m bound past t e =
    let (s, l, mv) = Step-Descends mac j st m t e in
    let old = past s l in
    elim mv.gen_moves [ inl p ↦ (omega arith, omega arith) | inr p ↦ (omega arith, omega arith) ]

pub StepsWithout-Past :
    (mac : Mac) (j : List ℕ) (g : ℕ) {w : World} {n : ℕ} {u : World}
    → StepsWithout mac j w n u
    → g + suc n < word
    → Past j g 1 w.store
    → Past j g (suc n) u.store
StepsWithout-Past mac j g none_yet bound past = past
StepsWithout-Past mac j g (and_then {n = k} steps st m) bound past =
    Step-Past mac j g (suc k) st m bound (StepsWithout-Past mac j g steps (omega arith) past)

-- A resume whose generation is behind the live session's is refused and changes nothing.
pub Past-refused :
    (mac : Mac) (st : Store) (text j : List ℕ) (g k : ℕ) (db principal : String) (now : ℕ)
    → verify mac st.key text ≡ some (j, g)
    → Past j g k st
    → resume mac st text db principal now ≡ (st, err bad_baton)
unfolding resume resume_verified
Past-refused mac st text j g k db principal now v past =
    elim (Option-cases (lookup j st.sessions)) [
      | inl e ↦ rw (resume, v, resume_verified, e)
      | inr (s, e) ↦
          rw (resume, v, resume_verified, e) (unfold resume_found in ground (arith, past s e))
    ]

pub admitted-Past :
    (mac : Mac) (st : Store) (text : List ℕ) (db principal : String) (now : ℕ) (s' : Session)
    → (resume mac st text db principal now).1 ≡ ok s'
    → (j : List ℕ) × (g : ℕ) × (verify mac st.key text ≡ some (j, g))
      × (g + 1 < word → Past j g 1 (resume mac st text db principal now).0)
admitted-Past mac st text db principal now s' =
    resume_cases mac st text db principal now
      (λ r.
        r.1 ≡ ok s'
        → (j : List ℕ) × (g : ℕ) × (verify mac st.key text ≡ some (j, g))
          × (g + 1 < word → Past j g 1 r.0))
      (λ e h. absurd (cc)) (λ id s _ _ _ h. absurd (cc))
      (λ id g s v l a h. (id, g, v, λ bound t e. moved id g s t l a bound e))
  where
    moved :
        (id : List ℕ) (g : ℕ) (s t : Session)
        → lookup id st.sessions ≡ some s
        → Admits st g s db principal now
        → g + 1 < word
        → lookup id (adjust id (consume now) st.sessions) ≡ some t
        → (g < t.gen) × (t.gen ≤ g + 1)
    moved id g s t l a bound e =
        unfold consume in
        ground
          (arith, a.same_gen, lookup-adjust id id (consume now) st.sessions, bytes_eq.beq_iff id id)
