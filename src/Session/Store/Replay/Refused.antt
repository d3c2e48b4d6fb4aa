-- ===== src/Session/Store/Replay/Refused.antt =====
-- The signing key never changes, so a baton that opened a request is refused for good.
use quicsql.Prelude.{
  ℕ, suc, ◌+◌, ◌<◌, ◌≡◌, refl, ◌∙◌, String, List, some, arith, inl, inr, [], ◌∷◌, Option-cases,
  bytes_eq, if_cases,
}
use quicsql.Prelude.Map.{Map, lookup}
use quicsql.Prelude.Result.{ok, err}
use quicsql.Encoding.BigEndian.{word}
use quicsql.Session.Baton.{Mac, verify}
use quicsql.Session.Store.{Session, Store, release_slot, close_found, close_locked, reapable}
use quicsql.Session.Store.Open.{reserve, finish_open}
use quicsql.Session.Store.Requests.{bad_baton, resume, baton, close}
use quicsql.Session.Store.Requests.Outcomes.{resume_cases}
use quicsql.Session.Store.Reaping.{reap, reap_among, close_idle_among, close_all}
use quicsql.Session.Store.Steps.{
  World, Step, begins, gives_up, has_no_id, publishes, resumes, finishes, closes, kills, reaps,
  shuts_down, stores_sql, drops_sql, captures, hands_over,
}
use quicsql.Session.Store.Evolution.{kill_cases}
use quicsql.Session.Store.Replay.{
  StepsWithout, none_yet, and_then, StepsWithout-Past, Past-refused, admitted-Past,
}

key-release_slot : (st : Store) (db : String) → (release_slot st db).key ≡ st.key
unfolding release_slot
key-release_slot st db = ground arith

key-close_locked : (st : Store) (id : List ℕ) → (close_locked st id).key ≡ st.key
unfolding close_locked close_found release_slot
key-close_locked st id = elim (Option-cases (lookup id st.sessions)) [
  | inl e ↦ rw (close_locked, e)
  | inr (s, e) ↦ rw (close_locked, e) (ground arith)
]

key-reap_among :
    (st : Store) (now : ℕ) (m : Map (List ℕ) Session) → (reap_among st now m).key ≡ st.key
unfolding reap_among
key-reap_among st now [] = refl
key-reap_among st now ((id, t) ∷ m) =
    if_cases (λ st'. (reap_among st' now m).key ≡ st.key) (reapable st now t)
      (λ _. key-reap_among (close_locked st id) now m ∙ key-close_locked st id)
      (λ _. key-reap_among st now m)

key-close_idle_among :
    (st : Store) (m : Map (List ℕ) Session) → (close_idle_among st m).key ≡ st.key
unfolding close_idle_among
key-close_idle_among st [] = refl
key-close_idle_among st ((id, t) ∷ m) =
    if_cases (λ st'. (close_idle_among st' m).key ≡ st.key) t.busy (λ _. key-close_idle_among st m)
      (λ _. key-close_idle_among (close_locked st id) m ∙ key-close_locked st id)

key-resume :
    (mac : Mac) (st : Store) (text : List ℕ) (db principal : String) (now : ℕ)
    → (resume mac st text db principal now).0.key ≡ st.key
key-resume mac st text db principal now =
    resume_cases mac st text db principal now (λ r. r.0.key ≡ st.key) (λ e. refl)
      (λ id s _ _ _. key-close_locked st id) (λ id gen s _ _ _. refl)

key-reserve : (st st' : Store) (db : String) → reserve st db ≡ some st' → st'.key ≡ st.key
unfolding reserve
key-reserve st st' db h = ground arith

key-Step : (mac : Mac) {w u : World} → Step mac w u → u.store.key ≡ w.store.key
key-Step mac {w} (begins db st h e) = rw e (key-reserve w.store st db h)
key-Step mac {w} (gives_up db h e) = rw e (key-release_slot w.store db)
key-Step mac {w} (has_no_id r conn now h e) = rw e (unfold finish_open in refl)
key-Step mac {w} (publishes r conn id now h fresh e) = rw e (unfold finish_open in refl)
key-Step mac {w} (resumes text db principal now e) =
    rw e (key-resume mac w.store text db principal now)
key-Step mac {w} (finishes s now e) = rw e (unfold baton in refl)
key-Step mac {w} (closes s e) = rw e (unfold close in key-close_locked w.store s.id)
key-Step mac {w} (kills text e) = rw e (
    kill_cases w.store text (λ r. r.0.key ≡ w.store.key) refl refl
      λ id s _ _. key-close_locked w.store id)
key-Step mac {w} (reaps now e) = rw e (unfold reap in key-reap_among w.store now w.store.sessions)
key-Step mac {w} (shuts_down e) =
    rw e (unfold close_all in key-close_idle_among w.store w.store.sessions)
key-Step mac {w} (stores_sql id key text e) = rw e
key-Step mac {w} (drops_sql id key e) = rw e
key-Step mac {w} (captures id c e) = rw e
key-Step mac {w} (hands_over id e) = rw e

key-StepsWithout :
    (mac : Mac) (j : List ℕ) {w : World} {n : ℕ} {u : World}
    → StepsWithout mac j w n u
    → u.store.key ≡ w.store.key
key-StepsWithout mac j none_yet = refl
key-StepsWithout mac j (and_then steps st m) = key-Step mac st ∙ key-StepsWithout mac j steps

-- A baton that a request has resumed is good for nothing afterwards: in every store reached from
-- the resumed one by any interleaving that draws no identifier twice, with fewer steps than the
-- 64-bit generation has values left, presenting that baton again, for any database, by any
-- principal and at any time, is refused as a bad baton and changes nothing.
pub replay-refused :
    (mac : Mac) (st : Store) (waiting : String → ℕ) (text : List ℕ) (db principal : String)
    (now : ℕ) (s : Session) (j : List ℕ) (g n : ℕ) (u : World) (db' principal' : String) (now' : ℕ)
    → (resume mac st text db principal now).1 ≡ ok s
    → verify mac st.key text ≡ some (j, g)
    → StepsWithout mac j
        (record { store = (resume mac st text db principal now).0; waiting = waiting })
        n
        u
    → g + suc n < word
    → resume mac u.store text db' principal' now' ≡ (u.store, err bad_baton)
replay-refused mac st waiting text db principal now s j g n u db' principal' now' admitted v steps
      bound =
    let (j', g', v', past) = admitted-Past mac st text db principal now s admitted in
    let same_key = key-StepsWithout mac j steps ∙ key-resume mac st text db principal now in
    let same_id : j' ≡ j = ground arith in
    let same_gen : g' ≡ g = ground arith in
    Past-refused mac u.store text j g (suc n) db' principal' now' (rw same_key v) (
      StepsWithout-Past mac j g steps bound
        (rw (← same_id, ← same_gen) (past (rw same_gen (omega arith)))))
