-- ===== src/Session/Store/Reaping/Busy.antt =====
-- The reaper, Kill and the shutdown leave a request in flight alone, and reach everything else.
use quicsql.Prelude.{
  ℕ, ◌≡◌, refl, true, false, ◌==◌, nat_eq, bytes_eq, List, none, some, arith, [], ◌∷◌, if_cases,
  sym, ◌∙◌, inl, inr, Bool-cases,
}
use quicsql.Prelude.Map.{Map, lookup, Distinct}
use quicsql.Session.Store.{Session, Store, close_found, release_slot, close_locked, reapable}
use quicsql.Session.Store.Reaping.{reap, reap_among, close_idle_among, close_all, kill}
use quicsql.Session.Store.Evolution.{
  lookup-close_locked, reap_among-Shrinks, close_idle_among-Shrinks, kill_cases,
}

reapable-close_locked :
    (st : Store) (id : List ℕ) (now : ℕ) (s : Session)
    → reapable (close_locked st id) now s ≡ reapable st now s
unfolding reapable close_locked close_found release_slot
reapable-close_locked st id now s = ground arith

-- The entry under `id`, if any, has a request in flight.
abbrev BusyAt : List ℕ → Map (List ℕ) Session → Type 0
BusyAt id m = (t : Session) → lookup id m ≡ some t → t.busy ≡ true

tail-BusyAt :
    (id k : List ℕ) (t : Session) (m : Map (List ℕ) Session)
    → lookup k m ≡ none
    → BusyAt id ((k, t) ∷ m)
    → BusyAt id m
unfolding lookup
tail-BusyAt id k t m d b t' e = ground (arith, bytes_eq.beq_iff k id, b t')

head-idle :
    (id k : List ℕ) (t : Session) (m : Map (List ℕ) Session)
    → BusyAt id ((k, t) ∷ m)
    → t.busy ≡ false
    → (k == id) ≡ false
unfolding lookup
head-idle id k t m b idle = ground (arith, b t)

reapable-idle : (st : Store) (now : ℕ) (s : Session) → reapable st now s ≡ true → s.busy ≡ false
unfolding reapable
reapable-idle st now s h = ground arith

reap_among-busy :
    (st : Store) (now : ℕ) (m : Map (List ℕ) Session) (id : List ℕ)
    → Distinct m
    → BusyAt id m
    → lookup id (reap_among st now m).sessions ≡ lookup id st.sessions
unfolding reap_among
reap_among-busy st now [] id d b = refl
reap_among-busy st now ((k, t) ∷ m) id d b =
    if_cases (λ st'. lookup id (reap_among st' now m).sessions ≡ lookup id st.sessions)
      (reapable st now t)
      (λ r.
        reap_among-busy (close_locked st k) now m id d.1 (tail-BusyAt id k t m d.0 b)
        ∙ rw (lookup-close_locked st k id, head-idle id k t m b (reapable-idle st now t r)))
      (λ _. reap_among-busy st now m id d.1 (tail-BusyAt id k t m d.0 b))

close_idle_among-busy :
    (st : Store) (m : Map (List ℕ) Session) (id : List ℕ)
    → Distinct m
    → BusyAt id m
    → lookup id (close_idle_among st m).sessions ≡ lookup id st.sessions
unfolding close_idle_among
close_idle_among-busy st [] id d b = refl
close_idle_among-busy st ((k, t) ∷ m) id d b =
    if_cases (λ st'. lookup id (close_idle_among st' m).sessions ≡ lookup id st.sessions) t.busy
      (λ _. close_idle_among-busy st m id d.1 (tail-BusyAt id k t m d.0 b))
      (λ i.
        close_idle_among-busy (close_locked st k) m id d.1 (tail-BusyAt id k t m d.0 b)
        ∙ rw (lookup-close_locked st k id, head-idle id k t m b i))

-- A session with a request in flight is left exactly as it is by a reap at any time, by a kill of
-- any identifier and by the shutdown, in a store whose sessions have distinct identifiers.
pub busy-kept :
    (st : Store) (id : List ℕ) (s : Session) (now : ℕ) (text : List ℕ)
    → Distinct st.sessions
    → lookup id st.sessions ≡ some s
    → s.busy ≡ true
    → (lookup id (reap st now).sessions ≡ some s)
      × (lookup id (kill st text).0.sessions ≡ some s)
      × (lookup id (close_all st).sessions ≡ some s)
unfolding reap close_all
busy-kept st id s now text d l b = (
  reap_among-busy st now st.sessions id d busy ∙ l,
  kill_cases st text (λ r. lookup id r.0.sessions ≡ some s) l l
      (λ k t e i. ground (arith, lookup-close_locked st k id, bytes_eq.beq_iff k id)),
  close_idle_among-busy st st.sessions id d busy ∙ l,
)
  where
    busy : BusyAt id st.sessions
    busy t e = ground arith

-- What is left under `id` after a pass over `m` was not to be closed, if `m` lists it.
reap_among-rest :
    (st : Store) (now : ℕ) (m : Map (List ℕ) Session) (id : List ℕ) (s t : Session)
    → lookup id m ≡ some t
    → lookup id (reap_among st now m).sessions ≡ some s
    → reapable st now t ≡ false
unfolding reap_among
reap_among-rest st now [] id s t l = unfold lookup in absurd (cc)
reap_among-rest st now ((k, u) ∷ m) id s t l =
    if_cases (λ st'. lookup id (reap_among st' now m).sessions ≡ some s → reapable st now t ≡ false)
      (reapable st now u)
      (λ r e. elim (Bool-cases (k == id)) [
        | inl same ↦
            let gone = reap_among-Shrinks (close_locked st k) now m id s e in
            ground (arith, lookup-close_locked st k id)
        | inr other ↦
            sym (reapable-close_locked st k now t)
            ∙ reap_among-rest (close_locked st k) now m id s t (unfold lookup in ground arith) e
      ])
      (λ r e. elim (Bool-cases (k == id)) [
        | inl same ↦ unfold lookup in ground arith
        | inr other ↦ reap_among-rest st now m id s t (unfold lookup in ground arith) e
      ])

close_idle_among-rest :
    (st : Store) (m : Map (List ℕ) Session) (id : List ℕ) (s t : Session)
    → lookup id m ≡ some t
    → lookup id (close_idle_among st m).sessions ≡ some s
    → t.busy ≡ true
unfolding close_idle_among
close_idle_among-rest st [] id s t l = unfold lookup in absurd (cc)
close_idle_among-rest st ((k, u) ∷ m) id s t l =
    if_cases (λ st'. lookup id (close_idle_among st' m).sessions ≡ some s → t.busy ≡ true) u.busy
      (λ b e. elim (Bool-cases (k == id)) [
        | inl same ↦ unfold lookup in ground arith
        | inr other ↦ close_idle_among-rest st m id s t (unfold lookup in ground arith) e
      ])
      (λ b e. elim (Bool-cases (k == id)) [
        | inl same ↦
            let gone = close_idle_among-Shrinks (close_locked st k) m id s e in
            ground (arith, lookup-close_locked st k id)
        | inr other ↦
            close_idle_among-rest (close_locked st k) m id s t (unfold lookup in ground arith) e
      ])

-- A session that a reap leaves is not idle past its timeout or its lifetime, and was there before.
pub reap-thorough :
    (st : Store) (now : ℕ) (id : List ℕ) (s : Session)
    → lookup id (reap st now).sessions ≡ some s
    → (reapable st now s ≡ false) × (lookup id st.sessions ≡ some s)
unfolding reap
reap-thorough st now id s e =
    let l = reap_among-Shrinks st now st.sessions id s e in
    (reap_among-rest st now st.sessions id s s l e, l)

-- A session that the shutdown leaves has a request in flight and was there before, and after the
-- shutdown no teardown is outstanding.
pub close_all-idle :
    (st : Store) (id : List ℕ) (s : Session)
    → lookup id (close_all st).sessions ≡ some s
    → (s.busy ≡ true) × (lookup id st.sessions ≡ some s) × ((close_all st).closing ≡ [])
unfolding close_all
close_all-idle st id s e =
    let l = close_idle_among-Shrinks st st.sessions id s e in
    (close_idle_among-rest st st.sessions id s s l e, l, refl)
