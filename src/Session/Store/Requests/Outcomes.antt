-- ===== src/Session/Store/Requests/Outcomes.antt =====
-- The outcomes of Resume, as a rule for proofs about it.
use quicsql.Prelude.{
  ℕ, ◌≡◌, String, true, false, ◌==◌, nat_eq, string_eq, bytes_eq, List, some, Option-cases, inl,
  inr, if_cases, not_eq_false, not,
}
use quicsql.Prelude.Map.{lookup, adjust}
use quicsql.Prelude.Result.{Result, ok, err}
use quicsql.Session.Baton.{Mac, verify}
use quicsql.Session.Store.{Session, Store, close_locked, reapable}
use quicsql.Session.Store.Requests.{
  ResumeError, bad_baton, principal_mismatch, consume, resume_found, resume_verified, resume,
}

-- What holds when a request may go on with the session.
pub record Admits (st : Store) (gen : ℕ) (s : Session) (db principal : String) (now : ℕ)
    : Type 0 where
  pub same_gen : s.gen ≡ gen
  pub idle : s.busy ≡ false
  pub unexpired : reapable st now s ≡ false
  pub same_db : s.db_name ≡ db
  pub same_principal : s.principal ≡ principal

pub resume_found_cases {ℓ} :
    (st : Store) (id : List ℕ) (gen : ℕ) (s : Session) (db principal : String) (now : ℕ)
    (P : Store × Result ResumeError Session → Type ℓ)
    → ((e : ResumeError) → P (st, err e))
    → (s.busy ≡ false → reapable st now s ≡ true → P (close_locked st id, err bad_baton))
    → (Admits st gen s db principal now
        → P (record st { sessions = adjust id (consume now) st.sessions }, ok (consume now s)))
    → P (resume_found st id gen s db principal now)
unfolding resume_found
resume_found_cases st id gen s db principal now P refused expired admitted =
    if_cases P (not (s.gen == gen)) (λ _. refused bad_baton)
      λ g.
        if_cases P s.busy (λ _. refused bad_baton)
          λ b. if_cases P (reapable st now s) (expired b) λ r.
            if_cases P (not (s.db_name == db)) (λ _. refused bad_baton)
              λ d.
                if_cases P (not (s.principal == principal)) (λ _. refused principal_mismatch)
                  λ p. admitted (record {
                    same_gen = (nat_eq.beq_iff s.gen gen).0 (not_eq_false _ g);
                    idle = b;
                    unexpired = r;
                    same_db = (string_eq.beq_iff s.db_name db).0 (not_eq_false _ d);
                    same_principal = (string_eq.beq_iff s.principal principal).0 (not_eq_false _ p);
                  })

pub resume_cases {ℓ} :
    (mac : Mac) (st : Store) (text : List ℕ) (db principal : String) (now : ℕ)
    (P : Store × Result ResumeError Session → Type ℓ)
    → ((e : ResumeError) → P (st, err e))
    → ((id : List ℕ) (s : Session)
        → lookup id st.sessions ≡ some s
        → s.busy ≡ false
        → reapable st now s ≡ true
        → P (close_locked st id, err bad_baton))
    → ((id : List ℕ) (gen : ℕ) (s : Session)
        → verify mac st.key text ≡ some (id, gen)
        → lookup id st.sessions ≡ some s
        → Admits st gen s db principal now
        → P (record st { sessions = adjust id (consume now) st.sessions }, ok (consume now s)))
    → P (resume mac st text db principal now)
unfolding resume resume_verified
resume_cases mac st text db principal now P refused expired admitted =
    elim (Option-cases (verify mac st.key text)) [
      | inl e ↦ rw (resume, e) (refused bad_baton)
      | inr ((id, gen), e) ↦
          rw (resume, e)
            (elim (Option-cases (lookup id st.sessions)) [
              | inl l ↦ rw (resume_verified, l) (refused bad_baton)
              | inr (s, l) ↦
                  rw (resume_verified, l)
                    (resume_found_cases st id gen s db principal now P refused (expired id s l)
                      (admitted id gen s e l))
            ])
    ]
