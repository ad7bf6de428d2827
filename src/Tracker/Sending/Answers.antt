-- ===== src/Tracker/Sending/Answers.antt =====
-- What a query is sent as, and how often the other server is asked.
use demolition_app.Base.{
  ℕ, suc, ◌-◌, ◌≤◌, ◌<◌, ◌≡◌, refl, ltb, ◌==◌, Bool, true, false, not, ◌||◌, if_cases, if_elim,
  String, str_eq, List, [], ◌∷◌, arith,
}
use demolition_app.Tracker.Sending.{Answer, Effect, on_answer, audiences, collects, follow}

module _ (is_country : String → Bool) where
  -- Only an answer that comes after at most three others makes a request, and it is counted.
  Steps : ℕ → List Effect × ℕ → Type 0
  Steps n r = collects is_country r.0 ≡ true → (n < 4) × (r.1 ≡ suc n)

  audiences-collects : (rest : String) → collects is_country (audiences is_country rest) ≡ false
  unfolding audiences collects
  audiences-collects rest =
      let P : List Effect → Type 0 = λ es. collects is_country es ≡ false in
      if_elim P (str_eq rest "") _ _ refl (if_elim P (is_country rest) _ _ refl refl)

  on_answer-Steps : (n : ℕ) (a : Answer) → Steps n (on_answer is_country n a)
  unfolding on_answer Steps collects
  on_answer-Steps n a =
      if_elim (Steps n) (ltb a.size 1 || not (str_eq a.first "1")) _ _
        (λ e. absurd (ground (arith, e)))
        (if_cases (Steps n) (ltb 3 n) _ _ (λ _. λ e. absurd (ground (arith, e)))
          (λ t.
            if_elim (Steps n) (a.size == 1) _ _ (λ e. absurd (ground (arith, e)))
              (if_elim (Steps n) (str_eq a.second "d") _ _ (λ _. (ground (arith, t), refl))
                (if_elim (Steps n) (str_eq a.second "g") _ _
                  (λ e. absurd (ground (arith, e, audiences-collects a.rest)))
                  (λ e. absurd (ground (arith, e)))))))

  -- However the servers answer, a hit asks the other server at most four times, fewer by those that were
  -- made before.
  pub follow-le : (answers : List Answer) (n : ℕ) → follow is_country answers n ≤ 4 - n
  unfolding follow Steps
  follow-le [] n = omega arith
  follow-le (a ∷ answers) n =
      let r = on_answer is_country n a in
      let rest = follow is_country answers r.1 in
      if_cases (λ k. k ≤ 4 - n) (collects is_country r.0) (suc rest) 0
        (λ e. let s = on_answer-Steps n a e in omega (arith, s.0, s.1, follow-le answers r.1))
        (λ _. omega arith)
