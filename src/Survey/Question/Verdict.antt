-- ===== src/Survey/Question/Verdict.antt =====
-- What many answers lead to, and which ones pass the threshold.
use demolition_app.Base.Dict.{has_text}
use demolition_app.Base.{
  ℕ, ◌+◌, ◌≤◌, ◌≡◌, ◌≢◌, refl, ◌↔◌, ◌⊎◌, inl, inr, Bool, true, false, if◌then◌else◌, if_cases,
  Bool-cases, Option, subst, sym, String, eq_iff, List, [], ◌∷◌, ◌++◌, length, Occurs, arith,
}
use demolition_app.Survey.Question.{
  Value, Question, QuestionEvent, spammy_click, failed_threshold, response, met, has_threshold,
  is_empty, fails, fails_select, kept, warn, is_suspicious, verdict, take, answer, as_list,
}

-- A click on an answer: its time, its value and its index.
pub record Attempt : Type 0 where
  pub now : ℕ
  pub value : Value
  pub index : Value

abbrev pub is_warning : QuestionEvent → ℕ
is_warning spammy_click = 1
is_warning failed_threshold = 0
is_warning (response _) = 0

abbrev pub warnings : List QuestionEvent → ℕ
warnings [] = 0
warnings (e ∷ es) = is_warning e + warnings es

abbrev pub is_decision : QuestionEvent → ℕ
is_decision spammy_click = 0
is_decision failed_threshold = 1
is_decision (response _) = 1

abbrev pub decisions : List QuestionEvent → ℕ
decisions [] = 0
decisions (e ∷ es) = is_decision e + decisions es

-- One while the question may still warn.
abbrev pub spare : Question → ℕ
spare q = if q.fresh then 1 else 0

warnings-append : (es fs : List QuestionEvent) → warnings (es ++ fs) ≡ warnings es + warnings fs
warnings-append [] fs = omega arith
warnings-append (e ∷ es) fs = omega (arith, warnings-append es fs)

decisions-append : (es fs : List QuestionEvent) → decisions (es ++ fs) ≡ decisions es + decisions fs
decisions-append [] fs = omega arith
decisions-append (e ∷ es) fs = omega (arith, decisions-append es fs)

if-is_decision :
    (b : Bool) (r : QuestionEvent)
    → is_decision r ≡ 1
    → is_warning r ≡ 0
    → (is_decision (if b then failed_threshold else r) ≡ 1)
      × (is_warning (if b then failed_threshold else r) ≡ 0)
if-is_decision true r d w = (refl, refl)
if-is_decision false r d w = (d, w)

module _ (mentions : String → Bool) (misses : List String → List String → List String → Bool) where
  pub run : List Attempt → Question → Question
  run [] q = q
  run (a ∷ attempts) q = run attempts (answer mentions misses false a.now a.value a.index q)

  verdict-is_decision :
      (q : Question) (values : List String)
      → (is_decision (verdict mentions misses q values) ≡ 1)
        × (is_warning (verdict mentions misses q values) ≡ 0)
  unfolding verdict
  verdict-is_decision q values =
      if-is_decision (misses q.threshold values (kept q.threshold values)) (response _) refl refl

  -- What one more answer adds.
  Adds : Question → Question → Type 0
  Adds q r =
      (decisions q.events + 1 + spare r ≤ decisions r.events + spare q)
      × (warnings r.events + spare r ≤ warnings q.events + spare q)

  suspicious-fresh :
      (now : ℕ) (value : Value) (q : Question)
      → is_suspicious mentions misses false now value q ≡ true
      → q.fresh ≡ true
  unfolding is_suspicious
  suspicious-fresh now value q e = ground (arith, e)

  warn-Adds : (now : ℕ) (q : Question) → q.fresh ≡ true → Adds q (warn now q)
  unfolding Adds warn
  warn-Adds now q e = (
    ground (arith, e, decisions-append q.events (spammy_click ∷ [])),
    ground (arith, e, warnings-append q.events (spammy_click ∷ [])),
  )

  take-Adds :
      (now : ℕ) (value index : Value) (q : Question)
      → Adds q (take mentions misses now value index q)
  unfolding Adds take
  take-Adds now value index q =
      let v = verdict mentions misses q (as_list value) in
      let d = verdict-is_decision q (as_list value) in
      (
        omega (arith, d.0, decisions-append q.events (v ∷ [])),
        omega (arith, d.1, warnings-append q.events (v ∷ [])),
      )

  answer-Adds :
      (a : Attempt) (q : Question) → Adds q (answer mentions misses false a.now a.value a.index q)
  unfolding answer
  answer-Adds a q =
      if_cases (Adds q) (is_suspicious mentions misses false a.now a.value q) _ _
        (λ e. warn-Adds a.now q (suspicious-fresh a.now a.value q e))
        (λ _. take-Adds a.now a.value a.index q)

  run-spare :
      (attempts : List Attempt) (q : Question)
      → (decisions q.events + length attempts + spare (run attempts q)
          ≤ decisions (run attempts q).events + spare q)
        × (warnings (run attempts q).events + spare (run attempts q) ≤ warnings q.events + spare q)
  unfolding run Adds
  run-spare [] q = (omega arith, omega arith)
  run-spare (a ∷ attempts) q =
      let next : Question = answer mentions misses false a.now a.value a.index q in
      let here : Adds q next = answer-Adds a q in
      let later = run-spare attempts next in
      (omega (arith, here.0, later.0), omega (arith, here.1, later.1))

  -- However fast and wrong the answers to a question are, where warnings are not forced it warns at
  -- most once, and every other answer is taken or fails the threshold.
  pub run-decisions :
      (attempts : List Attempt) (q : Question)
      → (warnings (run attempts q).events ≤ warnings q.events + 1)
        × (decisions q.events + length attempts ≤ decisions (run attempts q).events + 1)
  run-decisions attempts q =
      let last : Question = run attempts q in
      (ground (arith, (run-spare attempts q).1), ground (arith, (run-spare attempts q).0))

has_text_iff : (values : List String) (t : String) → (has_text values t ≡ true) ↔ Occurs t values
has_text_iff [] t = ground arith
has_text_iff (v ∷ values) t = ground (arith, eq_iff v t, has_text_iff values t)

-- A threshold answer is among the values.
abbrev pub Meets : List String → List String → Type 0
Meets threshold values = (t : String) × Occurs t threshold × Occurs t values

met-Meets :
    (threshold values : List String)
    → is_empty (met threshold values) ≡ false
    → Meets threshold values
unfolding met is_empty
met-Meets [] values h = absurd (ground (arith, h))
met-Meets (t ∷ threshold) values h₀ =
    if_cases (λ (l : List String). is_empty l ≡ false → Meets (t ∷ threshold) values)
      (has_text values t) _ _ (λ e h. (t, inl refl, (has_text_iff values t).0 e))
      (λ e h. let m = met-Meets threshold values h in (m.0, inr m.1, m.2)) h₀

Meets-met :
    (threshold values : List String)
    → Meets threshold values
    → is_empty (met threshold values) ≡ false
unfolding met is_empty
Meets-met [] values (x, o, p) = absurd o
Meets-met (t ∷ threshold) values (x, o, p) =
    if_cases (λ (l : List String). is_empty l ≡ false) (has_text values t) _ _ (λ _. refl)
      (λ e. elim o [
        | inl q ↦
            absurd (
              ground (arith, e, (has_text_iff values t).1 (subst (λ u. Occurs u values) (sym q) p)))
        | inr r ↦ Meets-met threshold values (x, r, p)
      ])

-- What lets the values of a question with several answers pass.
abbrev pub Passes : List String → List String → Type 0
Passes threshold values =
    (threshold ≡ [])
    ⊎ (Meets threshold values ⊎ ((values ≡ []) × Occurs "None of the above" threshold))

nil_of_empty : (values : List String) → is_empty values ≡ true → values ≡ []
unfolding is_empty
nil_of_empty [] e = refl
nil_of_empty (v ∷ values) e = absurd (ground (arith, e))

fails_select-Passes :
    (threshold values : List String)
    → fails_select threshold values (kept threshold values) ≡ false
    → Passes threshold values
unfolding fails_select fails has_threshold kept
fails_select-Passes [] values h = inl refl
fails_select-Passes (t ∷ threshold) values h =
    elim (Bool-cases (is_empty (met (t ∷ threshold) values))) [
      | inl e ↦ inr (
          inr (
            nil_of_empty values (ground (arith, e, h)),
            (has_text_iff (t ∷ threshold) _).0 (ground (arith, e, h)),
          ))
      | inr e ↦ inr (inl (met-Meets (t ∷ threshold) values e))
    ]

Passes-fails_select :
    (threshold values : List String)
    → Passes threshold values
    → fails_select threshold values (kept threshold values) ≡ false
unfolding fails_select fails has_threshold kept is_empty
Passes-fails_select [] values h = refl
Passes-fails_select (t ∷ threshold) values (inl e) = absurd (ground (arith, e))
Passes-fails_select (t ∷ threshold) values (inr (inl m)) =
    ground (arith, Meets-met (t ∷ threshold) values m)
Passes-fails_select (t ∷ threshold) values (inr (inr (e, o))) =
    rw e (ground (arith, (has_text_iff (t ∷ threshold) "None of the above").1 o))

if_failed :
    (b : Bool) (given : Option (List String))
    → ((if b then failed_threshold else response given) ≢ failed_threshold) ↔ (b ≡ false)
if_failed true given = (λ n. absurd (n refl), λ e. absurd (ground (arith, e)))
if_failed false given = (λ n. refl, λ e f. absurd (ground (arith, f)))

-- The answers to a question with several of them pass the threshold exactly when there is none, when
-- a threshold answer is among them, or when there are no answers and "None of the above" is a
-- threshold answer.
pub verdict-Passes :
    (mentions : String → Bool) (q : Question) (values : List String)
    → (verdict mentions fails_select q values ≢ failed_threshold) ↔ Passes q.threshold values
unfolding verdict
verdict-Passes mentions q values =
    let failed = if_failed (fails_select q.threshold values (kept q.threshold values)) _ in
    (
      λ n. fails_select-Passes q.threshold values (failed.0 n),
      λ p. failed.1 (Passes-fails_select q.threshold values p),
    )
