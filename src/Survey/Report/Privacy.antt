-- ===== src/Survey/Report/Privacy.antt =====
-- Free answers are kept from the site, where there are at most ten questions.
use demolition_app.Base.{
  ℕ, zero, suc, ◌/◌, ◌<◌, ◌≤◌, length, ◌⊎◌, ◌≡◌, ap, ◌∙◌, Bool, false, String, Option, none, some,
  ◌>>=◌, List, [], ◌∷◌, get_elem?, arith,
}
use demolition_app.Survey.Report.{
  ResponseName, Key, response, measure, verdict_type, unlisted, Entry, Asked, leading_from, leading,
  is_open, veil, screen_response, screen, put, report,
}

abbrev opens : Option Asked → Bool
opens none = false
opens (some q) = is_open q.type

abbrev pub Member : String → List String → Type 0
Member s [] = ⊥
Member s (t ∷ ts) = (s ≡ t) ⊎ Member s ts

-- The types of questions that are answered by a text, a number or a picture of one's own.
abbrev pub open_types : List String
open_types = "open-text" ∷ "open-text-image" ∷ "open-numeric" ∷ "take-picture" ∷ []

abbrev pub IsFree : Asked → Type 0
IsFree q = Member q.type open_types

leading_late : (n : ℕ) → 10 ≤ n → n < 100 → leading n ≡ n / 10
unfolding leading leading_from
leading_late zero h l = absurd (omega (arith, h))
leading_late (suc zero) h l = absurd (omega (arith, h))
leading_late (suc (suc n)) h l = ground (arith, h, l)

module _ (gws : Bool) (questions : List Asked) where
  -- A free answer to one of the first ten questions is not among the entries.
  abbrev pub IsPrivate : Key → Type 0
  IsPrivate (response name n) = n < 10 → (q : Asked) → get_elem? questions n ≡ some q → ¬ IsFree q
  IsPrivate (measure name place) = Unit
  IsPrivate verdict_type = Unit
  IsPrivate (unlisted name) = Unit

  -- The same for all questions.
  abbrev pub IsHidden : Key → Type 0
  IsHidden (response name n) = (q : Asked) → get_elem? questions n ≡ some q → ¬ IsFree q
  IsHidden (measure name place) = Unit
  IsHidden verdict_type = Unit
  IsHidden (unlisted name) = Unit

  -- A response is to one of the questions.
  abbrev pub IsFound : Key → Type 0
  IsFound (response name n) = n < length questions
  IsFound (measure name place) = Unit
  IsFound verdict_type = Unit
  IsFound (unlisted name) = Unit

  abbrev Keeps : Option Entry → Type 0
  Keeps none = Unit
  Keeps (some e) = IsPrivate e.key

  -- There is a result, and it keeps the free answers.
  abbrev Screens : Option (Option Entry) → Type 0
  Screens o = (kept : Option Entry) × (o ≡ some kept) × Keeps kept

  screen_response-as_is :
      (name : ResponseName) (n : ℕ) (values : List String) (q : Asked)
      → is_open q.type ≡ false
      → q.has_other ≡ false
      → screen_response name n values (some q)
        ≡ some (some (record { key = response name n; values = values }))
  unfolding screen_response veil
  screen_response-as_is name n values q c h =
      let same : veil name q values ≡ values = ground (arith, h) in
      rw c (ap (λ vs. some (some (record { key = response name n; values = vs }))) same)

  -- The answer to an open question from the eleventh to the hundredth is told to the site as it is, where
  -- the question at the first digit of its place is not open and lists all its answers.
  pub report-late :
      (name : ResponseName) (n : ℕ) (values : List String) (p q : Asked)
      → 10 ≤ n
      → n < 100
      → get_elem? questions n ≡ some p
      → IsFree p
      → get_elem? questions (n / 10) ≡ some q
      → is_open q.type ≡ false
      → q.has_other ≡ false
      → (report gws questions (record { key = response name n; values = values } ∷ [])
          ≡ some (record { key = response name n; values = values } ∷ []))
        × (¬ IsHidden (response name n))
  unfolding report screen screen_response veil put leading
  report-late name n values p q l h e o f c k =
      let next : Option Entry → Option (List Entry) = λ kept. some (put gws questions kept []) in
      let found : get_elem? questions (leading n) ≡ some q =
        ap (get_elem? questions) (leading_late n l h) ∙ f in
      (
        ap (λ o. screen_response name n values o >>= next) found
            ∙ ap (λ o. o >>= next) (screen_response-as_is name n values q c k),
        λ hidden. hidden p e o,
      )
