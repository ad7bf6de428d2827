-- ===== src/Survey/Numeric/Range.antt =====
-- Which texts a question for a number accepts.
use demolition_app.Base.{
  ◌≡◌, refl, ap, ◌∙◌, subst, sym, ◌==◌, ◌||◌, [], ◌∷◌, ◌++◌, All, ◌↔◌, inl, inr, Bool, true, false,
  Bool-cases, Option, none, some, arith,
}
use demolition_app.Survey.TextField.{Text}
use demolition_app.Survey.Numeric.{
  Bounds, is_unfinished, is_below, is_above, fault_of_number, number_of, fault, is_none, accepts,
  warning, strip, Fault,
}

module _ {ℓ} {N : Type ℓ} (less : N → N → Bool) (number : Text → Option N) where
  -- The number is one, and lies between the bounds.
  abbrev pub Within : Bounds N → Option N → Type ℓ
  Within b o =
      (n : N) × (o ≡ some n)
      × (is_below less number n b.low ≡ false)
      × (is_above less number n b.high ≡ false)

  fault_of_number-Within :
      (b : Bounds N) (n : N)
      → is_none (fault_of_number less number b (some n)) ≡ true
      → (is_below less number n b.low ≡ false) × (is_above less number n b.high ≡ false)
  unfolding fault_of_number is_none
  fault_of_number-Within b n e = elim (Bool-cases (is_below less number n b.low)) [
    | inl l ↦ absurd (ground (arith, l, e))
    | inr l ↦ (l, ground (arith, l, e))
  ]

  Within-fault_of_number :
      (b : Bounds N) (o : Option N) → Within b o → is_none (fault_of_number less number b o) ≡ true
  unfolding fault_of_number is_none
  Within-fault_of_number b o (n, e, l, h) =
      subst (λ p. is_none (fault_of_number less number b p) ≡ true) (sym e) (ground (arith, l, h))

  some-Within :
      (b : Bounds N) (o : Option N) → is_none (fault_of_number less number b o) ≡ true → Within b o
  unfolding fault_of_number is_none
  some-Within b none e = absurd (ground (arith, e))
  some-Within b (some n) e = let w = fault_of_number-Within b n e in (n, refl, w.0, w.1)

  -- A text is accepted exactly when it is neither empty nor "-", nor blank, and is a number that is not
  -- below the low bound and not above the high one, where there are such bounds.
  pub accepts-Within :
      (b : Bounds N) (text : Text)
      → (accepts less number b text ≡ true)
        ↔ ((is_unfinished text ≡ false) × Within b (number_of less number text))
  unfolding accepts fault is_none
  accepts-Within b text = (
    λ e. elim (Bool-cases (is_unfinished text)) [
      | inl u ↦ absurd (ground (arith, u, e))
      | inr u ↦ (u, some-Within b (number_of less number text) (ground (arith, u, e)))
    ],
    λ (u, w). rw u (Within-fault_of_number b (number_of less number text) w),
  )

  none_of_is_none : (o : Option Fault) → is_none o ≡ true → o ≡ none
  unfolding is_none
  none_of_is_none none e = refl
  none_of_is_none (some f) e = absurd (ground (arith, e))

  -- No dollar sign and no comma is in the text.
  abbrev pub IsPlain : Text → Type 0
  IsPlain text = All (λ c. (c == 36 || c == 44) ≡ false) text

  strip-plain : (text : Text) → IsPlain text → strip text ≡ text
  unfolding strip
  strip-plain [] p = refl
  strip-plain (c ∷ cs) (e, p) = rw e (ap (c ∷◌) (strip-plain cs p))

  strip-comma :
      (left right : Text)
      → IsPlain left
      → IsPlain right
      → strip (left ++ 44 ∷ right) ≡ left ++ right
  unfolding strip
  strip-comma [] right p q = strip-plain right q
  strip-comma (c ∷ left) right (e, p) q = rw e (ap (c ∷◌) (strip-comma left right p q))

  -- A text that is accepted, without dollar signs and commas, is not accepted any more once a comma is put
  -- somewhere into it that `Number` does not take, and still no fault is shown.
  pub warning-accepts :
      (b : Bounds N) (left right : Text)
      → IsPlain left
      → IsPlain right
      → accepts less number b (left ++ right) ≡ true
      → number (left ++ 44 ∷ right) ≡ none
      → (warning less number b (left ++ 44 ∷ right) ≡ none)
        × (accepts less number b (left ++ 44 ∷ right) ≡ false)
  unfolding accepts warning number_of
  warning-accepts b left right p q a e = (
    ap (fault less number b) (strip-comma left right p q)
        ∙ none_of_is_none (fault less number b (left ++ right)) a,
    refused (fault less number b (left ++ 44 ∷ right)) (λ r.
        let w : Within b (number_of less number (left ++ 44 ∷ right)) =
          ((accepts-Within b (left ++ 44 ∷ right)).0 r).1 in
        ground (arith, w.1, e)),
  )
    where
      refused : (o : Option Fault) → (is_none o ≡ true → ⊥) → is_none o ≡ false
      refused o n = elim (Bool-cases (is_none o)) [ inl p ↦ absurd (n p) | inr p ↦ p ]
