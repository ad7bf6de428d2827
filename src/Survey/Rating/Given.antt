-- ===== src/Survey/Rating/Given.antt =====
-- What is handed on is a rating, and the button without one fails.
use demolition_app.Base.{
  ℕ, zero, suc, ◌<◌, ◌≡◌, refl, Bool, true, false, not, ◌&&◌, if_cases, if_elim, Option, none, some,
  List, [], ◌∷◌, All, arith,
}
use demolition_app.Base.Int.{ℤ, pos, negsuc, int_eqb, int_suc}
use demolition_app.Prompt.Ratings.{
  Ratings, set_index, draw, clamp, last_index, on_click, on_key_down, key_target, on_mouse_over,
  on_mouse_out, reset_highlight,
}
use demolition_app.Prompt.Ratings.Shown.{InRange, clamp-InRange}
use demolition_app.Survey.Rating.{
  RatingQuestion, hand_on, on_change, on_submit, on_event, hear, act, reset, Input, clicked,
  pointed_at, left_for, pressed, submitted, cleared, step, run,
}

abbrev IsStar : ℕ → ℤ → Type 0
IsStar count (pos n) = n < count
IsStar count (negsuc k) = ⊥

-- From 1 to the number of stars.
abbrev pub IsRating : ℕ → ℤ → Type 0
IsRating count (pos zero) = ⊥
IsRating count (pos (suc n)) = n < count
IsRating count (negsuc k) = ⊥

int_suc-IsRating : (v : ℤ) (count : ℕ) → IsStar count v → IsRating count (int_suc v)
int_suc-IsRating (pos n) count h = h
int_suc-IsRating (negsuc k) count h = absurd h

star_of : (v : ℤ) (count : ℕ) → InRange count v → int_eqb (negsuc 0) v ≡ false → IsStar count v
unfolding InRange
star_of (pos n) count h e = h
star_of (negsuc k) count h e = ground (arith, h, e)

-- The value is a star or none, it is a star while an event is kept, and each answer is a rating.
pub record IsRated (q : RatingQuestion) : Type 0 where
  pub in_range : InRange q.ratings.count q.ratings.value
  pub kept : q.pending ≡ true → IsStar q.ratings.count q.ratings.value
  pub rated : All (IsRating q.ratings.count) q.answers

hand_on-IsRated :
    (q : RatingQuestion)
    → IsStar q.ratings.count q.ratings.value
    → InRange q.ratings.count q.ratings.value
    → All (IsRating q.ratings.count) q.answers
    → IsRated (hand_on q)
unfolding hand_on
hand_on-IsRated q s h a = record {
  in_range = h;
  kept = λ _. s;
  rated = (int_suc-IsRating q.ratings.value q.ratings.count s, a);
}

on_change-IsRated :
    (q : RatingQuestion)
    → InRange q.ratings.count q.ratings.value
    → All (IsRating q.ratings.count) q.answers
    → IsRated (on_change q)
unfolding on_change
on_change-IsRated q h a =
    if_cases IsRated (int_eqb (negsuc 0) q.ratings.value) _ _
      (λ _. record { in_range = h; kept = λ e. ground (arith, e); rated = a })
      (λ e.
        let s = star_of q.ratings.value q.ratings.count h e in
        if_elim IsRated q.has_button _ _ (record { in_range = h; kept = λ _. s; rated = a })
          (hand_on-IsRated q s h a))

-- The loop of the events does nothing but for a change.
set_index-IsRated : (a : ℤ) (q : RatingQuestion) → IsRated q → IsRated (act (set_index a) q)
unfolding act hear on_event set_index draw
set_index-IsRated a q g =
    let r : Ratings = record (q.ratings) { sent = [] } in
    let h = clamp-InRange q.ratings.count a in
    if_cases (λ (t : Ratings). IsRated (hear t.sent (record q { ratings = t })))
      (int_eqb (clamp q.ratings.count a) q.ratings.value) _ _
      (λ _. record { in_range = g.in_range; kept = g.kept; rated = g.rated })
      (λ _. on_change-IsRated _ h g.rated)

same-IsRated : (q : RatingQuestion) → IsRated q → IsRated (act (λ r. r) q)
unfolding act hear
same-IsRated q g = record { in_range = g.in_range; kept = g.kept; rated = g.rated }

reset_highlight-IsRated : (q : RatingQuestion) → IsRated q → IsRated (act reset_highlight q)
unfolding act hear on_event reset_highlight draw
reset_highlight-IsRated q g = record { in_range = g.in_range; kept = g.kept; rated = g.rated }

-- What becomes of the question when the control becomes `t`.
abbrev Leads : RatingQuestion → Ratings → Type 0
Leads q t = IsRated (hear t.sent (record q { ratings = t }))

clicked-IsRated : (i : Option ℕ) (q : RatingQuestion) → IsRated q → IsRated (act (on_click i) q)
unfolding act on_click
clicked-IsRated none q g = same-IsRated q g
clicked-IsRated (some i) q g =
    if_elim (Leads q) q.ratings.enabled _ _ (set_index-IsRated (pos i) q g) (same-IsRated q g)

pointed_at-IsRated :
    (i : Option ℕ) (q : RatingQuestion) → IsRated q → IsRated (act (on_mouse_over i) q)
unfolding act on_mouse_over hear on_event draw
pointed_at-IsRated none q g = same-IsRated q g
pointed_at-IsRated (some i) q g =
    if_elim (Leads q) (q.ratings.enabled && not (int_eqb q.ratings.highlighted (pos i))) _ _
      (record { in_range = g.in_range; kept = g.kept; rated = g.rated }) (same-IsRated q g)

left_for-IsRated :
    (e : Option Bool) (q : RatingQuestion) → IsRated q → IsRated (act (on_mouse_out e) q)
unfolding act on_mouse_out
left_for-IsRated none q g = same-IsRated q g
left_for-IsRated (some true) q g = same-IsRated q g
left_for-IsRated (some false) q g = reset_highlight-IsRated q g

moved-IsRated :
    (o : Option ℤ) (q : RatingQuestion)
    → IsRated q
    → (let r : Ratings = record (q.ratings) { sent = [] } in
        Leads q (elim o [ none ↦ r | some a ↦ set_index a r ]))
unfolding act
moved-IsRated none q g = same-IsRated q g
moved-IsRated (some a) q g = set_index-IsRated a q g

pressed-IsRated : (code : ℕ) (q : RatingQuestion) → IsRated q → IsRated (act (on_key_down code) q)
unfolding act on_key_down
pressed-IsRated code q g =
    let r : Ratings = record (q.ratings) { sent = [] } in
    if_elim (Leads q) q.ratings.enabled _ _ (moved-IsRated (key_target code r) q g)
      (same-IsRated q g)

on_submit-IsRated : (q : RatingQuestion) → IsRated q → IsRated (on_submit q)
unfolding on_submit
on_submit-IsRated q g =
    if_elim IsRated (q.has_button && q.listened) _ _
      (if_cases IsRated q.pending _ _ (λ e. hand_on-IsRated q (g.kept e) g.in_range g.rated)
        (λ _. record { in_range = g.in_range; kept = g.kept; rated = g.rated }))
      g

step-IsRated : (i : Input) (q : RatingQuestion) → IsRated q → IsRated (step i q)
unfolding step reset
step-IsRated (clicked i) q g = clicked-IsRated i q g
step-IsRated (pointed_at i) q g = pointed_at-IsRated i q g
step-IsRated (left_for e) q g = left_for-IsRated e q g
step-IsRated (pressed code) q g = pressed-IsRated code q g
step-IsRated submitted q g = on_submit-IsRated q g
step-IsRated cleared q g = set_index-IsRated (negsuc 0) q g

-- If it was so before, then whatever is clicked, pointed at, pressed, handed in and cleared, each answer
-- that was handed on is from 1 to the number of stars, and a choice that the button waits with is a star.
pub run-IsRated : (is : List Input) (q : RatingQuestion) → IsRated q → IsRated (run is q)
unfolding run
run-IsRated [] q g = g
run-IsRated (i ∷ is) q g = run-IsRated is (step i q) (step-IsRated i q g)

clamp-none : (count : ℕ) → clamp count (negsuc 0) ≡ negsuc 0
unfolding clamp last_index
clamp-none zero = refl
clamp-none (suc n) = refl

-- Where a star is chosen and the button of the question is listened to, the Escape key takes the choice
-- back, and then a click on the button fails.
pub run-failed :
    (q : RatingQuestion) (n : ℕ)
    → q.ratings.value ≡ pos n
    → q.ratings.enabled ≡ true
    → q.has_button ≡ true
    → q.listened ≡ true
    → (run (pressed 27 ∷ submitted ∷ []) q).failed ≡ true
unfolding run step act hear on_event on_key_down key_target set_index draw on_change on_submit
run-failed q n v e b l = rw e (rw (clamp-none q.ratings.count) (rw v (rw b (rw l refl))))
