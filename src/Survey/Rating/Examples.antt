-- ===== src/Survey/Rating/Examples.antt =====
-- A question with three stars, the second of them chosen.
use demolition_app.Base.{◌≡◌, refl, true, false, some, none, List, [], ◌∷◌, arith}
use demolition_app.Base.Int.{pos, negsuc}
use demolition_app.Prompt.Ratings.{Ratings}
use demolition_app.Prompt.Ratings.Shown.{InRange}
use demolition_app.Survey.Rating.{
  RatingQuestion, Input, clicked, pointed_at, left_for, pressed, submitted, cleared, run,
}
use demolition_app.Survey.Rating.Given.{IsRated, run-IsRated, run-failed}

abbrev three_stars : Ratings
three_stars = record {
  count = 3;
  value = pos 1;
  highlighted = negsuc 0;
  enabled = true;
  stars = [];
  select_box = none;
  sent = [];
}

abbrev chosen : RatingQuestion
chosen = record {
  ratings = three_stars;
  has_button = true;
  listened = true;
  pending = true;
  answers = [];
  failed = false;
}

chosen-IsRated : IsRated chosen
unfolding InRange
chosen-IsRated = record { in_range = omega arith; kept = λ _. omega arith; rated = tt }

abbrev inputs : List Input
inputs =
    submitted
    ∷ pointed_at (some 2)
    ∷ clicked (some 2)
    ∷ left_for (some false)
    ∷ submitted
    ∷ pressed 27
    ∷ submitted
    ∷ pressed 49
    ∷ submitted
    ∷ cleared
    ∷ []

run-IsRated_example : IsRated (run inputs chosen)
run-IsRated_example = run-IsRated inputs chosen chosen-IsRated

run-failed_example : (run (pressed 27 ∷ submitted ∷ []) chosen).failed ≡ true
run-failed_example = run-failed chosen 1 refl refl refl refl
