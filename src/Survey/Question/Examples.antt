-- ===== src/Survey/Question/Examples.antt =====
-- Answers to questions.
use demolition_app.Base.{◌≢◌, ◌↔◌, Bool, true, false, String, none, List, [], ◌∷◌}
use demolition_app.Survey.Question.{Question, one, failed_threshold, fails_select, verdict}
use demolition_app.Survey.Question.Verdict.{Attempt, Passes, verdict-Passes}

abbrev question : Question
question = record {
  type = "multi";
  answers = "Red" ∷ "Blue" ∷ [];
  threshold = "Blue" ∷ [];
  truth = "";
  fresh = true;
  allow_warning = true;
  shown_at = 1000;
  decided_after = none;
  warned_after = none;
  given = none;
  index = none;
  events = [];
}

abbrev plain : String → Bool
plain text = false

abbrev attempts : List Attempt
attempts =
    record { now = 1200; value = one "Red"; index = one "0" }
    ∷ record { now = 3000; value = one "Red"; index = one "0" }
    ∷ record { now = 4000; value = one "Blue"; index = one "1" }
    ∷ []

verdict-Passes_example :
    (verdict plain fails_select question ("Red" ∷ []) ≢ failed_threshold)
    ↔ Passes question.threshold ("Red" ∷ [])
verdict-Passes_example = verdict-Passes plain question ("Red" ∷ [])
