-- ===== src/Survey/Choice/Examples.antt =====
-- Two rows and a field.
use demolition_app.Base.{Bool, true, false, List, [], ◌∷◌}
use demolition_app.Survey.TextField.{Text, is_answer}
use demolition_app.Survey.Choice.{Choice}
use demolition_app.Survey.Choice.Chosen.{Input, pick, typed, cleared, next, submitted}

abbrev question : Choice
question = record {
  has_next = true;
  modern = false;
  has_other = true;
  rows = false ∷ false ∷ [];
  rows_enabled = true;
  other_selected = false;
  text = [];
  next_disabled = true;
  took_other = false;
  handed = [];
}

abbrev accepts : Bool → Text → Bool
accepts modern text = is_answer text modern

abbrev inputs : List Input
inputs = next ∷ pick 1 ∷ typed (65 ∷ []) ∷ next ∷ cleared ∷ pick 0 ∷ next ∷ submitted ∷ []
