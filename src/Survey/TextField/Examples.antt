-- ===== src/Survey/TextField/Examples.antt =====
-- What the user does with a field.
use demolition_app.Base.{Bool, true, false, List, [], ◌∷◌}
use demolition_app.Survey.TextField.{Text, TextField, is_answer}
use demolition_app.Survey.TextField.Enabled.{Input, typed, key, focused, clicked, skips}

abbrev field : TextField
field = record {
  text = [];
  has_button = true;
  modern = false;
  enabled = true;
  is_area = false;
  skips_blank = false;
  has_text = false;
  events = [];
}

abbrev accepts : Text → Bool
accepts text = is_answer text false

abbrev inputs : List Input
inputs = focused ∷ clicked ∷ typed (46 ∷ []) ∷ key 13 ∷ typed (46 ∷ 65 ∷ []) ∷ key 13 ∷ skips ∷ []
