-- ===== src/Prompt/LabelInput/Examples.antt =====
-- A field that is filled in and left.
use demolition_app.Base.{true, false, none, List, [], ◌∷◌}
use demolition_app.Prompt.LabelInput.{Browser, LabelInput}
use demolition_app.Prompt.LabelInput.Value.{Input, focus, blur, submit, resets, restores}

abbrev old_browser : Browser
old_browser = record { placeholders = false; explorer = false }

abbrev field : LabelInput
field = record {
  value = "Search";
  placeholder = "";
  disabled = false;
  label = "Search";
  focused = false;
  before_esc = none;
  labelled = true;
  clears = 0;
  restores = 1;
  resets = 0;
}

abbrev inputs : List Input
inputs = focus ∷ blur ∷ submit ∷ restores ∷ resets ∷ []
