-- ===== src/Survey/DropDown/Examples.antt =====
-- A menu that is opened, used and closed.
use demolition_app.Base.{true, false, none, List, [], ◌∷◌, arith}
use demolition_app.Survey.DropDown.{DropDown, Input, entered, toggled, picked, submitted}
use demolition_app.Survey.DropDown.Opening.{HasRow}

abbrev menu : DropDown
menu = record {
  opened = false;
  enabled = true;
  chosen = none;
  last_opened = 0;
  has_button = true;
  button_disabled = true;
  answers = [];
}

menu-HasRow : HasRow menu
menu-HasRow = record { ready = λ e. ground (arith, e); rows = tt }

abbrev inputs : List Input
inputs =
    submitted
    ∷ entered 1000
    ∷ toggled false 1200
    ∷ picked 2
    ∷ toggled false 1600
    ∷ submitted
    ∷ toggled true 2000
    ∷ []
